-- ===== src/Engine/ChainWalk/Merged.antt =====
-- crates/lr-engine/src/chain.rs: walking many cursors chunk by chunk, beside walks of one.
use linuxreflect.Base.{ℕ, suc, ◌≡◌, refl, ◌∙◌, sym, subst, ap, List, [], ◌∷◌}
use linuxreflect.Base.Result.{Result, ok, err, ◌>>=◌}
use linuxreflect.Format.Manifest.Delta.{ChunkState}
use linuxreflect.Engine.Chain.{Cursor, state_at}
use linuxreflect.Engine.Chain.Walk.{walk}
use linuxreflect.Engine.ChainWalk.{merge_chunk, merge_chunks}

-- A step whose result is known to succeed succeeded, and so did what followed it.
pub bind_ok :
    {A B : Type 0} (r : Result A) (f : A → Result B) (b : B)
    → (r >>= f) ≡ ok b
    → (a : A) × (r ≡ ok a) × (f a ≡ ok b)
bind_ok (ok a) f b h = (a, refl, h)
bind_ok (err e) f b h = absurd (cc)

unfoldable value_or : {A : Type 0} → A → Result A → A
value_or d (ok a) = a
value_or d (err e) = d

-- What a result that is known to succeed holds.
pub ok_value : {A : Type 0} (a b : A) → ok a ≡ ok b → a ≡ b
unfolding value_or
ok_value a b h = ap (value_or a) h

-- What a walk over a first chunk and the ones after it did.
walk-cons_steps :
    (c c' : Cursor) (index : ℕ) (x : ChunkState) (xs ys : List ChunkState)
    → walk c index (x ∷ xs) ≡ ok (ys, c')
    → (y : ChunkState) × (c1 : Cursor) × (ys' : List ChunkState) × (state_at c index x ≡ ok (y, c1))
      × (walk c1 (suc index) xs ≡ ok (ys', c'))
      × (ys ≡ y ∷ ys')
unfolding walk
walk-cons_steps c c' index x xs ys w =
    let ((y, c1), e1, w1) = bind_ok (state_at c index x) _ (ys, c') w in
    let ((ys', c2), e2, w2) = bind_ok (walk c1 (suc index) xs) _ (ys, c') w1 in
    let same : (y ∷ ys', c2) ≡ (ys, c') = ok_value (y ∷ ys', c2) (ys, c') w2 in
    let last : c2 ≡ c' = ap (λ p. p.1) same in
    let states : ys ≡ y ∷ ys' = sym (ap (λ p. p.0) same) in
    (y, c1, ys', e1, e2 ∙ ap (λ c3. ok (ys', c3)) last, states)

merge_chunks-cons_steps :
    (cs cs' : List Cursor) (index : ℕ) (y : ChunkState) (ys zs : List ChunkState)
    → merge_chunks cs index (y ∷ ys) ≡ ok (zs, cs')
    → (z : ChunkState) × (cs1 : List Cursor) × (zs' : List ChunkState) × (merge_chunk cs index y
        ≡ ok (z, cs1))
      × (merge_chunks cs1 (suc index) ys ≡ ok (zs', cs'))
      × (zs ≡ z ∷ zs')
unfolding merge_chunks
merge_chunks-cons_steps cs cs' index y ys zs m =
    let ((z, cs1), e1, m1) = bind_ok (merge_chunk cs index y) _ (zs, cs') m in
    let ((zs', cs2), e2, m2) = bind_ok (merge_chunks cs1 (suc index) ys) _ (zs, cs') m1 in
    let same : (z ∷ zs', cs2) ≡ (zs, cs') = ok_value (z ∷ zs', cs2) (zs, cs') m2 in
    let last : cs2 ≡ cs' = ap (λ p. p.1) same in
    let states : zs ≡ z ∷ zs' = sym (ap (λ p. p.0) same) in
    (z, cs1, zs', e1, e2 ∙ ap (λ cs3. ok (zs', cs3)) last, states)

-- One chunk through a cursor and then the others.
merge_chunks-next :
    (c c1 c' : Cursor) (cs cs1 cs' : List Cursor) (index : ℕ) (x y z : ChunkState)
    (xs zs : List ChunkState)
    → state_at c index x ≡ ok (y, c1)
    → merge_chunk cs index y ≡ ok (z, cs1)
    → merge_chunks (c1 ∷ cs1) (suc index) xs ≡ ok (zs, c' ∷ cs')
    → merge_chunks (c ∷ cs) index (x ∷ xs) ≡ ok (z ∷ zs, c' ∷ cs')
unfolding merge_chunks merge_chunk
merge_chunks-next c c1 c' cs cs1 cs' index x y z xs zs e m rest = rw (e, ◌>>=◌, m, ◌>>=◌, rest)

walk-none : (c : Cursor) (index : ℕ) → walk c index [] ≡ ok ([], c)
unfolding walk
walk-none c index = refl

pub merge_chunks-all : (cs : List Cursor) (index : ℕ) → merge_chunks cs index [] ≡ ok ([], cs)
unfolding merge_chunks
merge_chunks-all cs index = refl

-- Walking one cursor over all chunks and then the others is walking all of them over each chunk.
pub merge_chunks-walk :
    (c c' : Cursor) (cs cs' : List Cursor) (index : ℕ) (xs ys zs : List ChunkState)
    → walk c index xs ≡ ok (ys, c')
    → merge_chunks cs index ys ≡ ok (zs, cs')
    → merge_chunks (c ∷ cs) index xs ≡ ok (zs, c' ∷ cs')
merge_chunks-walk c c' cs cs' index [] ys zs w m =
    let same : ([], c) ≡ (ys, c') = ok_value ([], c) (ys, c') (sym (walk-none c index) ∙ w) in
    let states : ys ≡ [] = sym (ap (λ p. p.0) same) in
    let last : c ≡ c' = ap (λ p. p.1) same in
    let start : merge_chunks cs index [] ≡ ok (zs, cs') =
      subst (λ us. merge_chunks cs index us ≡ ok (zs, cs')) states m in
    let others : ([], cs) ≡ (zs, cs') =
      ok_value ([], cs) (zs, cs') (sym (merge_chunks-all cs index) ∙ start) in
    merge_chunks-all (c ∷ cs) index
    ∙ ap (λ (p : List ChunkState × List Cursor). ok (p.0, c ∷ p.1)) others
    ∙ ap (λ c1. ok (zs, c1 ∷ cs')) last
merge_chunks-walk c c' cs cs' index (x ∷ xs) ys zs w m =
    let (y, c1, ys', e, w1, states) = walk-cons_steps c c' index x xs ys w in
    let start : merge_chunks cs index (y ∷ ys') ≡ ok (zs, cs') =
      subst (λ us. merge_chunks cs index us ≡ ok (zs, cs')) states m in
    let (z, cs1, zs', f, m1, out) = merge_chunks-cons_steps cs cs' index y ys' zs start in
    let rest = merge_chunks-walk c1 c' cs1 cs' (suc index) xs ys' zs' w1 m1 in
    subst (λ us. merge_chunks (c ∷ cs) index (x ∷ xs) ≡ ok (us, c' ∷ cs')) (sym out)
      (merge_chunks-next c c1 c' cs cs1 cs' index x y z xs zs' e f rest)
