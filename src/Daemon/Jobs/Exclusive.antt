-- ===== src/Daemon/Jobs/Exclusive.antt =====
-- The registry runs at most one job per set.
use linuxreflect.Base.{
  ℕ, ◌≡◌, ◌≢◌, sym, subst, ◌∙◌, false, none, some, List, [], ◌∷◌, map, All, All-map_of, Bool-cases,
  inl, inr,
}
use linuxreflect.Base.Assoc.{lookup, upsert, Pairwise, All-upsert, All-lookup, eq_bytes-cases}
use linuxreflect.Format.Wire.{Bytes}
use linuxreflect.Daemon.Job.{Entry, is_active}
use linuxreflect.Daemon.Jobs.{Jobs, new, new_entry, ask_to_stop, holds_set, holder_of}
use linuxreflect.Daemon.Jobs.Steps.{
  Reach, here, next, Change, entered, replaced, asked, closed, Step-Change, IsActive, Apart,
  OneJobPerSet,
}

abbrev ApartFrom : Bytes → Entry → Bytes × Entry → Type 0
ApartFrom k v x = x.0 ≢ k → Apart x (k, v)

Apart-sym : (x y : Bytes × Entry) → Apart x y → Apart y x
Apart-sym (i, e) (j, f) (d, g) = (λ p. d (sym p), λ a b p. g b a (sym p))

-- An entry that stands apart from all that have another key may be inserted.
Pairwise-upsert :
    (k : Bytes) (v : Entry) (es : List (Bytes × Entry))
    → All (ApartFrom k v) es
    → Pairwise Apart es
    → Pairwise Apart (upsert k v es)
Pairwise-upsert k v [] h p = (tt, tt)
Pairwise-upsert k v ((j, w) ∷ rest) (g, h) (a, p) =
    let later = Pairwise-upsert k v rest h p in
    elim (eq_bytes-cases j k) [
      | inl (e, same) ↦
          let others : All (λ x. k ≢ x.0) rest =
            All-map_of (λ x (b : Apart (j, w) x). λ q. b.0 (same ∙ q)) rest a in
          rw e (apart_of rest others h, p)
      | inr (e, other) ↦ rw e (All-upsert (Apart (j, w)) k v rest (g other) a, later)
    ]
  where
    apart_of :
        (xs : List (Bytes × Entry))
        → All (λ x. k ≢ x.0) xs
        → All (ApartFrom k v) xs
        → All (Apart (k, v)) xs
    apart_of [] n h = tt
    apart_of (x ∷ xs) (d, n) (g, h) = (Apart-sym x (k, v) (g (λ q. d (sym q))), apart_of xs n h)

-- The entry found under a key stands apart from the others.
lookup-ApartFrom :
    (k : Bytes) (v : Entry) (es : List (Bytes × Entry))
    → lookup k es ≡ some v
    → Pairwise Apart es
    → All (ApartFrom k v) es
lookup-ApartFrom k v [] h p = tt
lookup-ApartFrom k v ((j, w) ∷ rest) h (a, p) = elim (eq_bytes-cases j k) [
  | inl (e, same) ↦
      let found : some w ≡ some v = rw e at h in
      let value : w ≡ v = cc in
      let apart : All (Apart (k, v)) rest =
        subst (λ c. All (Apart (c, v)) rest) same (subst (λ c. All (Apart (j, c)) rest) value a) in
      (
        λ d. absurd (d same),
        All-map_of (λ x (b : Apart (k, v) x). λ d. Apart-sym (k, v) x b) rest apart,
      )
  | inr (e, other) ↦
      let deeper : lookup k rest ≡ some v = rw e at h in
      let here_apart : ApartFrom k v (j, w) = λ d. All-lookup (Apart (j, w)) k v rest deeper a in
      (here_apart, lookup-ApartFrom k v rest deeper p)
]

-- An entry may be replaced by one of the same set that is not more active.
ApartFrom-replaced :
    (k : Bytes) (v v' : Entry) (es : List (Bytes × Entry))
    → v'.set ≡ v.set
    → (IsActive v' → IsActive v)
    → All (ApartFrom k v) es
    → All (ApartFrom k v') es
ApartFrom-replaced k v v' es same less =
    All-map_of (λ x (b : ApartFrom k v x). λ d. ((b d).0, λ f g q. (b d).1 f (less g) (q ∙ same)))
      es

-- When no other active job holds the set, a new job of the set stands apart from all others.
new_entry-ApartFrom :
    (id set : Bytes) (owner : ℕ) (es : List (Bytes × Entry))
    → holder_of id set es ≡ none
    → All (ApartFrom id (new_entry set owner)) es
new_entry-ApartFrom id set owner [] h = tt
new_entry-ApartFrom id set owner (x ∷ es) h = elim (Bool-cases (holds_set id set x)) [
  | inl e ↦ let k = rw e at h in absurd (cc)
  | inr e ↦
      let k : holder_of id set es ≡ none = rw e at h in
      (apart e, new_entry-ApartFrom id set owner es k)
]
  where
    apart : holds_set id set x ≡ false → ApartFrom id (new_entry set owner) x
    apart e d = (
      d,
      λ f g q. elim (eq_bytes-cases x.0 id) [
        | inl (i, same) ↦ d same
        | inr (i, other) ↦ elim (eq_bytes-cases x.1.set set) [
          | inl (j, same_set) ↦ let k = rw (i, j, f) at e in cc
          | inr (j, other_set) ↦ other_set q
        ]
      ],
    )

ask_to_stop-Apart : (x y : Bytes × Entry) → Apart x y → Apart (ask_to_stop x) (ask_to_stop y)
ask_to_stop-Apart (i, e) (j, f) h = elim (Bool-cases (is_active e.state)) [
  | inl a ↦ elim (Bool-cases (is_active f.state)) [ inl b ↦ rw (a, b) h | inr b ↦ rw (a, b) h ]
  | inr a ↦ elim (Bool-cases (is_active f.state)) [ inl b ↦ rw (a, b) h | inr b ↦ rw (a, b) h ]
]

All-ask_to_stop :
    (x : Bytes × Entry) (es : List (Bytes × Entry))
    → All (Apart x) es
    → All (Apart (ask_to_stop x)) (map ask_to_stop es)
All-ask_to_stop x [] h = tt
All-ask_to_stop x (y ∷ es) (a, h) = (ask_to_stop-Apart x y a, All-ask_to_stop x es h)

Pairwise-ask_to_stop :
    (es : List (Bytes × Entry)) → Pairwise Apart es → Pairwise Apart (map ask_to_stop es)
Pairwise-ask_to_stop [] h = tt
Pairwise-ask_to_stop (x ∷ es) (a, h) = (All-ask_to_stop x es a, Pairwise-ask_to_stop es h)

pub Change-OneJobPerSet : (s t : Jobs) → Change s t → OneJobPerSet s → OneJobPerSet t
unfolding OneJobPerSet
Change-OneJobPerSet s t (entered id set owner admits free e d) h = rw e (
    Pairwise-upsert id (new_entry set owner) s.entries
      (new_entry-ApartFrom id set owner s.entries free) h)
Change-OneJobPerSet s t (replaced id v v' found e same less d) h = rw e (
    Pairwise-upsert id v' s.entries
      (ApartFrom-replaced id v v' s.entries same less (lookup-ApartFrom id v s.entries found h)) h)
Change-OneJobPerSet s t (asked e d) h = rw e (Pairwise-ask_to_stop s.entries h)
Change-OneJobPerSet s t (closed e d) h = rw e h

-- Whatever clients and engine do, one operation after another from an empty registry, no identifier
-- stands twice in the registry, and no two pending or running jobs work on one set.
pub Reach-OneJobPerSet : {t : Jobs} → Reach new t → OneJobPerSet t
Reach-OneJobPerSet here = unfold OneJobPerSet in tt
Reach-OneJobPerSet (next r step) = Change-OneJobPerSet _ _ (Step-Change step) (Reach-OneJobPerSet r)
