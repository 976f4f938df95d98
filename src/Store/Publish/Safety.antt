-- ===== src/Store/Publish/Safety.antt =====
-- What publication leaves on the server, whatever replies are lost.
use linuxreflect.Base.{
  ℕ, zero, suc, ◌≡◌, ◌≢◌, ◌⊎◌, inl, inr, refl, sym, ap, ◌∙◌, Bool, true, not, ◌&&◌, Option, none,
  some, length, ◌==◌, ==_iff, ltb, Bool-cases,
}
use linuxreflect.Format.Wire.{Bytes}
use linuxreflect.Store.Remote.{
  Fault, Reply, replied, failed, Remote, RemoteOps, ◌>>=◌, size_of, Kept, IsRemote,
}
use linuxreflect.Store.Publish.{
  Verdict, settled, again, broken, judge, judge_retry, act_on, end_round, reconcile, renamed_with,
}

pub Reply-cases :
    {A : Type 0} (r : Reply A) → ((a : A) × (r ≡ replied a)) ⊎ ((e : Fault) × (r ≡ failed e))
Reply-cases (replied a) = inl (a, refl)
Reply-cases (failed e) = inr (e, refl)

Verdict-cases : (v : Verdict) → (v ≡ settled) ⊎ ((v ≡ again) ⊎ ((e : Fault) × (v ≡ broken e)))
Verdict-cases settled = inl refl
Verdict-cases again = inr (inl refl)
Verdict-cases (broken e) = inr (inr (e, refl))

judge_retry-settled : (fault : Fault) (more : Bool) → judge_retry fault more ≢ settled
judge_retry-settled fault more h = elim (Bool-cases (fault.is_transient && more)) [
  | inl e ↦ let k = rw e at h in cc
  | inr e ↦ let k = rw e at h in cc
]

-- A failed attempt counts as done only when the source is gone and the target has the size expected.
judge-settled :
    (fault : Fault) (expected : ℕ) (more : Bool) (x y : Option ℕ)
    → judge fault expected more x y ≡ settled
    → (x ≡ none) × (y ≡ some expected)
unfolding judge
judge-settled fault expected more none (some size) h = elim (Bool-cases (size == expected)) [
  | inl e ↦ (refl, ap some ((==_iff size expected).0 e))
  | inr e ↦ let k = rw e at h in absurd (cc)
]
judge-settled fault expected more none none h = absurd (cc)
judge-settled fault expected more (some x) (some y) h = elim (Bool-cases (not fault.is_transient)) [
  | inl e ↦ let k = rw e at h in absurd (cc)
  | inr e ↦ absurd (judge_retry-settled fault more (rw e at h))
]
judge-settled fault expected more (some x) none h = absurd (judge_retry-settled fault more h)

size_of-none : (content : Option Bytes) → none ≡ size_of content → content ≡ none
size_of-none none h = refl
size_of-none (some b) h = absurd (cc)

size_of-some :
    (content : Option Bytes) (n : ℕ)
    → some n ≡ size_of content
    → (b : Bytes) × (content ≡ some b) × (length b ≡ n)
size_of-some none n h = absurd (cc)
size_of-some (some b) n h = (b, refl, cc)

module _ {S : Type 0} (ops : RemoteOps S) (files : S → Bytes → Option Bytes)
    (law : IsRemote ops files) (from to : Bytes) (Inv : Option Bytes → Option Bytes → Type 0)
    (Post : Bool → Option Bytes → Option Bytes → Type 0) (expected : ℕ)
    (settle : (b : Bytes) → Inv none (some b) → length b ≡ expected → Post true none (some b)) where
  abbrev pub InvAt : S → Type 0
  InvAt s = Inv (files s from) (files s to)

  -- The invariant holds afterwards, and where the step answers, what it answers holds.
  abbrev pub Leaves : Reply Bool × S → Type 0
  Leaves r = InvAt r.1 × ((b : Bool) → r.0 ≡ replied b → Post b (files r.1 from) (files r.1 to))

  InvAt-Kept : (s t : S) → Kept files s t → InvAt s → InvAt t
  InvAt-Kept s t k h = rw (k from, k to) h

  fails : (e : Fault) (s : S) → InvAt s → Leaves (failed e, s)
  fails e s h = (h, λ b k. absurd (cc))

  judged :
      (verdict : Verdict) (rest : Remote S Bool) (x y : Option ℕ) (s : S)
      → (verdict ≡ settled → (x ≡ none) × (y ≡ some expected))
      → x ≡ size_of (files s from)
      → y ≡ size_of (files s to)
      → InvAt s
      → Leaves (rest s)
      → Leaves (act_on ops verdict rest s)
  judged again rest x y s v f g h r = r
  judged (broken e) rest x y s v f g h r = fails e s h
  judged settled rest x y s v f g h r =
      let (gone, there) = v refl in
      let empty = size_of-none (files s from) (sym gone ∙ f) in
      let (b, content, fits) = size_of-some (files s to) expected (sym there ∙ g) in
      let h' : Inv none (some b) = rw (empty, content) at h in
      (h, λ c k. let c' : true ≡ c = cc in rw (sym c', empty, content) (settle b h' fits))

  reconcile-Leaves :
      (more : Bool) (fault : Fault) (rest : Remote S Bool) (s : S)
      → InvAt s
      → ((t : S) → InvAt t → Leaves (rest t))
      → Leaves (reconcile ops from to expected more fault rest s)
  reconcile-Leaves more fault rest s h r = elim (Reply-cases (ops.size from s).0) [
    | inr (e, k) ↦ rw (k, ◌>>=◌) (fails e s1 h1)
    | inl (x, k) ↦ elim (Reply-cases (ops.size to s1).0) [
      | inr (e, l) ↦ rw (k, ◌>>=◌, l) (fails e s2 h2)
      | inl (y, l) ↦
          let f =
            law.size_tells from s x k
            ∙ ap size_of (sym (kept1 from))
            ∙ ap size_of (sym (kept2 from)) in
          let g = law.size_tells to s1 y l ∙ ap size_of (sym (kept2 to)) in
          rw (k, ◌>>=◌, l)
            (judged (judge fault expected more x y) rest x y s2
              (judge-settled fault expected more x y) f g h2 (r s2 h2))
    ]
  ]
    where
      s1 : S
      s1 = (ops.size from s).1

      s2 : S
      s2 = (ops.size to s1).1

      kept1 : Kept files s s1
      kept1 = law.size_keeps from s

      kept2 : Kept files s1 s2
      kept2 = law.size_keeps to s1

      h1 : InvAt s1
      h1 = InvAt-Kept s s1 kept1 h

      h2 : InvAt s2
      h2 = InvAt-Kept s1 s2 kept2 h1

  end_round-Leaves :
      (more : Bool) (rest : Remote S Bool)
      → ((t : S) → InvAt t → Leaves (rest t))
      → (r : Reply Bool × S) → Leaves r
      → Leaves (end_round ops from to expected more rest r)
  end_round-Leaves more rest after (replied b, s) h = h
  end_round-Leaves more rest after (failed fault, s) h =
      reconcile-Leaves more fault rest s h.0 after

  -- The loop keeps what each attempt keeps, and answers only what an attempt or a settlement gives.
  pub renamed_with-Leaves :
      (attempt : Remote S Bool)
      → ((s : S) → InvAt s → Leaves (attempt s))
      → (rounds : ℕ) (s : S) → InvAt s
      → Leaves (renamed_with ops from to expected rounds attempt s)
  unfolding renamed_with
  renamed_with-Leaves attempt a zero s h = fails _ s h
  renamed_with-Leaves attempt a (suc left) s h =
      end_round-Leaves (ltb 0 left) (renamed_with ops from to expected left attempt)
        (renamed_with-Leaves attempt a left) (attempt s) (a s h)
