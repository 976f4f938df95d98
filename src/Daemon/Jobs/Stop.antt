-- ===== src/Daemon/Jobs/Stop.antt =====
-- How a stopping daemon comes to its end.
use linuxreflect.Base.{
  ℕ, zero, suc, ◌+◌, ◌-◌, ◌≤◌, ◌≡◌, refl, sym, ◌∙◌, true, false, some, List, [], ◌∷◌, eq_bytes,
  eq_bytes_refl, Bool-cases, inl, inr, arith,
}
use linuxreflect.Base.Assoc.{lookup, upsert, All-lookup, Pairwise, eq_bytes-cases}
use linuxreflect.Base.Result.{Result, ok}
use linuxreflect.Format.Wire.{Bytes}
use linuxreflect.Daemon.Job.{Entry, JobSnapshot, is_active}
use linuxreflect.Daemon.Jobs.{Jobs, active, count_active, finish, finished_entry, conclude}
use linuxreflect.Daemon.Jobs.Steps.{
  finishes, Step-Change, Apart, OneJobPerSet, conclude-entries, finished_entry-inactive,
}
use linuxreflect.Daemon.Jobs.Exclusive.{Change-OneJobPerSet}

-- The end of one pending or running job lowers their number by one.
ended-count :
    (k : Bytes) (v v' : Entry) (es : List (Bytes × Entry))
    → lookup k es ≡ some v
    → is_active v.state ≡ true
    → is_active v'.state ≡ false
    → suc (count_active (upsert k v' es)) ≡ count_active es
ended-count k v v' [] h a b = absurd (cc)
ended-count k v v' ((j, w) ∷ rest) h a b = elim (Bool-cases (eq_bytes j k)) [
  | inl e ↦
      let found : some w ≡ some v = rw e at h in let value : w ≡ v = cc in rw (e, value, a, b) refl
  | inr e ↦
      let deeper = ended-count k v v' rest (rw e at h) a b in
      rw e (elim (Bool-cases (is_active w.state)) [
        | inl c ↦ rw c (omega (arith, deeper))
        | inr c ↦ rw c deeper
      ])
]

-- While the number of active jobs is not 0, one of them is found.
some_active :
    (es : List (Bytes × Entry)) (n : ℕ)
    → Pairwise Apart es
    → count_active es ≡ suc n
    → (id : Bytes) × (e : Entry) × (lookup id es ≡ some e) × (is_active e.state ≡ true)
some_active [] n p h = absurd (omega arith)
some_active ((j, w) ∷ rest) n (apart, p) h = elim (Bool-cases (is_active w.state)) [
  | inl a ↦ (j, w, rw (eq_bytes_refl j) refl, a)
  | inr a ↦
      let (id, e, found, b) = some_active rest n p (rw a at h) in
      elim (eq_bytes-cases j id) [
        | inl (f, same) ↦ absurd ((All-lookup (Apart (j, w)) id e rest found apart).0 same)
        | inr (f, other) ↦ (id, e, rw f found, b)
      ]
]

some-active_job :
    (s : Jobs) (n : ℕ)
    → OneJobPerSet s
    → active s ≡ suc n
    → (id : Bytes) × (e : Entry) × (lookup id s.entries ≡ some e) × (is_active e.state ≡ true)
unfolding OneJobPerSet active
some-active_job s n p h = some_active s.entries n p h

-- A run in which `n` jobs, each pending or running until then, end one after another, each with the
-- outcome that is given for it.
pub data Ends (outcome : Bytes → Result Bytes) (s : Jobs) : ℕ → Jobs → Type 0 where
  none_ends : Ends outcome s 0 s
  one_ends :
      {n : ℕ} {t u : Jobs} (id : Bytes) (e : Entry) (snap : JobSnapshot)
      → Ends outcome s n t
      → lookup id t.entries ≡ some e
      → is_active e.state ≡ true
      → finish t id (outcome id) ≡ ok (snap, u)
      → Ends outcome s (suc n) u

finish_known :
    (s : Jobs) (id : Bytes) (e : Entry) (outcome : Result Bytes)
    → lookup id s.entries ≡ some e
    → finish s id outcome ≡ ok (conclude s id (finished_entry e outcome))
unfolding finish
finish_known s id e outcome h = rw h refl

finish-active :
    (s t : Jobs) (id : Bytes) (e : Entry) (outcome : Result Bytes) (snap : JobSnapshot)
    → lookup id s.entries ≡ some e
    → is_active e.state ≡ true
    → finish s id outcome ≡ ok (snap, t)
    → suc (active t) ≡ active s
unfolding active
finish-active s t id e outcome snap found a h =
    let e' = finished_entry e outcome in
    let k = sym (finish_known s id e outcome found) ∙ h in
    let after : (conclude s id e').1 ≡ t = cc in
    let (entries, draining) = conclude-entries s id e' in
    rw (sym after, entries)
      (ended-count id e e' s.entries found a (finished_entry-inactive e outcome))

Ends-active :
    (outcome : Bytes → Result Bytes) (s : Jobs) {n : ℕ} {t : Jobs}
    → Ends outcome s n t
    → n + active t ≡ active s
Ends-active outcome s none_ends = omega arith
Ends-active outcome s (one_ends id e snap r found a h) =
    let before = Ends-active outcome s r in
    let one = finish-active _ _ id e (outcome id) snap found a h in omega (arith, before, one)

run :
    (outcome : Bytes → Result Bytes) (s : Jobs) (k : ℕ)
    → OneJobPerSet s
    → k ≤ active s
    → (t : Jobs) × Ends outcome s k t × OneJobPerSet t
run outcome s zero h l = (s, none_ends, h)
run outcome s (suc k) h l =
    let (t, r, h') = run outcome s k h (omega arith) in
    let left = Ends-active outcome s r in
    let some_left : active t ≡ suc (active t - 1) = omega (arith, left, l) in
    let (id, e, found, a) = some-active_job t (active t - 1) h' some_left in
    let (snap, u) = conclude t id (finished_entry e (outcome id)) in
    let done = finish_known t id e (outcome id) found in
    (
      u,
      one_ends id e snap r found a done,
      Change-OneJobPerSet t u (Step-Change (finishes id (outcome id) snap done)) h',
    )

-- In a registry in which no identifier stands twice and no two active jobs have one set, and for any
-- outcomes given for the jobs: with every pending or running job that ends with its outcome there is
-- one of them less, so that never more end than there are; and all of them can end, one after another,
-- each with the outcome that is given for it, after which none is left.
pub finish-Ends :
    (outcome : Bytes → Result Bytes) (s : Jobs)
    → OneJobPerSet s
    → ((n : ℕ) (t : Jobs) → Ends outcome s n t → n + active t ≡ active s)
      × (t : Jobs) × Ends outcome s (active s) t
      × (active t ≡ 0)
finish-Ends outcome s h =
    let (t, r, h') = run outcome s (active s) h (omega arith) in
    let left = Ends-active outcome s r in (λ n t. Ends-active outcome s, t, r, omega (arith, left))
