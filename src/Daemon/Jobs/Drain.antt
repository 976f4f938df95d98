-- ===== src/Daemon/Jobs/Drain.antt =====
-- What happens to the registry of a stopping daemon.
use linuxreflect.Base.{
  ℕ, ◌≤◌, ◌≡◌, refl, sym, subst, ◌∙◌, true, some, List, [], ◌∷◌, map, All, eq_bytes, Bool-cases,
  inl, inr, arith,
}
use linuxreflect.Base.Assoc.{lookup, upsert, All-upsert, All-lookup}
use linuxreflect.Base.Result.{err, target_busy}
use linuxreflect.Format.Wire.{Bytes}
use linuxreflect.Daemon.Job.{Entry, is_active}
use linuxreflect.Daemon.Jobs.{Jobs, ask_to_stop, active, count_active, register_for, begin_drain}
use linuxreflect.Daemon.Jobs.Steps.{
  Reach, here, next, Change, entered, replaced, asked, closed, Step-Change, IsActive,
}

-- Every pending or running job of the registry is one of these, by its identifier and its set.
abbrev pub ActiveAre : (Bytes → Bytes → Type 0) → List (Bytes × Entry) → Type 0
ActiveAre P es = All (λ e. IsActive e.1 → P e.0 e.1.set) es

-- An entry that takes the place of one that is as active does not raise the number of active ones.
replaced-count :
    (k : Bytes) (v v' : Entry) (es : List (Bytes × Entry))
    → lookup k es ≡ some v
    → (IsActive v' → IsActive v)
    → count_active (upsert k v' es) ≤ count_active es
replaced-count k v v' [] h less = absurd (cc)
replaced-count k v v' ((j, w) ∷ rest) h less = elim (Bool-cases (eq_bytes j k)) [
  | inl e ↦
      let found : some w ≡ some v = rw e at h in
      let value : w ≡ v = cc in
      rw (e, value)
        (elim (Bool-cases (is_active v'.state)) [
          | inl a ↦ rw (a, less a) (omega arith)
          | inr a ↦ elim (Bool-cases (is_active v.state)) [
            | inl b ↦ rw (a, b) (omega arith)
            | inr b ↦ rw (a, b) (omega arith)
          ]
        ])
  | inr e ↦
      let deeper = replaced-count k v v' rest (rw e at h) less in
      rw e (elim (Bool-cases (is_active w.state)) [
        | inl a ↦ rw a (omega (arith, deeper))
        | inr a ↦ rw a deeper
      ])
]

ask_to_stop-state : (x : Bytes × Entry) → (ask_to_stop x).1.state ≡ x.1.state
ask_to_stop-state (i, e) = elim (Bool-cases (is_active e.state)) [
  | inl a ↦ rw a refl
  | inr a ↦ rw a refl
]

ask_to_stop-set : (x : Bytes × Entry) → (ask_to_stop x).1.set ≡ x.1.set
ask_to_stop-set (i, e) = elim (Bool-cases (is_active e.state)) [
  | inl a ↦ rw a refl
  | inr a ↦ rw a refl
]

asked-count : (es : List (Bytes × Entry)) → count_active (map ask_to_stop es) ≡ count_active es
asked-count [] = refl
asked-count (x ∷ es) =
    let rest = asked-count es in
    let same = ask_to_stop-state x in
    elim (Bool-cases (is_active x.1.state)) [
      | inl a ↦ rw (same, a) (omega (arith, rest))
      | inr a ↦ rw (same, a) rest
    ]

asked-ActiveAre :
    (P : Bytes → Bytes → Type 0) (es : List (Bytes × Entry))
    → ActiveAre P es
    → ActiveAre P (map ask_to_stop es)
asked-ActiveAre P [] h = tt
asked-ActiveAre P (x ∷ es) (p, h) = (
  λ a.
      subst (λ set. P x.0 set) (sym (ask_to_stop-set x))
        (p (subst (λ state. is_active state ≡ true) (ask_to_stop-state x) a)),
  asked-ActiveAre P es h,
)

-- What one operation on a stopping registry leaves.
Change-drained :
    (P : Bytes → Bytes → Type 0) (s t : Jobs)
    → Change s t
    → s.draining ≡ true
    → ActiveAre P s.entries
    → (t.draining ≡ true) × (active t ≤ active s) × ActiveAre P t.entries
unfolding active
Change-drained P s t (entered id set owner admits free e d) h p = absurd (cc)
Change-drained P s t (replaced id v v' found e same less d) h p = (
  d ∙ h,
  rw e (replaced-count id v v' s.entries found less),
  rw e (
      All-upsert (λ x. IsActive x.1 → P x.0 x.1.set) id v' s.entries
        (λ a.
          subst (λ set. P id set) (sym same)
            (All-lookup (λ x. IsActive x.1 → P x.0 x.1.set) id v s.entries found p (less a)))
        p),
)
Change-drained P s t (asked e d) h p =
    (d ∙ h, rw e (omega (arith, asked-count s.entries)), rw e (asked-ActiveAre P s.entries p))
Change-drained P s t (closed e d) h p = (d, rw e (omega arith), rw e p)

-- Once the daemon stops, whatever clients and engine do: it goes on stopping, refuses every job, has
-- no more pending and running jobs than before, and each of them was pending or running, on the same
-- set, when it began to stop.
pub Reach-drained :
    (P : Bytes → Bytes → Type 0) (s : Jobs) {t : Jobs}
    → ActiveAre P s.entries
    → Reach (begin_drain s) t
    → (t.draining ≡ true)
      × ((id set : Bytes) (owner : ℕ) → register_for t id set owner ≡ err target_busy)
      × (active t ≤ active s)
      × ActiveAre P t.entries
unfolding begin_drain register_for active
Reach-drained P s p here = (refl, λ id set owner. refl, omega arith, p)
Reach-drained P s p (next r step) =
    let (draining, refused, fewer, among) = Reach-drained P s p r in
    let (draining', fewer', among') = Change-drained P _ _ (Step-Change step) draining among in
    (draining', λ id set owner. rw draining' refl, omega (arith, fewer, fewer'), among')
