-- ===== src/Daemon/Shutdown/Progress.antt =====
-- Progress of one job earns a stopping daemon time.
use linuxreflect.Base.{
  ℕ, ◌+◌, ◌-◌, ◌<◌, ◌≡◌, ◌≢◌, ◌≤◌, refl, sym, subst, ap, ◌∙◌, Bool, Bool-cases, All, true, false,
  some, List, [], ◌∷◌, any, get_elem?, zero, suc, ltb, ◌==◌, eq_bytes, inl, inr, arith,
}
use linuxreflect.Base.Assoc.{
  lookup, upsert, lookup-upsert, lookup-upsert_other, lookup-remove_other, eq_bytes-cases,
}
use linuxreflect.Format.Wire.{Bytes}
use linuxreflect.Daemon.Job.{
  JobEvent, started, phase, bytes, has_finished, has_failed, verification_completed,
}
use linuxreflect.Daemon.Shutdown.{
  DrainWatch, Seen, insert, forget, seen, advanced_or, advanced_at, see_phase, see_bytes, observe,
  should_extend, stall_limit,
}
use linuxreflect.Daemon.Shutdown.Stalled.{observe_all, advanced-or_insert}

any-get :
    (p : Bytes × Bytes → Bool) (active : List (Bytes × Bytes)) (i : ℕ) (job : Bytes × Bytes)
    → get_elem? active i ≡ some job
    → p job ≡ true
    → any p active ≡ true
any-get p [] i job h t = absurd (cc)
any-get p (x ∷ xs) zero job h t = let same : x ≡ job = cc in rw (same, t) refl
any-get p (x ∷ xs) (suc i) job h t = let rest = any-get p xs i job h t in rw rest (ground arith)

-- The event is about the job, and shows a phase or a count of bytes that the watch has not seen of it.
unfoldable pub Progress : DrainWatch → Bytes → JobEvent → Type 0
Progress w id (phase other name) = (id ≡ other) × ((seen w id).in_phase ≢ name)
Progress w id (bytes other done total) = (id ≡ other) × ((seen w id).done ≢ done)
Progress w id _ = ⊥

unequal : (a b : Bytes) → a ≢ b → eq_bytes a b ≡ false
unequal a b d = elim (eq_bytes-cases a b) [ inl (e, p) ↦ absurd (d p) | inr (e, p) ↦ e ]

observe-Progress :
    (w : DrainWatch) (id : Bytes) (event : JobEvent) (at : ℕ)
    → Progress w id event
    → advanced_at (observe w event at) id ≡ at
unfolding Progress observe
observe-Progress w id (phase other name) at (same, new) =
    let moved : eq_bytes (seen w other).in_phase name ≡ false =
      unequal (seen w other).in_phase name (λ e. new (ap (λ k. (seen w k).in_phase) same ∙ e)) in
    ap (advanced_or w.since) (
      ap (λ k. lookup k (upsert other (see_phase (seen w other) name at) w.jobs)) same
      ∙ lookup-upsert other (see_phase (seen w other) name at) w.jobs)
    ∙ rw moved refl
observe-Progress w id (bytes other done total) at (same, new) =
    let moved : ((seen w other).done == done) ≡ false =
      let different : (seen w other).done ≢ done = λ e. new (ap (λ k. (seen w k).done) same ∙ e) in
      ground arith in
    ap (advanced_or w.since) (
      ap (λ k. lookup k (upsert other (see_bytes (seen w other) done total at) w.jobs)) same
      ∙ lookup-upsert other (see_bytes (seen w other) done total at) w.jobs)
    ∙ rw moved refl
observe-Progress w id (started _) at h = absurd h
observe-Progress w id (has_finished _ _) at h = absurd h
observe-Progress w id (has_failed _ _) at h = absurd h
observe-Progress w id (verification_completed _ _) at h = absurd h

-- The event does not end the job.
unfoldable pub GoesOn : Bytes → JobEvent → Type 0
GoesOn id (has_finished other summary) = id ≢ other
GoesOn id (has_failed other code) = id ≢ other
GoesOn id (verification_completed other result) = id ≢ other
GoesOn id _ = Unit

-- An entry that was moved last at `at` or later is put in.
advanced-insert :
    (w : DrainWatch) (id other : Bytes) (entry : Seen) (at : ℕ)
    → at ≤ advanced_at w id
    → (id ≡ other → at ≤ entry.advanced)
    → at ≤ advanced_at (insert w other entry) id
advanced-insert w id other entry at h new = elim (eq_bytes-cases id other) [
  | inl (e, same) ↦
      let found = lookup-upsert other entry w.jobs in
      let there : advanced_at (insert w other entry) other ≡ entry.advanced =
        ap (advanced_or w.since) found in
      subst (λ k. at ≤ advanced_at (insert w other entry) k) (sym same)
        (omega (arith, there, new same))
  | inr (e, d) ↦
      let kept = lookup-upsert_other other id entry w.jobs (λ p. d (sym p)) in
      subst (λ o. at ≤ advanced_or w.since o) (sym kept) h
]

advanced-forget :
    (w : DrainWatch) (id other : Bytes) (at : ℕ)
    → at ≤ advanced_at w id
    → id ≢ other
    → at ≤ advanced_at (forget w other) id
advanced-forget w id other at h d =
    let kept = lookup-remove_other other id w.jobs (λ p. d (sym p)) in
    subst (λ o. at ≤ advanced_or w.since o) (sym kept) h

advanced-see_phase :
    (entry : Seen) (name : Bytes) (at now : ℕ)
    → at ≤ entry.advanced
    → at ≤ now
    → at ≤ (see_phase entry name now).advanced
advanced-see_phase entry name at now h l = elim (Bool-cases (eq_bytes entry.in_phase name)) [
  | inl e ↦ rw e h
  | inr e ↦ rw e l
]

advanced-see_bytes :
    (entry : Seen) (done total at now : ℕ)
    → at ≤ entry.advanced
    → at ≤ now
    → at ≤ (see_bytes entry done total now).advanced
advanced-see_bytes entry done total at now h l = elim (Bool-cases (entry.done == done)) [
  | inl e ↦ rw e h
  | inr e ↦ rw e l
]

seen-advanced :
    (w : DrainWatch) (id other : Bytes) (at : ℕ)
    → at ≤ advanced_at w id
    → id ≡ other
    → at ≤ (seen w other).advanced
seen-advanced w id other at h same =
    let entry = advanced-or_insert w.since (lookup id w.jobs) in
    subst (λ k. at ≤ (seen w k).advanced) same (omega (arith, entry, h))

observe-advanced :
    (w : DrainWatch) (id : Bytes) (event : JobEvent) (at now : ℕ)
    → GoesOn id event
    → at ≤ now
    → at ≤ advanced_at w id
    → at ≤ advanced_at (observe w event now) id
unfolding GoesOn observe
observe-advanced w id (started other) at now g l h = h
observe-advanced w id (phase other name) at now g l h =
    advanced-insert w id other (see_phase (seen w other) name now) at h
      (λ same. advanced-see_phase (seen w other) name at now (seen-advanced w id other at h same) l)
observe-advanced w id (bytes other done total) at now g l h =
    advanced-insert w id other (see_bytes (seen w other) done total now) at h (λ same.
      advanced-see_bytes (seen w other) done total at now (seen-advanced w id other at h same) l)
observe-advanced w id (has_finished other summary) at now g l h = advanced-forget w id other at h g
observe-advanced w id (has_failed other code) at now g l h = advanced-forget w id other at h g
observe-advanced w id (verification_completed other result) at now g l h =
    advanced-forget w id other at h g

-- The events come at `at` or later, and none of them ends the job.
abbrev pub Later : Bytes → ℕ → List (JobEvent × ℕ) → Type 0
Later id at events = All (λ e. GoesOn id e.0 × (at ≤ e.1)) events

observe_all-at_least :
    (events : List (JobEvent × ℕ)) (w : DrainWatch) (id : Bytes) (at : ℕ)
    → Later id at events
    → at ≤ advanced_at w id
    → at ≤ advanced_at (observe_all w events) id
unfolding observe_all
observe_all-at_least [] w id at g h = h
observe_all-at_least ((event, now) ∷ later) w id at ((g, l), rest) h =
    observe_all-at_least later (observe w event now) id at rest
      (observe-advanced w id event at now g l h)

-- When an active job shows progress, the daemon asks for more time at any moment less than the stall
-- limit after it, whatever events come after the progress, of this job or of others, as long as none
-- of them ends the job.
pub should_extend-Progress :
    (w : DrainWatch) (event : JobEvent) (at : ℕ) (events : List (JobEvent × ℕ))
    (active : List (Bytes × Bytes)) (i : ℕ) (id set : Bytes) (now : ℕ)
    → Progress w id event
    → Later id at events
    → get_elem? active i ≡ some (id, set)
    → now < at + stall_limit
    → should_extend (observe_all (observe w event at) events) active now ≡ true
unfolding should_extend
should_extend-Progress w event at events active i id set now h g k l =
    let w' = observe w event at in
    let first : at ≤ advanced_at w' id =
      let e = observe-Progress w id event at h in omega (arith, e) in
    let last = observe_all-at_least events w' id at g first in
    any-get (λ job. ltb (now - advanced_at (observe_all w' events) job.0) stall_limit) active i
      (id, set) k (ground (arith, last))
