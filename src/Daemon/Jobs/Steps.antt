-- ===== src/Daemon/Jobs/Steps.antt =====
-- The registry as a state machine: one step is one operation of a client or of the engine.
use linuxreflect.Base.{
  is_some, ℕ, ◌≡◌, ◌≢◌, refl, sym, Bool, true, false, Option, none, some, map, Option-cases, inl,
  inr,
}
use linuxreflect.Base.Assoc.{lookup, upsert, Pairwise, lookup-upsert}
use linuxreflect.Base.Result.{
  Error, unsupported, target_busy, cancelled, Result, ok, err, refuse, ok_or, ◌>>=◌, ◌>>◌,
}
use linuxreflect.Format.Wire.{Bytes}
use linuxreflect.Daemon.Outcome.{
  JobState, pending, running, finished, failed, job_cancelled, AttemptOutcome, RecordingOutcome,
  integrity_verified, integrity_verified_with_recorded_loss, incomplete, was_cancelled, recorded,
  not_recorded, publication_unconfirmed, CapturedVerificationResult, job_outcome,
}
use linuxreflect.Daemon.Job.{started, Entry, JobSnapshot, is_active, snapshot_of, terminal_event}
use linuxreflect.Daemon.Jobs.{
  Jobs, register_for, finish, finish_verification, cancel_job, cancel, cancel_all, begin_drain,
  finished_entry, verified_entry, cancelled_entry, ask_to_stop, holder_of, new_entry, conclude,
  publish, snapshot, after_cancel, id_is_active,
}

pub data Step (s : Jobs) (t : Jobs) : Type 0 where
  registers : (id set : Bytes) (owner : ℕ) → register_for s id set owner ≡ ok t → Step s t
  finishes :
      (id : Bytes) (outcome : Result Bytes) (snap : JobSnapshot)
      → finish s id outcome ≡ ok (snap, t)
      → Step s t
  verifies :
      (id : Bytes) (result : CapturedVerificationResult) (snap : JobSnapshot)
      → finish_verification s id result ≡ ok (snap, t)
      → Step s t
  cancels : (id : Bytes) (snap : JobSnapshot) → cancel s id ≡ ok (snap, t) → Step s t
  cancels_all : t ≡ cancel_all s → Step s t
  drains : t ≡ begin_drain s → Step s t

pub data Reach (s : Jobs) : Jobs → Type 0 where
  here : Reach s s
  next : {t u : Jobs} → Reach s t → Step t u → Reach s u

abbrev pub IsActive : Entry → Type 0
IsActive e = is_active e.state ≡ true

-- Two entries belong to different jobs, and if both are active to different sets.
abbrev pub Apart : Bytes × Entry → Bytes × Entry → Type 0
Apart (i, e) (j, f) = (i ≢ j) × (IsActive e → IsActive f → e.set ≢ f.set)

-- No two entries have one identifier, and no two active jobs one set.
unfoldable pub OneJobPerSet : Jobs → Type 0
OneJobPerSet jobs = Pairwise Apart jobs.entries

-- What one step does to the entries.
pub data Change (s : Jobs) (t : Jobs) : Type 0 where
  entered :
      (id set : Bytes) (owner : ℕ)
      → s.draining ≡ false
      → holder_of id set s.entries ≡ none
      → t.entries ≡ upsert id (new_entry set owner) s.entries
      → t.draining ≡ s.draining
      → Change s t
  replaced :
      (id : Bytes) (e e' : Entry)
      → lookup id s.entries ≡ some e
      → t.entries ≡ upsert id e' s.entries
      → e'.set ≡ e.set
      → (IsActive e' → IsActive e)
      → t.draining ≡ s.draining
      → Change s t
  asked : t.entries ≡ map ask_to_stop s.entries → t.draining ≡ s.draining → Change s t
  closed : t.entries ≡ s.entries → t.draining ≡ true → Change s t

pub finished_entry-inactive :
    (e : Entry) (outcome : Result Bytes) → is_active (finished_entry e outcome).state ≡ false
unfolding finished_entry
finished_entry-inactive e (ok summary) = refl
finished_entry-inactive e (err cancelled) = refl
finished_entry-inactive e (err _) = refl

finished_entry-set : (e : Entry) (outcome : Result Bytes) → (finished_entry e outcome).set ≡ e.set
unfolding finished_entry
finished_entry-set e (ok summary) = refl
finished_entry-set e (err x) = refl

after_verification : AttemptOutcome → RecordingOutcome → JobState
after_verification outcome recording =
    (job_outcome (record { outcome = outcome; recording = recording; report_json = none })).0

after_verification-inactive :
    (outcome : AttemptOutcome) (recording : RecordingOutcome)
    → is_active (after_verification outcome recording) ≡ false
unfolding after_verification job_outcome
after_verification-inactive (incomplete was_cancelled) recording = refl
after_verification-inactive (incomplete _) recording = refl
after_verification-inactive integrity_verified recorded = refl
after_verification-inactive integrity_verified not_recorded = refl
after_verification-inactive integrity_verified publication_unconfirmed = refl
after_verification-inactive integrity_verified_with_recorded_loss recorded = refl
after_verification-inactive integrity_verified_with_recorded_loss not_recorded = refl
after_verification-inactive integrity_verified_with_recorded_loss publication_unconfirmed = refl

pub verified_entry-inactive :
    (e : Entry) (result : CapturedVerificationResult)
    → is_active (verified_entry e result).state ≡ false
unfolding verified_entry job_outcome after_verification
verified_entry-inactive e result = after_verification-inactive result.outcome result.recording

pub conclude-entries :
    (jobs : Jobs) (id : Bytes) (e : Entry)
    → ((conclude jobs id e).1.entries ≡ upsert id e jobs.entries)
      × ((conclude jobs id e).1.draining ≡ jobs.draining)
unfolding publish
conclude-entries jobs id e = elim (Option-cases (terminal_event (snapshot_of id e))) [
  | inl h ↦ rw h (refl, refl)
  | inr (event, h) ↦ rw h (refl, refl)
]

-- Both ways of ending a job.
concluded :
    (s t : Jobs) (id : Bytes) (snap : JobSnapshot) (f : Entry → Entry)
    → ((e : Entry) → is_active (f e).state ≡ false)
    → ((e : Entry) → (f e).set ≡ e.set)
    → (ok_or (lookup id s.entries) unsupported >>= λ e. ok (conclude s id (f e))) ≡ ok (snap, t)
    → Change s t
concluded s t id snap f inactive same h = elim (Option-cases (lookup id s.entries)) [
  | inl e ↦ let k = rw e at h in absurd (cc)
  | inr (found, e) ↦
      let k : ok (conclude s id (f found)) ≡ ok (snap, t) = rw e at h in
      let after : (conclude s id (f found)).1 ≡ t = cc in
      let (entries, draining) = conclude-entries s id (f found) in
      replaced id found (f found) e (rw (sym after) entries) (same found)
        (λ a. let n = inactive found in absurd (cc)) (rw (sym after) draining)
]

pass_refusal :
    {A : Type 0} (test : Bool) (e : Error) (rest : Result A) (a : A)
    → (refuse test e >> rest) ≡ ok a
    → (test ≡ false) × (rest ≡ ok a)
pass_refusal true e rest a h = absurd (cc)
pass_refusal false e rest a h = (refl, h)

is_some-none : {A : Type 0} (o : Option A) → is_some o ≡ false → o ≡ none
is_some-none none h = refl
is_some-none (some a) h = absurd (cc)

active_before : (state : JobState) → is_active (after_cancel state) ≡ true → is_active state ≡ true
active_before pending h = refl
active_before running h = refl
active_before finished h = h
active_before failed h = h
active_before job_cancelled h = h

cancelled_step :
    (s t : Jobs) (id : Bytes) (snap : JobSnapshot) → cancel s id ≡ ok (snap, t) → Change s t
unfolding cancel cancel_job snapshot
cancelled_step s t id snap h = elim (Option-cases (lookup id s.entries)) [
  | inl e ↦ let k = rw e at h in absurd (cc)
  | inr (found, e) ↦
      let e' = cancelled_entry found in
      let k = rw (e, lookup-upsert id e' s.entries) at h in
      let after : (record s { entries = upsert id e' s.entries }) ≡ t = cc in
      replaced id found e' e (rw (sym after) refl) refl (active_before found.state)
        (rw (sym after) refl)
]

pub Step-Change : {s t : Jobs} → Step s t → Change s t
unfolding register_for finish finish_verification cancel cancel_job begin_drain cancel_all
Step-Change {s} {t} (registers id set owner h) =
    let (admits, h1) = pass_refusal s.draining target_busy _ t h in
    let (idle, h2) = pass_refusal (id_is_active id s.entries) target_busy _ t h1 in
    let (free, h3) = pass_refusal (is_some (holder_of id set s.entries)) target_busy _ t h2 in
    let inserted : Jobs = record s { entries = upsert id (new_entry set owner) s.entries } in
    let after : publish inserted (started id) ≡ t = cc in
    entered id set owner admits (is_some-none (holder_of id set s.entries) free)
      (rw (sym after) (unfold publish in refl)) (rw (sym after) (unfold publish in refl))
Step-Change {s} {t} (finishes id outcome snap h) =
    concluded s t id snap (λ e. finished_entry e outcome) (λ e. finished_entry-inactive e outcome)
      (λ e. finished_entry-set e outcome) h
Step-Change {s} {t} (verifies id result snap h) =
    concluded s t id snap (λ e. verified_entry e result) (λ e. verified_entry-inactive e result)
      (λ e. unfold verified_entry in refl) h
Step-Change {s} {t} (cancels id snap h) = cancelled_step s t id snap h
Step-Change (cancels_all e) = asked (rw e refl) (rw e refl)
Step-Change (drains e) = closed (rw e refl) (rw e refl)
