-- ===== src/Examples/Stopping.antt =====
-- Jobs that run and end, and a daemon that waits for them, at concrete values.
use linuxreflect.Base.{
  ℕ, ◌+◌, ◌*◌, ◌^◌, ◌≤◌, eq_bytes, if◌then◌else◌, ◌≡◌, ◌≢◌, refl, ap, true, false, [], ◌∷◌, arith,
}
use linuxreflect.Base.Result.{Result, ok, err, cancelled, target_busy}
use linuxreflect.Format.Wire.{Bytes}
use linuxreflect.Daemon.Outcome.{CapturedVerificationResult}
use linuxreflect.Daemon.Job.{JobSnapshot, started, bytes, has_finished}
use linuxreflect.Daemon.Jobs as Jobs
use linuxreflect.Daemon.Jobs.{
  Jobs, new_entry, register_for, publish, begin_drain, active, finish, finish_verification,
  finished_entry, conclude,
}
use linuxreflect.Daemon.Jobs.Steps.{Reach, here, next, registers, finishes, OneJobPerSet}
use linuxreflect.Daemon.Jobs.Exclusive.{Reach-OneJobPerSet}
use linuxreflect.Daemon.Jobs.Drain.{Reach-drained, ActiveAre}
use linuxreflect.Daemon.Jobs.Stop.{Ends, finish-Ends}
use linuxreflect.Daemon.Jobs.Results.{Ended, finish-Ended}
use linuxreflect.Daemon.Shutdown.{DrainWatch, observe, should_extend}
use linuxreflect.Daemon.Shutdown.Stalled.{Idle, observe_all, should_extend-stalled}
use linuxreflect.Daemon.Shutdown.Progress.{Progress, GoesOn, should_extend-Progress}

abbrev backup : Bytes
backup = 1 ∷ []

abbrev verify : Bytes
verify = 2 ∷ []

abbrev home : Bytes
home = 8 ∷ []

abbrev root : Bytes
root = 9 ∷ []

abbrev one_job : Jobs
one_job = record {
  entries = (backup, new_entry home 7) ∷ [];
  events = started backup ∷ [];
  draining = false;
}

abbrev two_jobs : Jobs
two_jobs = record {
  entries = (backup, new_entry home 7) ∷ (verify, new_entry root 0) ∷ [];
  events = started verify ∷ started backup ∷ [];
  draining = false;
}

Reach-two_jobs : Reach Jobs.new two_jobs
unfolding register_for publish eq_bytes
Reach-two_jobs = next (next here (registers backup home 7 refl)) (registers verify root 0 refl)

-- The set of the running job is refused to another job.
same_set_refused : register_for one_job verify home 0 ≡ err target_busy
unfolding register_for eq_bytes
same_set_refused = refl

Reach-OneJobPerSet_example : OneJobPerSet two_jobs
Reach-OneJobPerSet_example = Reach-OneJobPerSet Reach-two_jobs

abbrev after_backup : JobSnapshot × Jobs
after_backup =
    conclude (record two_jobs { draining = true }) backup
      (finished_entry (new_entry home 7) (ok (5 ∷ [])))

Reach-after_backup : Reach (begin_drain two_jobs) after_backup.1
unfolding begin_drain finish eq_bytes
Reach-after_backup = next here (finishes backup (ok (5 ∷ [])) after_backup.0 refl)

abbrev IsKnown : Bytes → Bytes → Type 0
IsKnown id set = (id ≢ root) × (set ≢ backup)

differ : (a b : ℕ) → a ≢ b → (a ∷ []) ≢ (b ∷ [])
differ a b d e = d (ap (λ (xs : Bytes). elim xs [ [] ↦ 0 | x ∷ _ ↦ x ]) e)

IsKnown-jobs : ActiveAre IsKnown two_jobs.entries
IsKnown-jobs = (
  λ a. (differ 1 9 (λ e. omega arith), differ 8 1 (λ e. omega arith)),
  (λ a. (differ 2 9 (λ e. omega arith), differ 9 1 (λ e. omega arith)), tt),
)

Reach-drained_example :
    (after_backup.1.draining ≡ true)
    × ((id set : Bytes) (owner : ℕ) → register_for after_backup.1 id set owner ≡ err target_busy)
    × (active after_backup.1 ≤ active two_jobs)
    × ActiveAre IsKnown after_backup.1.entries
Reach-drained_example = Reach-drained IsKnown two_jobs IsKnown-jobs Reach-after_backup

abbrev outcomes : Bytes → Result Bytes
outcomes id = if eq_bytes id backup then ok (5 ∷ []) else err cancelled

finish-Ends_example :
    ((n : ℕ) (t : Jobs) → Ends outcomes two_jobs n t → n + active t ≡ active two_jobs)
    × (t : Jobs) × Ends outcomes two_jobs (active two_jobs) t
    × (active t ≡ 0)
finish-Ends_example = finish-Ends outcomes two_jobs (Reach-OneJobPerSet Reach-two_jobs)

finish-Ended_example :
    ((outcome : Result Bytes)
      → (snap : JobSnapshot) × (t : Jobs) × (finish two_jobs verify outcome ≡ ok (snap, t))
        × Ended two_jobs verify snap t)
    × ((result : CapturedVerificationResult)
        → (snap : JobSnapshot) × (t : Jobs) × (finish_verification two_jobs verify result
            ≡ ok (snap, t))
          × Ended two_jobs verify snap t)
unfolding eq_bytes
finish-Ended_example = finish-Ended two_jobs verify (new_entry root 0) refl

abbrev watch : DrainWatch
watch = record {
  since = 0;
  jobs =
      (backup, record { in_phase = 4 ∷ []; done = 450; total = 1000; advanced = 60 * 10 ^ 9 }) ∷ [];
}

should_extend-stalled_example :
    should_extend
      (observe_all watch ((bytes backup 450 1000, 210 * 10 ^ 9) ∷ []))
      ((backup, home) ∷ [])
      (361 * 10 ^ 9)
    ≡ false
unfolding Idle eq_bytes
should_extend-stalled_example =
    should_extend-stalled watch ((bytes backup 450 1000, 210 * 10 ^ 9) ∷ []) ((backup, home) ∷ [])
      (361 * 10 ^ 9) (((λ same. refl, tt), omega arith), tt)

-- The other job ends after the progress of this one.
should_extend-Progress_example :
    should_extend
      (observe_all
        (observe watch (bytes backup 451 1000) (210 * 10 ^ 9))
        ((has_finished verify [], 220 * 10 ^ 9) ∷ (bytes backup 451 1000, 230 * 10 ^ 9) ∷ []))
      ((backup, home) ∷ [])
      (361 * 10 ^ 9)
    ≡ true
unfolding Progress GoesOn eq_bytes
should_extend-Progress_example =
    should_extend-Progress watch (bytes backup 451 1000) (210 * 10 ^ 9)
      ((has_finished verify [], 220 * 10 ^ 9) ∷ (bytes backup 451 1000, 230 * 10 ^ 9) ∷ [])
      ((backup, home) ∷ []) 0 backup home (361 * 10 ^ 9) (refl, λ e. omega arith)
      (((λ e. cc), omega arith), ((tt, omega arith), tt)) refl (omega arith)
