-- ===== src/Daemon/Jobs/Results.antt =====
-- What a client learns of a job that has ended.
use linuxreflect.Base.{◌≡◌, ◌≢◌, refl, false, some, ◌∷◌}
use linuxreflect.Base.Assoc.{lookup, lookup-upsert, lookup-upsert_other}
use linuxreflect.Base.Result.{Result, ok, err, cancelled}
use linuxreflect.Format.Wire.{Bytes}
use linuxreflect.Daemon.Outcome.{CapturedVerificationResult}
use linuxreflect.Daemon.Job.{
  JobEvent, has_finished, has_failed, verification_completed, job_id, Entry, JobSnapshot,
  snapshot_of, terminal_event, event_of_state, is_active,
}
use linuxreflect.Daemon.Jobs.{
  Jobs, publish, conclude, finish, finish_verification, snapshot, finished_entry, verified_entry,
}
use linuxreflect.Daemon.Jobs.Steps.{finished_entry-inactive, verified_entry-inactive}

-- A job has ended with this snapshot: it is no longer active, its snapshot is kept, the event it gives
-- is the one published, and the other jobs are what they were.
abbrev pub Ended : Jobs → Bytes → JobSnapshot → Jobs → Type 0
Ended s id snap t =
    (is_active snap.state ≡ false)
    × (snapshot t id ≡ ok snap)
    × ((event : JobEvent) × (terminal_event snap ≡ some event)
        × (job_id event ≡ id)
        × (t.events ≡ event ∷ s.events))
    × ((other : Bytes) → id ≢ other → snapshot t other ≡ snapshot s other)

conclude-Ended :
    (s : Jobs) (id : Bytes) (e : Entry) (event : JobEvent)
    → is_active e.state ≡ false
    → terminal_event (snapshot_of id e) ≡ some event
    → job_id event ≡ id
    → Ended s id (conclude s id e).0 (conclude s id e).1
unfolding publish snapshot
conclude-Ended s id e event inactive h k = (
  unfold snapshot_of in inactive,
  rw (h, lookup-upsert id e s.entries) refl,
  (event, h, k, rw h refl),
  λ other d. rw (h, lookup-upsert_other id other e s.entries d) refl,
)

finished_entry-event :
    (id : Bytes) (e : Entry) (outcome : Result Bytes)
    → (event : JobEvent) × (terminal_event (snapshot_of id (finished_entry e outcome)) ≡ some event)
      × (job_id event ≡ id)
unfolding terminal_event snapshot_of finished_entry event_of_state job_id
finished_entry-event id e (ok summary) = (has_finished id summary, refl, refl)
finished_entry-event id e (err cancelled) = (has_failed id _, refl, refl)
finished_entry-event id e (err _) = (has_failed id _, refl, refl)

verified_entry-event :
    (id : Bytes) (e : Entry) (result : CapturedVerificationResult)
    → terminal_event (snapshot_of id (verified_entry e result))
      ≡ some (verification_completed id result)
unfolding terminal_event snapshot_of verified_entry
verified_entry-event id e result = refl

-- For a known job, `finish` with any outcome and `finish_verification` with any result end the job: it
-- is no longer active, its snapshot is kept and its terminal event, rebuilt from the snapshot, is the
-- one event published; the other jobs are what they were.
pub finish-Ended :
    (s : Jobs) (id : Bytes) (e : Entry)
    → lookup id s.entries ≡ some e
    → ((outcome : Result Bytes)
        → (snap : JobSnapshot) × (t : Jobs) × (finish s id outcome ≡ ok (snap, t))
          × Ended s id snap t)
      × ((result : CapturedVerificationResult)
          → (snap : JobSnapshot) × (t : Jobs) × (finish_verification s id result ≡ ok (snap, t))
            × Ended s id snap t)
unfolding finish finish_verification
finish-Ended s id e h = (
  λ outcome.
      let e' = finished_entry e outcome in
      let (event, f, g) = finished_entry-event id e outcome in
      (
        (conclude s id e').0,
        (conclude s id e').1,
        rw h refl,
        conclude-Ended s id e' event (finished_entry-inactive e outcome) f g,
      ),
  λ result.
      let e' = verified_entry e result in
      (
        (conclude s id e').0,
        (conclude s id e').1,
        rw h refl,
        conclude-Ended s id e' (verification_completed id result) (verified_entry-inactive e result)
            (verified_entry-event id e result) (unfold job_id in refl),
      ),
)
