-- ===== src/Daemon/Job.antt =====
-- crates/lr-daemon/src/jobs.rs: a job, its snapshot, and the events of a job.
use linuxreflect.Base.{ℕ, Bool, true, false, Option, none, some}
use linuxreflect.Format.Wire.{Bytes}
use linuxreflect.Daemon.Outcome.{
  JobState, pending, running, finished, failed, job_cancelled, ErrorCode,
  CapturedVerificationResult,
}

pub data JobEvent : Type 0 where
  started : Bytes → JobEvent
  phase : Bytes → Bytes → JobEvent
  bytes : Bytes → ℕ → ℕ → JobEvent
  has_finished : Bytes → Bytes → JobEvent
  has_failed : Bytes → ErrorCode → JobEvent
  verification_completed : Bytes → CapturedVerificationResult → JobEvent

unfoldable pub job_id : JobEvent → Bytes
job_id (started id) = id
job_id (phase id name) = id
job_id (bytes id done total) = id
job_id (has_finished id summary) = id
job_id (has_failed id code) = id
job_id (verification_completed id result) = id

pub record Entry : Type 0 where
  pub set : Bytes
  pub owner : ℕ
  pub state : JobState
  pub cancel : Bool
  pub summary_json : Option Bytes
  pub error : Option ErrorCode
  pub verification : Option CapturedVerificationResult

pub record JobSnapshot : Type 0 where
  pub id : Bytes
  pub set : Bytes
  pub state : JobState
  pub summary_json : Option Bytes
  pub error : Option ErrorCode
  pub verification : Option CapturedVerificationResult

unfoldable pub snapshot_of : Bytes → Entry → JobSnapshot
snapshot_of id entry = record {
  id = id;
  set = entry.set;
  state = entry.state;
  summary_json = entry.summary_json;
  error = entry.error;
  verification = entry.verification;
}

-- The event of a job without a captured verification.
unfoldable pub event_of_state : JobState → Bytes → Option Bytes → Option ErrorCode → Option JobEvent
event_of_state finished id (some summary) error = some (has_finished id summary)
event_of_state failed id summary (some code) = some (has_failed id code)
event_of_state job_cancelled id summary (some code) = some (has_failed id code)
event_of_state _ id summary error = none

unfoldable pub terminal_event : JobSnapshot → Option JobEvent
terminal_event s = elim s.verification [
  | some result ↦ some (verification_completed s.id result)
  | none ↦ event_of_state s.state s.id s.summary_json s.error
]

-- `matches!(state, JobState::Pending | JobState::Running)`
abbrev pub is_active : JobState → Bool
is_active pending = true
is_active running = true
is_active _ = false
