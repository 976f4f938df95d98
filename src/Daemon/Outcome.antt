-- ===== src/Daemon/Outcome.antt =====
-- crates/lr-daemon/src/jobs.rs, status.rs and verification.rs: the states of a job, the stable codes of
-- failures, and the outcome of a verification. Messages for humans are left out.
use linuxreflect.Base.{Option, none, some}
use linuxreflect.Base.Result.{
  Error, io, bad_sector, no_space, network_timeout, snapshot_overflow, freeze_timeout,
  stream_parent_missing, no_consistent_method, set_locked, target_changed, target_busy, aead,
  corrupt, cancelled, denied, unsupported,
}
use linuxreflect.Format.Wire.{Bytes}

pub data JobState : Type 0 where
  pending running finished failed job_cancelled : JobState

pub data ErrorCode : Type 0 where
  e_denied e_cancelled e_set_locked e_target_changed e_no_consistent_method : ErrorCode
  e_stream_parent_missing e_snapshot_overflow e_freeze_timeout e_bad_sector e_unsupported :
      ErrorCode
  e_corrupt e_target_busy e_no_space e_network_timeout e_aead e_io : ErrorCode
  e_verify_incomplete e_history_not_recorded e_history_publication_unconfirmed : ErrorCode

unfoldable pub error_code : Error → ErrorCode
error_code denied = e_denied
error_code cancelled = e_cancelled
error_code set_locked = e_set_locked
error_code target_changed = e_target_changed
error_code no_consistent_method = e_no_consistent_method
error_code stream_parent_missing = e_stream_parent_missing
error_code snapshot_overflow = e_snapshot_overflow
error_code freeze_timeout = e_freeze_timeout
error_code bad_sector = e_bad_sector
error_code unsupported = e_unsupported
error_code corrupt = e_corrupt
error_code target_busy = e_target_busy
error_code no_space = e_no_space
error_code network_timeout = e_network_timeout
error_code aead = e_aead
error_code io = e_io

pub data FailureKind : Type 0 where
  was_cancelled invalid_options raw_cap_exceeded headroom_unavailable : FailureKind
  scratch_untrusted source_changed identity_changed key_or_authentication_failure : FailureKind
  was_corrupt was_unsupported unavailable : FailureKind

-- The stage that `Incomplete` carries is left out.
pub data AttemptOutcome : Type 0 where
  integrity_verified integrity_verified_with_recorded_loss : AttemptOutcome
  incomplete : FailureKind → AttemptOutcome

-- The receipt and the reasons are left out.
pub data RecordingOutcome : Type 0 where
  recorded not_recorded publication_unconfirmed : RecordingOutcome

-- Of the observation, its outcome.
pub record CapturedVerificationResult : Type 0 where
  pub outcome : AttemptOutcome
  pub recording : RecordingOutcome
  pub report_json : Option Bytes

abbrev pub recording_failure : RecordingOutcome → Option (JobState × ErrorCode)
recording_failure recorded = none
recording_failure not_recorded = some (failed, e_history_not_recorded)
recording_failure publication_unconfirmed = some (failed, e_history_publication_unconfirmed)

abbrev pub outcome_failure : AttemptOutcome → RecordingOutcome → Option (JobState × ErrorCode)
outcome_failure (incomplete was_cancelled) recording = some (job_cancelled, e_cancelled)
outcome_failure (incomplete _) recording = some (failed, e_verify_incomplete)
outcome_failure _ recording = recording_failure recording

unfoldable pub job_outcome : CapturedVerificationResult → JobState × Option ErrorCode
job_outcome result = elim (outcome_failure result.outcome result.recording) [
  | none ↦ (finished, none)
  | some (state, code) ↦ (state, some code)
]
