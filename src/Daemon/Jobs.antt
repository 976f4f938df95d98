-- ===== src/Daemon/Jobs.antt =====
-- crates/lr-daemon/src/jobs.rs: the registry of the jobs. Every operation holds the one lock, so it is
-- a function of the registry; an operation that ends in an error has not changed it. The flag that the
-- engine reads is the field `cancel` of the entry, and the sink that `register_for` returns is left
-- out. The events that subscribers see are listed, the newest first.
pub mod Steps
pub mod Exclusive
pub mod Drain
pub mod Stop
pub mod Results
use linuxreflect.Base.{
  is_some, ℕ, zero, ◌+◌, Bool, true, false, not, ◌&&◌, ◌||◌, Option, none, some, List, [], ◌∷◌, map,
  length, filter, sort_by, ◌==◌, ◌!=◌, if◌then◌else◌, eq_bytes, ltb, find,
}
use linuxreflect.Base.Assoc.{lookup, upsert}
use linuxreflect.Base.Result.{
  Error, cancelled, Result, ok, err, target_busy, unsupported, denied, refuse, ok_or, ◌>>=◌, ◌>>◌,
}
use linuxreflect.Format.Wire.{Bytes}
use linuxreflect.Daemon.Outcome.{
  JobState, pending, running, finished, failed, job_cancelled, error_code,
  CapturedVerificationResult, job_outcome,
}
use linuxreflect.Daemon.Job.{
  JobEvent, started, Entry, JobSnapshot, snapshot_of, terminal_event, is_active,
}

pub record Jobs : Type 0 where
  pub entries : List (Bytes × Entry)
  pub events : List JobEvent
  pub draining : Bool

abbrev pub new : Jobs
new = record { entries = []; events = []; draining = false }

unfoldable pub begin_drain : Jobs → Jobs
begin_drain jobs = record jobs { draining = true }

abbrev pub count_active : List (Bytes × Entry) → ℕ
count_active entries = length (filter (λ e. is_active e.1.state) entries)

unfoldable pub active : Jobs → ℕ
active jobs = count_active jobs.entries

-- The order of strings, by their bytes.
unfoldable pub leb_bytes : Bytes → Bytes → Bool
leb_bytes [] ys = true
leb_bytes (x ∷ xs) [] = false
leb_bytes (x ∷ xs) (y ∷ ys) = ltb x y || (x == y && leb_bytes xs ys)

-- The order of pairs of strings.
unfoldable pub leb_pairs : Bytes × Bytes → Bytes × Bytes → Bool
leb_pairs (a, b) (c, d) = if eq_bytes a c then leb_bytes b d else leb_bytes a c

unfoldable pub active_jobs : Jobs → List (Bytes × Bytes)
active_jobs jobs =
    sort_by leb_pairs (map (λ e. (e.0, e.1.set)) (filter (λ e. is_active e.1.state) jobs.entries))

abbrev pub ask_to_stop : Bytes × Entry → Bytes × Entry
ask_to_stop (id, e) = (id, if is_active e.state then record e { cancel = true } else e)

unfoldable pub cancel_all : Jobs → Jobs
cancel_all jobs = record jobs { entries = map ask_to_stop jobs.entries }

unfoldable pub publish : Jobs → JobEvent → Jobs
publish jobs event = record jobs { events = event ∷ jobs.events }

abbrev pub publish_some : Jobs → Option JobEvent → Jobs
publish_some jobs none = jobs
publish_some jobs (some event) = publish jobs event

-- Whether the identifier belongs to an active job.
abbrev pub id_is_active : Bytes → List (Bytes × Entry) → Bool
id_is_active id entries = elim (lookup id entries) [
  | none ↦ false
  | some existing ↦ is_active existing.state
]

-- Whether an entry is another active job of the set.
abbrev pub holds_set : Bytes → Bytes → Bytes × Entry → Bool
holds_set id set (other, e) = not (eq_bytes other id) && (eq_bytes e.set set && is_active e.state)

abbrev pub holder_of : Bytes → Bytes → List (Bytes × Entry) → Option (Bytes × Entry)
holder_of id set entries = find (holds_set id set) entries

abbrev pub new_entry : Bytes → ℕ → Entry
new_entry set owner = record {
  set = set;
  owner = owner;
  state = running;
  cancel = false;
  summary_json = none;
  error = none;
  verification = none;
}

unfoldable pub register_for : Jobs → Bytes → Bytes → ℕ → Result Jobs
register_for jobs id set owner = do
  refuse jobs.draining target_busy
  refuse (id_is_active id jobs.entries) target_busy
  refuse (is_some (holder_of id set jobs.entries)) target_busy
  let inserted : Jobs = record jobs { entries = upsert id (new_entry set owner) jobs.entries }
  ok (publish inserted (started id))

unfoldable pub register : Jobs → Bytes → Bytes → Result Jobs
register jobs id set = register_for jobs id set 0

abbrev pub is_cancelled : Error → Bool
is_cancelled cancelled = true
is_cancelled _ = false

-- What `finish` makes of the entry.
unfoldable pub finished_entry : Entry → Result Bytes → Entry
finished_entry entry (ok summary) = record entry {
  verification = none;
  state = finished;
  summary_json = some summary;
  error = none;
}
finished_entry entry (err e) = record entry {
  verification = none;
  state = if is_cancelled e then job_cancelled else failed;
  summary_json = none;
  error = some (error_code e);
}

-- An entry is replaced, and its terminal event is published.
abbrev pub conclude : Jobs → Bytes → Entry → JobSnapshot × Jobs
conclude jobs id entry =
    let snapshot = snapshot_of id entry in
    (
      snapshot,
      publish_some (record jobs { entries = upsert id entry jobs.entries })
          (terminal_event snapshot),
    )

unfoldable pub finish : Jobs → Bytes → Result Bytes → Result (JobSnapshot × Jobs)
finish jobs id outcome = do
  entry ← ok_or (lookup id jobs.entries) unsupported
  ok (conclude jobs id (finished_entry entry outcome))

unfoldable pub verified_entry : Entry → CapturedVerificationResult → Entry
verified_entry entry result = record entry {
  state = (job_outcome result).0;
  error = (job_outcome result).1;
  summary_json = none;
  verification = some result;
}

unfoldable pub finish_verification :
    Jobs → Bytes → CapturedVerificationResult → Result (JobSnapshot × Jobs)
finish_verification jobs id result = do
  entry ← ok_or (lookup id jobs.entries) unsupported
  ok (conclude jobs id (verified_entry entry result))

unfoldable pub snapshot : Jobs → Bytes → Result JobSnapshot
snapshot jobs id = do entry ← ok_or (lookup id jobs.entries) unsupported; ok (snapshot_of id entry)

unfoldable pub snapshot_owned : Jobs → Bytes → ℕ → Result JobSnapshot
snapshot_owned jobs id uid = do
  entry ← ok_or (lookup id jobs.entries) unsupported
  refuse (uid != 0 && uid != entry.owner) denied
  ok (snapshot_of id entry)

unfoldable pub owner_of : Jobs → Bytes → Result ℕ
owner_of jobs id = do entry ← ok_or (lookup id jobs.entries) unsupported; ok entry.owner

abbrev pub after_cancel : JobState → JobState
after_cancel pending = job_cancelled
after_cancel state = state

abbrev pub cancelled_entry : Entry → Entry
cancelled_entry entry = record entry { cancel = true; state = after_cancel entry.state }

-- Both parts of `cancel`; the second takes the lock again.
unfoldable pub cancel_job : Jobs → Bytes → Result Jobs
cancel_job jobs id = do
  entry ← ok_or (lookup id jobs.entries) unsupported
  ok (record jobs { entries = upsert id (cancelled_entry entry) jobs.entries })

unfoldable pub cancel : Jobs → Bytes → Result (JobSnapshot × Jobs)
cancel jobs id = do after ← cancel_job jobs id; found ← snapshot after id; ok (found, after)

unfoldable pub list : Jobs → List JobSnapshot
list jobs =
    sort_by (λ left right. leb_bytes left.id right.id) (map (λ e. snapshot_of e.0 e.1) jobs.entries)
