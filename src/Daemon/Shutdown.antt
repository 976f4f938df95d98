-- ===== src/Daemon/Shutdown.antt =====
-- crates/lr-daemon/src/shutdown.rs: when a stopping daemon asks for more time. An instant is a number
-- of nanoseconds. The lines of `describe`, which only people read, are left out.
pub mod Stalled
pub mod Progress
use linuxreflect.Base.{
  ℕ, ◌-◌, ◌*◌, ◌^◌, Bool, Option, none, some, List, [], ◌∷◌, any, ltb, ◌==◌, if◌then◌else◌,
  eq_bytes,
}
use linuxreflect.Base.Assoc.{lookup, upsert, remove}
use linuxreflect.Format.Wire.{Bytes}
use linuxreflect.Daemon.Job.{
  JobEvent, started, phase, bytes, has_finished, has_failed, verification_completed,
}

abbrev pub stall_limit : ℕ
stall_limit = 300 * 10 ^ 9

pub record Seen : Type 0 where
  pub in_phase : Bytes
  pub done : ℕ
  pub total : ℕ
  pub advanced : ℕ

pub record DrainWatch : Type 0 where
  pub since : ℕ
  pub jobs : List (Bytes × Seen)

unfoldable pub new : ℕ → DrainWatch
new now = record { since = now; jobs = [] }

-- The entry of a job, or the one that `or_insert_with` inserts.
abbrev pub or_insert : ℕ → Option Seen → Seen
or_insert since (some entry) = entry
or_insert since none = record { in_phase = []; done = 0; total = 0; advanced = since }

abbrev pub seen : DrainWatch → Bytes → Seen
seen w id = or_insert w.since (lookup id w.jobs)

abbrev pub insert : DrainWatch → Bytes → Seen → DrainWatch
insert w id entry = record w { jobs = upsert id entry w.jobs }

abbrev pub forget : DrainWatch → Bytes → DrainWatch
forget w id = record w { jobs = remove id w.jobs }

abbrev pub see_phase : Seen → Bytes → ℕ → Seen
see_phase entry name now =
    if eq_bytes entry.in_phase name then entry else record entry { in_phase = name; advanced = now }

abbrev pub see_bytes : Seen → ℕ → ℕ → ℕ → Seen
see_bytes entry done total now =
    let moved = if entry.done == done then entry else record entry { advanced = now } in
    record moved { done = done; total = total }

unfoldable pub observe : DrainWatch → JobEvent → ℕ → DrainWatch
observe w (phase id name) now = insert w id (see_phase (seen w id) name now)
observe w (bytes id done total) now = insert w id (see_bytes (seen w id) done total now)
observe w (has_finished id summary) now = forget w id
observe w (has_failed id code) now = forget w id
observe w (verification_completed id result) now = forget w id
observe w (started id) now = w

abbrev pub advanced_or : ℕ → Option Seen → ℕ
advanced_or since (some entry) = entry.advanced
advanced_or since none = since

-- `DrainWatch::advanced`
abbrev pub advanced_at : DrainWatch → Bytes → ℕ
advanced_at w id = advanced_or w.since (lookup id w.jobs)

unfoldable pub should_extend : DrainWatch → List (Bytes × Bytes) → ℕ → Bool
should_extend w active now = any (λ job. ltb (now - advanced_at w job.0) stall_limit) active
