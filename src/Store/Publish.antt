-- ===== src/Store/Publish.antt =====
-- crates/lr-store/src/publish.rs: how a file is published on a remote destination.
pub mod Safety
pub mod Fresh
use linuxreflect.Base.{
  ℕ, zero, suc, Bool, true, false, not, ◌&&◌, Option, none, some, ◌==◌, if◌then◌else◌, ltb,
}
use linuxreflect.Base.Result.{Error, io, network_timeout, unsupported}
use linuxreflect.Format.Wire.{Bytes}
use linuxreflect.Store.Remote.{
  Fault, Reply, replied, failed, Remote, RemoteOps, ◌>>=◌, ◌>>◌, pure, fail,
}

pub data Durability : Type 0 where
  is_synced unconfirmed : Durability

-- `NotFound` is not worth a retry.
abbrev pub vanished : Fault
vanished = record { error = io; is_transient = false }

abbrev pub exists_already : Fault
exists_already = record { error = unsupported; is_transient = false }

abbrev pub gave_up : Fault
gave_up = record { error = network_timeout; is_transient = true }

-- What is made of a failed attempt.
pub data Verdict : Type 0 where
  settled again : Verdict
  broken : Fault → Verdict

-- The last two arms of the match.
abbrev pub judge_retry : Fault → Bool → Verdict
judge_retry fault more = if fault.is_transient && more then again else broken fault

-- The match on the sizes of `from` and `to`.
unfoldable pub judge : Fault → ℕ → Bool → Option ℕ → Option ℕ → Verdict
judge fault expected more none (some size) = if size == expected then settled else broken vanished
judge fault expected more none none = broken vanished
judge fault expected more (some _) (some _) =
    if not fault.is_transient then broken exists_already else judge_retry fault more
judge fault expected more (some _) none = judge_retry fault more

module _ {S : Type 0} (ops : RemoteOps S) where
  unfoldable pub synced : Bytes → Remote S Durability
  synced path = do done ← ops.sync path; pure (if done then is_synced else unconfirmed)

  -- `ops.size(from)?.ok_or_else(|| vanished(from))?`
  unfoldable pub size_or_vanished : Bytes → Remote S ℕ
  size_or_vanished path = do
    found ← ops.size path
    elim found [ some size ↦ pure size | none ↦ fail vanished ]

  abbrev pub act_on : Verdict → Remote S Bool → Remote S Bool
  act_on settled rest = pure true
  act_on again rest = rest
  act_on (broken e) rest = fail e

  -- What follows a failed attempt, where `rest` is the loop from the next round on.
  abbrev pub reconcile : Bytes → Bytes → ℕ → Bool → Fault → Remote S Bool → Remote S Bool
  reconcile from to expected more fault rest = do
    size_from ← ops.size from
    size_to ← ops.size to
    act_on (judge fault expected more size_from size_to) rest

  abbrev pub end_round : Bytes → Bytes → ℕ → Bool → Remote S Bool → Reply Bool × S → Reply Bool × S
  end_round from to expected more rest (replied supported, s) = (replied supported, s)
  end_round from to expected more rest (failed fault, s) =
      reconcile from to expected more fault rest s

  -- The rounds that are left. An attempt answers whether the server supports it, which only
  -- `replace_with` asks; a rename that is settled later was supported. Waiting is left out.
  unfoldable pub renamed_with : Bytes → Bytes → ℕ → ℕ → Remote S Bool → Remote S Bool
  renamed_with from to expected zero attempt s = (failed gave_up, s)
  renamed_with from to expected (suc left) attempt s =
      let rest = renamed_with from to expected left attempt in
      end_round from to expected (ltb 0 left) rest (attempt s)

  abbrev pub rename_attempt : Bytes → Bytes → Remote S Bool
  rename_attempt from to = ops.rename from to >> pure true

  unfoldable pub publish_new_with : Bytes → Bytes → ℕ → Remote S Durability
  publish_new_with from to attempts = do
    durability ← synced from
    expected ← size_or_vanished from
    done ← renamed_with from to expected attempts (rename_attempt from to)
    pure durability

  -- Without an atomic rename: the old copy is moved aside, the new one put in its place, and the old
  -- one removed, whatever comes of that.
  unfoldable pub put_in_place : Bytes → Bytes → ℕ → ℕ → Remote S (Unit {0})
  put_in_place from to expected attempts = do
    done ← renamed_with from to expected attempts (rename_attempt from to)
    pure tt

  unfoldable pub replace_aside : Bytes → Bytes → Bytes → ℕ → ℕ → Remote S (Unit {0})
  replace_aside from to aside expected attempts = do
    found ← ops.size to
    elim found [
      | some size ↦ (do
        moved ← renamed_with to aside size attempts (rename_attempt to aside)
        put_in_place from to expected attempts
        λ s. (replied tt, (ops.remove aside s).1))
      | none ↦ put_in_place from to expected attempts
    ]

  -- The name for the old copy, with its random identifier, is an argument.
  unfoldable pub replace_with : Bytes → Bytes → Bytes → ℕ → Remote S Durability
  replace_with from to aside attempts = do
    durability ← synced from
    expected ← size_or_vanished from
    supported ← renamed_with from to expected attempts (ops.rename_over from to)
    (if supported then pure tt else replace_aside from to aside expected attempts)
    pure durability
