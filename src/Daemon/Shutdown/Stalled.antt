-- ===== src/Daemon/Shutdown/Stalled.antt =====
-- A job that makes no progress earns a stopping daemon no time.
use linuxreflect.Base.{
  ℕ, ◌+◌, ◌-◌, ◌≤◌, ◌≡◌, ◌≢◌, refl, sym, subst, ap, ◌∙◌, true, false, Option, none, some, List, [],
  ◌∷◌, All, All-map_of, ltb, ==_iff, eq_bytes, eq_bytes_refl, inl, inr, arith,
}
use linuxreflect.Base.Assoc.{
  lookup, lookup-upsert, lookup-upsert_other, lookup-remove_other, eq_bytes-cases,
}
use linuxreflect.Format.Wire.{Bytes}
use linuxreflect.Daemon.Job.{
  JobEvent, started, phase, bytes, has_finished, has_failed, verification_completed,
}
use linuxreflect.Daemon.Shutdown.{
  DrainWatch, Seen, seen, or_insert, advanced_or, advanced_at, insert, forget, see_phase, see_bytes,
  observe, should_extend, stall_limit,
}

-- All events, each with the time it was seen at.
unfoldable pub observe_all : DrainWatch → List (JobEvent × ℕ) → DrainWatch
observe_all w [] = w
observe_all w ((event, now) ∷ later) = observe_all (observe w event now) later

-- The event is about another job, or repeats the phase or the count of the bytes that the watch has
-- seen of this one.
unfoldable pub Idle : DrainWatch → Bytes → JobEvent → Type 0
Idle w id (started other) = Unit
Idle w id (phase other name) = id ≡ other → (seen w id).in_phase ≡ name
Idle w id (bytes other done total) = id ≡ other → (seen w id).done ≡ done
Idle w id (has_finished other summary) = id ≢ other
Idle w id (has_failed other code) = id ≢ other
Idle w id (verification_completed other result) = id ≢ other

-- The phase, the count and the time of the last progress of a job are the same.
abbrev pub SameProgress : Bytes → DrainWatch → DrainWatch → Type 0
SameProgress id w w' =
    ((seen w' id).in_phase ≡ (seen w id).in_phase)
    × ((seen w' id).done ≡ (seen w id).done)
    × (advanced_at w' id ≡ advanced_at w id)
    × (w'.since ≡ w.since)

pub advanced-or_insert : (n : ℕ) (o : Option Seen) → (or_insert n o).advanced ≡ advanced_or n o
advanced-or_insert n none = refl
advanced-or_insert n (some entry) = refl

-- A job whose entry was not touched.
untouched :
    (w w' : DrainWatch) (id : Bytes)
    → w'.since ≡ w.since
    → lookup id w'.jobs ≡ lookup id w.jobs
    → SameProgress id w w'
untouched w w' id s e =
    let entry : seen w' id ≡ seen w id = λ i. or_insert (s i) (e i) in
    (ap (λ x. x.in_phase) entry, ap (λ x. x.done) entry, λ i. advanced_or (s i) (e i), s)

-- An entry with the progress seen takes the place of the one that is there.
inserted :
    (w : DrainWatch) (id : Bytes) (entry : Seen)
    → entry.in_phase ≡ (seen w id).in_phase
    → entry.done ≡ (seen w id).done
    → entry.advanced ≡ (seen w id).advanced
    → SameProgress id w (insert w id entry)
inserted w id entry p d a =
    let found = lookup-upsert id entry w.jobs in
    let new_entry : seen (insert w id entry) id ≡ entry = ap (or_insert w.since) found in
    (
      ap (λ (x : Seen). x.in_phase) new_entry ∙ p,
      ap (λ (x : Seen). x.done) new_entry ∙ d,
      ap (advanced_or w.since) found ∙ a ∙ advanced-or_insert w.since (lookup id w.jobs),
      refl,
    )

inserted_for :
    (w : DrainWatch) (id other : Bytes) (entry : Seen)
    → (id ≡ other → SameProgress id w (insert w id entry))
    → SameProgress id w (insert w other entry)
inserted_for w id other entry h = elim (eq_bytes-cases id other) [
  | inl (e, same) ↦ subst (λ k. SameProgress id w (insert w k entry)) same (h same)
  | inr (e, d) ↦
      untouched w (insert w other entry) id refl
        (lookup-upsert_other other id entry w.jobs (λ p. d (sym p)))
]

forgotten : (w : DrainWatch) (id other : Bytes) → id ≢ other → SameProgress id w (forget w other)
forgotten w id other d =
    untouched w (forget w other) id refl (lookup-remove_other other id w.jobs (λ p. d (sym p)))

repeated_phase :
    (entry : Seen) (name : Bytes) (now : ℕ)
    → entry.in_phase ≡ name
    → see_phase entry name now ≡ entry
repeated_phase entry name now e =
    rw (subst (λ n. eq_bytes entry.in_phase n ≡ true) e (eq_bytes_refl entry.in_phase)) refl

repeated_bytes :
    (entry : Seen) (done total now : ℕ)
    → entry.done ≡ done
    → see_bytes entry done total now ≡ record entry { done = done; total = total }
repeated_bytes entry done total now e = rw ((==_iff entry.done done).1 e) refl

observe-SameProgress :
    (w : DrainWatch) (id : Bytes) (event : JobEvent) (now : ℕ)
    → Idle w id event
    → SameProgress id w (observe w event now)
unfolding Idle observe
observe-SameProgress w id (started other) now h = (refl, refl, refl, refl)
observe-SameProgress w id (phase other name) now h =
    let entry = see_phase (seen w other) name now in
    inserted_for w id other entry (λ same.
      let e : seen w other ≡ seen w id = ap (seen w) (sym same) in
      let r : entry ≡ seen w id =
        repeated_phase (seen w other) name now (ap (λ (x : Seen). x.in_phase) e ∙ h same) ∙ e in
      inserted w id entry (ap (λ (x : Seen). x.in_phase) r) (ap (λ (x : Seen). x.done) r)
        (ap (λ (x : Seen). x.advanced) r))
observe-SameProgress w id (bytes other done total) now h =
    let entry = see_bytes (seen w other) done total now in
    inserted_for w id other entry (λ same.
      let e : seen w other ≡ seen w id = ap (seen w) (sym same) in
      let r : entry ≡ record (seen w other) { done = done; total = total } =
        repeated_bytes (seen w other) done total now (ap (λ (x : Seen). x.done) e ∙ h same) in
      inserted w id entry (ap (λ (x : Seen). x.in_phase) r ∙ ap (λ (x : Seen). x.in_phase) e)
        (ap (λ (x : Seen). x.done) r ∙ sym (h same))
        (ap (λ (x : Seen). x.advanced) r ∙ ap (λ (x : Seen). x.advanced) e))
observe-SameProgress w id (has_finished other summary) now h = forgotten w id other h
observe-SameProgress w id (has_failed other code) now h = forgotten w id other h
observe-SameProgress w id (verification_completed other result) now h = forgotten w id other h

-- What is idle for a watch is idle for one with the same progress.
Idle-SameProgress :
    (w w' : DrainWatch) (id : Bytes) (event : JobEvent)
    → SameProgress id w w'
    → Idle w id event
    → Idle w' id event
unfolding Idle
Idle-SameProgress w w' id (started other) (p, d, a, s) h = tt
Idle-SameProgress w w' id (phase other name) (p, d, a, s) h = λ same. p ∙ h same
Idle-SameProgress w w' id (bytes other done total) (p, d, a, s) h = λ same. d ∙ h same
Idle-SameProgress w w' id (has_finished other summary) same h = h
Idle-SameProgress w w' id (has_failed other code) same h = h
Idle-SameProgress w w' id (verification_completed other result) same h = h

abbrev pub AllIdle : DrainWatch → Bytes → List (JobEvent × ℕ) → Type 0
AllIdle w id events = All (λ e. Idle w id e.0) events

observe_all-advanced :
    (events : List (JobEvent × ℕ)) (w : DrainWatch) (id : Bytes)
    → AllIdle w id events
    → advanced_at (observe_all w events) id ≡ advanced_at w id
unfolding observe_all
observe_all-advanced [] w id h = refl
observe_all-advanced ((event, now) ∷ later) w id (i, h) =
    let w' = observe w event now in
    let same = observe-SameProgress w id event now i in
    let h' = All-map_of (λ e (k : Idle w id e.0). Idle-SameProgress w w' id e.0 same k) later h in
    observe_all-advanced later w' id h' ∙ same.2

-- Whatever events come, when each active job made no progress in them, repeating its phase and its
-- count of bytes at most, and made its last progress at least the stall limit ago, the daemon asks for
-- no more time.
pub should_extend-stalled :
    (w : DrainWatch) (events : List (JobEvent × ℕ)) (active : List (Bytes × Bytes)) (now : ℕ)
    → All (λ job. AllIdle w job.0 events × (advanced_at w job.0 + stall_limit ≤ now)) active
    → should_extend (observe_all w events) active now ≡ false
unfolding should_extend
should_extend-stalled w events [] now h = refl
should_extend-stalled w events ((id, set) ∷ active) now ((idle, late), h) =
    let rest = should_extend-stalled w events active now h in
    let same = observe_all-advanced events w id idle in
    let over : ltb (now - advanced_at (observe_all w events) id) stall_limit ≡ false =
      rw same (ground arith) in
    rw (over, rest) refl
