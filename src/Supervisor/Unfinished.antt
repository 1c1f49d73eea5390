-- ===== src/Supervisor/Unfinished.antt =====
-- The turn that `restore` of lib/aib_supervisor.py returns, and the release of the brake that it does not see.
use ai_bobnet.Supervisor.Memory.{as_int, is_text, initial_core}
use ai_bobnet.Supervisor.Recovery.{journal-Replays, Replays}
use ai_bobnet.Json.{is_str, get, null, ℤ, Fields}
use ai_bobnet.Supervisor.Results.{release_brake, count_turn}
use ai_bobnet.Supervisor.Machine.{Machine, Work, Setting, journal}
use ai_bobnet.Supervisor.Turns.{end_turn}
use ai_bobnet.Supervisor.Restore.{
  turn_position, succeeded, braked, ended, restore_record, restore_records, event_is, Positions,
  healed, unfinished, turn_positions,
}
use ai_bobnet.Base.{
  ◌<◌, ap, text_eq, refl, inr, ◌∙◌, false, ◌+◌, inl, some, codes, arith, Bool-cases, ltb, Text, ◌≡◌,
  ◌≤◌, if◌then◌else◌, Option, ℕ, List, [], ◌∷◌, none,
}

-- the turn that runs after this record, if that one ran before
abbrev pub run_step : Fields → Option Fields → Option Fields
run_step r running =
    if event_is r (codes "turn.started")
    then some r
    else if event_is r (codes "turn.ended")
    then none
    else running

abbrev pub running_after : List Fields → Option Fields → Option Fields
running_after [] running = running
running_after (r ∷ records) running = running_after records (run_step r running)

abbrev open_turn : Positions → Option Fields
open_turn p = if ltb p.end_index p.start_index then p.latest_start else none

-- the positions are at most this
abbrev AreBelow : ℕ → Positions → Type 0
AreBelow index p = (p.start_index ≤ index) × (p.end_index ≤ index)

turn_position-AreBelow :
    (index : ℕ) (r : Fields) (p : Positions)
    → AreBelow index p
    → AreBelow (index + 1) (turn_position index r p)
unfolding turn_position
turn_position-AreBelow index r p below = elim (Bool-cases (event_is r (codes "turn.started"))) [
  | inl starts ↦ rw starts (omega arith, omega (arith, below.1))
  | inr other ↦ elim (Bool-cases (event_is r (codes "turn.ended"))) [
    | inl ends ↦ rw (other, ends) (omega (arith, below.0), omega arith)
    | inr stays ↦ rw (other, stays) (omega (arith, below.0), omega (arith, below.1))
  ]
]

open_turn-position :
    (index : ℕ) (r : Fields) (p : Positions)
    → AreBelow index p
    → open_turn (turn_position index r p) ≡ run_step r (open_turn p)
unfolding turn_position
open_turn-position index r p below = elim (Bool-cases (event_is r (codes "turn.started"))) [
  | inl starts ↦ rw starts (shown (index + 1) p.end_index (some r) (omega (arith, below.1)))
  | inr other ↦ elim (Bool-cases (event_is r (codes "turn.ended"))) [
    | inl ends ↦
        rw (other, ends) (hidden p.start_index (index + 1) p.latest_start (omega (arith, below.0)))
    | inr stays ↦ rw (other, stays) refl
  ]
]
  where
    shown :
        (start last : ℕ) (o : Option Fields)
        → last < start
        → (if ltb last start then o else none) ≡ o
    shown start last o before = ground arith

    hidden :
        (start last : ℕ) (o : Option Fields)
        → start ≤ last
        → (if ltb last start then o else none) ≡ none
    hidden start last o before = ground arith

positions_running :
    (index : ℕ) (records : List Fields) (p : Positions)
    → AreBelow index p
    → open_turn (turn_positions index records p) ≡ running_after records (open_turn p)
unfolding turn_positions
positions_running index [] p below = refl
positions_running index (r ∷ records) p below =
    positions_running (index + 1) records (turn_position index r p)
      (turn_position-AreBelow index r p below)
    ∙ ap (running_after records) (open_turn-position index r p below)

-- The turn that `restore` finds unfinished by comparing positions is the one that runs after all records: each
-- start makes its turn the running one, each end leaves none.
pub unfinished-running_after :
    (records : List Fields) → unfinished records ≡ running_after records none
unfolding unfinished
unfinished-running_after records =
    positions_running 0 records (record { latest_start = none; start_index = 0; end_index = 0 })
      (omega arith, omega arith)

module _ (s : Setting) where
  -- a good turn up to its record
  abbrev pub good_turn : Work → Text → Text → ℤ → Machine → Machine
  good_turn work session_arg attempt_id rc m =
      end_turn s work attempt_id (codes "ok") rc false none
        (record m { core = count_turn (release_brake session_arg m.core) })

  -- After a good turn that releases the brake, with no lost sessions before, the memory says that the brake has
  -- not tripped; the journal replays to the time of tripping from before the turn.
  pub release_not_restored :
      (work : Work) (session_arg attempt_id : Text) (rc : ℤ) (m : Machine)
      → Replays s m m.core
      → m.core.persistence_failure_streak ≡ 0
      → ((good_turn work session_arg attempt_id rc m).core.brake_tripped_at ≡ null)
        × ((restore_records s.text_of
              (good_turn work session_arg attempt_id rc m).records
              initial_core).brake_tripped_at
            ≡ m.core.brake_tripped_at)
  unfolding end_turn journal count_turn release_brake healed restore_record ended braked succeeded
      get is_str text_eq is_text as_int
  release_not_restored work session_arg attempt_id rc m replays kept = (
    rw kept refl,
    ap (λ c. c.brake_tripped_at) (journal-Replays s (codes "turn.ended") _ counted replays)
        ∙ rw kept refl,
  )
    where
      counted : Machine
      counted = record m { core = count_turn (release_brake session_arg m.core) }
