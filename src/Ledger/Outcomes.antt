-- ===== src/Ledger/Outcomes.antt =====
-- The two shapes of what `decide` of lib/task_ledger.py returns.
use mathlib.Core.Option.{none}
use ai_bobnet.Ledger.Registry.{team_lead, limits, Limits}
use ai_bobnet.Ledger.Envelope.{is_rejected}
use ai_bobnet.Base.{
  text_eq, >>=-eq-ok, some, value_error, type_error, sym, raised, ap, err, codes, refl,
  ok-injective, ℕ, ok, List, false, true, Option, Text, ◌≡◌,
}
use ai_bobnet.Ledger.Fold.{Ledger}
use ai_bobnet.Json.{get, str, put, Fields}
use ai_bobnet.Ledger.Types.{event_name, run_requested, EventType, task_rejected, Checked, Reason}
use ai_bobnet.Ledger.Decide.{
  decide_after, settle_kind, settle_engine, World, decide, decide_authorized,
}
use ai_bobnet.Ledger.Requests.{reason_name, caller_actor_reason, Decision, Request, rejection}

-- An accepted decision is the request's own event; any other is the record of a rejection.
pub data IsDecision (q : Request) (d : Decision) : Type 0 where
  accepts :
      d.is_accepted ≡ true
      → d.kind ≡ q.event_type
      → is_rejected q.event_type ≡ false
      → IsDecision q d
  refuses : d.is_accepted ≡ false → d.kind ≡ task_rejected → IsDecision q d

rejection-IsDecision :
    (q : Request) (reason : Reason) (d : Decision) → rejection q reason ≡ d → IsDecision q d
unfolding rejection
rejection-IsDecision q reason d h = rw (← h) (refuses refl refl)

settle_kind-IsDecision :
    (q : Request) (r : Checked Fields) (d : Decision)
    → is_rejected q.event_type ≡ false
    → settle_kind q r ≡ ok d
    → IsDecision q d
settle_kind-IsDecision q (ok payload) d own h = rw (← ok-injective h) (accepts refl refl own)
settle_kind-IsDecision q (err (raised reason)) d own h =
    rejection-IsDecision q reason d (ok-injective h)
settle_kind-IsDecision q (err type_error) d own h = cc
settle_kind-IsDecision q (err value_error) d own h = cc

settle_engine-IsDecision :
    (q : Request) (payload : Fields) (r : Checked Text) (d : Decision)
    → settle_engine q payload r ≡ ok d
    → IsDecision q d
settle_engine-IsDecision q payload (ok reason) d h = rw (← ok-injective h) (refuses refl refl)
settle_engine-IsDecision q payload (err (raised reason)) d h =
    rejection-IsDecision q reason d (ok-injective h)
settle_engine-IsDecision q payload (err type_error) d h = cc
settle_engine-IsDecision q payload (err value_error) d h = cc

module _ (world : World) (q : Request) (current : Ledger) (registry : Fields)
    (body : Option (List ℕ)) (d : Decision) where
  decide_authorized-IsDecision :
      (kind : EventType) (lim : Limits) (payload : Fields) (lead_uid : Text)
      → kind ≡ q.event_type
      → decide_authorized kind world q current registry lim payload lead_uid body ≡ ok d
      → IsDecision q d
  unfolding decide_authorized
  decide_authorized-IsDecision task_rejected lim payload lead_uid same h =
      settle_engine-IsDecision q payload _ d h
  decide_authorized-IsDecision run_requested lim payload lead_uid same h =
      settle_kind-IsDecision q _ d (ap is_rejected (sym same)) h
  decide_authorized-IsDecision _ lim payload lead_uid same h =
      settle_kind-IsDecision q _ d (ap is_rejected (sym same)) h

  pub decide-IsDecision : decide world q current registry body ≡ ok d → IsDecision q d
  unfolding decide
  decide-IsDecision h = go (caller_actor_reason q.caller q.actor_type q.actor_id payload) h
    where
      payload : Fields
      payload = put (codes "caller") (str q.caller) q.payload

      go :
          (refusal : Option Reason)
          → decide_after world q current registry payload body refusal ≡ ok d
          → IsDecision q d
      go (some reason) p = rejection-IsDecision q reason d (ok-injective p)
      go none p =
          let (lim, _, p₁) = >>=-eq-ok (limits world.unicode_digit registry q.team_uid) _ p in
          let (lead_uid, _, p₂) = >>=-eq-ok (team_lead registry q.team_uid) _ p₁ in
          decide_authorized-IsDecision q.event_type lim payload lead_uid refl p₂

-- The record of a refusal names the kind of the request and the reason.
pub record IsRefusal (q : Request) (d : Decision) : Type 0 where
  pub is_refused : d.is_accepted ≡ false
  pub kind_is : d.kind ≡ task_rejected
  pub type_is : get (codes "requested_type") d.payload ≡ str (event_name q.event_type)
  pub reason_is : get (codes "reason") d.payload ≡ str (reason_name d.reason)

rejection-IsRefusal :
    (q : Request) (reason : Reason) (d : Decision) → rejection q reason ≡ d → IsRefusal q d
unfolding rejection get text_eq
rejection-IsRefusal q reason d h =
    rw (← h) (record { is_refused = refl; kind_is = refl; type_is = refl; reason_is = refl })

settle_kind-IsRefusal :
    (q : Request) (r : Checked Fields) (d : Decision)
    → settle_kind q r ≡ ok d
    → d.is_accepted ≡ false
    → IsRefusal q d
settle_kind-IsRefusal q (ok payload) d h refused =
    let was = ap (λ (x : Decision). x.is_accepted) (ok-injective h) in cc
settle_kind-IsRefusal q (err (raised reason)) d h refused =
    rejection-IsRefusal q reason d (ok-injective h)
settle_kind-IsRefusal q (err type_error) d h refused = cc
settle_kind-IsRefusal q (err value_error) d h refused = cc

module _ (world : World) (q : Request) (current : Ledger) (registry : Fields)
    (body : Option (List ℕ)) (d : Decision) where
  decide_authorized-IsRefusal :
      (kind : EventType) (lim : Limits) (payload : Fields) (lead_uid : Text)
      → is_rejected kind ≡ false
      → decide_authorized kind world q current registry lim payload lead_uid body ≡ ok d
      → d.is_accepted ≡ false
      → IsRefusal q d
  unfolding decide_authorized
  decide_authorized-IsRefusal task_rejected lim payload lead_uid own h refused = cc
  decide_authorized-IsRefusal run_requested lim payload lead_uid own h refused =
      settle_kind-IsRefusal q _ d h refused
  decide_authorized-IsRefusal _ lim payload lead_uid own h refused =
      settle_kind-IsRefusal q _ d h refused

  pub decide-IsRefusal :
      is_rejected q.event_type ≡ false
      → decide world q current registry body ≡ ok d
      → d.is_accepted ≡ false
      → IsRefusal q d
  unfolding decide
  decide-IsRefusal own h refused =
      go (caller_actor_reason q.caller q.actor_type q.actor_id payload) h
    where
      payload : Fields
      payload = put (codes "caller") (str q.caller) q.payload

      go :
          (refusal : Option Reason)
          → decide_after world q current registry payload body refusal ≡ ok d
          → IsRefusal q d
      go (some reason) p = rejection-IsRefusal q reason d (ok-injective p)
      go none p =
          let (lim, _, p₁) = >>=-eq-ok (limits world.unicode_digit registry q.team_uid) _ p in
          let (lead_uid, _, p₂) = >>=-eq-ok (team_lead registry q.team_uid) _ p₁ in
          decide_authorized-IsRefusal q.event_type lim payload lead_uid own p₂ refused
