-- ===== src/Broker/Security.antt =====
-- `peer_agent` and `groups_safe` of lib/aib_broker_security.py, on what they have read of the
-- system: the peer's credentials, its identity, the owner of the target directory, the environment.
use ai_bobnet.Base.{
  ◌&&◌, is_uid, starts_with, any, false, is_digit, not, ◌==◌, ltb, List, none, some, if◌then◌else◌,
  Bool, codes, ℕ, Text, Option, [], ◌∷◌, ◌+◌, ◌*◌, ◌-◌,
}

pub data Authorization : Type 0 where
  allow deny : Authorization

pub data Why : Type 0 where
  peer_credentials_unavailable role_config_unavailable peer_unauthorized root_supervisor
        human_operator target_role_unavailable target_role_mismatch :
      Why

pub data Stage : Type 0 where
  peer confine : Stage

-- The readings of one call: `peer_uid()` (none if it raises), `identity_for`,
-- `configured_role_uids() is None`, whether AIB_SUP_STATE_ROOT is set, `target_owner`, and
-- AIB_ROLE_UID as a decimal number.
pub record Peer : Type 0 where
  pub uid : Option ℕ
  pub identity : ℕ → Text
  pub roles_unreadable : Bool
  pub confined : Bool
  pub owner : Option ℕ
  pub role_uid : Option ℕ

-- the lines that are printed
pub record Answer : Type 0 where
  pub authorization : Authorization
  pub reason : Why
  pub stage : Stage
  pub caller : Text
  pub peer_uid : Option ℕ
  pub target_uid : Option ℕ
  pub role_uid : Option ℕ

-- `target_owner`, from the owner of a directory that is one
unfoldable pub target_owner : Option ℕ → Option ℕ
target_owner none = none
target_owner (some uid) = if ltb uid 1000 then none else some uid

abbrev caller_of : Peer → ℕ → Text
caller_of p uid = if uid == 0 then codes "root:root" else p.identity uid

-- the first verdict, by the peer alone
unfoldable pub peer_verdict : Peer → ℕ → Authorization × Why
peer_verdict p uid =
    let caller = caller_of p uid in
    if uid == 0
    then (allow, root_supervisor)
    else if starts_with (codes "human:") caller
    then (allow, human_operator)
    else (
      deny,
      if starts_with (codes "unknown:") caller && p.roles_unreadable
          then role_config_unavailable
          else peer_unauthorized,
    )

-- the verdict on the target: none where it changes nothing
unfoldable pub confine_verdict : Option ℕ → Option ℕ → Option Why
confine_verdict none role = some target_role_unavailable
confine_verdict (some target) none = some target_role_unavailable
confine_verdict (some target) (some role) =
    if ltb role 1000
    then some target_role_unavailable
    else if target == role
    then none
    else some target_role_mismatch

abbrev target_of : Peer → Option ℕ
target_of p = if p.confined then target_owner p.owner else none

abbrev refusal : Peer → Authorization → Option Why
refusal p deny = none
refusal p allow = if p.confined then confine_verdict (target_of p) p.role_uid else none

unfoldable pub answer : Peer → ℕ → Answer
answer p uid =
    let (authorization, reason) = peer_verdict p uid in
    elim (refusal p authorization) [
      | none ↦ record {
        authorization = authorization;
        reason = reason;
        stage = peer;
        caller = caller_of p uid;
        peer_uid = some uid;
        target_uid = target_of p;
        role_uid = p.role_uid;
      }
      | some why ↦ record {
        authorization = deny;
        reason = why;
        stage = confine;
        caller = caller_of p uid;
        peer_uid = some uid;
        target_uid = target_of p;
        role_uid = p.role_uid;
      }
    ]

abbrev unavailable : Answer
unavailable = record {
  authorization = deny;
  reason = peer_credentials_unavailable;
  stage = peer;
  caller = codes "unknown:peer";
  peer_uid = none;
  target_uid = none;
  role_uid = none;
}

-- `peer_agent`: the exit status, and what is printed
unfoldable pub peer_agent : Peer → Text → ℕ × Option Answer
peer_agent p target =
    if not (is_uid target)
    then (2, none)
    else elim p.uid [ none ↦ (0, some unavailable) | some uid ↦ (0, some (answer p uid)) ]

-- The groups of `raw.split(",")`, read as numbers; `none` if GROUPS_RE does not match. The flag says
-- whether the item has a digit already.
unfoldable pub groups_of : ℕ → Bool → Text → Option (List ℕ)
groups_of n seen [] = if seen then some (n ∷ []) else none
groups_of n seen (c ∷ s) =
    let rest = groups_of (if is_digit c then n * 10 + (c - b'0') else 0) (is_digit c) s in
    if is_digit c
    then rest
    else if seen && c == b','
    then elim rest [ none ↦ none | some gs ↦ some (n ∷ gs) ]
    else none

abbrev listed : Text → Option (List ℕ)
listed [] = some []
listed (c ∷ s) = groups_of 0 false (c ∷ s)

-- `groups_safe`, with the primary group as a decimal number and the shared group's number
unfoldable pub groups_safe : Text → Option ℕ → Option ℕ → ℕ
unfolding groups_of
groups_safe raw primary shared = elim (listed raw) [
  | none ↦ 2
  | some groups ↦ elim primary [
    | none ↦ 2
    | some group ↦ elim shared [
      | none ↦ 4
      | some forbidden ↦ if any (λ g. g == forbidden) (group ∷ groups) then 3 else 0
    ]
  ]
]
