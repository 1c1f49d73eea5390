-- ===== src/Supervisor/Permission.antt =====
-- Which control requests lib/aib_supervisor.py grants.
use ai_bobnet.Supervisor.Rightful.{
  is_busy-IsUnhindered, protection, control_authorized-IsPermitted, is_consumed-All, is_audited-eq,
  is_request-eq, find_request-member, IsRightful,
}
use ai_bobnet.Control.Log.{missing, breaks, Found, found, requested_record}
use ai_bobnet.Json.{Fields}
use ai_bobnet.Supervisor.Machine.{Machine, Setting}
use ai_bobnet.Supervisor.Controls.{
  refused, Verdict, judge_owner, judge_found, judge_allowed, judge_audited, judge_authorized,
  is_audited, granted, is_consumed, Candidate, Authority, judge,
}
use mathlib.Core.Path.{subst₂}
use ai_bobnet.Base.{
  inr, if◌then◌else◌, inl, refl, Bool-cases, Option, Bool, none, codes, arith, ℕ, true, some, false,
  ◌≡◌, Text,
}

-- past a refusal
past :
    (test : Bool) (r r' : Fields) (reason caller caller' : Text) (v : Verdict)
    → (if test then refused r reason caller else v) ≡ granted r' caller'
    → (test ≡ false) × (v ≡ granted r' caller')
past true r r' reason caller caller' v h = cc
past false r r' reason caller caller' v h = (refl, h)

granted-injective :
    {r r' : Fields} {caller caller' : Text}
    → granted r caller ≡ granted r' caller'
    → (r ≡ r') × (caller ≡ caller')
granted-injective h = (ground arith, ground arith)

module _ (a : Authority) (c : Candidate) (m : Machine) (caller : Text) (r : Fields) {r' : Fields}
    {caller' : Text} where
  authorized_case :
      (o : Option Bool)
      → judge_authorized a c caller r m o ≡ granted r' caller'
      → (o ≡ some true) × (judge_allowed a c caller r m ≡ granted r' caller')
  unfolding judge_authorized
  authorized_case none h = cc
  authorized_case (some false) h = cc
  authorized_case (some true) h = (refl, h)

module _ (s : Setting) (a : Authority) (c : Candidate) (m : Machine) where
  audited_case :
      (owner : ℕ) (r : Fields) {r' : Fields} {caller : Text}
      → is_consumed c.sequence m.core.consumed ≡ false
      → c.owner ≡ some owner
      → requested_record c.sequence m.control_log ≡ found r
      → is_audited s c (a.identity owner) r ≡ true
      → judge_audited a c (a.identity owner) r m ≡ granted r' caller
      → IsRightful s a c m r' caller
  unfolding judge_audited judge_allowed
  audited_case owner r {r'} {caller} fresh owner_is logged audited h =
      let by = a.identity owner in
      let (known, after_verb) = past _ r r' (codes "unknown_verb") by caller _ h in
      let (allowed, after_authority) = authorized_case a c m by r _ after_verb in
      let (unprotected, after_protection) =
        past _ r r' (codes "protected") by caller _ after_authority in
      let (unhindered, granted_r) =
        past _ r r' (codes "busy") by caller (granted r by) after_protection in
      let (same_r, same_caller) = granted-injective granted_r in
      let (there, requested) = find_request-member c.sequence m.control_log.lines logged in
      let (event_is, number_is) = is_request-eq c.sequence r requested in
      let (target_is, verb_is, requested_by) = is_audited-eq s c by r audited in
      subst₂ (IsRightful s a c m) same_r same_caller (record {
        fresh = is_consumed-All c.sequence m.core.consumed fresh;
        owner = owner;
        owner_is = owner_is;
        caller_is = refl;
        logged = there;
        event_is = event_is;
        number_is = number_is;
        target_is = target_is;
        verb_is = verb_is;
        requested_by = requested_by;
        permitted = control_authorized-IsPermitted a.agents by c.verb r allowed;
        unprotected = protection c.verb a.protected unprotected;
        unhindered = is_busy-IsUnhindered m c.verb r known unhindered;
      })

  found_case :
      (owner : ℕ) (f : Found) {r' : Fields} {caller : Text}
      → is_consumed c.sequence m.core.consumed ≡ false
      → c.owner ≡ some owner
      → requested_record c.sequence m.control_log ≡ f
      → judge_found s a c (a.identity owner) m f ≡ granted r' caller
      → IsRightful s a c m r' caller
  unfolding judge_found
  found_case owner breaks fresh owner_is logged h = cc
  found_case owner missing fresh owner_is logged h = cc
  found_case owner (found r) fresh owner_is logged h =
      elim (Bool-cases (is_audited s c (a.identity owner) r)) [
        | inl audited ↦ audited_case owner r fresh owner_is logged audited cc
        | inr foreign ↦ cc
      ]

  owner_case :
      (o : Option ℕ) {r' : Fields} {caller : Text}
      → is_consumed c.sequence m.core.consumed ≡ false
      → c.owner ≡ o
      → judge_owner s a c m o ≡ granted r' caller
      → IsRightful s a c m r' caller
  unfolding judge_owner
  owner_case none fresh owner_is h = cc
  owner_case (some owner) fresh owner_is h =
      found_case owner (requested_record c.sequence m.control_log) fresh owner_is refl h

  -- A verdict grants a request only rightfully: its number is none of those that are consumed; it stands in the control
  -- log as a request with this number, for this agent and with this verb, by the caller who owns the file; the caller
  -- is human, or for neustart, feierabend and standup also a gateway, or a role that claims a lead; the guardian's and the
  -- gateway's agents are not shut down; and no turn runs, or the brake is to be reset, or a restart or a shutdown is
  -- forced.
  pub judge-IsRightful :
      {r : Fields} {caller : Text} → judge s a c m ≡ granted r caller → IsRightful s a c m r caller
  unfolding judge
  judge-IsRightful h = elim (Bool-cases (is_consumed c.sequence m.core.consumed)) [
    | inl used ↦ cc
    | inr fresh ↦ owner_case c.owner fresh refl cc
  ]
