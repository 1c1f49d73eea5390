-- ===== src/Supervisor/Rightful.antt =====
-- What makes a control request of lib/aib_supervisor.py rightful, and what the tests of the verdict say of it.
use ai_bobnet.Supervisor.Memory.{truthy}
use ai_bobnet.Supervisor.Machine.{Attempt, Setting, Machine}
use ai_bobnet.Supervisor.Controls.{
  is_forced, is_running, operator_verbs, duty_verbs, is_lead, Candidate, Authority, is_consumed,
  is_busy, control_authorized, is_audited,
}
use ai_bobnet.Json.{
  as_obj, pos, bool, obj, int, get, among, value_eq, str, get_or, Value, Fields, is_str,
}
use mathlib.Core.Path.{subst}
use mathlib.Core.Option.{none, some-injective}
use mathlib.Core.Option
use mathlib.Core.List.Memᴰ.{head, tail}
use ai_bobnet.Control.Log.{is_request, find_request, found, undecodable, not_object, entry, Line}
use ai_bobnet.Base.{
  inr, inl, ◌≢◌, and_true, sym, text_eq_iff, refl, ◌||◌, Bool-cases, any-member, ap, false, some,
  ◌&&◌, true, arith, ◌⊎◌, starts_with, not, text_eq, Option, List, ◌≡◌, codes, Bool, ℕ, Text, [],
  ◌∷◌, All, Memᴰ,
}

-- The agent that a record claims for its actor is a lead in the registry.
pub record ClaimsLead (agents request : Fields) : Type 0 where
  actor : Text
  actor_is : get_or (codes "actor") (str []) request ≡ str actor
  entry_of : Fields
  entry_is : get actor agents ≡ obj entry_of
  lead : get (codes "lead") entry_of ≡ str (codes "true")

-- The caller may use the verb: each of the five as a human; neustart, feierabend and standup also as a gateway, or
-- as a role whose request claims a lead.
pub data IsPermitted (agents : Fields) (caller verb : Text) (request : Fields) : Type 0 where
  as_human :
      Memᴰ verb (
        codes "neustart"
        ∷ codes "feierabend"
        ∷ codes "standup"
        ∷ codes "abschalten"
        ∷ codes "reset-brake"
        ∷ [])
      → starts_with (codes "human:") caller ≡ true
      → IsPermitted agents caller verb request
  as_gateway :
      Memᴰ verb (codes "neustart" ∷ codes "feierabend" ∷ codes "standup" ∷ [])
      → starts_with (codes "gateway:") caller ≡ true
      → IsPermitted agents caller verb request
  as_lead :
      Memᴰ verb (codes "neustart" ∷ codes "feierabend" ∷ codes "standup" ∷ [])
      → starts_with (codes "role:") caller ≡ true
      → ClaimsLead agents request
      → IsPermitted agents caller verb request

-- No turn is in the way: none runs, or the brake is to be reset, or a restart or a shutdown is forced.
pub data IsUnhindered (m : Machine) (verb : Text) (request : Fields) : Type 0 where
  idle : m.attempt ≡ none → IsUnhindered m verb request
  resetting : verb ≡ codes "reset-brake" → IsUnhindered m verb request
  forced :
      (verb ≡ codes "neustart") ⊎ (verb ≡ codes "abschalten")
      → truthy (get_or (codes "force") (bool false) request) ≡ true
      → IsUnhindered m verb request

-- A request that is granted: its number is none of those that are consumed; it stands in the control log as a request
-- with this number, this target and this verb, by the caller, who owns the file; the caller may use the verb; a
-- protected agent is not shut down; and no turn is in the way.
pub record IsRightful (s : Setting) (a : Authority) (c : Candidate) (m : Machine) (r : Fields)
    (caller : Text) : Type 0 where
  pub fresh : All (λ v. value_eq v (int (pos c.sequence)) ≡ false) m.core.consumed
  pub owner : ℕ
  pub owner_is : c.owner ≡ some owner
  pub caller_is : caller ≡ a.identity owner
  pub logged : Memᴰ (entry r) m.control_log.lines
  pub event_is : get (codes "event") r ≡ str (codes "ctl.requested")
  pub number_is : value_eq (get (codes "seq") r) (int (pos c.sequence)) ≡ true
  pub target_is : get (codes "target") r ≡ str s.uid
  pub verb_is : get (codes "verb") r ≡ str c.verb
  pub requested_by : get (codes "caller") r ≡ str caller
  pub permitted : IsPermitted a.agents caller c.verb r
  pub unprotected :
      c.verb ≡ codes "abschalten"
      → (a.protected ≢ codes "guardian") × (a.protected ≢ codes "gateway")
  pub unhindered : IsUnhindered m c.verb r

found-injective : {r r' : Fields} → found r ≡ found r' → r ≡ r'
found-injective same = ground arith

is_str-eq : (v : Value) (t : Text) → is_str v t ≡ true → v ≡ str t
unfolding is_str
is_str-eq (str u) t h = ap str ((text_eq_iff u t).0 h)
is_str-eq _ t h = cc

among-member : (t : Text) (names : List Text) → among t names ≡ true → Memᴰ t names
among-member t names h =
    let (name, there, same) = any-member (λ u. text_eq t u) names h in
    subst (λ x. Memᴰ x names) (sym ((text_eq_iff t name).0 same)) there

-- What a request that is found is like.
pub find_request-member :
    (n : ℕ) (lines : List Line) {r : Fields}
    → find_request n lines ≡ found r
    → Memᴰ (entry r) lines × (is_request n r ≡ true)
unfolding find_request
find_request-member n [] h = cc
find_request-member n (entry r' ∷ lines) {r} h = elim (Bool-cases (is_request n r')) [
  | inl this ↦
      let same : r' ≡ r = found-injective (ground arith) in
      (head (ap entry (sym same)), subst (λ x. is_request n x ≡ true) same this)
  | inr other ↦ let (there, fits) = find_request-member n lines (ground arith) in (tail there, fits)
]
find_request-member n (not_object ∷ lines) h = cc
find_request-member n (undecodable ∷ lines) h = cc

pub is_request-eq :
    (n : ℕ) (r : Fields)
    → is_request n r ≡ true
    → (get (codes "event") r ≡ str (codes "ctl.requested"))
      × (value_eq (get (codes "seq") r) (int (pos n)) ≡ true)
unfolding is_request
is_request-eq n r h =
    let (event, number) = and_true _ _ h in
    (is_str-eq (get (codes "event") r) (codes "ctl.requested") event, number)

pub is_audited-eq :
    (s : Setting) (c : Candidate) (caller : Text) (r : Fields)
    → is_audited s c caller r ≡ true
    → (get (codes "target") r ≡ str s.uid)
      × (get (codes "verb") r ≡ str c.verb)
      × (get (codes "caller") r ≡ str caller)
unfolding is_audited
is_audited-eq s c caller r h = (
  is_str-eq (get (codes "target") r) s.uid (ground arith),
  is_str-eq (get (codes "verb") r) c.verb (ground arith),
  is_str-eq (get (codes "caller") r) caller (ground arith),
)

leads :
    (is_role : Bool) (o : Option Bool)
    → Option.map (λ lead. is_role && lead) o ≡ some true
    → (is_role ≡ true) × (o ≡ some true)
leads is_role none h = cc
leads true (some true) h = (refl, refl)
leads true (some false) h = ground arith
leads false (some lead) h = ground arith

is_lead-ClaimsLead :
    (agents r : Fields)
    → is_lead agents (get_or (codes "actor") (str []) r) ≡ some true
    → ClaimsLead agents r
unfolding is_lead as_obj
is_lead-ClaimsLead agents r = go (get_or (codes "actor") (str []) r) refl
  where
    claimed :
        (actor : Text) (v : Value)
        → get_or (codes "actor") (str []) r ≡ str actor
        → get actor agents ≡ v
        → (elim (as_obj v) [
          | none ↦ some false
          | some claimed ↦ some (is_str (get (codes "lead") claimed) (codes "true"))
        ])
          ≡ some true
        → ClaimsLead agents r
    claimed actor (obj f) p q h = record {
      actor = actor;
      actor_is = p;
      entry_of = f;
      entry_is = q;
      lead = is_str-eq (get (codes "lead") f) (codes "true") (some-injective _ true h);
    }
    claimed actor _ p q h = cc

    go :
        (v : Value)
        → get_or (codes "actor") (str []) r ≡ v
        → is_lead agents v ≡ some true
        → ClaimsLead agents r
    go (str actor) p h = claimed actor (get actor agents) p refl h
    go _ p h = cc

pub control_authorized-IsPermitted :
    (agents : Fields) (caller verb : Text) (r : Fields)
    → control_authorized agents caller verb r ≡ some true
    → IsPermitted agents caller verb r
unfolding control_authorized
control_authorized-IsPermitted agents caller verb r h = elim (Bool-cases (among verb duty_verbs)) [
  | inl on_duty ↦ elim (Bool-cases (starts_with (codes "human:") caller)) [
    | inl human ↦ as_human (among-member verb _ (ground arith)) human
    | inr not_human ↦ elim (Bool-cases (starts_with (codes "gateway:") caller)) [
      | inl gateway ↦ as_gateway (among-member verb _ on_duty) gateway
      | inr stranger ↦
          let (is_role, lead) =
            leads (starts_with (codes "role:") caller)
              (is_lead agents (get_or (codes "actor") (str []) r)) (ground arith) in
          as_lead (among-member verb _ on_duty) is_role (is_lead-ClaimsLead agents r lead)
    ]
  ]
  | inr off_duty ↦ as_human (among-member verb _ (ground arith)) (ground arith)
]

pub protection :
    (verb protected : Text)
    → (text_eq verb (codes "abschalten")
        && (text_eq protected (codes "guardian") || text_eq protected (codes "gateway")))
      ≡ false
    → verb ≡ codes "abschalten"
    → (protected ≢ codes "guardian") × (protected ≢ codes "gateway")
protection verb protected h down =
    let is_down = (text_eq_iff verb (codes "abschalten")).1 down in
    (
      (λ same. let p = (text_eq_iff protected (codes "guardian")).1 same in ground arith),
      (λ same. let p = (text_eq_iff protected (codes "gateway")).1 same in ground arith),
    )

pub is_busy-IsUnhindered :
    (m : Machine) (verb : Text) (r : Fields)
    → not (among verb duty_verbs || among verb operator_verbs) ≡ false
    → (is_running m && is_busy verb r) ≡ false
    → IsUnhindered m verb r
unfolding is_busy
is_busy-IsUnhindered m verb r known h = go m.attempt refl h
  where
    busy : Bool
    busy =
        among verb (codes "feierabend" ∷ codes "standup" ∷ [])
        || (among verb (codes "neustart" ∷ codes "abschalten" ∷ []) && not (is_forced r))

    go :
        (o : Option Attempt)
        → m.attempt ≡ o
        → (elim o [ none ↦ false | some _ ↦ true ] && busy) ≡ false
        → IsUnhindered m verb r
    go none p h = idle p
    go (some id) p h = elim (Bool-cases (text_eq verb (codes "reset-brake"))) [
      | inl reset ↦ resetting ((text_eq_iff verb (codes "reset-brake")).0 reset)
      | inr other ↦ elim (Bool-cases (text_eq verb (codes "neustart"))) [
        | inl restart ↦
            forced (inl ((text_eq_iff verb (codes "neustart")).0 restart)) (ground arith)
        | inr another ↦
            let down : text_eq verb (codes "abschalten") ≡ true = ground arith in
            forced (inr ((text_eq_iff verb (codes "abschalten")).0 down)) (ground arith)
      ]
    ]

pub is_consumed-All :
    (n : ℕ) (consumed : List Value)
    → is_consumed n consumed ≡ false
    → All (λ v. value_eq v (int (pos n)) ≡ false) consumed
unfolding is_consumed
is_consumed-All n [] h = tt
is_consumed-All n (v ∷ consumed) h = (ground arith, is_consumed-All n consumed (ground arith))
