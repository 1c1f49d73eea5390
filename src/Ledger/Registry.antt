-- ===== src/Ledger/Registry.antt =====
-- What the decisions read of the registry: `limits`, `team_lead`, `_agent`, `_valid_assignee` and
-- `validate_registry_scope` of lib/task_ledger.py. The registry is a JSON object.
use ai_bobnet.Base.{
  ◌++◌, starts_with, ◌||◌, not, raise_if, expect, ◌>>◌, ◌>>=◌, value_error, false, ltb, type_error,
  raised, ◌&&◌, err, if◌then◌else◌, none, some, ok, Option, true, codes, Text, Bool, List, ℕ, [],
  ◌∷◌, length, ◌+◌, ◌*◌,
}
use ai_bobnet.Json.{
  as_obj, end, pos, arr, int, get, is_str, get_or, among, str, field, obj, value_eq, Value, Fields,
}
use ai_bobnet.Ledger.Types.{
  team_project_mismatch, invalid_assignee, unknown_project, invalid_delegation_limits,
  wrong_schema_version, cross_team, invalid_agents_registry, unknown_team, invalid_max_depth,
  invalid_limit, unknown_assignee, not_exactly_one_lead, Checked,
}

pub record Limits : Type 0 where
  pub max_open : ℕ
  pub max_new_per_turn : ℕ
  pub max_tasks_per_run : ℕ
  pub max_assignments_per_task : ℕ
  pub max_depth : ℕ
  pub task_deadline_s : ℕ
  pub max_turns_per_task : ℕ

-- DEFAULT_LIMITS
abbrev pub default_limits : Limits
default_limits = record {
  max_open = 8;
  max_new_per_turn = 4;
  max_tasks_per_run = 20;
  max_assignments_per_task = 3;
  max_depth = 1;
  task_deadline_s = 14400;
  max_turns_per_task = 8;
}

abbrev limit_names : List Text
limit_names =
    codes "max_open"
    ∷ codes "max_new_per_turn"
    ∷ codes "max_tasks_per_run"
    ∷ codes "max_assignments_per_task"
    ∷ codes "max_depth"
    ∷ codes "task_deadline_s"
    ∷ codes "max_turns_per_task"
    ∷ []

-- `not set(delegation) - set(DEFAULT_LIMITS)`
unfoldable pub known_limits : Fields → Bool
known_limits end = true
known_limits (field k v r) = among k limit_names && known_limits r

-- CPython converts at most this many digits.
abbrev pub max_digits : ℕ
max_digits = 4300

-- The parameter is the table of Unicode: the value of a decimal digit.
module _ (unicode_digit : ℕ → Option ℕ) where
  -- `value.isdecimal()` and `int(value)`
  unfoldable pub decimal_digits : ℕ → Text → Option ℕ
  decimal_digits n [] = some n
  decimal_digits n (c ∷ s) = elim (unicode_digit c) [
    | none ↦ none
    | some d ↦ decimal_digits (n * 10 + d) s
  ]

  unfoldable pub decimal_value : Text → Option ℕ
  decimal_value [] = none
  decimal_value (c ∷ s) = decimal_digits 0 (c ∷ s)

  -- the checks on one value
  unfoldable pub limit_value : Text → Value → Checked ℕ
  limit_value name (int (pos n)) = if ltb n 1 then err (raised (invalid_limit name)) else ok n
  limit_value name (str s) = elim (decimal_value s) [
    | none ↦ err (raised (invalid_limit name))
    | some n ↦
        if ltb max_digits (length s)
        then err value_error
        else if ltb n 1
        then err (raised (invalid_limit name))
        else ok n
  ]
  limit_value name _ = err (raised (invalid_limit name))

  -- one turn of the loop over the names
  unfoldable pub limit : Text → ℕ → Fields → Checked ℕ
  limit name default delegation = limit_value name (get_or name (int (pos default)) delegation)

  unfoldable pub team_delegation : Fields → Text → Checked Fields
  team_delegation registry team_uid = do
    teams ← expect (as_obj (get (codes "teams") registry)) unknown_team
    team ← expect (as_obj (get team_uid teams)) unknown_team
    delegation ←
        expect (as_obj (get_or (codes "delegation") (obj end) team)) invalid_delegation_limits
    raise_if (not (known_limits delegation)) invalid_delegation_limits
    ok delegation

  -- `limits`
  unfoldable pub limits : Fields → Text → Checked Limits
  limits registry team_uid = do
    delegation ← team_delegation registry team_uid
    max_open ← limit (codes "max_open") default_limits.max_open delegation
    max_new ← limit (codes "max_new_per_turn") default_limits.max_new_per_turn delegation
    max_tasks ← limit (codes "max_tasks_per_run") default_limits.max_tasks_per_run delegation
    max_assignments ←
        limit (codes "max_assignments_per_task") default_limits.max_assignments_per_task delegation
    depth ← limit (codes "max_depth") default_limits.max_depth delegation
    deadline ← limit (codes "task_deadline_s") default_limits.task_deadline_s delegation
    max_turns ← limit (codes "max_turns_per_task") default_limits.max_turns_per_task delegation
    raise_if (ltb 1 depth) invalid_max_depth
    ok (record {
      max_open = max_open;
      max_new_per_turn = max_new;
      max_tasks_per_run = max_tasks;
      max_assignments_per_task = max_assignments;
      max_depth = depth;
      task_deadline_s = deadline;
      max_turns_per_task = max_turns;
    })

-- the tests of the comprehension in `team_lead`
abbrev pub leads : Text → Value → Bool
leads team (obj r) =
    is_str (get (codes "team_uid") r) team && is_str (get (codes "lead") r) (codes "true")
leads team _ = false

unfoldable pub leads_of : Text → Fields → List Text
leads_of team end = []
leads_of team (field uid v r) =
    let rest = leads_of team r in if leads team v then uid ∷ rest else rest

abbrev pub only : List Text → Checked Text
only (uid ∷ []) = ok uid
only _ = err (raised not_exactly_one_lead)

-- `team_lead`
unfoldable pub team_lead : Fields → Text → Checked Text
team_lead registry team = do
  agents ← expect (as_obj (get (codes "agents") registry)) invalid_agents_registry
  only (leads_of team agents)

-- `_agent`; an empty object is false in a test
unfoldable pub agent : Fields → Text → Option Fields
agent registry uid = elim (get (codes "agents") registry) [
  | obj agents ↦ elim (get uid agents) [ obj (field k v r) ↦ some (field k v r) | _ ↦ none ]
  | _ ↦ none
]

unfoldable pub assignee_checks : Text → Option Fields → Checked (Unit {0})
assignee_checks team none = err (raised unknown_assignee)
assignee_checks team (some r) = do
  raise_if (not (is_str (get (codes "team_uid") r) team)) cross_team
  raise_if
      (not (is_str (get (codes "mode") r) (codes "supervised"))
        || is_str (get (codes "lead") r) (codes "true"))
      invalid_assignee

-- `_valid_assignee`: a list or a dict is no key
unfoldable pub valid_assignee : Fields → Value → Text → Checked (Unit {0})
valid_assignee registry (str uid) team = assignee_checks team (agent registry uid)
valid_assignee registry (arr _) team = elim (get (codes "agents") registry) [
  | obj _ ↦ err type_error
  | _ ↦ err (raised unknown_assignee)
]
valid_assignee registry (obj _) team = elim (get (codes "agents") registry) [
  | obj _ ↦ err type_error
  | _ ↦ err (raised unknown_assignee)
]
valid_assignee registry _ team = err (raised unknown_assignee)

abbrev is_five : Value → Bool
is_five v = value_eq v (int (pos 5))

-- `validate_registry_scope`
unfoldable pub validate_registry_scope : Fields → Text → Text → Checked (Unit {0})
validate_registry_scope registry project_uid team_uid = do
  raise_if (not (is_five (get (codes "schema_version") registry))) wrong_schema_version
  projects ← expect (as_obj (get (codes "projects") registry)) unknown_project
  _ ← expect (as_obj (get project_uid projects)) unknown_project
  teams ← expect (as_obj (get (codes "teams") registry)) unknown_team
  team ← expect (as_obj (get team_uid teams)) unknown_team
  raise_if
      (not (is_str (get (codes "project") team) project_uid)
        || not (starts_with (project_uid ++ codes "-") team_uid))
      team_project_mismatch
  _ ← team_lead registry team_uid
  ok tt
