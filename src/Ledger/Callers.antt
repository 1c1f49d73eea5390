-- ===== src/Ledger/Callers.antt =====
-- `_caller_matches` of lib/task_ledger.py: which actors the trusted writer may record.
use ai_bobnet.Base.{
  Text, codes, starts_with, drop_prefix, is_token, is_digit, Bool, false, ◌&&◌, none, some, [], ◌∷◌,
  ◌++◌, all, if◌then◌else◌,
}
use ai_bobnet.Json.{Value, Fields, get, is_str, is_null, str}

-- the text behind a prefix passes a test
abbrev after_prefix : Text → (Text → Bool) → Value → Bool
after_prefix prefix test (str s) = elim (drop_prefix prefix s) [
  | none ↦ false
  | some rest ↦ test rest
]
after_prefix prefix test _ = false

-- [0-9]+
abbrev pub is_digits : Text → Bool
is_digits [] = false
is_digits (c ∷ s) = is_digit c && all is_digit s

-- `intent:` and a token
unfoldable pub is_intent_ref : Value → Bool
is_intent_ref v = after_prefix (codes "intent:") is_token v

-- `ctl:` and digits
unfoldable pub is_ctl_ref : Value → Bool
is_ctl_ref v = after_prefix (codes "ctl:") is_digits v

unfoldable pub is_supervisor : Value → Bool
is_supervisor (str s) = starts_with (codes "supervisor:") s
is_supervisor _ = false

-- the last two lines of the human case
unfoldable pub requester_matches : Value → Value → Bool
requester_matches (str id) requester =
    if starts_with (codes "gateway:") id
    then is_str requester id
    else is_str requester (codes "human:" ++ id)
requester_matches _ requester = false

unfoldable pub actor_matches : Value → Value → Value → Value → Bool
actor_matches actor_type actor_id via requester =
    if is_str actor_type (codes "service")
    then is_supervisor actor_id && (is_null via && is_null requester)
    else if is_str actor_type (codes "agent")
    then is_intent_ref via && is_null requester
    else if is_str actor_type (codes "human") && is_ctl_ref via
    then requester_matches actor_id requester
    else false

unfoldable pub caller_matches : Value → Value → Fields → Bool
caller_matches actor_type actor_id payload =
    is_str (get (codes "caller") payload) (codes "root:root")
    && actor_matches actor_type actor_id (get (codes "via") payload)
        (get (codes "requester") payload)
