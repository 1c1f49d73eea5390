-- ===== src/Supervisor/Memory.antt =====
-- The attributes of the class Supervisor of lib/aib_supervisor.py that `restore` reads back from the
-- journal, and the tests on journal values that it uses.
use ai_bobnet.Json.{
  end, nil, field, obj, cons, arr, dyadic, float, negsuc, bool, str, int, pos, null, ℤ, Value,
}
use ai_bobnet.Base.{
  length, ◌==◌, text_eq, ◌+◌, none, leb, not, true, some, if◌then◌else◌, insert, lookup, List,
  false, ℕ, Bool, Option, Text, Dict, [], ◌∷◌,
}

-- `isinstance(value, int)`, with the number: a JSON true is the int 1
unfoldable pub as_int : Value → Option ℤ
as_int (int n) = some n
as_int (bool b) = some (pos (if b then 1 else 0))
as_int _ = none

-- `isinstance(value, str)`
unfoldable pub is_text : Value → Bool
is_text (str s) = true
is_text _ = false

-- `if value`
unfoldable pub truthy : Value → Bool
truthy null = false
truthy (bool b) = b
truthy (int (pos n)) = not (n == 0)
truthy (int (negsuc n)) = true
truthy (float (dyadic (pos m) k)) = not (m == 0)
truthy (float _) = true
truthy (str s) = not (length s == 0)
truthy (arr nil) = false
truthy (arr (cons v xs)) = true
truthy (obj end) = false
truthy (obj (field k v r)) = true

-- `value is True`
unfoldable pub is_true : Value → Bool
is_true (bool b) = b
is_true _ = false

-- `left >= right`
abbrev pub at_least : ℤ → ℕ → Bool
at_least (pos m) n = leb n m
at_least (negsuc m) n = false

-- The session, the brake, the outage, the duty, the failures to keep a session, and the control
-- requests that are consumed. A time of tripping that is not there is null, as is a session.
pub record Core : Type 0 where
  pub session_id : Value
  pub session_cwd : Value
  pub turns_in_session : ℕ
  pub session_new : Bool
  pub brake_consecutive : ℤ
  pub brake_tripped_at : Value
  pub infra_episode : Option Text
  pub infra_login_hint : Bool
  pub off_duty : Bool
  pub persistence_failure_streak : ℕ
  pub persistence_episode : Option Text
  pub consumed : List Value

-- message_failures and session_loss_counts, by the message's identifier
pub record Tallies : Type 0 where
  pub message_failures : Dict ℕ
  pub session_loss_counts : Dict ℕ

-- as `__init__` leaves them
unfoldable pub initial_core : Core
initial_core = record {
  session_id = null;
  session_cwd = null;
  turns_in_session = 0;
  session_new = false;
  brake_consecutive = pos 0;
  brake_tripped_at = null;
  infra_episode = none;
  infra_login_hint = false;
  off_duty = false;
  persistence_failure_streak = 0;
  persistence_episode = none;
  consumed = [];
}

unfoldable pub initial_tallies : Tallies
initial_tallies = record { message_failures = []; session_loss_counts = [] }

-- `counts.get(key, 0)`
abbrev pub count_at : Text → Dict ℕ → ℕ
count_at k counts = elim (lookup k counts) [ none ↦ 0 | some n ↦ n ]

-- `counts[key] = counts.get(key, 0) + 1`
abbrev pub increment : Text → Dict ℕ → Dict ℕ
increment k counts = insert k (count_at k counts + 1) counts

-- `counts.pop(key, None)`
unfoldable pub remove : Text → Dict ℕ → Dict ℕ
remove k [] = []
remove k ((j, n) ∷ counts) =
    let rest = remove k counts in if text_eq j k then rest else (j, n) ∷ rest

-- `self.session_id = None` and the three lines after it
unfoldable pub without_session : Core → Core
without_session c = record c {
  session_id = null;
  session_cwd = null;
  turns_in_session = 0;
  session_new = false;
}
