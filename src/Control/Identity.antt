-- ===== src/Control/Identity.antt =====
-- `configured_role_uids` and `identity_for` of lib/aib_control.py. The account database, the role
-- file and the identity command are the record Accounts.
use mathlib.Core.Option.{none}
use ai_bobnet.Base.{
  is_digit, decimal, all, ◌-◌, any, ◌++◌, ◌==◌, none, map, length, ◌+◌, starts_with, ◌&&◌, ◌||◌,
  text_eq, codes, drop_prefix, false, alnum, some, split, not, ◌*◌, partition, if◌then◌else◌, leb,
  Bool, Option, List, Text, ℕ, [], ◌∷◌,
}

-- white space of `str.strip`
abbrev is_space : ℕ → Bool
is_space c =
    (leb 9 c && leb c 13)
    || (leb 28 c && leb c 32)
    || c == 133
    || c == 160
    || c == 5760
    || (leb 8192 c && leb c 8202)
    || c == 8232
    || c == 8233
    || c == 8239
    || c == 8287
    || c == 12288

unfoldable pub strip_left : Text → Text
strip_left [] = []
strip_left (c ∷ s) = let rest = strip_left s in if is_space c then rest else c ∷ s

abbrev kept : ℕ → Text → Text
kept c [] = if is_space c then [] else c ∷ []
kept c (d ∷ s) = c ∷ d ∷ s

unfoldable pub strip_right : Text → Text
strip_right [] = []
strip_right (c ∷ s) = kept c (strip_right s)

-- `s.strip()`
unfoldable pub strip : Text → Text
unfolding strip_left strip_right
strip s = strip_right (strip_left s)

-- the file role.env: absent, unreadable or not UTF-8, or its lines
pub data RoleFile : Type 0 where
  absent unreadable : RoleFile
  readable : List Text → RoleFile

-- one line of the loop: the value of AIB_ROLE_UIDS so far
unfoldable pub role_line : Text → Option Text → Option Text
unfolding strip
role_line line value =
    let stripped = strip line in
    let (key, separator, raw) = partition b'=' stripped in
    if text_eq stripped [] || starts_with (codes "#") stripped
    then value
    else if separator && text_eq key (codes "AIB_ROLE_UIDS")
    then some (strip raw)
    else value

unfoldable pub role_value : List Text → Option Text → Option Text
role_value [] value = value
role_value (line ∷ lines) value = role_value lines (role_line line value)

-- the digits of a number, after those that gave n
abbrev pub digits_value : ℕ → Text → ℕ
digits_value n [] = n
digits_value n (c ∷ s) = digits_value (n * 10 + (c - b'0')) s

-- ROLE_UIDS_RE: one digit or more between the commas
abbrev pub is_number : Text → Bool
is_number s = not (length s == 0) && all is_digit s

-- the numbers of a list that fits ROLE_UIDS_RE
unfoldable pub role_uids : Text → Option (List ℕ)
role_uids value =
    let parts = split b',' value in
    let uids = map (digits_value 0) parts in
    if all is_number parts && all (λ uid. leb 1000 uid) uids then some uids else none

-- `configured_role_uids`
unfoldable pub configured_role_uids : RoleFile → Option (List ℕ)
configured_role_uids absent = some []
configured_role_uids unreadable = none
configured_role_uids (readable lines) = elim (role_value lines none) [
  | none ↦ some []
  | some value ↦ role_uids value
]

-- What the system says of a user number: whether AIB_IDENTITY_CMD is set, and the first line it prints
-- where it ends well; the role file; the account's name; its primary group; and all groups with their
-- members.
pub record Accounts : Type 0 where
  pub has_command : Bool
  pub command_line : Option Text
  pub role_file : RoleFile
  pub account : Option Text
  pub primary_group : Option Text
  pub groups : List (Text × List Text)

abbrev is_name_char : ℕ → Bool
is_name_char c = alnum c || c == b'_' || c == b'-'

-- [a-z0-9][a-z0-9_-]*
abbrev is_name : Text → Bool
is_name [] = false
is_name (c ∷ s) = alnum c && all is_name_char s

abbrev after : Text → (Text → Bool) → Text → Bool
after prefix p s = elim (drop_prefix prefix s) [ none ↦ false | some rest ↦ p rest ]

-- what the identity command may answer
unfoldable pub is_identity : Text → Bool
is_identity s =
    after (codes "human:") is_name s
    || after (codes "role:") is_name s
    || after (codes "gateway:") is_name s
    || after (codes "unknown:") is_number s

unfoldable pub unknown : ℕ → Text
unknown uid = codes "unknown:" ++ decimal uid

unfoldable pub from_command : Option Text → ℕ → Text
from_command none uid = unknown uid
from_command (some line) uid = if is_identity line then line else unknown uid

abbrev pub is_operator_group : Text → Bool
is_operator_group g = text_eq g (codes "aib-shared") || text_eq g (codes "aib-ops")

-- `groups.intersection(("aib-shared", "aib-ops"))`
unfoldable pub in_operator_group : Text → Text → List (Text × List Text) → Bool
in_operator_group name primary groups =
    is_operator_group primary
    || any (λ g. is_operator_group g.0 && any (λ m. text_eq m name) g.1) groups

-- after the role file: the account's name, and a group that is missing
unfoldable pub from_account : Accounts → ℕ → Text → List ℕ → Text
from_account acc uid name role_uids =
    if any (λ n. n == uid) role_uids
    then codes "role:" ++ name
    else if text_eq name (codes "aib-gw") || text_eq name (codes "aib-gateway")
    then codes "gateway:" ++ name
    else if starts_with (codes "aib-") name
    then codes "role:" ++ name
    else elim acc.primary_group [
      | none ↦ unknown uid
      | some primary ↦
          if in_operator_group name primary acc.groups then codes "human:" ++ name else unknown uid
    ]

unfoldable pub from_database : Accounts → ℕ → Option Text → Text
from_database acc uid none = unknown uid
from_database acc uid (some name) = elim (configured_role_uids acc.role_file) [
  | none ↦ unknown uid
  | some uids ↦ from_account acc uid name uids
]

-- `identity_for`
unfoldable pub identity_for : Accounts → ℕ → Text
identity_for acc uid =
    if acc.has_command then from_command acc.command_line uid else from_database acc uid acc.account
