-- ===== src/Control/Witness.antt =====
-- The theorems about the control log and about identities at a concrete log and account.
use ai_bobnet.Control.Identity.{
  readable, Accounts, in_operator_group, from_account, strip, role_uids, role_line, role_value,
  configured_role_uids, from_database, identity_for,
}
use Prim.Native.Nat.{zero}
use ai_bobnet.Control.Lookup.{requested_record-append_record, Truncates}
use ai_bobnet.Control.Log.{
  found, requested_record, numbered, ended, write_line, overlaid, entry, Log, int_of, next_highest,
  highest, append_record,
}
use ai_bobnet.Json.{
  put, int, end, dyadic, negsuc, str, float, ℤ, pos, field, Fields, Value, get, has, value_eq,
}
use ai_bobnet.Base.{
  false, alnum, starts_with, split, partition, refl, ◌++◌, none, some, arith, ◌*◌, ◌/◌, suc, codes,
  Text, ◌≡◌, ◌^◌, Option, ℕ, text_eq, [], ◌∷◌,
}

-- m / 2 ^ k, rounded down
abbrev halved : ℕ → ℕ → ℕ
halved zero m = m
halved (suc k) m = halved k (m / 2)

-- `int` of a float that is not negative, and of nothing else
abbrev whole_part : Value → Option ℤ
whole_part (float (dyadic (pos m) k)) = some (pos (halved k m))
whole_part _ = none

power_suc : (k : ℕ) → 2 ^ suc k ≡ 2 * 2 ^ k
power_suc k = omega arith

halved_multiple : (k n m : ℕ) → m ≡ n * 2 ^ k → halved k m ≡ n
halved_multiple zero n m h = omega (arith, h)
halved_multiple (suc k) n m h = halved_multiple k n (m / 2) (grind (arith, power_suc k))

whole_part-Truncates : Truncates whole_part
unfolding value_eq
whole_part-Truncates (pos m) k n same =
    let same_m : m ≡ n * 2 ^ k = ground arith in rw (halved_multiple k n m same_m) refl
whole_part-Truncates (negsuc m) k n same = cc

-- two lines of an earlier day, the first with a float for its number
abbrev log : Log
log = record {
  lines =
      entry (
        field (codes "seq") (float (dyadic (pos 2) 1))
          (field (codes "event") (str (codes "ctl.requested")) end))
      ∷ entry
          (field (codes "seq") (int (pos 2)) (field (codes "event") (str (codes "ctl.done")) end))
      ∷ [];
  ending = ended;
}

abbrev fields : Fields
fields = field (codes "verb") (str (codes "standup")) end

unfoldable appended : Log → Text → Text → Fields → Option (Log × Fields)
unfolding append_record write_line overlaid put highest next_highest int_of has get text_eq
appended = append_record whole_part

abbrev request : Fields
request = numbered 3 (codes "2026-10-28T00:00:00Z") (codes "ctl.requested") fields

abbrev longer : Log
longer = record { lines = log.lines ++ entry request ∷ []; ending = ended }

requested_record-append_record_example :
    (n : ℕ) × (get (codes "seq") request ≡ int (pos n))
    × (requested_record n longer ≡ found request)
    × (longer.ending ≡ ended)
unfolding appended
requested_record-append_record_example =
    requested_record-append_record whole_part whole_part-Truncates log
      (codes "2026-10-28T00:00:00Z") fields refl refl refl refl

abbrev accounts : Accounts
accounts = record {
  has_command = false;
  command_line = none;
  role_file = readable (codes " AIB_ROLE_UIDS = 1001,1002 " ∷ codes "AIB_ROLE_UIDS=1003,1004" ∷ []);
  account = some (codes "ada");
  primary_group = some (codes "users");
  groups = (codes "aib-ops", codes "bob" ∷ codes "ada" ∷ []) ∷ [];
}

unfoldable identified : Accounts → ℕ → Text
unfolding identity_for from_database configured_role_uids role_value role_line role_uids strip
    partition split from_account in_operator_group text_eq starts_with alnum
identified = identity_for
