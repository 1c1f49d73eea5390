-- ===== src/Control/Operators.antt =====
-- Whom `identity_for` of lib/aib_control.py takes for a human operator.
use ai_bobnet.Control.Identity.{configured_role_uids, Accounts, identity_for}
use ai_bobnet.Base.{
  ◌≢◌, ◌≤◌, All, ◌⊎◌, Memᴰ, ◌++◌, Option, false, codes, some, List, Bool, ◌≡◌, ℕ, Text, starts_with,
}

-- the operators' groups
abbrev IsOperatorGroup : Text → Type 0
IsOperatorGroup g = (g ≡ codes "aib-shared") ⊎ (g ≡ codes "aib-ops")

-- An account is in one of the operators' groups: its primary group is one, or the database lists the account
-- as a member of one.
pub data BelongsTo (name primary : Text) (groups : List (Text × List Text)) : Type 0 where
  as_primary : IsOperatorGroup primary → BelongsTo name primary groups
  as_member :
      (group : Text) (members : List Text)
      → Memᴰ (group, members) groups
      → IsOperatorGroup group
      → Memᴰ name members
      → BelongsTo name primary groups

-- What makes an account an operator's: its number is none of those that the role file configures, which are
-- all from 1000 up; it is no account of the engine; and it is in one of the operators' groups.
pub record IsOperator (acc : Accounts) (uid : ℕ) : Type 0 where
  name : Text
  account_is : acc.account ≡ some name
  called : identity_for acc uid ≡ codes "human:" ++ name
  uids : List ℕ
  uids_are : configured_role_uids acc.role_file ≡ some uids
  uids_fit : All (λ n. 1000 ≤ n) uids
  not_role : All (λ n. n ≢ uid) uids
  not_engine : starts_with (codes "aib-") name ≡ false
  primary : Text
  primary_is : acc.primary_group ≡ some primary
  is_member : BelongsTo name primary acc.groups

abbrev is_human : Text → Bool
is_human identity = starts_with (codes "human:") identity
