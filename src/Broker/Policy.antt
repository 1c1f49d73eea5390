-- ===== src/Broker/Policy.antt =====
-- Who is allowed a launch, by the answer of lib/aib_broker_security.py.
use ai_bobnet.Base.{
  refl, codes, ◌↔◌, true, arith, starts_with, some, none, ◌⊎◌, ◌≤◌, ◌≡◌, Option, ℕ,
}
use ai_bobnet.Broker.Security.{allow, peer_verdict, answer, target_owner, confine_verdict, Peer}

-- The description of the policy: the supervisor's root, or a human operator; and where targets are
-- confined, the target directory belongs to the role account that is configured.
pub record MayLaunch (p : Peer) (uid : ℕ) : Type 0 where
  pub caller_allowed : (uid ≡ 0) ⊎ (starts_with (codes "human:") (p.identity uid) ≡ true)
  pub target_matches :
      p.confined ≡ true
      → (account : ℕ) × (p.owner ≡ some account) × (p.role_uid ≡ some account) × (1000 ≤ account)

confined_account :
    (owner role : Option ℕ)
    → confine_verdict (target_owner owner) role ≡ none
    → (account : ℕ) × (owner ≡ some account) × (role ≡ some account) × (1000 ≤ account)
unfolding confine_verdict target_owner
confined_account none role h = cc
confined_account (some a) none h = ground arith
confined_account (some a) (some b) h = (a, refl, ground arith, ground arith)

account_confined :
    (account : ℕ)
    → 1000 ≤ account
    → confine_verdict (target_owner (some account)) (some account) ≡ none
unfolding confine_verdict target_owner
account_confined account h = ground arith

answer_caller :
    (p : Peer) (uid : ℕ)
    → (answer p uid).authorization ≡ allow
    → (uid ≡ 0) ⊎ (starts_with (codes "human:") (p.identity uid) ≡ true)
unfolding answer peer_verdict
answer_caller p uid h = ground arith

answer_target :
    (p : Peer) (uid : ℕ)
    → (answer p uid).authorization ≡ allow
    → p.confined ≡ true
    → confine_verdict (target_owner p.owner) p.role_uid ≡ none
unfolding answer peer_verdict
answer_target p uid h c = ground arith

answer_allows :
    (p : Peer) (uid : ℕ)
    → (uid ≡ 0) ⊎ (starts_with (codes "human:") (p.identity uid) ≡ true)
    → (p.confined ≡ true → confine_verdict (target_owner p.owner) p.role_uid ≡ none)
    → (answer p uid).authorization ≡ allow
unfolding answer peer_verdict
answer_allows p uid caller target = ground (arith, target)

-- The answer to a peer of a known uid allows the launch exactly when the uid is root's or a human
-- operator's and, where targets are confined, the target directory belongs to the role account that is
-- configured, an account from 1000 up.
pub answer_policy : (p : Peer) (uid : ℕ) → ((answer p uid).authorization ≡ allow) ↔ MayLaunch p uid
answer_policy p uid = (
  λ h. record {
    caller_allowed = answer_caller p uid h;
    target_matches =
        λ (c : p.confined ≡ true). confined_account p.owner p.role_uid (answer_target p uid h c);
  },
  λ m. answer_allows p uid m.caller_allowed (λ c.
      let (account, owner, role, high) = m.target_matches c in
      rw (owner, role) (account_confined account high)),
)
