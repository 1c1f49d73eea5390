-- ===== src/Attempts/Coherence.antt =====
-- The attempts that `fold_records` of lib/attempts_fold.py keeps are coherent.
use ai_bobnet.Base.{
  ◌⊎◌, ◌&&◌, inr, not, inl, ◌>>=◌, Bool-cases, codes, if◌then◌else◌, ◌≡◌, refl, Text, List, [], ◌∷◌,
  Bool, true, false, some, lookup, insert_ind, arith, ok, >>=-eq-ok, guard-eq-ok, expect-eq-ok,
  ok-injective, ◌∙◌, not-false,
}
use ai_bobnet.Json.{is_str, among, Fields, Value, get, get_or, obj, end}
use ai_bobnet.Attempts.Records.{
  excluded_ident, Attempt, Class, Log, Entry, Folded, decided, ended, fold_record, fold_entries,
  identity, scalar, decision_of, class_of, convertible, opened, deny, exited,
}

-- The state of an attempt as its decision and its end determine it, before processes are looked at.
pub data IsCoherent (a : Attempt) : Type 0 where
  is_denied : a.is_allowed ≡ false → a.is_open ≡ false → a.state ≡ deny → IsCoherent a
  is_running : a.is_allowed ≡ true → a.is_open ≡ true → a.state ≡ opened → IsCoherent a
  has_ended :
      (c : Class) → a.is_allowed ≡ true → a.is_open ≡ false → a.state ≡ exited c → IsCoherent a

-- Every attempt of a log is coherent and stands under its identifier.
pub record AllCoherent (log : Log) : Type 0 where
  pub coherent : (k : Text) (a : Attempt) → lookup k log.attempts ≡ some a → IsCoherent a
  pub key : (k : Text) (a : Attempt) → lookup k log.attempts ≡ some a → a.ident ≡ k

new-IsCoherent :
    (a : Attempt)
    → a.is_open ≡ a.is_allowed
    → a.state ≡ (if a.is_allowed then opened else deny)
    → IsCoherent a
new-IsCoherent a open_is state_is = elim (Bool-cases a.is_allowed) [
  | inl p ↦ is_running p (open_is ∙ p) (ground (arith, state_is))
  | inr p ↦ is_denied p (open_is ∙ p) (ground (arith, state_is))
]

-- A new attempt is open if it was allowed, else denied.
decided-AllCoherent :
    (log : Log) (r : Fields) (ident : Text) (payload : Fields) {log' : Log}
    → AllCoherent log
    → decided log r ident payload ≡ ok log'
    → AllCoherent log'
unfolding decided
decided-AllCoherent log r ident payload valid h₀ =
    let (_, h₁) = guard-eq-ok _ _ _ h₀ in
    let (pid, _, h₂) = >>=-eq-ok (scalar _) _ h₁ in
    let (allowed, _, h₃) = >>=-eq-ok (decision_of _) _ h₂ in
    let (_, h₄) = guard-eq-ok _ _ _ h₃ in
    let (_, _, h₅) = >>=-eq-ok (convertible _) _ h₄ in
    let (_, h₆) = guard-eq-ok _ _ _ h₅ in
    rw (← ok-injective h₆) (record {
      coherent =
          insert_ind (λ _ a. IsCoherent a) ident _ log.attempts (new-IsCoherent _ refl refl)
            valid.coherent;
      key = insert_ind (λ k a. a.ident ≡ k) ident _ log.attempts refl valid.key;
    })

-- An end closes an attempt that was open.
ended-AllCoherent :
    (log : Log) (r : Fields) (ident : Text) (payload : Fields) {log' : Log}
    → AllCoherent log
    → ended log r ident payload ≡ ok log'
    → AllCoherent log'
unfolding ended
ended-AllCoherent log r ident payload valid h₀ =
    let (attempt, found, h₁) = expect-eq-ok _ _ _ h₀ in
    let (allowed, h₂) = guard-eq-ok _ _ _ h₁ in
    let (_, h₃) = guard-eq-ok _ _ _ h₂ in
    let (info, _, h₄) = expect-eq-ok _ _ _ h₃ in
    let (code, _, h₅) = >>=-eq-ok (scalar _) _ h₄ in
    let (class, _, h₆) = >>=-eq-ok (class_of _) _ h₅ in
    let (_, h₇) = guard-eq-ok _ _ _ h₆ in
    let (_, h₈) = guard-eq-ok _ _ _ h₇ in
    rw (← ok-injective h₈) (record {
      coherent =
          insert_ind (λ _ a. IsCoherent a) ident _ log.attempts
            (has_ended class (not-false _ allowed) refl refl) valid.coherent;
      key =
          insert_ind (λ k a. a.ident ≡ k) ident _ log.attempts (valid.key ident attempt found)
            valid.key;
    })

if-eq-ok :
    (b : Bool) {x y : Folded Log} {out : Log}
    → (if b then x else y) ≡ ok out
    → (x ≡ ok out) ⊎ (y ≡ ok out)
if-eq-ok true h = inl h
if-eq-ok false h = inr h

-- What one record does to the log: nothing to its attempts, a decision or an end.
pub data RecordStep (log log' : Log) : Type 0 where
  keeps : log'.attempts ≡ log.attempts → RecordStep log log'
  decides :
      (r payload : Fields) (ident : Text)
      → decided log r ident payload ≡ ok log'
      → RecordStep log log'
  ends :
      (r payload : Fields) (ident : Text)
      → ended log r ident payload ≡ ok log'
      → RecordStep log log'

pub fold_record-RecordStep :
    (legacy : Bool) (log : Log) (entry : Entry) {log' : Log}
    → fold_record legacy log entry ≡ ok log'
    → RecordStep log log'
unfolding fold_record
fold_record-RecordStep legacy log entry {log'} h =
    go (entry.is_undecodable && not legacy)
      (is_str (get (codes "event_type") entry.fields) (codes "attempt.decided"))
      (is_str (get (codes "event_type") entry.fields) (codes "attempt.ended")) h
  where
    ident : Value
    ident = get (codes "attempt_id") entry.fields

    payload : Value
    payload = get_or (codes "payload") (obj end) entry.fields

    go :
        (skipped new done : Bool)
        → (if skipped
            then ok
                (if new then record log { excluded = excluded_ident ident log.excluded } else log)
            else if new
            then (identity ident payload >>= λ p. decided log entry.fields p.0 p.1)
            else if done
            then (identity ident payload >>= λ p.
                if not legacy && among p.0 log.excluded
                then ok log
                else ended log entry.fields p.0 p.1)
            else ok log)
          ≡ ok log'
        → RecordStep log log'
    go true true done q = rw (← ok-injective q) (keeps refl)
    go true false done q = rw (← ok-injective q) (keeps refl)
    go false true done q =
        let (p, _, rest) = >>=-eq-ok (identity ident payload) _ q in
        decides entry.fields p.1 p.0 rest
    go false false true q =
        let (p, _, rest) = >>=-eq-ok (identity ident payload) _ q in
        elim (if-eq-ok (not legacy && among p.0 log.excluded) rest) [
          | inl kept ↦ rw (← ok-injective kept) (keeps refl)
          | inr changed ↦ ends entry.fields p.1 p.0 changed
        ]
    go false false false q = rw (← ok-injective q) (keeps refl)

fold_record-AllCoherent :
    (legacy : Bool) (log : Log) (entry : Entry) {log' : Log}
    → AllCoherent log
    → fold_record legacy log entry ≡ ok log'
    → AllCoherent log'
fold_record-AllCoherent legacy log entry {log'} valid h =
    go (fold_record-RecordStep legacy log entry h)
  where
    go : RecordStep log log' → AllCoherent log'
    go (keeps same) = record { coherent = rw same valid.coherent; key = rw same valid.key }
    go (decides r payload ident step) = decided-AllCoherent log r ident payload valid step
    go (ends r payload ident step) = ended-AllCoherent log r ident payload valid step

-- From attempts that are coherent and under their identifiers, a loop that returns, in either view,
-- keeps them so: each attempt was denied and is not open, or was allowed and is open, or was allowed
-- and has ended in an exit class.
pub fold_entries-AllCoherent :
    (legacy : Bool) (log : Log) (entries : List Entry) {log' : Log}
    → AllCoherent log
    → fold_entries legacy log entries ≡ ok log'
    → AllCoherent log'
unfolding fold_entries
fold_entries-AllCoherent legacy log [] valid h = rw (← ok-injective h) valid
fold_entries-AllCoherent legacy log (entry ∷ rest) valid h =
    let (log₁, first, others) = >>=-eq-ok (fold_record legacy log entry) _ h in
    fold_entries-AllCoherent legacy log₁ rest (fold_record-AllCoherent legacy log entry valid first)
      others
