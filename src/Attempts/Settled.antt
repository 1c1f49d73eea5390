-- ===== src/Attempts/Settled.antt =====
-- The attempts that are settled in `fold_records` of lib/attempts_fold.py stay as they are.
use ai_bobnet.Json.{Fields}
use mathlib.Core.Option.{some-injective}
use ai_bobnet.Base.{
  inr, not-false, ◌∙◌, inl, ok-injective, sym, text_eq, ap, expect-eq-ok, >>=-eq-ok, arith,
  Bool-cases, false, guard-eq-ok, true, insert, some, ◌≡◌, lookup, List, Dict, Bool, Text, contains,
  [], ◌∷◌, ok, text_eq_iff, lookup-insert,
}
use ai_bobnet.Attempts.Records.{
  fold_record, convertible, class_of, decision_of, scalar, Entry, Attempt, Log, ended, decided,
  fold_entries,
}
use ai_bobnet.Attempts.Coherence.{RecordStep, keeps, decides, ends, fold_record-RecordStep}

-- A write under a key that does not hold the attempt leaves it.
insert-other :
    (j k : Text) (v a : Attempt) (d : Dict Attempt)
    → (lookup j d ≡ some a → ⊥)
    → lookup k d ≡ some a
    → lookup k (insert j v d) ≡ some a
insert-other j k v a d other found = elim (Bool-cases (text_eq j k)) [
  | inl same ↦ absurd (other (ap (λ (i : Text). lookup i d) ((text_eq_iff j k).0 same) ∙ found))
  | inr differ ↦ ground (arith, lookup-insert j k v d)
]

contains_found :
    (k : Text) (d : Dict Attempt) (a : Attempt) → lookup k d ≡ some a → contains k d ≡ true
unfolding contains
contains_found k d a h = ground arith

decided_settled :
    (log : Log) (r payload : Fields) (ident k : Text) (a : Attempt) {log' : Log}
    → lookup k log.attempts ≡ some a
    → decided log r ident payload ≡ ok log'
    → lookup k log'.attempts ≡ some a
unfolding decided
decided_settled log r payload ident k a found h₀ =
    let (fresh, h₁) = guard-eq-ok _ _ _ h₀ in
    let (pid, _, h₂) = >>=-eq-ok (scalar _) _ h₁ in
    let (allowed, _, h₃) = >>=-eq-ok (decision_of _) _ h₂ in
    let (_, h₄) = guard-eq-ok _ _ _ h₃ in
    let (_, _, h₅) = >>=-eq-ok (convertible _) _ h₄ in
    let (_, h₆) = guard-eq-ok _ _ _ h₅ in
    rw (← ok-injective h₆) (
      insert-other ident k _ a log.attempts
        (λ there. absurd (cc (contains_found ident log.attempts a there, fresh))) found)

ended_settled :
    (log : Log) (r payload : Fields) (ident k : Text) (a : Attempt) {log' : Log}
    → lookup k log.attempts ≡ some a
    → a.is_open ≡ false
    → ended log r ident payload ≡ ok log'
    → lookup k log'.attempts ≡ some a
unfolding ended
ended_settled log r payload ident k a found closed h₀ =
    let (attempt, there, h₁) = expect-eq-ok _ _ _ h₀ in
    let (allowed, h₂) = guard-eq-ok _ _ _ h₁ in
    let (is_open, h₃) = guard-eq-ok _ _ _ h₂ in
    let (info, _, h₄) = expect-eq-ok _ _ _ h₃ in
    let (code, _, h₅) = >>=-eq-ok (scalar _) _ h₄ in
    let (class, _, h₆) = >>=-eq-ok (class_of _) _ h₅ in
    let (_, h₇) = guard-eq-ok _ _ _ h₆ in
    let (_, h₈) = guard-eq-ok _ _ _ h₇ in
    rw (← ok-injective h₈) (
      insert-other ident k _ a log.attempts
        (λ same. cc (
          not-false _ is_open,
          ap (λ (x : Attempt). x.is_open) (some-injective attempt a (sym there ∙ same)),
          closed,
        ))
        found)

record_settled :
    (log log' : Log) (k : Text) (a : Attempt)
    → lookup k log.attempts ≡ some a
    → a.is_open ≡ false
    → RecordStep log log'
    → lookup k log'.attempts ≡ some a
record_settled log log' k a found closed (keeps same) = rw same found
record_settled log log' k a found closed (decides r payload ident step) =
    decided_settled log r payload ident k a found step
record_settled log log' k a found closed (ends r payload ident step) =
    ended_settled log r payload ident k a found closed step

-- An attempt of the log that is not open is the same attempt after any further records that are
-- folded, in either view.
pub fold_entries_settled :
    (legacy : Bool) (log : Log) (entries : List Entry) (k : Text) (a : Attempt) {log' : Log}
    → lookup k log.attempts ≡ some a
    → a.is_open ≡ false
    → fold_entries legacy log entries ≡ ok log'
    → lookup k log'.attempts ≡ some a
unfolding fold_entries
fold_entries_settled legacy log [] k a found closed h =
    ap (λ (x : Log). lookup k x.attempts) (sym (ok-injective h)) ∙ found
fold_entries_settled legacy log (entry ∷ rest) k a {log'} found closed h =
    let (log₁, first, others) = >>=-eq-ok (fold_record legacy log entry) _ h in
    fold_entries_settled legacy log₁ rest k a
      (record_settled log log₁ k a found closed (fold_record-RecordStep legacy log entry first))
      closed others
