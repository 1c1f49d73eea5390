-- ===== src/Supervisor/Recovery.antt =====
-- What a restart of lib/aib_supervisor.py reads back from the journal: the records replayed, and the
-- conditions under which the replay gives what the supervisor remembers.
use ai_bobnet.Control.Log.{numbered}
use ai_bobnet.Supervisor.Memory.{initial_core, Core}
use ai_bobnet.Json.{Fields}
use ai_bobnet.Supervisor.Machine.{Machine, Setting, journal}
use ai_bobnet.Supervisor.Restore.{restore_record, restore_records}
use ai_bobnet.Base.{ap, refl, ◌∙◌, ◌+◌, ◌≡◌, ◌++◌, Text, List, [], ◌∷◌}

module _ (s : Setting) where
  -- the records, replayed, give this memory
  abbrev pub Replays : Machine → Core → Type 0
  Replays m c = restore_records s.text_of m.records initial_core ≡ c

  restore_records-append :
      (records : List Fields) (r : Fields) (c : Core)
      → restore_records s.text_of (records ++ r ∷ []) c
        ≡ restore_record s.text_of r (restore_records s.text_of records c)
  unfolding restore_records
  restore_records-append [] r c = refl
  restore_records-append (r' ∷ records) r c =
      restore_records-append records r (restore_record s.text_of r' c)

  pub journal-Replays :
      (event : Text) (fields : Fields) (m : Machine) {c : Core}
      → Replays m c
      → Replays
          (journal s event fields m)
          (restore_record s.text_of (numbered (m.journal_seq + 1) s.utc event fields) c)
  unfolding journal
  journal-Replays event fields m replays =
      restore_records-append m.records (numbered (m.journal_seq + 1) s.utc event fields)
        initial_core
      ∙ ap (restore_record s.text_of (numbered (m.journal_seq + 1) s.utc event fields)) replays
