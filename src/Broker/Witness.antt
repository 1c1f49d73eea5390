-- ===== src/Broker/Witness.antt =====
-- The theorems about the broker at concrete readings.
use ai_bobnet.Base.{
  List, if◌then◌else◌, ◌↔◌, text_eq, codes, some, none, true, false, refl, ◌≡◌, ◌++◌, ◌∷◌, [],
}
use ai_bobnet.Broker.Security.{Peer, answer, allow}
use ai_bobnet.Broker.Policy.{answer_policy, MayLaunch}
use ai_bobnet.Broker.Response.{Outside, Reading, read, chunk_prefix}
use ai_bobnet.Broker.Relay.{read_chunk}
use ai_bobnet.Broker.Whole.{Chunk}

abbrev operator : Peer
operator = record {
  uid = some 501;
  identity = λ uid. codes "human:operator";
  roles_unreadable = false;
  confined = true;
  owner = some 1001;
  role_uid = some 1001;
}

answer_policy_example : ((answer operator 501).authorization ≡ allow) ↔ MayLaunch operator 501
answer_policy_example = answer_policy operator 501

-- the size 2 is the only one that is known
abbrev ascii : Outside
ascii = record {
  decode = some;
  parse_int = λ s. if text_eq s (codes "2") then some 2 else none;
  is_digits = λ s. false;
  int_of = λ s. none;
  meta_path_set = false;
  write_meta = λ s. true;
}

abbrev empty_reading : Reading
empty_reading = record { fields = []; saw_terminal = false; output = [] }

abbrev one_chunk : List Chunk
one_chunk = record { size_text = codes "2"; payload = codes "a=" } ∷ []

-- A payload that looks like a field line is output, and no field.
read_chunk_example :
    read ascii 9 empty_reading
      (chunk_prefix ++ (codes "2" ++ 10 ∷ 10 ∷ (codes "a=" ++ codes "end=ok")))
    ≡ read ascii 8 (record empty_reading { output = codes "a=" }) (codes "end=ok")
unfolding text_eq
read_chunk_example =
    read_chunk ascii 8 empty_reading (codes "2") (codes "a=") (codes "end=ok") refl refl
