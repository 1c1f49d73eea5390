-- ===== src/Broker/Whole.antt =====
-- `parse` of lib/aib_broker_response.py as a whole: it returns, and relays the chunks of a response in their order.
use ai_bobnet.Base.{suc, some, true, ◌≡◌, ◌==◌, not, length, ◌++◌, all, List, [], ◌∷◌}
use ai_bobnet.Broker.Response.{chunk_prefix, Outside, Bytes}
use Prim.Native.Nat.{suc}

-- the text of a chunk's size, and its payload
pub record Chunk : Type 0 where
  pub size_text : Bytes
  pub payload : Bytes

-- the size is one line, and is read as the length of the payload
abbrev pub IsChunk : Outside → Chunk → Type 0
IsChunk outside c =
    (all (λ b. not (b == 10)) c.size_text ≡ true)
    × (outside.parse_int c.size_text ≡ some (length c.payload))

-- the chunks as a launcher writes them, and what follows
abbrev pub render : List Chunk → Bytes → Bytes
render [] rest = rest
render (c ∷ chunks) rest =
    chunk_prefix ++ (c.size_text ++ 10 ∷ 10 ∷ (c.payload ++ render chunks rest))

abbrev pub payloads : List Chunk → Bytes
payloads [] = []
payloads (c ∷ chunks) = c.payload ++ payloads chunks
