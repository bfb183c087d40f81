-- ===== src/Plugin/Streams.antt =====
-- `istreamRead`, `ostreamWrite` and `checkBuffers` of wclap-plugin.h. The WCLAP's memory is its
-- bytes, and `none` is an access outside it.
pub mod Bounded
use wclap_bridge.Base.{
  ℕ, ◌<◌, ◌&&◌, List, [], ◌∷◌, Bool, true, false, Option, none, some, ltb, leb, if◌then◌else◌, take,
  length,
}
use wclap_bridge.Instance.Memory.{get_array, set_array}

-- What the host's `read` answers: it puts bytes into the local buffer and returns a count, or
-- fails with a negative number.
pub data ReadReply : Type 0 where
  read_failed : ℕ → ReadReply
  read_bytes : ℕ → List ℕ → ReadReply

-- The `int64_t` results: a count, or a negative number by its absolute value.
pub data Count : Type 0 where
  count : ℕ → Count
  minus : ℕ → Count

-- "1kB max"
unfoldable pub clamp : ℕ → ℕ
clamp size = if ltb 1024 size then 1024 else size

-- `istreamRead`: the memory with what was read, and the result. `stream` is the host's, or none
-- outside of a load. The local buffer holds 1024 bytes; `read` answers with what it holds.
unfoldable pub after_read : List ℕ → ℕ → ReadReply → Option (List ℕ) × Count
after_read memory buffer (read_failed e) = (some memory, minus e)
after_read memory buffer (read_bytes result local_buffer) =
    if ltb 0 result && leb result 1024
    then (set_array memory buffer (take result local_buffer), count result)
    else (some memory, count result)

unfoldable pub istream_read : Option (ℕ → ReadReply) → List ℕ → ℕ → ℕ → Option (List ℕ) × Count
unfolding clamp after_read
istream_read none memory buffer size = (some memory, minus 1)
istream_read (some read) memory buffer size = after_read memory buffer (read (clamp size))

-- `ostreamWrite`: the host's `write` gets the bytes; `none` is a read outside the memory.
unfoldable pub written :
    {H : Type 0} → (H → List ℕ → H × Count) → H → Option (List ℕ) → Option (H × Count)
written write host none = none
written write host (some bytes) = some (write host bytes)

unfoldable pub ostream_write :
    {H : Type 0} → Option (H → List ℕ → H × Count) → H → List ℕ → ℕ → ℕ → Option (H × Count)
unfolding clamp written
ostream_write none host memory buffer size = some (host, minus 1)
ostream_write (some write) host memory buffer size =
    written write host (get_array memory buffer (clamp size))

-- `checkBuffers`: a sample that does not compare below the limit, not-a-number among them, is
-- silenced. `below` is the test `std::abs(x) < limit` on the sample type.
unfoldable pub check_buffers : {S : Type 0} → (S → Bool) → S → List S → List S
check_buffers below silence [] = []
check_buffers below silence (x ∷ xs) =
    (if below x then x else silence) ∷ check_buffers below silence xs
