-- ===== src/Plugin/Streams/Bounded.antt =====
-- The streams and the audio check of wclap-plugin.h: what they write.
use wclap_bridge.Base.{
  ℕ, zero, suc, ◌+◌, ◌^◌, ◌≤◌, ◌<◌, ◌≡◌, refl, sym, ap, ◌∙◌, List, [], ◌∷◌, Bool, true, Option,
  some, arith, take, length, All, if◌then◌else◌,
}
use wclap_bridge.Instance.Memory.{get_array, set_array}
use wclap_bridge.Instance.Memory.Bounds.{get_array-set_array}
use wclap_bridge.Plugin.Streams.{
  ReadReply, read_failed, read_bytes, Count, count, minus, clamp, after_read, istream_read,
  check_buffers,
}

-- A host's answer to a read of `size` bytes: an error, or at most so many, in a buffer of 1024.
abbrev pub Conforms : ℕ → ReadReply → Type 0
Conforms size (read_failed e) = Unit {0}
Conforms size (read_bytes result bytes) = (result ≤ size) × (length bytes ≡ 1024)

-- The memory after a read, and the result, for an answer of the host's.
abbrev pub Answers : ReadReply → List ℕ → List ℕ → ℕ → Count → Type 0
Answers (read_failed e) memory memory' buffer result = (memory' ≡ memory) × (result ≡ minus e)
Answers (read_bytes n bytes) memory memory' buffer result =
    (get_array memory' buffer n ≡ some (take n bytes)) × (result ≡ count n)

pub clamp_bound : (size : ℕ) → clamp size ≤ 1024
unfolding clamp
clamp_bound size = ground arith

length-take_le {ℓ} : {A : Type ℓ} (n : ℕ) (xs : List A) → n ≤ length xs → length (take n xs) ≡ n
length-take_le zero xs h = refl
length-take_le (suc n) [] h = absurd (omega arith)
length-take_le (suc n) (x ∷ xs) h = ap suc (length-take_le n xs (omega arith))

get_array_empty :
    (memory : List ℕ) (buffer : ℕ)
    → length memory < 2 ^ 64
    → buffer ≤ length memory
    → get_array memory buffer 0 ≡ some []
unfolding get_array
get_array_empty memory buffer big inside = ground arith

-- What a read leaves, for an answer of the host's.
Left : ReadReply → List ℕ → ℕ → Option (List ℕ) × Count → Type 0
Left reply memory buffer out =
    (memory' : List ℕ) × (out.0 ≡ some memory')
    × (length memory' ≡ length memory)
    × (take buffer memory' ≡ take buffer memory)
    × Answers reply memory memory' buffer out.1

after_some :
    (memory : List ℕ) (buffer n : ℕ) (bytes : List ℕ)
    → suc n ≤ 1024
    → after_read memory buffer (read_bytes (suc n) bytes)
      ≡ (set_array memory buffer (take (suc n) bytes), count (suc n))
unfolding after_read
after_some memory buffer n bytes le = ground arith

after_read-Left :
    (memory : List ℕ) (buffer size : ℕ) (reply : ReadReply)
    → length memory < 2 ^ 64
    → size ≤ 1024
    → buffer + size ≤ length memory
    → Conforms size reply
    → Left reply memory buffer (after_read memory buffer reply)
unfolding after_read Left
after_read-Left memory buffer size (read_failed e) big kb inside c =
    (memory, refl, refl, refl, (refl, refl))
after_read-Left memory buffer size (read_bytes zero bytes) big kb inside (le, full) =
    (memory, refl, refl, refl, (get_array_empty memory buffer big (omega arith), refl))
after_read-Left memory buffer size (read_bytes (suc n) bytes) big kb inside (le, full) =
    let (memory', e, len, back, before, behind) =
      get_array-set_array memory buffer (take (suc n) bytes) big
        (omega (arith, length-take_le (suc n) bytes (omega arith))) in
    let small = after_some memory buffer n bytes (omega arith) in
    (
      memory',
      ap (λ o. o.0) small ∙ e,
      len,
      before,
      (
        ap (λ k. get_array memory' buffer k) (sym (length-take_le (suc n) bytes (omega arith)))
            ∙ back,
        ap (λ o. o.1) small,
      ),
    )

-- When the WCLAP's buffer is inside its memory, of fewer than 2^64 bytes, and the host answers within
-- the size it was asked for: the memory keeps its size and its bytes before the buffer, the buffer
-- starts with the bytes that the host read, if it read any, and the result is the host's.
pub istream_read_fills :
    (read : ℕ → ReadReply) (memory : List ℕ) (buffer size : ℕ)
    → length memory < 2 ^ 64
    → buffer + clamp size ≤ length memory
    → Conforms (clamp size) (read (clamp size))
    → (memory' : List ℕ) × ((istream_read (some read) memory buffer size).0 ≡ some memory')
      × (length memory' ≡ length memory)
      × (take buffer memory' ≡ take buffer memory)
      × Answers
          (read (clamp size))
          memory
          memory'
          buffer
          (istream_read (some read) memory buffer size).1
unfolding istream_read Left
istream_read_fills read memory buffer size big inside conforms =
    after_read-Left memory buffer (clamp size) (read (clamp size)) big (clamp_bound size) inside
      conforms

checked_sample :
    {S : Type 0} (below : S → Bool) (silence x : S)
    → below silence ≡ true
    → let y = if below x then x else silence in
      (below y ≡ true) × ((if below y then y else silence) ≡ y)
checked_sample below silence x quiet = ground arith

-- Where silence is below the limit: the checked buffer has as many samples, all of them below the
-- limit, and checking it again changes nothing.
pub check_buffers_safe :
    {S : Type 0} (below : S → Bool) (silence : S) (xs : List S)
    → below silence ≡ true
    → let checked = check_buffers below silence xs in
      All (λ x. below x ≡ true) checked
      × (length checked ≡ length xs)
      × (check_buffers below silence checked ≡ checked)
unfolding check_buffers
check_buffers_safe below silence [] quiet = (tt, refl, refl)
check_buffers_safe below silence (x ∷ xs) quiet =
    let (all, same, again) = check_buffers_safe below silence xs quiet in
    let (quiet_one, fixed) = checked_sample below silence x quiet in
    (
      (quiet_one, all),
      ap suc same,
      ap (λ h. h ∷ check_buffers below silence (check_buffers below silence xs)) fixed
          ∙ ap (λ r. (if below x then x else silence) ∷ r) again,
    )
