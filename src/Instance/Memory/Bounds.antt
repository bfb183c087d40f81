-- ===== src/Instance/Memory/Bounds.antt =====
-- Which bytes `getArray` and `setArray` of wclap-instance-wasmtime.h touch.
use wclap_bridge.Base.{
  ℕ, zero, suc, ◌+◌, ◌^◌, ◌≤◌, ◌<◌, ◌≡◌, refl, sym, append_assoc, List, [], ◌∷◌, ◌++◌, none, some,
  arith, take, drop, length, length-take, length-drop, length-append, ap, ◌∙◌, ◌↔◌,
}
use wclap_bridge.Instance.Memory.{wasm_memory, get_array, set_array}

-- A read leaves the memory exactly if it asks for more bytes than the memory has, wherever it
-- points to; the size of the memory and that of the read are below 2^64.
pub get_array_fault :
    (memory : List ℕ) (p size : ℕ)
    → length memory < 2 ^ 64
    → size < 2 ^ 64
    → (get_array memory p size ≡ none) ↔ (length memory < size)
unfolding get_array
get_array_fault memory p size big small = (λ h. ground arith, λ h. ground arith)

set_array_fault :
    (memory : List ℕ) (p : ℕ) (bytes : List ℕ)
    → length memory < 2 ^ 64
    → length bytes < 2 ^ 64
    → (set_array memory p bytes ≡ none) ↔ (length memory < length bytes)
unfolding set_array
set_array_fault memory p bytes big small = (λ h. ground arith, λ h. ground arith)

wasm_memory_inside :
    (memory : List ℕ) (p size : ℕ)
    → length memory < 2 ^ 64
    → p + size ≤ length memory
    → wasm_memory memory p size ≡ p
unfolding wasm_memory
wasm_memory_inside memory p size big h = omega arith

drop-append_length {ℓ} :
    {A : Type ℓ} (n : ℕ) (xs ys : List A) → length xs ≡ n → drop n (xs ++ ys) ≡ ys
drop-append_length zero [] ys h = refl
drop-append_length zero (x ∷ xs) ys h = absurd (omega arith)
drop-append_length (suc n) [] ys h = absurd (omega arith)
drop-append_length (suc n) (x ∷ xs) ys h = drop-append_length n xs ys (omega arith)

take-append_length {ℓ} :
    {A : Type ℓ} (n : ℕ) (xs ys : List A) → length xs ≡ n → take n (xs ++ ys) ≡ xs
take-append_length zero [] ys h = refl
take-append_length zero (x ∷ xs) ys h = absurd (omega arith)
take-append_length (suc n) [] ys h = absurd (omega arith)
take-append_length (suc n) (x ∷ xs) ys h =
    ap (λ t. x ∷ t) (take-append_length n xs ys (omega arith))

-- Inside the memory the pointer is used as it is.
get_array_inside :
    (memory : List ℕ) (p size : ℕ)
    → length memory < 2 ^ 64
    → p + size ≤ length memory
    → get_array memory p size ≡ some (take size (drop p memory))
unfolding get_array
get_array_inside memory p size big h = rw (wasm_memory_inside memory p size big h) (ground arith)

set_array_inside :
    (memory : List ℕ) (p : ℕ) (bytes : List ℕ)
    → length memory < 2 ^ 64
    → p + length bytes ≤ length memory
    → set_array memory p bytes ≡ some (take p memory ++ (bytes ++ drop (p + length bytes) memory))
unfolding set_array
set_array_inside memory p bytes big h =
    rw (wasm_memory_inside memory p (length bytes) big h) (ground arith)

-- What a write leaves.
module _ (memory : List ℕ) (p : ℕ) (bytes : List ℕ) (h : p + length bytes ≤ length memory) where
  abbrev written : List ℕ
  written = take p memory ++ (bytes ++ drop (p + length bytes) memory)

  length-prefix : length (take p memory) ≡ p
  length-prefix = omega (arith, length-take p memory)

  length-written : length written ≡ length memory
  length-written = omega (
    arith,
    length-prefix,
    length-drop (p + length bytes) memory,
    length-append bytes (drop (p + length bytes) memory),
    length-append (take p memory) (bytes ++ drop (p + length bytes) memory),
  )

  read-written : take (length bytes) (drop p written) ≡ bytes
  read-written =
      rw
        (drop-append_length p (take p memory) (bytes ++ drop (p + length bytes) memory)
          length-prefix)
        (take-append_length (length bytes) bytes _ refl)

  rest-written : drop (p + length bytes) written ≡ drop (p + length bytes) memory
  rest-written =
      ap (drop (p + length bytes))
        (sym (append_assoc (take p memory) bytes (drop (p + length bytes) memory)))
      ∙ drop-append_length (p + length bytes) (take p memory ++ bytes)
          (drop (p + length bytes) memory)
          (omega (arith, length-prefix, length-append (take p memory) bytes))

-- A write inside the memory, which has fewer than 2^64 bytes, keeps the memory's size; a read of the
-- same place and size then gives the bytes back, and the bytes before the place and behind what was
-- written are as they were.
pub get_array-set_array :
    (memory : List ℕ) (p : ℕ) (bytes : List ℕ)
    → length memory < 2 ^ 64
    → p + length bytes ≤ length memory
    → (memory' : List ℕ) × (set_array memory p bytes ≡ some memory')
      × (length memory' ≡ length memory)
      × (get_array memory' p (length bytes) ≡ some bytes)
      × (take p memory' ≡ take p memory)
      × (drop (p + length bytes) memory' ≡ drop (p + length bytes) memory)
get_array-set_array memory p bytes big h = (
  written memory p bytes h,
  set_array_inside memory p bytes big h,
  length-written memory p bytes h,
  get_array_inside _ p (length bytes) (rw (length-written memory p bytes h) big)
        (rw (length-written memory p bytes h) h)
      ∙ ap some (read-written memory p bytes h),
  take-append_length p (take p memory) _ (length-prefix memory p bytes h),
  rest-written memory p bytes h,
)
