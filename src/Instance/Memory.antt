-- ===== src/Instance/Memory.antt =====
-- wclap-instance-wasmtime.h: `wasmMemory`, `getArray` and `setArray`, over an instance's memory as
-- its bytes. `memcpy` outside the memory is undefined in C++; here it is the result `none`.
pub mod Bounds
use wclap_bridge.Base.{
  ℕ, ◌+◌, ◌-◌, ◌%◌, ◌^◌, List, ◌++◌, Option, none, some, leb, if◌then◌else◌, take, drop, length,
  min,
}

-- `wasmMemory`: the offset that is used for the pointer, `min(wasmP, memorySize - size)` in
-- `uint64_t`.
unfoldable pub wasm_memory : List ℕ → ℕ → ℕ → ℕ
wasm_memory memory wasm_p size = min wasm_p ((length memory + 2 ^ 64 - size) % 2 ^ 64)

-- `getArray`, of `size` bytes
unfoldable pub get_array : List ℕ → ℕ → ℕ → Option (List ℕ)
unfolding wasm_memory
get_array memory p size =
    let at = wasm_memory memory p size in
    if leb (at + size) (length memory) then some (take size (drop at memory)) else none

-- `setArray`, of the bytes of the values
unfoldable pub set_array : List ℕ → ℕ → List ℕ → Option (List ℕ)
unfolding wasm_memory
set_array memory p bytes =
    let at = wasm_memory memory p (length bytes) in
    if leb (at + length bytes) (length memory)
    then some (take at memory ++ (bytes ++ drop (at + length bytes) memory))
    else none
