-- ===== src/Module/Failure.antt =====
-- source/_generic/wclap-module-base.h: the error of a module, `setError` and `getError`. The mutex
-- makes each call one step.
pub mod Reading
use wclap_bridge.Base.{
  ℕ, zero, suc, ◌-◌, String, c_str, strncpy, Bool, true, false, List, [], ◌∷◌, Option, none, some,
  if◌then◌else◌, leb, ◌==◌, set, length,
}
use wclap_bridge.Instance.Group.{Group, error}

pub record ErrorState : Type 0 where
  pub has_error : Bool
  pub error_message : List ℕ

-- The members' initial values.
unfoldable pub fresh : ErrorState
fresh = record { has_error = false; error_message = c_str "not initialised" }

unfoldable pub set_error : ErrorState → List ℕ → ErrorState
set_error s message = record { has_error = true; error_message = message }

-- The copy into the caller's buffer; `none` is a write outside it, which C++ leaves undefined. With
-- a length of 0 the last line writes at the index 2^64 - 1.
unfoldable pub fill : List ℕ → List ℕ → ℕ → Option (List ℕ)
fill message buffer zero = none
fill message buffer (suc n) =
    if leb (suc n) (length buffer) then some (set (strncpy buffer message n) n 0) else none

-- `getError`: the new state, and the buffer with whether there was an error.
unfoldable pub get_error : Group → ErrorState → List ℕ → ℕ → ErrorState × Option (List ℕ × Bool)
unfolding set_error fill
get_error g s buffer buffer_length =
    if s.has_error then (s, reply (fill s.error_message buffer buffer_length)) else elim (error g) [
      | none ↦ (s, some (buffer, false))
      | some e ↦ (set_error s e, reply (fill e buffer buffer_length))
    ]
  where
    reply : Option (List ℕ) → Option (List ℕ × Bool)
    reply none = none
    reply (some filled) = some (filled, true)
