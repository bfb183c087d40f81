-- ===== src/Instance/Group/Errors.antt =====
-- InstanceGroup's error in wclap-instance-wasmtime.h, over the ways to set it.
use wclap_bridge.Base.{ℕ, ◌≡◌, String, true, List, some, arith, is_some}
use wclap_bridge.Instance.Group.{
  Group, Trap, has_error, set_error, set_runtime_error, set_trap, error,
}

-- The two error members of a group.
abbrev pub SameError : Group → Group → Type 0
SameError g h = (h.wt_error ≡ g.wt_error) × (h.constant_error_message ≡ g.constant_error_message)

-- Whichever way an error is set on a group that has one, by a message, by an error of Wasmtime or by
-- a trap, the stored error stays as it was.
pub first_error_kept :
    (g : Group) (m timeout_message other_message : String) (e : List ℕ) (t : Trap)
    → has_error g ≡ true
    → SameError g (set_error g m)
      × SameError g (set_runtime_error g (some e)).0
      × SameError g (set_trap g (some t) timeout_message other_message).0
unfolding set_error set_runtime_error set_trap
first_error_kept g m tm om e t h = ground arith

pub set_error-has_error : (g : Group) (m : String) → has_error (set_error g m) ≡ true
unfolding set_error
set_error-has_error g m = ground arith

pub set_runtime_error-has_error :
    (g : Group) (e : List ℕ) → has_error (set_runtime_error g (some e)).0 ≡ true
unfolding set_runtime_error
set_runtime_error-has_error g e = ground arith

pub set_trap-has_error :
    (g : Group) (t : Trap) (a b : String) → has_error (set_trap g (some t) a b).0 ≡ true
unfolding set_trap set_error
set_trap-has_error g t a b = ground arith

-- `error()` gives a text exactly when the group has an error.
pub is_some-error : (g : Group) → is_some (error g) ≡ has_error g
unfolding error
is_some-error g = ground arith
