-- ===== src/Instance/Call/Guarded.antt =====
-- `wtCall` and `call` of wclap-instance-wasmtime.h: errors and results.
use wclap_bridge.Base.{
  ℕ, ◌≡◌, refl, true, false, List, [], ◌∷◌, Option, none, some, Bool-cases, ◌⊎◌, inl, inr,
}
use wclap_bridge.Instance.Values.{
  ArgType, bool, int8, uint8, int16, uint16, int32, uint32, int64, uint64, float, double, pointer32,
  pointer64, encode_args, wasm_val_to_arg, set_slot0,
}
use wclap_bridge.Instance.Group.{has_error}
use wclap_bridge.Instance.Group.Errors.{
  set_error-has_error, set_runtime_error-has_error, set_trap-has_error,
}
use wclap_bridge.Instance.Impl.{Outcome, returned, failed, trapped}
use wclap_bridge.Instance.Call.{
  Machine, State, Entry, function, other, wt_call, call, call_entry, after_call, slot0,
  set_wasm_deadline,
}

pub slot0_cleared : (slots : List ℕ) → slot0 (set_slot0 0 slots) ≡ 0
slot0_cleared [] = refl
slot0_cleared (x ∷ xs) = refl

pub decode_zero : (t : ArgType) → wasm_val_to_arg t 0 ≡ 0
unfolding wasm_val_to_arg
decode_zero bool = refl
decode_zero int8 = refl
decode_zero uint8 = refl
decode_zero int16 = refl
decode_zero uint16 = refl
decode_zero int32 = refl
decode_zero uint32 = refl
decode_zero int64 = refl
decode_zero uint64 = refl
decode_zero float = refl
decode_zero double = refl
decode_zero pointer32 = refl
decode_zero pointer64 = refl

-- What becomes of the outcome of a call.
after_call_outcome :
    {W : Type 0} (r : State W × List ℕ × Outcome)
    → ((has_error (after_call r).0.group ≡ true) × (slot0 (after_call r).1 ≡ 0))
      ⊎ (r ≡ ((after_call r).0, (after_call r).1, returned))
unfolding after_call
after_call_outcome (s, slots, returned) = inr refl
after_call_outcome (s, slots, failed e) =
    inl (set_runtime_error-has_error s.group e, slot0_cleared slots)
after_call_outcome (s, slots, trapped t) =
    inl (set_trap-has_error s.group t _ _, slot0_cleared slots)

module _ {W : Type 0} (limit : ℕ) (mc : Machine W) (s : State W) (fn_p : ℕ) where
  -- The call ended with an error of the group, old or new, and slot 0 is cleared.
  abbrev pub Failed : State W × List ℕ → Type 0
  Failed out = (has_error out.0.group ≡ true) × (slot0 out.1 ≡ 0)

  -- The group had no error, and the pointer is that of a function, which ran under the deadline to its
  -- end and left the group, the store and the slots as they are now.
  abbrev pub Ran : List ℕ → State W × List ℕ → Type 0
  Ran slots out =
      (f : ℕ) × (mc.table_get s.world fn_p ≡ some (function f))
      × (has_error s.group ≡ false)
      × (mc.func_call_unchecked (set_wasm_deadline limit mc s) f slots 1 ≡ (out.0, out.1, returned))

  entry_outcome :
      (e : Option Entry) (slots : List ℕ)
      → has_error s.group ≡ false
      → mc.table_get s.world fn_p ≡ e
      → let out = call_entry limit mc s e slots in Failed out ⊎ Ran slots out
  unfolding call_entry
  entry_outcome none slots h e = inl (set_error-has_error s.group _, slot0_cleared slots)
  entry_outcome (some other) slots h e = inl (set_error-has_error s.group _, slot0_cleared slots)
  entry_outcome (some (function f)) slots h e =
      elim (after_call_outcome (mc.func_call_unchecked (set_wasm_deadline limit mc s) f slots 1)) [
        | inl bad ↦ inl bad
        | inr result ↦ inr (f, e, h, result)
      ]

  pub wt_call_refused :
      (slots : List ℕ)
      → has_error s.group ≡ true
      → wt_call limit mc s fn_p slots ≡ (s, set_slot0 0 slots)
  unfolding wt_call
  wt_call_refused slots h = rw h

  wt_call_entered :
      (slots : List ℕ)
      → has_error s.group ≡ false
      → wt_call limit mc s fn_p slots ≡ call_entry limit mc s (mc.table_get s.world fn_p) slots
  unfolding wt_call
  wt_call_entered slots h = rw h

  pub wt_call_outcome :
      (slots : List ℕ) → let out = wt_call limit mc s fn_p slots in Failed out ⊎ Ran slots out
  wt_call_outcome slots = elim (Bool-cases (has_error s.group)) [
    | inl bad ↦ rw (wt_call_refused slots bad) (inl (bad, slot0_cleared slots))
    | inr good ↦
        rw (wt_call_entered slots good) (entry_outcome (mc.table_get s.world fn_p) slots good refl)
  ]

  -- A call of a WebAssembly function ends in one of two ways: the group has an error and the result
  -- is the zero of the result's type; or there was no error before, the pointer resolves to a function,
  -- which was called on the encoded arguments under the time limit and came to its end, the result is
  -- decoded from slot 0 as it left it, and the group and the store are as it left them, with the errors
  -- of calls that were made from within it.
  pub call_outcome :
      (ret : ArgType) (types : List ArgType) (args : List ℕ)
      → let (s', result) = call limit mc s fn_p ret types args in
        ((has_error s'.group ≡ true) × (result ≡ 0))
        ⊎ ((slots : List ℕ) × Ran (encode_args types args) (s', slots)
            × (result ≡ wasm_val_to_arg ret (slot0 slots)))
  unfolding call
  call_outcome ret types args = elim (wt_call_outcome (encode_args types args)) [
    | inl (bad, zero_slot) ↦ inl (bad, rw zero_slot (decode_zero ret))
    | inr ran ↦ inr ((wt_call limit mc s fn_p (encode_args types args)).1, ran, refl)
  ]
