-- ===== src/Instance/Call/Variants.antt =====
-- wclap-instance-wasmtime.h: the other forms of `call`, `callAt`, and histories of them.
use wclap_bridge.Base.{ℕ, List, [], ◌∷◌, Option, none, some}
use wclap_bridge.Instance.Values.{ArgType, encode_args, wasm_val_to_arg}
use wclap_bridge.Instance.Call.{Machine, State, wt_call, call, slot0}

-- One call into the WCLAP through `wtCall`. `wtMalloc` and `runThread`, which do not look for an error
-- first, are none.
pub data Invocation : Type 0 where
  calls : ℕ → ArgType → List ArgType → List ℕ → Invocation
  calls_void : ℕ → List ArgType → List ℕ → Invocation
  calls_nullary : ℕ → ArgType → ℕ → Invocation
  calls_at : ℕ → ArgType → List ArgType → List ℕ → Invocation

module _ {W : Type 0} (limit : ℕ) (mc : Machine W) where
  -- `call` of a function without a result
  unfoldable pub call_void : State W → ℕ → List ArgType → List ℕ → State W
  call_void s fn_p types args = (wt_call limit mc s fn_p (encode_args types args)).0

  -- `call` of a function without arguments: `slot` is what the one slot happens to hold.
  unfoldable pub call_nullary : State W → ℕ → ArgType → ℕ → State W × ℕ
  call_nullary s fn_p ret slot =
      let (s', slots) = wt_call limit mc s fn_p (slot ∷ []) in
      (s', wasm_val_to_arg ret (slot0 slots))

  -- `callAt`: `get_function` is what `getArray` reads at the pointer, none where it returns false.
  unfoldable pub call_at :
      (W → ℕ → Option ℕ) → State W → ℕ → ArgType → List ArgType → List ℕ → State W × ℕ
  call_at get_function s fn_ptr_ptr ret types args = elim (get_function s.world fn_ptr_ptr) [
    | none ↦ (s, 0)
    | some fn_p ↦ call limit mc s fn_p ret types args
  ]

  unfoldable pub invoke : (W → ℕ → Option ℕ) → State W → Invocation → State W × ℕ
  unfolding call_void call_nullary call_at
  invoke get_function s (calls fn_p ret types args) = call limit mc s fn_p ret types args
  invoke get_function s (calls_void fn_p types args) = (call_void s fn_p types args, 0)
  invoke get_function s (calls_nullary fn_p ret slot) = call_nullary s fn_p ret slot
  invoke get_function s (calls_at p ret types args) = call_at get_function s p ret types args

  unfoldable pub invoke_all : (W → ℕ → Option ℕ) → State W → List Invocation → State W × List ℕ
  unfolding invoke
  invoke_all get_function s [] = (s, [])
  invoke_all get_function s (c ∷ cs) =
      let (s₁, r) = invoke get_function s c in
      let (s₂, rs) = invoke_all get_function s₁ cs in (s₂, r ∷ rs)
