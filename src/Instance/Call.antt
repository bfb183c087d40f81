-- ===== src/Instance/Call.antt =====
-- wclap-instance-wasmtime.h and .cpp: calls between the bridge and WebAssembly code. The state of
-- the Wasmtime store, with the instance's memory, is a type `W`; what Wasmtime does to it comes as a
-- record. `callMutex` keeps other threads out of a call.
pub mod Guarded
pub mod Variants
pub mod Sticky
mod Examples
use wclap_bridge.Base.{
  ℕ, ◌+◌, ◌-◌, ◌%◌, ◌^◌, String, Bool, true, false, not, List, [], ◌∷◌, Option, none, some, is_some,
  if◌then◌else◌, ltb, ◌==◌, ◌⊎◌, inl, inr,
}
use wclap_bridge.Instance.Values.{
  ArgType, ValKind, FuncType, i32, i64, f32, f64, encode_args, wasm_val_to_arg, set_slot0, as_i32,
  as_i64, make_wasmtime_func_type,
}
use wclap_bridge.Instance.Group.{Group, Trap, has_error, set_error, set_runtime_error, set_trap}
use wclap_bridge.Instance.Impl.{
  Impl, Extern, func, global, table, memory, shared_memory, Outcome, returned, failed, trapped, M,
  ◌>>=◌, ◌>>◌, pure, stop_with_error, require_ok, require_returned, require,
}
use wclap_bridge.Instance.Setup.{update_clap_entry, is_i32, is_i64, i32_as_u64}

-- An entry of a function table.
pub data Entry : Type 0 where
  function : ℕ → Entry
  other : Entry

-- An instance's group and store.
pub record State (W : Type 0) : Type 0 where
  pub group : Group
  pub world : W

-- What runs in WebAssembly can call host functions, which call back, so a call may change the group too.
pub record Machine (W : Type 0) : Type 0 where
  pub set_deadline : W → ℕ → W
  pub table_get : W → ℕ → Option Entry
  -- `wasmtime_func_call`, with the arguments; the slots afterwards are the results
  pub func_call : State W → ℕ → List ℕ → State W × List ℕ × Outcome
  -- `wasmtime_func_call_unchecked`: the slots are arguments and results, and the length is passed on
  pub func_call_unchecked : State W → ℕ → List ℕ → ℕ → State W × List ℕ × Outcome
  -- `wasmtime_table_grow` by one entry, that of a new host function of the type
  pub table_grow : W → FuncType → W × (ℕ ⊎ List ℕ)

abbrev with_error : {W : Type 0} → State W → String → State W
with_error s message = record s { group = set_error s.group message }

-- `error` first, then `message`, as the code reports a failed call twice.
abbrev with_errors : {W : Type 0} → State W → List ℕ → String → State W
with_errors s e message = record s {
  group = set_error (set_runtime_error s.group (some e)).0 message;
}

-- `setWasmDeadline`; the limit 0 means that there is none
unfoldable pub set_wasm_deadline : {W : Type 0} → ℕ → Machine W → State W → State W
set_wasm_deadline time_limit_epochs mc s =
    if time_limit_epochs == 0
    then s
    else record s { world = mc.set_deadline s.world time_limit_epochs }

-- What `wtCall` does with the outcome of the call that it made.
after_call : {W : Type 0} → State W × List ℕ × Outcome → State W × List ℕ
after_call (s, slots, returned) = (s, slots)
after_call (s, slots, failed e) =
    (record s { group = (set_runtime_error s.group (some e)).0 }, set_slot0 0 slots)
after_call (s, slots, trapped t) = (
  record s {
    group =
        (set_trap s.group (some t) "WCLAP function call timeout"
          "WCLAP function call threw (trapped)").0;
  },
  set_slot0 0 slots,
)

call_entry : {W : Type 0} → ℕ → Machine W → State W → Option Entry → List ℕ → State W × List ℕ
unfolding set_wasm_deadline after_call
call_entry limit mc s none slots =
    (with_error s "function pointer doesn't resolve", set_slot0 0 slots)
call_entry limit mc s (some other) slots =
    (with_error s "function pointer doesn't resolve to a function", set_slot0 0 slots)
call_entry limit mc s (some (function f)) slots =
    after_call (mc.func_call_unchecked (set_wasm_deadline limit mc s) f slots 1)

-- `wtCall`: the slots hold the arguments, and slot 0 the result.
unfoldable pub wt_call : {W : Type 0} → ℕ → Machine W → State W → ℕ → List ℕ → State W × List ℕ
unfolding call_entry
wt_call limit mc s fn_p slots =
    if has_error s.group
    then (s, set_slot0 0 slots)
    else call_entry limit mc s (mc.table_get s.world fn_p) slots

abbrev pub slot0 : List ℕ → ℕ
slot0 [] = 0
slot0 (x ∷ xs) = x

-- `call`, of a function with a result and at least one argument
unfoldable pub call :
    {W : Type 0} → ℕ → Machine W → State W → ℕ → ArgType → List ArgType → List ℕ → State W × ℕ
unfolding wt_call
call limit mc s fn_p ret types args =
    let (s', slots) = wt_call limit mc s fn_p (encode_args types args) in
    (s', wasm_val_to_arg ret (slot0 slots))

-- What `wtMalloc` does with the outcome; `kind` is that of the value that came back.
after_malloc : {W : Type 0} → ValKind → State W × List ℕ × Outcome → State W × ℕ
after_malloc kind (s, slots, failed e) = (with_errors s e "calling malloc() failed", 0)
after_malloc kind (s, slots, trapped t) = (
  record s { group = (set_trap s.group (some t) "malloc() timeout" "malloc() threw (trapped)").0 },
  0,
)
after_malloc kind (s, slots, returned) = (
  s,
  if s.group.wasm64
      then (if is_i64 kind then as_i64 (slot0 slots) else 0)
      else (if is_i32 kind then i32_as_u64 (as_i32 (slot0 slots)) else 0),
)

unfoldable pub wt_malloc : {W : Type 0} → ℕ → Machine W → State W → ℕ → ValKind → ℕ → State W × ℕ
unfolding set_wasm_deadline after_malloc
wt_malloc limit mc s malloc_func kind bytes =
    let arg = if s.group.wasm64 then bytes % 2 ^ 64 else bytes % 2 ^ 32 in
    after_malloc kind (mc.func_call (set_wasm_deadline limit mc s) malloc_func (arg ∷ []))

unfoldable pub malloc32 : {W : Type 0} → ℕ → Machine W → State W → ℕ → ValKind → ℕ → State W × ℕ
unfolding wt_malloc
malloc32 limit mc s malloc_func kind size =
    let (s', p) = wt_malloc limit mc s malloc_func kind size in (s', p % 2 ^ 32)

-- `registerHostGeneric`: the index of the new entry of the function table, or -1 in `uint64_t`;
-- `functype_made` is the answer of `wasm_functype_new`.
unfoldable pub grow_table : {W : Type 0} → Group → W × (ℕ ⊎ List ℕ) → State W × ℕ
grow_table g (w, inl index) = (record { group = g; world = w }, index)
grow_table g (w, inr e) = (
  with_errors (record { group = g; world = w }) e
      "failed to add function-table entries for host methods",
  2 ^ 64 - 1,
)

unfoldable pub register_host_generic :
    {W : Type 0} → Machine W → Bool → State W → Option ArgType → List ArgType → State W × ℕ
unfolding grow_table
register_host_generic mc functype_made s ret types =
    if has_error s.group
    then (s, 2 ^ 64 - 1)
    else (if functype_made
        then grow_table s.group (mc.table_grow s.world (make_wasmtime_func_type ret types))
        else (with_error s "failed to create WASM function type", 2 ^ 64 - 1))

-- `registerHost32` and `registerHost64`: both go through `uint32_t`.
unfoldable pub register_host :
    {W : Type 0} → Machine W → Bool → State W → Option ArgType → List ArgType → State W × ℕ
unfolding register_host_generic
register_host mc functype_made s ret types =
    let (s', index) = register_host_generic mc functype_made s ret types in (s', index % 2 ^ 32)

-- `runThread`, with what `export_get` gives for `wasi_thread_start`
after_thread : {W : Type 0} → State W × List ℕ × Outcome → State W
after_thread (s, slots, returned) = s
after_thread (s, slots, failed e) = with_errors s e "error calling wasi_thread_start()"
after_thread (s, slots, trapped t) = record s {
  group =
      (set_trap s.group (some t) "wasi_thread_start() terminated early"
        "wasi_thread_start() threw (trapped)").0;
}

start_thread : {W : Type 0} → ℕ → Machine W → State W → Option Extern → ℕ → ℕ → State W
unfolding after_thread set_wasm_deadline
start_thread limit mc s (some (func f t)) thread_id thread_arg =
    let arg = if s.group.wasm64 then thread_arg % 2 ^ 64 else thread_arg % 2 ^ 32 in
    after_thread
      (mc.func_call_unchecked (set_wasm_deadline limit mc s) f (thread_id % 2 ^ 32 ∷ arg ∷ []) 2)
start_thread limit mc s none thread_id thread_arg = with_error s "wasi_thread_start not found"
start_thread limit mc s (some (global k v)) _ _ = with_error s "wasi_thread_start isn't a function"
start_thread limit mc s (some (memory m)) _ _ = with_error s "wasi_thread_start isn't a function"
start_thread limit mc s (some shared_memory) _ _ = with_error s "wasi_thread_start isn't a function"
start_thread limit mc s (some (table t k lo hi)) _ _ =
    with_error s "wasi_thread_start isn't a function"

unfoldable pub run_thread : {W : Type 0} → ℕ → Machine W → State W → Option Extern → ℕ → ℕ → State W
unfolding start_thread
run_thread limit mc s start thread_id thread_arg =
    if s.group.had_init
    then start_thread limit mc s start thread_id thread_arg
    else with_error s "Instance Group not initialised before .runThread()"

-- `continueChecker`: a thread that was asked to stop ends; any other gets a new deadline.
pub data Check : Type 0 where
  terminate : String → Check
  continue_for : ℕ → Check

unfoldable pub continue_checker : ℕ → Bool → Check
continue_checker limit true = terminate "WCLAP thread terminated"
continue_checker limit false = continue_for limit
