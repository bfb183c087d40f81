-- ===== src/Instance/Examples.antt =====
-- The theorems on instances and groups, each at a concrete input.
use wclap_bridge.Base.{
  ℕ, zero, suc, inl, bytes_eq, ◌+◌, ◌<◌, ◌≡◌, ◌↔◌, ◌⊎◌, refl, String, c_str, true, false, not, List,
  [], ◌∷◌, ◌++◌, Option, none, some, is_some, arith, length, take, drop,
}
use wclap_bridge.Instance.Values.{
  int8, int32, uint32, pointer32, FuncType, i32, funcref, encode_args, wasm_val_to_arg,
  args_as_tuple, make_wasmtime_func_type, wasm_val_type_code, unchecked,
}
use wclap_bridge.Instance.Values.RoundTrip.{unchecked-encode_args}
use wclap_bridge.Instance.Group.{Group, fresh_group, has_error}
use wclap_bridge.Instance.Paths.{Dirs, map_path, absolute, plugin_prefix}
use wclap_bridge.Instance.Paths.Confined.{Confined, map_path_confined, map_path_escapes}
use wclap_bridge.Instance.Scan.{
  Export, Import, SharedMemoryReply, setup_group, scan_exports, scan_imports,
}
use wclap_bridge.Instance.Scan.Accepted.{setup_group_accepts, EntryFound, MemoryFits, memories}
use wclap_bridge.Instance.Impl.{
  Extern, func, global, table, memory, Outcome, returned, failed, ◌>>=◌, pure, require, require_ok,
  require_returned, stop_with_error,
}
use wclap_bridge.Instance.Setup.{
  Replies, setup, fresh_impl, start_instance, setup_steps, make_store, make_wasi, link_shared,
  link_imports, start, memory_of, update_clap_entry, malloc_of, find_table, is_malloc_type,
}
use wclap_bridge.Instance.Setup.Reported.{setup_reports}
use wclap_bridge.Instance.Setup.Ready.{setup_ready, MallocFound, TableFound}
use wclap_bridge.Instance.Setup.Started.{start_instance_once}
use wclap_bridge.Instance.Memory.{get_array, set_array}
use wclap_bridge.Instance.Memory.Bounds.{get_array-set_array, get_array_fault}
use wclap_bridge.Instance.Call.{Machine, State, Entry, function, call, slot0}
use wclap_bridge.Instance.Call.Guarded.{call_outcome, Ran}
use wclap_bridge.Instance.Init
use wclap_bridge.Instance.Init.{init_inner, init32, wasi_init, call_initialize, is_initialize_type}
use wclap_bridge.Instance.Init.Once.{init_once}

-- A store whose only function, the entry 1 of its table, gives the sum of its arguments' slots.
sum_call : State ℕ → ℕ → List ℕ → State ℕ × List ℕ × Outcome
sum_call s f (x ∷ y ∷ slots) = (record s { world = s.world + 1 }, (x + y) ∷ y ∷ slots, returned)
sum_call s f slots = (s, slots, failed (c_str "arity"))

sum_entry : ℕ → ℕ → Option Entry
sum_entry w (suc zero) = some (function 5)
sum_entry w p = none

abbrev sum_machine : Machine ℕ
sum_machine = record {
  set_deadline = λ w e. w;
  table_get = sum_entry;
  func_call = sum_call;
  func_call_unchecked = λ s f slots n. sum_call s f slots;
  table_grow = λ w t. (w, inl w);
}

abbrev sum_state : State ℕ
sum_state = record { group = fresh_group; world = 0 }

call_outcome_example :
    let (s', result) = call 0 sum_machine sum_state 1 int32 (int32 ∷ int32 ∷ []) (3 ∷ 4 ∷ []) in
    ((has_error s'.group ≡ true) × (result ≡ 0))
    ⊎ ((slots : List ℕ) × Ran 0 sum_machine sum_state 1
          (encode_args (int32 ∷ int32 ∷ []) (3 ∷ 4 ∷ []))
          (s', slots)
        × (result ≡ wasm_val_to_arg int32 (slot0 slots)))
call_outcome_example =
    call_outcome 0 sum_machine sum_state 1 int32 (int32 ∷ int32 ∷ []) (3 ∷ 4 ∷ [])

-- A 32-bit WCLAP with a memory, a `malloc` and a table that can grow.
abbrev malloc_type : FuncType
malloc_type = make_wasmtime_func_type (some pointer32) (uint32 ∷ [])

exported : String → Option Extern
exported name = elim (bytes_eq (c_str name) (c_str "malloc")) [
  | true ↦ some (func 7 malloc_type)
  | false ↦ elim (bytes_eq (c_str name) (c_str "memory")) [
    | true ↦ some (memory 3)
    | false ↦ some (global i32 4096)
  ]
]

abbrev replies : Replies
replies = record {
  store_made = true;
  context_made = true;
  linker_made = true;
  define_wasi = none;
  wasi_config_made = true;
  set_wasi = none;
  define_thread_spawn = none;
  define_memory = none;
  instantiate = returned;
  export_get = exported;
  exports = memory 3 ∷ table 2 funcref 8 100000 ∷ [];
}

setup_reports_example :
    (is_some (setup replies (fresh_impl fresh_group)).1
      ≡ not (has_error (setup replies (fresh_impl fresh_group)).0.group))
    × ((has_error (fresh_impl fresh_group).group ≡ false)
        ⊎ (setup replies (fresh_impl fresh_group) ≡ (fresh_impl fresh_group, none)))
setup_reports_example = setup_reports replies (fresh_impl fresh_group)

setup_ready_example :
    let i = (setup replies (fresh_impl fresh_group)).0 in
    MallocFound (replies.export_get "malloc") i × TableFound replies.exports i
unfolding setup fresh_impl fresh_group exported c_str bytes_eq make_store make_wasi link_shared
    link_imports start memory_of update_clap_entry malloc_of find_table is_malloc_type
    make_wasmtime_func_type wasm_val_type_code ◌>>=◌ pure require require_ok require_returned
    stop_with_error setup_steps
setup_ready_example = setup_ready replies (fresh_impl fresh_group) refl

abbrev exports : List Export
exports =
    record { name = c_str "memory"; global_kind = none }
    ∷ record { name = c_str "clap_entry"; global_kind = some i32 }
    ∷ []

abbrev imports : List Import
imports =
    record {
      module_name = c_str "env";
      name = c_str "memory";
      memory = some (record { is_shared = true; is64 = false });
    }
    ∷ []

setup_group_accepts_example :
    let g = setup_group none exports imports SharedMemoryReply.created fresh_group in
    (◌≡◌ {A = Option (List ℕ)} none none) × EntryFound g exports × MemoryFits g (memories imports)
unfolding setup_group scan_exports c_str bytes_eq scan_imports fresh_group
setup_group_accepts_example =
    setup_group_accepts none exports imports SharedMemoryReply.created refl

-- `_initialize` is there, and moves the entry.
abbrev init_replies : Init.Replies
init_replies = record {
  initialize = some (func 1 (make_wasmtime_func_type none []));
  call = returned;
  clap_entry = some (global i32 3000000000);
}

init_once_example :
    let again = init_inner init_replies (init_inner init_replies (fresh_impl fresh_group)).0 in
    (again.1 ≡ 0) × (has_error again.0.group ≡ true)
init_once_example = init_once init_replies init_replies (fresh_impl fresh_group)

get_array-set_array_example :
    (memory' : List ℕ) × (set_array (1 ∷ 2 ∷ 3 ∷ 4 ∷ []) 1 (8 ∷ 9 ∷ []) ≡ some memory')
    × (length memory' ≡ 4)
    × (get_array memory' 1 2 ≡ some (8 ∷ 9 ∷ []))
    × (take 1 memory' ≡ 1 ∷ [])
    × (drop 3 memory' ≡ 4 ∷ [])
get_array-set_array_example =
    get_array-set_array (1 ∷ 2 ∷ 3 ∷ 4 ∷ []) 1 (8 ∷ 9 ∷ []) (omega arith) (omega arith)

get_array_fault_example : (get_array (1 ∷ 2 ∷ 3 ∷ 4 ∷ []) 0 5 ≡ none) ↔ (4 < 5)
get_array_fault_example = get_array_fault (1 ∷ 2 ∷ 3 ∷ 4 ∷ []) 0 5 (omega arith) (omega arith)

-- A native function that counts its calls and gives its first argument.
first_of : ℕ → List ℕ → ℕ × ℕ
first_of calls [] = (calls, 0)
first_of calls (v ∷ vs) = (calls + 1, v)

unchecked-encode_args_example :
    let (s', slots) =
      unchecked
        (some int8)
        (int8 ∷ uint32 ∷ [])
        first_of
        6
        (encode_args (int8 ∷ uint32 ∷ []) (255 ∷ 10 ∷ [])) in
    (s' ≡ 7) × (args_as_tuple (int8 ∷ []) slots ≡ 255 ∷ [])
unfolding first_of
unchecked-encode_args_example =
    unchecked-encode_args int8 int8 (uint32 ∷ []) first_of 6 255 (10 ∷ [])
      (omega arith, (omega arith, tt)) (omega arith)

abbrev broken : Group
broken = record fresh_group { constant_error_message = some "malloc not exported" }

abbrev dirs : Dirs
dirs = record {
  wclap_dir = some (c_str "/wclaps/a.wclap");
  preset_dir = none;
  cache_dir = none;
  var_dir = some (c_str "/var/tmp/");
}

map_path_confined_example : Confined (c_str "/") dirs (c_str "/var/x") (c_str "/var/tmp/x")
unfolding map_path bytes_eq c_str absolute
map_path_confined_example =
    map_path_confined (c_str "/") dirs (c_str "/var/x") (c_str "/var/tmp/x") refl

map_path_escapes_example :
    map_path (c_str "/") dirs (plugin_prefix ++ (b'/' ∷ c_str "etc/passwd"))
    ≡ some (b'/' ∷ c_str "etc/passwd")
map_path_escapes_example =
    map_path_escapes (c_str "/") (c_str "/wclaps/a.wclap") (c_str "etc/passwd") dirs refl

start_instance_once_example :
    let (g', i) = start_instance replies fresh_group in
    ((fresh_group.single_thread ≡ true)
      × (start_instance replies fresh_group ≡ (fresh_group, none)))
    ⊎ ((is_some i ≡ true) × ((g'.shared_memory ≡ true) ⊎ (start_instance replies g' ≡ (g', none))))
start_instance_once_example = start_instance_once replies replies fresh_group
