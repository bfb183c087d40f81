-- ===== src/Instance/Setup.antt =====
-- wclap-instance-wasmtime.cpp, InstanceImpl::setup: an instance's store, its WASI configuration,
-- its imports, and the exports that the bridge needs. One function for each part, in order.
pub mod Reported
pub mod Ready
pub mod Started
use wclap_bridge.Base.{
  ℕ, ◌+◌, ◌-◌, ◌^◌, String, Bool, true, false, not, ◌&&◌, ◌||◌, List, [], ◌∷◌, ◌++◌, Option, none,
  some, is_some, if◌then◌else◌, ltb, ◌==◌, length, c_str,
}
use wclap_bridge.Instance.Values.{
  ValKind, FuncType, i32, i64, f32, f64, funcref, make_wasmtime_func_type, uint32, uint64,
}
use wclap_bridge.Instance.Group.{Group, has_error}
use wclap_bridge.Instance.Paths.{Dirs}
use wclap_bridge.Instance.Impl.{
  Impl, Extern, func, global, table, memory, shared_memory, Outcome, M, ◌>>=◌, ◌>>◌, pure,
  stop_with_error, require, require_ok, require_returned,
}

-- What Wasmtime answers while an instance is made. `export_get` is
-- `wasmtime_instance_export_get`, and `exports` what `wasmtime_instance_export_nth` gives from
-- index 0 until it fails.
pub record Replies : Type 0 where
  pub store_made : Bool
  pub context_made : Bool
  pub linker_made : Bool
  pub define_wasi : Option (List ℕ)
  pub wasi_config_made : Bool
  pub set_wasi : Option (List ℕ)
  pub define_thread_spawn : Option (List ℕ)
  pub define_memory : Option (List ℕ)
  pub instantiate : Outcome
  pub export_get : String → Option Extern
  pub exports : List Extern

-- The environment variables that the WCLAP sees, and the directories.
unfoldable pub add_env : (String → Option (List ℕ)) → String → List (String × List ℕ)
add_env getenv name = elim (getenv name) [ none ↦ [] | some value ↦ (name, value) ∷ [] ]

unfoldable pub wasi_env : (String → Option (List ℕ)) → List (String × List ℕ)
unfolding add_env
wasi_env getenv = add_env getenv "TERM" ++ add_env getenv "LANG"

pub record Preopen : Type 0 where
  pub host : List ℕ
  pub guest : List ℕ
  pub can_write : Bool

unfoldable pub preopen : Option (List ℕ) → String → Bool → List Preopen
preopen none guest can_write = []
preopen (some dir) guest can_write =
    record { host = dir; guest = c_str guest; can_write = can_write } ∷ []

unfoldable pub wasi_preopens : Dirs → List Preopen
unfolding preopen
wasi_preopens d =
    preopen d.wclap_dir "/plugin.wclap/" false
    ++ (preopen d.preset_dir "/presets/" true
        ++ (preopen d.cache_dir "/cache/" true ++ preopen d.var_dir "/var/" true))

unfoldable pub make_store : Replies → M (Unit {0})
make_store r = do
  require r.store_made "Failed to create store"
  require r.context_made "Failed to get context"
  require r.linker_made "error creating linker"
  require (not (is_some r.define_wasi)) "error linking WASI"

unfoldable pub make_wasi : Replies → M (Unit {0})
make_wasi r = do
  require r.wasi_config_made "Failed to create WASI config"
  require_ok r.set_wasi "Failed to configure WASI"

-- The type under which `thread-spawn` is defined.
unfoldable pub thread_spawn_type : Group → FuncType
thread_spawn_type g =
    if g.wasm64
    then make_wasmtime_func_type (some uint32) (uint64 ∷ [])
    else make_wasmtime_func_type (some uint32) (uint32 ∷ [])

unfoldable pub link_shared : Replies → M (Unit {0})
link_shared r = do
  require_ok r.define_thread_spawn "error linking wasi::thread-spawn import"
  require_ok r.define_memory "error linking shared-memory import"

unfoldable pub link_imports : Replies → M (Unit {0})
link_imports r i = if i.group.shared_memory then link_shared r i else pure tt i

unfoldable pub start : Replies → M (Unit {0})
start r =
    require_returned r.instantiate "Failed to create instance (error)"
      "Failed to start instance (timeout)" "Failed to start instance (trap)"

unfoldable pub memory_of : Option Extern → M (Unit {0})
memory_of (some (memory m)) i = pure tt (record i { wt_memory = some m })
memory_of (some shared_memory) i =
    require i.group.shared_memory "exported shared memory, but didn't import it" i
memory_of (some (func f t)) i = stop_with_error "exported memory isn't a (Shared)Memory" i
memory_of (some (global k v)) i = stop_with_error "exported memory isn't a (Shared)Memory" i
memory_of (some (table t k lo hi)) i = stop_with_error "exported memory isn't a (Shared)Memory" i
memory_of none i =
    require i.group.shared_memory "must either export memory or import shared memory" i

abbrev pub is_i32 : ValKind → Bool
is_i32 i32 = true
is_i32 _ = false

abbrev pub is_i64 : ValKind → Bool
is_i64 i64 = true
is_i64 _ = false

-- `int32_t` to `uint64_t`: the sign is carried up.
abbrev pub i32_as_u64 : ℕ → ℕ
i32_as_u64 v = if ltb v (2 ^ 31) then v else v + (2 ^ 64 - 2 ^ 32)

-- `updateClapEntry`, at what `export_get` gives for `clap_entry`
unfoldable pub update_clap_entry : Option Extern → M (Unit {0})
update_clap_entry (some (global k v)) i =
    if is_i32 k && not i.group.wasm64
    then pure tt (record i { wclap_entry_as64 = i32_as_u64 v })
    else (if is_i64 k && i.group.wasm64
        then pure tt (record i { wclap_entry_as64 = v })
        else stop_with_error "clap_entry is not a (correctly-sized) pointer" i)
update_clap_entry (some (func f t)) i = stop_with_error "clap_entry isn't a Global" i
update_clap_entry (some (memory m)) i = stop_with_error "clap_entry isn't a Global" i
update_clap_entry (some shared_memory) i = stop_with_error "clap_entry isn't a Global" i
update_clap_entry (some (table t k lo hi)) i = stop_with_error "clap_entry isn't a Global" i
update_clap_entry none i = stop_with_error "clap_entry not exported" i

-- One parameter and one result, both of the group's pointer width.
unfoldable pub is_malloc_type : Bool → List ValKind → List ValKind → Bool
is_malloc_type is64 (p ∷ []) (r ∷ []) = if is64 then is_i64 p && is_i64 r else is_i32 p && is_i32 r
is_malloc_type is64 _ _ = false

unfoldable pub malloc_of : Option Extern → M (Unit {0})
unfolding is_malloc_type
malloc_of (some (func f t)) i =
    if is_malloc_type i.group.wasm64 t.params t.results
    then pure tt (record i { wt_malloc_func = some f })
    else stop_with_error "malloc() function signature mismatch" i
malloc_of (some (global k v)) i = stop_with_error "malloc isn't a Function" i
malloc_of (some (memory m)) i = stop_with_error "malloc isn't a Function" i
malloc_of (some shared_memory) i = stop_with_error "malloc isn't a Function" i
malloc_of (some (table t k lo hi)) i = stop_with_error "malloc isn't a Function" i
malloc_of none i = stop_with_error "malloc not exported" i

abbrev pub is_funcref : ValKind → Bool
is_funcref funcref = true
is_funcref _ = false

-- How many entries a function table must be able to grow by.
abbrev pub host_entries : ℕ
host_entries = 65536

-- The loop that looks for the first function table.
unfoldable pub find_table : List Extern → M (Unit {0})
find_table [] i = stop_with_error "couldn't find function table in WCLAP" i
find_table (table t k lo hi ∷ es) i =
    let rest = find_table es i in
    if is_funcref k
    then (if ltb hi host_entries || ltb (hi - host_entries) lo
        then stop_with_error "exported function table can't grow enough for CLAP host functions" i
        else pure tt (record i { wt_function_table = some t }))
    else rest
find_table (func f t ∷ es) i = find_table es i
find_table (global k v ∷ es) i = find_table es i
find_table (memory m ∷ es) i = find_table es i
find_table (shared_memory ∷ es) i = find_table es i

-- The whole, with nothing done to a group that has an error.
unfoldable pub setup_steps : Replies → M (Unit {0})
setup_steps r = do
  make_store r
  make_wasi r
  link_imports r
  start r
  memory_of (r.export_get "memory")
  update_clap_entry (r.export_get "clap_entry")
  malloc_of (r.export_get "malloc")
  find_table r.exports

unfoldable pub setup : Replies → M (Unit {0})
unfolding setup_steps
setup r i = if has_error i.group then (i, none) else setup_steps r i

-- A new instance of a group, before `setup`.
unfoldable pub fresh_impl : Group → Impl
fresh_impl g = record {
  group = g;
  wclap_entry_as64 = 0;
  wt_memory = none;
  wt_function_table = none;
  wt_malloc_func = none;
}

-- `singleThread` is set where there is no shared memory.
unfoldable pub keep_single : Impl → Group × Option Impl
keep_single made =
    let g = made.group in
    let kept = if g.shared_memory then g else record g { single_thread = true } in
    (kept, some (record made { group = kept }))

-- `InstanceGroup::startInstance`: the instance, if one is given out. Without shared memory only the
-- first caller gets one; an instance whose set-up failed is given out too.
unfoldable pub start_instance : Replies → Group → Group × Option Impl
unfolding keep_single
start_instance r g = if g.single_thread then (g, none) else keep_single (setup r (fresh_impl g)).0
