-- ===== src/Bridge.antt =====
-- source/wclap-bridge.cpp: the C API. The mutex of `wclap_global_init` and `wclap_global_deinit` makes
-- each call one step. A handle that the API gives out is the number of the module behind it.
pub mod Active
pub mod Strings
mod Examples
use wclap_bridge.Base.{
  ℕ, suc, ◌+◌, ◌-◌, ◌%◌, ◌^◌, String, c_str, Bool, true, false, List, [], ◌∷◌, ◌++◌, Option, none,
  some, if◌then◌else◌, ltb, ◌==◌, is_some,
}
use wclap_bridge.Instance.Group.{
  Group, fresh_group, error, Engine, EngineReplies, global_init, global_deinit,
}
use wclap_bridge.Instance.Paths.{Dirs}
use wclap_bridge.Instance.Scan.{Export, Import, SharedMemoryReply, setup_group}

-- The globals of the file, with the engine behind them and the modules that are open.
pub record Bridge : Type 0 where
  pub global_init_ms : ℕ
  pub active_wclap_count : ℕ
  pub global_init_ok : Bool
  pub engine : Engine
  pub modules : List ℕ
  pub next_module : ℕ

-- How a call ends: it returns, it calls `abort()`, or it does what C++ leaves undefined.
pub data Ended {ℓ} (A : Type ℓ) : Type ℓ where
  done : A → Ended A
  aborted : Ended A
  undefined : Ended A

unfoldable pub start_bridge : Bridge
start_bridge = record {
  global_init_ms = 0;
  active_wclap_count = 0;
  global_init_ok = false;
  engine = record { time_limit_epochs = 0; engine_exists = false; epoch_running = false };
  modules = [];
  next_module = 0;
}

-- The last two lines of `wclap_global_init`.
init_engine : EngineReplies → ℕ → Engine → Bridge → Ended (Bridge × Bool)
init_engine r ms engine s =
    let (engine', ok) = global_init r ms engine in
    done (record s { global_init_ms = ms; global_init_ok = ok; engine = engine' }, ok)

unfoldable pub wclap_global_init : EngineReplies → ℕ → Bridge → Ended (Bridge × Bool)
unfolding init_engine
wclap_global_init r ms s =
    if s.global_init_ok
    then (if ms == s.global_init_ms
        then done (s, true)
        else (if ltb 0 s.active_wclap_count
            then aborted
            else init_engine r ms (global_deinit s.engine) s))
    else init_engine r ms s.engine s

unfoldable pub wclap_global_deinit : Bridge → Ended Bridge
wclap_global_deinit s =
    if s.global_init_ok
    then (if ltb 0 s.active_wclap_count
        then aborted
        else done (record s { global_init_ok = false; engine = global_deinit s.engine }))
    else done s

ends_with_slash : List ℕ → Bool
ends_with_slash [] = true
ends_with_slash (c ∷ []) = c == b'/'
ends_with_slash (c ∷ d ∷ cs) = ends_with_slash (d ∷ cs)

-- `ensureTrailingSlash`, other than on Windows
unfoldable pub ensure_trailing_slash : List ℕ → List ℕ
unfolding ends_with_slash
ensure_trailing_slash dir = if ends_with_slash dir then dir else dir ++ (b'/' ∷ [])

-- What lies outside: the file system, and what Wasmtime finds in the bytes of a module.
pub record Compiled : Type 0 where
  pub compile_error : Option (List ℕ)
  pub exports : List Export
  pub imports : List Import
  pub shared_memory : SharedMemoryReply

pub record Outside : Type 0 where
  pub read_file : List ℕ → Option (List ℕ)
  pub compile : List ℕ → Compiled

-- The file that is read, and the directory that the WCLAP is given, which a bare file has not.
unfoldable pub find_module : Outside → List ℕ → Option (List ℕ × Option (List ℕ))
unfolding ensure_trailing_slash
find_module o wclap_dir =
    elim (o.read_file (ensure_trailing_slash wclap_dir ++ c_str "module.wasm")) [
      | some bytes ↦ some (bytes, some wclap_dir)
      | none ↦ elim (o.read_file wclap_dir) [ some bytes ↦ some (bytes, none) | none ↦ none ]
    ]

-- `createInstanceGroup`
unfoldable pub create_instance_group : Outside → List ℕ → Group
create_instance_group o bytes =
    let c = o.compile bytes in
    setup_group c.compile_error c.exports c.imports c.shared_memory fresh_group

-- A group without an error is counted and becomes a module.
open_group : Group → Dirs → Bridge → Bridge × Option (ℕ × Group × Dirs)
open_group g d s = elim (error g) [
  | some e ↦ (s, none)
  | none ↦ (
    record s {
      active_wclap_count = (s.active_wclap_count + 1) % 2 ^ 64;
      modules = s.next_module ∷ s.modules;
      next_module = suc s.next_module;
    },
    some (s.next_module, g, d),
  )
]

open_found :
    Outside → Dirs → Option (List ℕ × Option (List ℕ)) → Bridge → Bridge × Option (ℕ × Group × Dirs)
unfolding open_group
open_found o d none s = (s, none)
open_found o d (some ([], dir)) s = (s, none)
open_found o d (some (b ∷ bytes, dir)) s =
    open_group (create_instance_group o (b ∷ bytes)) (record d { wclap_dir = dir }) s

-- `wclap_open_with_dirs`: the new module's handle, with its instance group and directories, or a
-- null pointer.
unfoldable pub wclap_open_with_dirs : Outside → Dirs → Bridge → Bridge × Option (ℕ × Group × Dirs)
unfolding open_found
wclap_open_with_dirs o d s =
    if s.global_init_ok
    then elim d.wclap_dir [ none ↦ (s, none) | some dir ↦ open_found o d (find_module o dir) s ]
    else (s, none)

-- `wclap_open`
unfoldable pub wclap_open : Outside → Option (List ℕ) → Bridge → Bridge × Option (ℕ × Group × Dirs)
unfolding wclap_open_with_dirs
wclap_open o dir s =
    wclap_open_with_dirs o
      (record { wclap_dir = dir; preset_dir = none; cache_dir = none; var_dir = none }) s

contains : ℕ → List ℕ → Bool
contains h [] = false
contains h (m ∷ ms) = (if m == h then true else contains h ms)

remove : ℕ → List ℕ → List ℕ
remove h [] = []
remove h (m ∷ ms) = if m == h then ms else m ∷ remove h ms

-- `wclap_close`, of a null pointer, of a module that is open, and of any other pointer, whose
-- deletion is undefined.
unfoldable pub wclap_close : Option ℕ → Bridge → Ended Bridge
unfolding contains remove
wclap_close none s = aborted
wclap_close (some h) s =
    if contains h s.modules
    then done (record s {
      active_wclap_count = (s.active_wclap_count + 2 ^ 64 - 1) % 2 ^ 64;
      modules = remove h s.modules;
    })
    else undefined

-- Any one call of the API that changes the state.
pub data Op : Type 0 where
  init : EngineReplies → ℕ → Op
  deinit : Op
  opens : Outside → Dirs → Op
  closes : Option ℕ → Op

first : Ended (Bridge × Bool) → Ended Bridge
first (done (s, b)) = done s
first aborted = aborted
first undefined = undefined

unfoldable pub step : Op → Bridge → Ended Bridge
unfolding first
step (init r ms) s = first (wclap_global_init r ms s)
step deinit s = wclap_global_deinit s
step (opens o d) s = done (wclap_open_with_dirs o d s).0
step (closes h) s = wclap_close h s

after : List Op → Ended Bridge → Ended Bridge
after [] e = e
after (op ∷ ops) (done s) = after ops (step op s)
after (op ∷ ops) aborted = aborted
after (op ∷ ops) undefined = undefined

-- A history of calls, up to the first that does not return.
unfoldable pub run : List Op → Bridge → Ended Bridge
unfolding after
run ops s = after ops (done s)
