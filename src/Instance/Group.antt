-- ===== src/Instance/Group.antt =====
-- wclap-instance-wasmtime.h, InstanceGroup: what the threads of one WCLAP share, its error, and
-- the engine under all groups. Logging to the console is left out; the group's mutex makes each method
-- one step. The `delete` calls of the destructor have no counterpart.
pub mod Errors
use wclap_bridge.Base.{
  ℕ, ◌+◌, ◌/◌, ◌%◌, ◌^◌, ◌-◌, String, c_str, take, Bool, true, false, ◌&&◌, ◌||◌, not, List, Option,
  none, some, ltb, if◌then◌else◌, is_some,
}

-- A trap, as far as `trapIsTimeout` asks: whether its code is WASMTIME_TRAP_CODE_INTERRUPT.
pub record Trap : Type 0 where
  pub is_interrupt : Bool

pub trap_is_timeout : Trap → Bool
trap_is_timeout t = t.is_interrupt

-- `wt_error` is the text of the `wasmtime_error_t`, `shared_memory` whether one was created.
pub record Group : Type 0 where
  pub had_init : Bool
  pub wasm64 : Bool
  pub wt_error : Option (List ℕ)
  pub constant_error_message : Option String
  pub shared_memory : Bool
  pub shared_memory_import_module : List ℕ
  pub shared_memory_import_name : List ℕ
  pub single_thread : Bool

-- The members' initial values.
unfoldable pub fresh_group : Group
fresh_group = record {
  had_init = false;
  wasm64 = false;
  wt_error = none;
  constant_error_message = none;
  shared_memory = false;
  shared_memory_import_module = c_str "";
  shared_memory_import_name = c_str "";
  single_thread = false;
}

abbrev pub has_error : Group → Bool
has_error g = is_some g.constant_error_message || is_some g.wt_error

-- The three overloads of `setError`. The first returns true.
unfoldable pub set_error : Group → String → Group
set_error g message = if has_error g then g else record g { constant_error_message = some message }

unfoldable pub set_runtime_error : Group → Option (List ℕ) → Group × Bool
set_runtime_error g none = (g, false)
set_runtime_error g (some e) =
    if has_error g then (g, true) else (record g { wt_error = some e }, true)

unfoldable pub set_trap : Group → Option Trap → String → String → Group × Bool
unfolding set_error trap_is_timeout
set_trap g none timeout_message other_message = (g, false)
set_trap g (some t) timeout_message other_message =
    (set_error g (if trap_is_timeout t then timeout_message else other_message), true)

-- `error()`: at most 255 bytes of a Wasmtime error.
unfoldable pub error : Group → Option (List ℕ)
error g = elim g.constant_error_message [
  | some m ↦ some (c_str m)
  | none ↦ elim g.wt_error [ none ↦ none | some e ↦ some (take 255 e) ]
]

-- `wtWasiThreadSpawn`: the slot comes in with the argument and goes out with the thread's id. The
-- module's handler is absent before it is installed and after the module is destroyed.
unfoldable pub wt_wasi_thread_spawn : {S : Type 0} → Bool → Option (ℕ → S → S × ℕ) → S → ℕ → S × ℕ
wt_wasi_thread_spawn is64 none s slot = (s, 2 ^ 32 - 1)
wt_wasi_thread_spawn is64 (some spawn) s slot =
    spawn (if is64 then slot % 2 ^ 64 else slot % 2 ^ 32) s

-- `globalInit` and `globalDeinit`: the engine, the epoch thread and the time limit in epochs.
pub record Engine : Type 0 where
  pub time_limit_epochs : ℕ
  pub engine_exists : Bool
  pub epoch_running : Bool

abbrev pub epoch_counter_ms : ℕ
epoch_counter_ms = 10

-- What Wasmtime answers on the way: `wasm_config_new`, whether loading the cache configuration
-- fails, `wasm_engine_new_with_config`.
pub record EngineReplies : Type 0 where
  pub config_made : Bool
  pub cache_error : Bool
  pub engine_made : Bool

-- The part that sets the time limit and makes the engine.
start_engine : EngineReplies → ℕ → Engine → Engine × Bool
start_engine r time_limit_ms e =
    if r.engine_made
    then (record limited { epoch_running = ltb 0 time_limit_ms || e.epoch_running }, true)
    else (limited, false)
  where
    limited : Engine
    limited = record e {
      time_limit_epochs = if ltb 0 time_limit_ms then time_limit_ms / epoch_counter_ms + 2 else 0;
      engine_exists = r.engine_made;
    }

unfoldable pub global_init : EngineReplies → ℕ → Engine → Engine × Bool
unfolding start_engine
global_init r time_limit_ms e =
    if r.config_made && not r.cache_error then start_engine r time_limit_ms e else (e, false)

unfoldable pub global_deinit : Engine → Engine
global_deinit e = record e { epoch_running = false; engine_exists = false }
