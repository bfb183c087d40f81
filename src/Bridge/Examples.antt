-- ===== src/Bridge/Examples.antt =====
-- The theorems on the C API, each at a concrete input.
use wclap_bridge.Base.{
  ◌≡◌, ◌⊎◌, refl, true, false, c_str, bytes_eq, List, [], ◌∷◌, none, some, arith, length,
}
use wclap_bridge.Instance.Group.{EngineReplies, global_init, error, fresh_group}
use wclap_bridge.Instance.Scan.{SharedMemoryReply, setup_group, scan_exports, scan_imports}
use wclap_bridge.Instance.Values.{i32}
use wclap_bridge.Instance.Paths.{Dirs}
use wclap_bridge.Bridge.{
  Bridge, Outside, start_bridge, wclap_global_init, Op, init, opens, closes, run, step, wclap_close,
  wclap_open_with_dirs, find_module, create_instance_group,
}
use wclap_bridge.Bridge.Active.{Inv, run_counts}

abbrev answers : EngineReplies
answers = record { config_made = true; cache_error = false; engine_made = true }

-- Every path has a module, which exports `clap_entry` and imports nothing.
abbrev outside : Outside
outside = record {
  read_file = λ path. some (0 ∷ []);
  compile = λ bytes. record {
    compile_error = none;
    exports = record { name = c_str "clap_entry"; global_kind = some i32 } ∷ [];
    imports = [];
    shared_memory = SharedMemoryReply.created;
  };
}

abbrev dirs : Dirs
dirs = record {
  wclap_dir = some (c_str "/a.wclap");
  preset_dir = none;
  cache_dir = none;
  var_dir = none;
}

-- One module is closed again, and one stays open.
abbrev history : List Op
history = init answers 100 ∷ opens outside dirs ∷ opens outside dirs ∷ closes (some 0) ∷ []

abbrev one_open : Bridge
one_open = record {
  global_init_ms = 100;
  active_wclap_count = 1;
  global_init_ok = true;
  engine = record { time_limit_epochs = 12; engine_exists = true; epoch_running = true };
  modules = 1 ∷ [];
  next_module = 2;
}

run_counts_example :
    (one_open.active_wclap_count ≡ length one_open.modules)
    × ((length one_open.modules ≡ 0) ⊎ (one_open.engine.engine_exists ≡ true))
unfolding run step wclap_global_init start_bridge wclap_close wclap_open_with_dirs global_init
    find_module error create_instance_group setup_group scan_exports c_str bytes_eq scan_imports
    fresh_group
run_counts_example = run_counts history one_open (omega arith) refl

one_open-Inv : Inv one_open
one_open-Inv = record { counted = refl; needs_init = λ h. refl; has_engine = λ h. refl }
