-- ===== src/Collector/Examples.antt =====
-- The theorems on the collecting plugin, each at a concrete input.
use wclap_bridge.Base.{◌≡◌, map, refl, false, c_str, bytes_eq, [], ◌∷◌, none, some}
use mathlib.Core.List.{Memᴰ}
use wclap_bridge.Collector.{
  Descriptor, Plugin, Wclap, Newer, scan_wclap_plugins, create_plugin, Outside,
}
use wclap_bridge.Collector.Duplicates.{id_of, AllNew, duplicate_hides_rest}
use wclap_bridge.Collector.Offers.{Offers, collected_routes}

abbrev never : Newer
never = λ a b. false

abbrev reverb : Descriptor
reverb = record { id = c_str "reverb"; version = none }

abbrev delay : Descriptor
delay = record { id = c_str "delay"; version = some (c_str "1.0.0") }

abbrev one : Wclap
one = record { handle = 1; plugin_factory = some (none ∷ some reverb ∷ []) }

abbrev two : Wclap
two = record { handle = 2; plugin_factory = some (some delay ∷ []) }

abbrev routed : Plugin
routed = record { desc = delay; wclap_index = 1 }

collected_routes_example :
    Offers (one ∷ two ∷ []) routed
    × (create_plugin (scan_wclap_plugins never 0 (one ∷ two ∷ []) []) routed.desc.id
        ≡ some routed.wclap_index)
unfolding scan_wclap_plugins bytes_eq c_str
collected_routes_example =
    collected_routes never (one ∷ two ∷ []) routed (Memᴰ.tail (Memᴰ.head refl))

abbrev no_engine : Outside
no_engine = record {
  list_directory = λ path. none;
  open_wclap = λ path. none;
  home = some (c_str "/root");
  global_init_ok = false;
  newer = never;
}

abbrev chorus : Descriptor
chorus = record { id = c_str "chorus"; version = none }

-- The second WCLAP has a delay, the reverb again, and a chorus that is not listed then.
abbrev three : Wclap
three = record { handle = 3; plugin_factory = some (some delay ∷ some reverb ∷ some chorus ∷ []) }

different :
    AllNew []
      (record { desc = reverb; wclap_index = 0 } ∷ record { desc = delay; wclap_index = 1 } ∷ [])
unfolding c_str
different = (tt, ((λ e. absurd (cc), tt), tt))

duplicate_hides_rest_example :
    map id_of (scan_wclap_plugins never 0 (one ∷ three ∷ two ∷ []) [])
    ≡ c_str "reverb" ∷ c_str "delay" ∷ []
duplicate_hides_rest_example =
    duplicate_hides_rest never (one ∷ three ∷ two ∷ [])
      (record { desc = reverb; wclap_index = 0 } ∷ record { desc = delay; wclap_index = 1 } ∷ [])
      (record { desc = chorus; wclap_index = 1 } ∷ record { desc = delay; wclap_index = 2 } ∷ []) []
      (record { desc = delay; wclap_index = 1 } ∷ []) (record { desc = reverb; wclap_index = 1 })
      (record { desc = reverb; wclap_index = 0 }) refl different refl refl
