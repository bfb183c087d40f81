-- ===== src/Bridge/Strings.antt =====
-- source/wclap-bridge.cpp: the strings that the bridge puts around names.
use wclap_bridge.Base.{ℕ, List, [], Option, none, some}
use wclap_bridge.Plugin.Factory.{Config}

-- `wclap_set_strings`: the three globals, where a null pointer is the empty string.
unfoldable pub string_or_empty : Option (List ℕ) → List ℕ
string_or_empty none = []
string_or_empty (some text) = text

unfoldable pub wclap_set_strings : Option (List ℕ) → Option (List ℕ) → Option (List ℕ) → Config
unfolding string_or_empty
wclap_set_strings id_prefix name_prefix name_suffix = record {
  plugin_id_prefix = string_or_empty id_prefix;
  plugin_name_prefix = string_or_empty name_prefix;
  plugin_name_suffix = string_or_empty name_suffix;
}
