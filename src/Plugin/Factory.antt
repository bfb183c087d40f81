-- ===== src/Plugin/Factory.antt =====
-- source/_generic/wclap-plugin-factory.h: `PluginFactory`, over what the WCLAP's own factory answers.
pub mod Prefixed
use wclap_bridge.Base.{
  ℕ, zero, suc, ◌+◌, ◌%◌, ◌^◌, String, c_str, bytes_eq, Bool, List, [], ◌∷◌, ◌++◌, Option, none,
  some, leb, ◌==◌, if◌then◌else◌, get_elem?, length, drop,
}

-- config.h: what `wclap_bridge.cpp` sets before modules are opened.
pub record Config : Type 0 where
  pub plugin_id_prefix : List ℕ
  pub plugin_name_prefix : List ℕ
  pub plugin_name_suffix : List ℕ

-- A `wclap_plugin_descriptor`, its strings as `getString(ptr, 2048)` gives them, none for a null
-- pointer, and its features by their index.
pub record WclapDescriptor : Type 0 where
  pub clap_version : ℕ × ℕ × ℕ
  pub id : Option (List ℕ)
  pub name : Option (List ℕ)
  pub vendor : Option (List ℕ)
  pub url : Option (List ℕ)
  pub manual_url : Option (List ℕ)
  pub support_url : Option (List ℕ)
  pub version : Option (List ℕ)
  pub description : Option (List ℕ)
  pub features : ℕ → Option (List ℕ)

-- The `clap_plugin_descriptor` of it. Its id and name are never null.
pub record Descriptor : Type 0 where
  pub clap_version : ℕ × ℕ × ℕ
  pub id : List ℕ
  pub name : List ℕ
  pub vendor : Option (List ℕ)
  pub url : Option (List ℕ)
  pub manual_url : Option (List ℕ)
  pub support_url : Option (List ℕ)
  pub version : Option (List ℕ)
  pub description : Option (List ℕ)
  pub features : List (List ℕ)

-- `readString` with a value for a null pointer
unfoldable pub read_string : Option (List ℕ) → List ℕ → List ℕ → List ℕ → List ℕ
read_string none null_value prefix suffix = null_value
read_string (some text) null_value prefix suffix = prefix ++ (text ++ suffix)

-- The loop over the features, up to the null that ends them; the first number is how many more it
-- reads, 1000 at its start.
unfoldable pub read_features : ℕ → (ℕ → Option (List ℕ)) → ℕ → List (List ℕ)
read_features zero features i = []
read_features (suc n) features i =
    let rest = read_features n features (i + 1) in
    elim (features i) [ none ↦ [] | some text ↦ text ∷ rest ]

abbrev pub unknown_clap_id : List ℕ
unfolding c_str
unknown_clap_id = c_str "unknown-clap-id"

unfoldable pub translate : Config → WclapDescriptor → Descriptor
unfolding read_string read_features
translate config d = record {
  clap_version = d.clap_version;
  id = read_string d.id unknown_clap_id config.plugin_id_prefix [];
  name =
      read_string d.name (c_str "Unknown CLAP plugin") config.plugin_name_prefix
        config.plugin_name_suffix;
  vendor = d.vendor;
  url = d.url;
  manual_url = d.manual_url;
  support_url = d.support_url;
  version = d.version;
  description = d.description;
  features = read_features 1000 d.features 0;
}

-- The constructor: the descriptors for the indices below the WCLAP's count, none where it gave null.
unfoldable pub plugin_factory : Config → List (Option WclapDescriptor) → List Descriptor
unfolding translate
plugin_factory config [] = []
plugin_factory config (none ∷ ds) = plugin_factory config ds
plugin_factory config (some d ∷ ds) = translate config d ∷ plugin_factory config ds

unfoldable pub get_plugin_count : List Descriptor → ℕ
get_plugin_count descriptors = length descriptors % 2 ^ 32

unfoldable pub get_plugin_descriptor : List Descriptor → ℕ → Option Descriptor
get_plugin_descriptor descriptors index = get_elem? descriptors index

-- `createPlugin`: the loop over the descriptors.
unfoldable pub find_id : List Descriptor → List ℕ → Option Descriptor
find_id [] id = none
find_id (d ∷ ds) id = if bytes_eq d.id id then some d else find_id ds id

-- What `createPlugin` returns: an access outside a string, which C++ leaves undefined, no plugin, or
-- the WCLAP's plugin with its descriptor.
pub data Created : Type 0 where
  outside : Created
  no_plugin : Created
  plugin : ℕ → Descriptor → Created

unfoldable pub created : {W : Type 0} → Descriptor → W × ℕ → W × Created
created d (w, p) = (w, if p == 0 then no_plugin else plugin p d)

-- `pluginId += pluginIdPrefix.size()`, and the call of the WCLAP, which is `call_create_plugin`. It
-- gives the pointer to a plugin, or 0.
unfoldable pub ask :
    {W : Type 0} → (W → List ℕ → W × ℕ) → List ℕ → W → List ℕ → Descriptor → W × Created
unfolding created
ask call_create_plugin prefix w id d =
    if leb (length prefix) (length id)
    then created d (call_create_plugin w (drop (length prefix) id))
    else (w, outside)

unfoldable pub found :
    {W : Type 0} → (W → List ℕ → W × ℕ) → List ℕ → W → List ℕ → Option Descriptor → W × Created
unfolding ask
found call_create_plugin prefix w id none = (w, no_plugin)
found call_create_plugin prefix w id (some d) = ask call_create_plugin prefix w id d

unfoldable pub create_plugin :
    {W : Type 0} → (W → List ℕ → W × ℕ) → Config → List Descriptor → W → List ℕ → W × Created
unfolding found find_id
create_plugin call_create_plugin config descriptors w id =
    found call_create_plugin config.plugin_id_prefix w id (find_id descriptors id)
