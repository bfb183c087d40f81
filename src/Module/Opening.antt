-- ===== src/Module/Opening.antt =====
-- source/_generic/wclap-module.h: the constructor of `WclapModule`, with that of its base in
-- wclap-module-base.h, and `getFactory`. `W` is the WCLAP, which the steps' functions change.
pub mod Succeeds
use wclap_bridge.Base.{
  ℕ, c_str, bytes_eq, Bool, true, false, List, map, Option, none, some, ◌==◌, if◌then◌else◌,
}
use wclap_bridge.Instance.Group.{Group, error}
use wclap_bridge.Module.Failure.{ErrorState, fresh, set_error}
use wclap_bridge.Module.Register.{host_functions, add_host_functions}

-- The steps that the constructor takes in the WCLAP: `registerHostFunction`, `init` with the entry
-- that it finds, `bindGlobalArena` with the reading of the version, and `clap_entry::init`.
pub record Steps (W : Type 0) : Type 0 where
  pub register : W → W × ℕ
  pub init : W → W × ℕ
  pub bind_global_arena : W → W
  pub entry_init : W → W × Bool

-- `WclapModuleBase`'s constructor, with the group as `startInstance` left it.
unfoldable pub base_errors : Group → ErrorState
unfolding fresh set_error
base_errors g = elim (error g) [ none ↦ fresh | some e ↦ set_error fresh e ]

-- The host functions' members are zero before the first registration.
unfoldable pub add_to_main :
    {W : Type 0} → Steps W → Bool → ErrorState → W → ErrorState × W × List ℕ × Bool
add_to_main steps is64 s w =
    add_host_functions steps.register is64 s w (map (λ f. 0) host_functions)

unfoldable pub after_entry : {W : Type 0} → ErrorState → W × Bool → ErrorState × W
after_entry s (w, true) = (record s { has_error = false }, w)
after_entry s (w, false) = (set_error s (c_str "clap_entry::init() returned false"), w)

unfoldable pub after_init : {W : Type 0} → Steps W → ErrorState → W × ℕ → ErrorState × W
unfolding after_entry
after_init steps s (w, entry) =
    if entry == 0
    then (set_error s (c_str "clap_entry is NULL"), w)
    else after_entry s (steps.entry_init (steps.bind_global_arena w))

unfoldable pub after_hosts :
    {W : Type 0} → Steps W → ErrorState × W × List ℕ × Bool → ErrorState × W
unfolding after_init
after_hosts steps (s, w, members, added) =
    if added then after_init steps s (steps.init w) else (s, w)

-- `WclapModule`'s constructor
unfoldable pub open_module : {W : Type 0} → Steps W → Bool → Group → W → ErrorState × W
unfolding base_errors after_hosts
open_module steps is64 g w =
    if (base_errors g).has_error
    then (base_errors g, w)
    else after_hosts steps (add_to_main steps is64 (base_errors g) w)

-- `getFactory`: the cached factory is the WCLAP's pointer with what the constructor of
-- `PluginFactory` built. `ask` is the entry's `get_factory`, and `build` that constructor, which runs
-- for a null pointer too.
unfoldable pub kept : {W F : Type 0} → W → ℕ → F → W × Option (ℕ × F) × Option F
kept w p f = (w, some (p, f), if p == 0 then none else some f)

unfoldable pub cached_factory :
    {W F : Type 0}
    → (W → W × ℕ)
    → (W → ℕ → W × F)
    → Option (ℕ × F)
    → W
    → W × Option (ℕ × F) × Option F
unfolding kept
cached_factory ask build (some (p, f)) w = kept w p f
cached_factory ask build none w = let (w₁, p) = ask w in let (w₂, f) = build w₁ p in kept w₂ p f

unfoldable pub get_factory :
    {W F : Type 0}
    → (W → W × ℕ)
    → (W → ℕ → W × F)
    → List ℕ
    → Option (ℕ × F)
    → W
    → List ℕ
    → W × Option (ℕ × F) × Option F
unfolding cached_factory
get_factory ask build plugin_factory_id cached w id =
    if bytes_eq id plugin_factory_id then cached_factory ask build cached w else (w, cached, none)
