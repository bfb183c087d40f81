-- ===== src/Collector.antt =====
-- plugin/source/wclap-bridge-plugin.cpp: the native plugin that collects the plugins of all WCLAPs in
-- one factory, as it is built on Linux. What the file system, the C API (wclap_open,
-- wclap_get_error), the WCLAPs' factories and the semver library answer comes as arguments.
pub mod Unique
pub mod Offers
pub mod Duplicates
pub mod Scanning
mod Examples
use wclap_bridge.Base.{
  ℕ, suc, ◌+◌, ◌-◌, List, [], ◌∷◌, ◌++◌, Option, none, some, Bool, true, false, c_str, bytes_eq,
  if◌then◌else◌, length, drop, ltb, ◌==◌, get_elem?, ◌%◌, ◌^◌,
}

-- A `clap_plugin_descriptor`, as far as this file reads it.
pub record Descriptor : Type 0 where
  pub id : List ℕ
  pub version : Option (List ℕ)

-- `Plugin`: an entry of `pluginList`.
pub record Plugin : Type 0 where
  pub desc : Descriptor
  pub wclap_index : ℕ

-- `Wclap`: the handle, and the descriptors that its factory gives for the indices below its count,
-- or no factory.
pub record Wclap : Type 0 where
  pub handle : ℕ
  pub plugin_factory : Option (List (Option Descriptor))

-- Whether `semver::version::parse(a) > semver::version::parse(b)`.
abbrev pub Newer : Type 0
Newer = List ℕ → List ℕ → Bool

unfoldable pub is_newer : Newer → Option (List ℕ) → Option (List ℕ) → Bool
is_newer newer none version = true
is_newer newer (some old) none = false
is_newer newer (some old) (some version) = newer version old

-- The loop over `pluginList`: the list with a newer duplicate put in place, and whether there was one.
unfoldable pub replace_duplicate : Newer → Plugin → List Plugin → List Plugin × Bool
unfolding is_newer
replace_duplicate newer p [] = ([], false)
replace_duplicate newer p (existing ∷ ps) =
    let (ps', duplicate) = replace_duplicate newer p ps in
    if bytes_eq p.desc.id existing.desc.id
    then ((if is_newer newer existing.desc.version p.desc.version then p else existing) ∷ ps, true)
    else (existing ∷ ps', duplicate)

-- The loop over one factory's descriptors. The result says whether the function returned early, which
-- it does at a duplicate.
unfoldable pub scan_factory :
    Newer → ℕ → List (Option Descriptor) → List Plugin → List Plugin × Bool
unfolding replace_duplicate
scan_factory newer index [] ps = (ps, false)
scan_factory newer index (none ∷ ds) ps = scan_factory newer index ds ps
scan_factory newer index (some d ∷ ds) ps =
    let p : Plugin = record { desc = d; wclap_index = index } in
    let (ps', duplicate) = replace_duplicate newer p ps in
    let rest = scan_factory newer index ds (ps' ++ (p ∷ [])) in
    if duplicate then (ps', true) else rest

-- `scanWclapPlugins`, from an index of `wclapList` on
unfoldable pub scan_wclap_plugins : Newer → ℕ → List Wclap → List Plugin → List Plugin
unfolding scan_factory
scan_wclap_plugins newer index [] ps = ps
scan_wclap_plugins newer index (w ∷ ws) ps = elim w.plugin_factory [
  | none ↦ scan_wclap_plugins newer (suc index) ws ps
  | some ds ↦
      let (ps', returned) = scan_factory newer index ds ps in
      let rest = scan_wclap_plugins newer (suc index) ws ps' in if returned then ps' else rest
]

-- `pluginFactory_get_plugin_count`, `_get_plugin_descriptor` and `_create_plugin`; the last gives the
-- WCLAP whose factory is asked.
unfoldable pub get_plugin_count : List Plugin → ℕ
get_plugin_count ps = length ps % 2 ^ 32

unfoldable pub get_plugin_descriptor : List Plugin → ℕ → Option Descriptor
get_plugin_descriptor ps index = elim (get_elem? ps index) [ none ↦ none | some p ↦ some p.desc ]

unfoldable pub create_plugin : List Plugin → List ℕ → Option ℕ
create_plugin [] plugin_id = none
create_plugin (p ∷ ps) plugin_id =
    if bytes_eq plugin_id p.desc.id then some p.wclap_index else create_plugin ps plugin_id

-- What `wclap_open` gives: a null pointer, or a handle with what `wclap_get_error` says of it and the
-- factory that `wclap_get_factory` gives for it.
pub record Opened : Type 0 where
  pub handle : ℕ
  pub error : Bool
  pub factory : Option (List (Option Descriptor))

-- Whether a path ends in `.wclap`. `substr` throws if the path is shorter: `none`.
unfoldable pub is_wclap : List ℕ → Option Bool
is_wclap path =
    if ltb (length path) 6
    then none
    else some (bytes_eq (drop (length path - 6) path) (c_str ".wclap"))

-- The loop of `scanWclapDirectory`; `none` if it does not end as it should, by an exception or by the
-- null pointer that `wclap_get_error` reads through.
unfoldable pub scan_entries :
    (List ℕ → Option Opened) → List (List ℕ) → List Wclap → Option (List Wclap)
unfolding is_wclap
scan_entries open_wclap [] ws = some ws
scan_entries open_wclap (path ∷ paths) ws = elim (is_wclap path) [
  | none ↦ none
  | some false ↦ scan_entries open_wclap paths ws
  | some true ↦ elim (open_wclap path) [
    | none ↦ none
    | some w ↦ scan_entries open_wclap paths (
        if w.error
        then ws
        else ws ++ (record { handle = w.handle; plugin_factory = w.factory } ∷ []))
  ]
]

-- What lies outside: the entries below a directory, if that exists, and the C API.
pub record Outside : Type 0 where
  pub list_directory : List ℕ → Option (List (List ℕ))
  pub open_wclap : List ℕ → Option Opened
  pub home : Option (List ℕ)
  pub global_init_ok : Bool
  pub newer : Newer

-- The globals of the file.
pub record State : Type 0 where
  pub init_counter : ℕ
  pub wclap_dirs : List (List ℕ)
  pub wclap_list : List Wclap
  pub invalidations : List (List ℕ)
  pub plugin_list : List Plugin

unfoldable pub start : State
start = record {
  init_counter = 0;
  wclap_dirs = [];
  wclap_list = [];
  invalidations = [];
  plugin_list = [];
}

unfoldable pub scan_wclap_directory : Outside → List ℕ → State → Option State
unfolding scan_entries
scan_wclap_directory o path s =
    let s' = record s { wclap_dirs = s.wclap_dirs ++ (path ∷ []) } in
    elim (o.list_directory path) [
      | none ↦ some s'
      | some paths ↦ elim (scan_entries o.open_wclap paths s.wclap_list) [
        | none ↦ none
        | some ws ↦ some (record s' { wclap_list = ws })
      ]
    ]

-- `scanWclapDirectories`
unfoldable pub scan_wclap_directories : Outside → State → Option State
unfolding scan_wclap_directory
scan_wclap_directories o s = elim (scan_wclap_directory o (c_str "/usr/lib/wclap/") s) [
  | none ↦ none
  | some s' ↦ elim o.home [
    | none ↦ some s'
    | some home ↦ scan_wclap_directory o (home ++ c_str "/.wclap/") s'
  ]
]

-- `makeInvalidations`
unfoldable pub make_invalidations : State → State
make_invalidations s = record s { invalidations = s.invalidations ++ s.wclap_dirs }

scan_all : Outside → State → Option (State × Bool)
scan_all o s = elim (scan_wclap_directories o s) [
  | none ↦ none
  | some s' ↦
      some (
        record s' { plugin_list = scan_wclap_plugins o.newer 0 s'.wclap_list s'.plugin_list },
        true,
      )
]

-- `clap_init`
unfoldable pub clap_init : Outside → State → Option (State × Bool)
unfolding scan_all
clap_init o s =
    let counted = record s { init_counter = s.init_counter + 1 } in
    if s.init_counter == 0
    then (if o.global_init_ok then scan_all o counted else some (counted, false))
    else some (counted, true)

-- `clap_deinit`, of a plugin that was initialised
unfoldable pub clap_deinit : State → State
clap_deinit s =
    let counted = record s { init_counter = s.init_counter - 1 } in
    if s.init_counter == 1
    then record counted { wclap_list = []; invalidations = []; plugin_list = [] }
    else counted
