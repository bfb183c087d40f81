-- ===== src/Instance/Paths.antt =====
-- wclap-instance-wasmtime.h, InstanceGroup::mapPath: the native file behind a path of the WCLAP's
-- virtual file system, on a POSIX system. A path is its bytes; `make_preferred` changes nothing.
pub mod Confined
use wclap_bridge.Base.{
  ℕ, List, [], ◌∷◌, ◌++◌, Option, none, some, Bool, true, false, c_str, ◌==◌, if◌then◌else◌, take,
  drop, length, bytes_eq,
}

-- The directories that the WCLAP was opened with.
pub record Dirs : Type 0 where
  pub wclap_dir : Option (List ℕ)
  pub preset_dir : Option (List ℕ)
  pub cache_dir : Option (List ℕ)
  pub var_dir : Option (List ℕ)

-- `path::is_absolute`
unfoldable pub is_absolute : List ℕ → Bool
is_absolute [] = false
is_absolute (c ∷ cs) = c == b'/'

-- Whether `path::operator/` puts no separator behind this path.
unfoldable pub ends_with_separator : List ℕ → Bool
ends_with_separator [] = true
ends_with_separator (c ∷ []) = c == b'/'
ends_with_separator (c ∷ d ∷ cs) = ends_with_separator (d ∷ cs)

-- `path::operator/`: an absolute right side replaces the left side.
unfoldable pub join_path : List ℕ → List ℕ → List ℕ
unfolding is_absolute ends_with_separator
join_path dir path =
    if is_absolute path
    then path
    else (if ends_with_separator dir then dir ++ path else dir ++ (b'/' ∷ path))

-- `std::filesystem::absolute`, with the current directory
unfoldable pub absolute : List ℕ → List ℕ → List ℕ
unfolding is_absolute join_path
absolute cwd path = if is_absolute path then path else join_path cwd path

-- `testPrefix`: the native path, if the directory is there and the prefix fits.
unfoldable pub test_prefix : List ℕ → List ℕ → Option (List ℕ) → List ℕ → Option (List ℕ)
unfolding join_path
test_prefix virtual_path path none prefix = none
test_prefix virtual_path path (some dir) prefix =
    if bytes_eq (take (length prefix) virtual_path) prefix
    then some (join_path dir (drop (length prefix) path))
    else none

abbrev pub or_else : Option (List ℕ) → Option (List ℕ) → Option (List ℕ)
or_else none b = b
or_else (some a) b = some a

abbrev pub plugin_prefix : List ℕ
plugin_prefix = c_str "/plugin.wclap/"

abbrev pub presets_prefix : List ℕ
presets_prefix = c_str "/presets/"

abbrev pub cache_prefix : List ℕ
cache_prefix = c_str "/cache/"

abbrev pub var_prefix : List ℕ
var_prefix = c_str "/var/"

unfoldable pub map_path : List ℕ → Dirs → List ℕ → Option (List ℕ)
unfolding test_prefix
map_path cwd d virtual_path = or_else (test_prefix virtual_path path d.wclap_dir plugin_prefix) (
    or_else (test_prefix virtual_path path d.preset_dir presets_prefix) (
      or_else (test_prefix virtual_path path d.cache_dir cache_prefix)
        (test_prefix virtual_path path d.var_dir var_prefix)))
  where
    path : List ℕ
    path = absolute cwd virtual_path
