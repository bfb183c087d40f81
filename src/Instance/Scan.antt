-- ===== src/Instance/Scan.antt =====
-- wclap-instance-wasmtime.cpp, InstanceGroup::setup: what the bridge reads off a compiled module
-- before any instance is started. What Wasmtime answers (`wasmtime_module_new`, the lists of
-- exports and imports, `wasmtime_sharedmemory_new`) comes as arguments.
pub mod Accepted
use wclap_bridge.Base.{
  ℕ, String, c_str, Bool, true, false, not, List, [], ◌∷◌, Option, none, some, ◌==◌, bytes_eq,
  if◌then◌else◌, length, ◌&&◌,
}
use wclap_bridge.Instance.Values.{ValKind, i32, i64, f32, f64, funcref}
use wclap_bridge.Instance.Group.{Group, fresh_group, set_runtime_error}

-- An export: its name and, if it is a global, the kind of its content.
pub record Export : Type 0 where
  pub name : List ℕ
  pub global_kind : Option ValKind

pub record MemoryType : Type 0 where
  pub is_shared : Bool
  pub is64 : Bool

-- An import, with its memory type if it is a memory.
pub record Import : Type 0 where
  pub module_name : List ℕ
  pub name : List ℕ
  pub memory : Option MemoryType

-- What `wasmtime_sharedmemory_new` answers.
pub data SharedMemoryReply : Type 0 where
  created : SharedMemoryReply
  missing : SharedMemoryReply
  failed : List ℕ → SharedMemoryReply

-- `nameEquals`
unfoldable pub name_equals : List ℕ → List ℕ → Bool
name_equals name c_name = (length name == length c_name) && bytes_eq name c_name

-- `stopWithError`: this one overwrites the message.
abbrev pub stop_with_error : Group → String → Group
stop_with_error g message = record g { constant_error_message = some message }

-- The loop over the exports ends by an error, or with whether `clap_entry` was found.
pub data ScanResult : Type 0 where
  stopped : Group → ScanResult
  scanned : Group → Bool → ScanResult

scan_kind : Group → ValKind → ScanResult → ScanResult
scan_kind g i64 rest = scanned (record g { wasm64 = true }) true
scan_kind g i32 rest = rest
scan_kind g k rest =
    stopped (stop_with_error g "clap_entry must be 32-bit or 64-bit memory address")

scan_entry : Group → Option ValKind → ScanResult → ScanResult
unfolding scan_kind
scan_entry g none rest = stopped (stop_with_error g "clap_entry is not a global (value) export")
scan_entry g (some k) rest = scan_kind g k rest

unfoldable pub scan_exports : Group → Bool → List Export → ScanResult
unfolding name_equals scan_entry
scan_exports g found [] = scanned g found
scan_exports g found (e ∷ es) =
    let here = name_equals e.name (c_str "clap_entry") in
    let skip = scan_exports g found es in
    let rest = scan_exports g true es in if here then scan_entry g e.global_kind rest else skip

-- A shared memory of the right width, the first one.
create_memory : SharedMemoryReply → Group → Import → (Group → Group) → Group
create_memory created g i rest = rest (record g {
  shared_memory = true;
  shared_memory_import_module = i.module_name;
  shared_memory_import_name = i.name;
})
create_memory missing g i rest = stop_with_error g "Shared memory wasn't created"
create_memory (failed e) g i rest = (set_runtime_error g (some e)).0

abbrev bool_eq : Bool → Bool → Bool
bool_eq true b = b
bool_eq false b = not b

scan_memory : SharedMemoryReply → Group → Import → MemoryType → (Group → Group) → Group
unfolding create_memory
scan_memory reply g i m rest =
    if not m.is_shared
    then stop_with_error g "imports non-shared memory"
    else (if not (bool_eq m.is64 g.wasm64)
        then stop_with_error g (
            if m.is64
            then "64-bit memory but 32-bit clap_entry"
            else "32-bit memory but 64-bit clap_entry")
        else (if g.shared_memory
            then stop_with_error g "multiple memory imports"
            else create_memory reply g i rest))

unfoldable pub scan_imports : SharedMemoryReply → Group → List Import → Group
unfolding scan_memory
scan_imports reply g [] = g
scan_imports reply g (i ∷ is) = elim i.memory [
  | none ↦ scan_imports reply g is
  | some m ↦ scan_memory reply g i m (λ g'. scan_imports reply g' is)
]

after_exports : SharedMemoryReply → List Import → ScanResult → Group
after_exports reply imports (stopped g) = g
after_exports reply imports (scanned g false) = stop_with_error g "clap_entry not exported"
after_exports reply imports (scanned g true) = scan_imports reply g imports

-- `InstanceGroup::setup`, on the new group; `compile_error` is that of `wasmtime_module_new`.
unfoldable pub setup_group :
    Option (List ℕ) → List Export → List Import → SharedMemoryReply → Group → Group
unfolding after_exports
setup_group (some e) exports imports reply g = (set_runtime_error g (some e)).0
setup_group none exports imports reply g =
    after_exports reply imports (scan_exports g false exports)
