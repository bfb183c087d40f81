-- ===== src/Instance/Setup/Ready.antt =====
-- What a successful InstanceImpl::setup of wclap-instance-wasmtime.cpp has found.
use mathlib.Core.List.{Memᴰ}
use wclap_bridge.Base.{
  ℕ, ◌+◌, ◌≤◌, ◌≡◌, refl, true, List, [], ◌∷◌, Option, none, some, arith, Bool, if◌then◌else◌,
  Bool-cases, inl, inr, ◌∙◌, ltb, ◌||◌, ◌-◌,
}
use wclap_bridge.Instance.Values.{FuncType, ValKind, i32, i64, f32, f64, funcref}
use wclap_bridge.Instance.Group.{has_error}
use wclap_bridge.Instance.Impl.{
  Impl, Extern, func, global, table, memory, shared_memory, M, ◌>>◌, bind_some, pure,
  stop_with_error,
}
use wclap_bridge.Instance.Setup.{
  Replies, make_store, make_wasi, link_imports, start, memory_of, update_clap_entry, malloc_of,
  find_table, setup_steps, setup, host_entries, is_malloc_type,
}

-- The WebAssembly type of a pointer.
abbrev pub pointer_kind : Bool → ValKind
pointer_kind is64 = if is64 then i64 else i32

-- `malloc` is an exported function from a pointer's type to a pointer's type, and is the one stored.
abbrev pub MallocFound : Option Extern → Impl → Type 0
MallocFound e i =
    (f : ℕ) × (t : FuncType) × (e ≡ some (func f t))
    × (t.params ≡ pointer_kind i.group.wasm64 ∷ [])
    × (t.results ≡ pointer_kind i.group.wasm64 ∷ [])
    × (i.wt_malloc_func ≡ some f)

-- The stored table is an exported function table with room for the host's functions.
abbrev pub TableFound : List Extern → Impl → Type 0
TableFound es i =
    (t : ℕ) × (lo : ℕ) × (hi : ℕ) × Memᴰ (table t funcref lo hi) es
    × (lo + host_entries ≤ hi)
    × (i.wt_function_table ≡ some t)

malloc_type_lem :
    (is64 : Bool) (params results : List ValKind)
    → is_malloc_type is64 params results ≡ true
    → (params ≡ pointer_kind is64 ∷ []) × (results ≡ pointer_kind is64 ∷ [])
unfolding is_malloc_type
malloc_type_lem is64 [] results h = absurd (ground arith)
malloc_type_lem is64 (p ∷ []) [] h = absurd (ground arith)
malloc_type_lem is64 (p ∷ q ∷ ps) results h = absurd (ground arith)
malloc_type_lem is64 (p ∷ []) (r ∷ q ∷ rs) h = absurd (ground arith)
malloc_type_lem is64 (p ∷ []) (r ∷ []) h = ground arith

malloc_of_found :
    (e : Option Extern) (i : Impl) → (malloc_of e i).1 ≡ some tt → MallocFound e (malloc_of e i).0
unfolding malloc_of pure stop_with_error
malloc_of_found (some (func f t)) i h =
    elim (Bool-cases (is_malloc_type i.group.wasm64 t.params t.results)) [
      | inl good ↦
          let (params, results) = malloc_type_lem i.group.wasm64 t.params t.results good in
          (f, t, refl, ground (arith, params), ground (arith, results), ground arith)
      | inr bad ↦ absurd (ground arith)
    ]
malloc_of_found none i h = absurd (ground arith)
malloc_of_found (some (memory m)) i h = absurd (ground arith)
malloc_of_found (some shared_memory) i h = absurd (ground arith)
malloc_of_found (some (global k v)) i h = absurd (ground arith)
malloc_of_found (some (table t k lo hi)) i h = absurd (ground arith)

-- What the search leaves: the table, and all else as it was.
abbrev FoundBy : List Extern → Impl → Impl → Type 0
FoundBy es i i' = TableFound es i' × (i'.group ≡ i.group) × (i'.wt_malloc_func ≡ i.wt_malloc_func)

FoundBy-tail :
    (e : Extern) (es : List Extern) (i i' : Impl) → FoundBy es i i' → FoundBy (e ∷ es) i i'
FoundBy-tail e es i i' ((t, lo, hi, m, fits, set), g, f) =
    ((t, lo, hi, Memᴰ.tail m, fits, set), g, f)

find_table_found :
    (es : List Extern) (i : Impl) → (find_table es i).1 ≡ some tt → FoundBy es i (find_table es i).0
unfolding find_table pure stop_with_error
find_table_found [] i h = absurd (ground arith)
find_table_found (table t funcref lo hi ∷ es) i h =
    elim (Bool-cases (ltb hi host_entries || ltb (hi - host_entries) lo)) [
      | inl small ↦ absurd (ground arith)
      | inr fits ↦
          ((t, lo, hi, Memᴰ.head refl, ground arith, ground arith), ground arith, ground arith)
    ]
find_table_found (table t i32 lo hi ∷ es) i h =
    FoundBy-tail _ es i (find_table es i).0 (find_table_found es i h)
find_table_found (table t i64 lo hi ∷ es) i h =
    FoundBy-tail _ es i (find_table es i).0 (find_table_found es i h)
find_table_found (table t f32 lo hi ∷ es) i h =
    FoundBy-tail _ es i (find_table es i).0 (find_table_found es i h)
find_table_found (table t f64 lo hi ∷ es) i h =
    FoundBy-tail _ es i (find_table es i).0 (find_table_found es i h)
find_table_found (func f t ∷ es) i h =
    FoundBy-tail _ es i (find_table es i).0 (find_table_found es i h)
find_table_found (global k v ∷ es) i h =
    FoundBy-tail _ es i (find_table es i).0 (find_table_found es i h)
find_table_found (memory m ∷ es) i h =
    FoundBy-tail _ es i (find_table es i).0 (find_table_found es i h)
find_table_found (shared_memory ∷ es) i h =
    FoundBy-tail _ es i (find_table es i).0 (find_table_found es i h)

-- The last two parts of set-up.
exports_found :
    (e : Option Extern) (es : List Extern) (i : Impl)
    → ((malloc_of e >> find_table es) i).1 ≡ some tt
    → let i' = ((malloc_of e >> find_table es) i).0 in MallocFound e i' × TableFound es i'
exports_found e es i h =
    let (_, found, step) = bind_some (malloc_of e) (λ _. find_table es) i h in
    let (f, t, exported, params, results, stored) = malloc_of_found e i found in
    let (table_found, same, kept) = find_table_found es (malloc_of e i).0 (rw step at h) in
    rw step ((f, t, exported, rw same params, rw same results, kept ∙ stored), table_found)

abbrev IsReady : Replies → Impl → Type 0
IsReady r i = MallocFound (r.export_get "malloc") i × TableFound r.exports i

-- What holds after the rest of the steps holds after all of them.
Ensured : (Impl → Type 0) → M (Unit {0}) → Type 0
Ensured P m = (i : Impl) → (m i).1 ≡ some tt → P (m i).0

Ensured-bind :
    (P : Impl → Type 0) (m : M (Unit {0})) (k : M (Unit {0})) → Ensured P k → Ensured P (m >> k)
unfolding Ensured
Ensured-bind P m k later i h =
    let (_, _, step) = bind_some m (λ _. k) i h in rw step (later (m i).0 (rw step at h))

steps-IsReady : (r : Replies) → Ensured (IsReady r) (setup_steps r)
unfolding setup_steps Ensured
steps-IsReady r =
    let P = IsReady r in
    Ensured-bind P (make_store r) _ (
      Ensured-bind P (make_wasi r) _ (
        Ensured-bind P (link_imports r) _ (
          Ensured-bind P (start r) _ (
            Ensured-bind P (memory_of (r.export_get "memory")) _ (
              Ensured-bind P (update_clap_entry (r.export_get "clap_entry")) _
                (exports_found (r.export_get "malloc") r.exports))))))

-- When set-up returns true, the instance holds the exported `malloc`, a function whose one parameter
-- and one result have the group's pointer width, and an exported function table that can grow by at
-- least 65536 entries for the host's functions.
pub setup_ready :
    (r : Replies) (i : Impl)
    → (setup r i).1 ≡ some tt
    → MallocFound (r.export_get "malloc") (setup r i).0 × TableFound r.exports (setup r i).0
unfolding setup Ensured
setup_ready r i h = elim (Bool-cases (has_error i.group)) [
  | inl bad ↦ absurd (ground arith)
  | inr good ↦ rw good (steps-IsReady r i (rw good at h))
]
