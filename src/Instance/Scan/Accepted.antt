-- ===== src/Instance/Scan/Accepted.antt =====
-- Which modules InstanceGroup::setup of wclap-instance-wasmtime.cpp accepts.
use wclap_bridge.Base.{
  ℕ, ◌≡◌, refl, c_str, Bool, true, false, List, [], ◌∷◌, Option, none, some, arith, bytes_eq_sound,
  if◌then◌else◌, Bool-cases, Option-cases, ◌⊎◌, inl, inr,
}
use mathlib.Core.List.{Memᴰ}
use wclap_bridge.Instance.Values.{ValKind, i32, i64, f32, f64, funcref}
use wclap_bridge.Instance.Group.{Group, fresh_group, has_error}
use wclap_bridge.Instance.Group.Errors.{set_runtime_error-has_error}
use wclap_bridge.Instance.Scan.{
  Export, Import, MemoryType, SharedMemoryReply, created, missing, failed, name_equals, ScanResult,
  stopped, scanned, scan_exports, scan_kind, scan_imports, scan_memory, setup_group, after_exports,
}

-- `clap_entry` is exported as a global of the kind that the group's width says.
abbrev pub EntryFound : Group → List Export → Type 0
EntryFound g es =
    (e : Export) × Memᴰ e es
    × (e.name ≡ c_str "clap_entry")
    × (e.global_kind ≡ some (if g.wasm64 then i64 else i32))

-- The memory imports, each with its type.
abbrev pub memories : List Import → List MemoryType
memories [] = []
memories (i ∷ is) = elim i.memory [ none ↦ memories is | some m ↦ m ∷ memories is ]

-- A single shared memory of the group's width, or none.
abbrev pub MemoryFits : Group → List MemoryType → Type 0
MemoryFits g [] = g.shared_memory ≡ false
MemoryFits g (m ∷ []) = (g.shared_memory ≡ true) × (m.is_shared ≡ true) × (m.is64 ≡ g.wasm64)
MemoryFits g (m ∷ n ∷ ms) = ⊥

-- After a shared memory was created, no other memory import is let through.
scan_imports_again :
    (reply : SharedMemoryReply) (g : Group) (is : List Import)
    → g.shared_memory ≡ true
    → has_error (scan_imports reply g is) ≡ false
    → (scan_imports reply g is ≡ g) × (memories is ≡ [])
unfolding scan_imports
scan_imports_again reply g [] s h = (refl, refl)
scan_imports_again reply g (i ∷ is) s h = elim (Option-cases i.memory) [
  | inl e ↦ ground (arith, scan_imports_again reply g is s)
  | inr (m, e) ↦ absurd (ground arith)
]

abbrev with_memory : Group → Import → Group
with_memory g i = record g {
  shared_memory = true;
  shared_memory_import_module = i.module_name;
  shared_memory_import_name = i.name;
}

-- The loop goes on behind a memory import only if that is a shared memory of the right width.
scan_memory_passed :
    (g : Group) (i : Import) (m : MemoryType) (rest : Group → Group)
    → g.shared_memory ≡ false
    → has_error (scan_memory created g i m rest) ≡ false
    → (m.is_shared ≡ true)
      × (m.is64 ≡ g.wasm64)
      × (scan_memory created g i m rest ≡ rest (with_memory g i))
unfolding scan_memory
scan_memory_passed g i m rest s h = ground arith

scan_memory_first :
    (reply : SharedMemoryReply) (g : Group) (i : Import) (m : MemoryType) (is : List Import)
    → g.shared_memory ≡ false
    → let g' = scan_memory reply g i m (λ g₁. scan_imports reply g₁ is) in
      has_error g' ≡ false → (g'.wasm64 ≡ g.wasm64) × MemoryFits g' (m ∷ memories is)
unfolding scan_memory
scan_memory_first created g i m is s h =
    let (shared, width, next) = scan_memory_passed g i m (λ g₁. scan_imports created g₁ is) s h in
    let (same, none_left) = scan_imports_again created (with_memory g i) is refl (rw (← next) h) in
    rw (next, same, none_left) (refl, (refl, shared, width))
scan_memory_first missing g i m is s h = absurd (ground arith)
scan_memory_first (failed e) g i m is s h = absurd (ground (arith, set_runtime_error-has_error g e))

scan_imports_first :
    (reply : SharedMemoryReply) (g : Group) (is : List Import)
    → g.shared_memory ≡ false
    → has_error (scan_imports reply g is) ≡ false
    → ((scan_imports reply g is).wasm64 ≡ g.wasm64)
      × MemoryFits (scan_imports reply g is) (memories is)
unfolding scan_imports
scan_imports_first reply g [] s h = (refl, s)
scan_imports_first reply g (i ∷ is) s h = elim (Option-cases i.memory) [
  | inl e ↦ ground (arith, scan_imports_first reply g is s)
  | inr (m, e) ↦
      rw (e, scan_imports) (scan_memory_first reply g i m is s (rw (e, scan_imports) at h))
]

kind_found :
    (g g' : Group) (e : Export) (es : List Export) (k : ValKind)
    → g.wasm64 ≡ false
    → e.name ≡ c_str "clap_entry"
    → e.global_kind ≡ some k
    → ((scan_exports g true es ≡ scanned g' true)
        → (g'.shared_memory ≡ g.shared_memory) × (((true ≡ true) × (g' ≡ g)) ⊎ EntryFound g' es))
    → scan_kind g k (scan_exports g true es) ≡ scanned g' true
    → (g'.shared_memory ≡ g.shared_memory) × EntryFound g' (e ∷ es)
unfolding scan_kind
kind_found g g' e es i64 w n k ih h = (ground arith, (e, Memᴰ.head refl, n, ground arith))
kind_found g g' e es i32 w n k ih h = elim (ih h).1 [
  | inl (_, same) ↦ ((ih h).0, (e, Memᴰ.head refl, n, ground arith))
  | inr (x, m, xn, xk) ↦ ((ih h).0, (x, Memᴰ.tail m, xn, xk))
]
kind_found g g' e es f32 w n k ih h = absurd (ground arith)
kind_found g g' e es f64 w n k ih h = absurd (ground arith)
kind_found g g' e es funcref w n k ih h = absurd (ground arith)

found_later :
    (g g' : Group) (found : Bool) (e : Export) (es : List Export)
    → ((found ≡ true) × (g' ≡ g)) ⊎ EntryFound g' es
    → ((found ≡ true) × (g' ≡ g)) ⊎ EntryFound g' (e ∷ es)
found_later g g' found e es (inl h) = inl h
found_later g g' found e es (inr (x, m, n, k)) = inr (x, Memᴰ.tail m, n, k)

name_equals_sound : (a b : List ℕ) → name_equals a b ≡ true → a ≡ b
unfolding name_equals
name_equals_sound a b h = ground (arith, bytes_eq_sound a b)

scan_exports_found :
    (g g' : Group) (found : Bool) (es : List Export)
    → g.wasm64 ≡ false
    → scan_exports g found es ≡ scanned g' true
    → (g'.shared_memory ≡ g.shared_memory) × (((found ≡ true) × (g' ≡ g)) ⊎ EntryFound g' es)
unfolding scan_exports
scan_exports_found g g' found [] w h = ground arith
scan_exports_found g g' found (e ∷ es) w h =
    elim (Bool-cases (name_equals e.name (c_str "clap_entry"))) [
      | inl here ↦ elim (Option-cases e.global_kind) [
        | inl no_global ↦ absurd (ground arith)
        | inr (k, is_global) ↦
            let at_kind : scan_kind g k (scan_exports g true es) ≡ scanned g' true = ground arith in
            let found_it =
              kind_found g g' e es k w (name_equals_sound e.name _ here) is_global
                (scan_exports_found g g' true es w) at_kind in
            (found_it.0, inr found_it.1)
      ]
      | inr other ↦
          let later : scan_exports g found es ≡ scanned g' true = ground arith in
          let (same, result) = scan_exports_found g g' found es w later in
          (same, found_later g g' found e es result)
    ]

scan_exports_stopped :
    (g g' : Group) (found : Bool) (es : List Export)
    → scan_exports g found es ≡ stopped g'
    → has_error g' ≡ true
unfolding scan_exports
scan_exports_stopped g g' found [] h = absurd (ground arith)
scan_exports_stopped g g' found (e ∷ es) h =
    elim (Bool-cases (name_equals e.name (c_str "clap_entry"))) [
      | inl here ↦ ground (arith, scan_exports_stopped g g' true es)
      | inr other ↦ ground (arith, scan_exports_stopped g g' found es)
    ]

setup_scanned :
    (es : List Export) (is : List Import) (reply : SharedMemoryReply) (r : ScanResult)
    → scan_exports fresh_group false es ≡ r
    → let g = after_exports reply is r in
      has_error g ≡ false
      → (◌≡◌ {A = Option (List ℕ)} none none) × EntryFound g es × MemoryFits g (memories is)
unfolding after_exports fresh_group
setup_scanned es is reply (stopped g) e h =
    absurd (ground (arith, scan_exports_stopped fresh_group g false es e))
setup_scanned es is reply (scanned g false) e h = absurd (ground arith)
setup_scanned es is reply (scanned g true) e h =
    let (same, found) = scan_exports_found fresh_group g false es refl e in
    let (width, fits) = scan_imports_first reply g is same h in
    elim found [
      | inl (impossible, _) ↦ absurd (ground arith)
      | inr (x, m, n, k) ↦ (refl, (x, m, n, rw width k), fits)
    ]

-- A module that `setup` accepts on a new group, that is, after which the group has no error, was
-- compiled; it exports `clap_entry` as a global whose kind is the group's pointer width; and its
-- memory imports are none, with no shared memory made, or a single shared one of that width, with
-- the shared memory made.
pub setup_group_accepts :
    (compile_error : Option (List ℕ)) (es : List Export) (is : List Import)
    (reply : SharedMemoryReply)
    → has_error (setup_group compile_error es is reply fresh_group) ≡ false
    → let g = setup_group compile_error es is reply fresh_group in
      (compile_error ≡ none) × EntryFound g es × MemoryFits g (memories is)
unfolding setup_group fresh_group
setup_group_accepts (some e) es is reply h =
    absurd (ground (arith, set_runtime_error-has_error fresh_group e))
setup_group_accepts none es is reply h =
    setup_scanned es is reply (scan_exports fresh_group false es) refl h
