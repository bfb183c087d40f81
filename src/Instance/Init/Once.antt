-- ===== src/Instance/Init/Once.antt =====
-- `initInner` of wclap-instance-wasmtime.h: repeated runs, and the outcome of one.
use wclap_bridge.Base.{
  ℕ, ◌≡◌, refl, true, false, Option, none, some, arith, Bool-cases, Option-cases, ◌⊎◌, inl, inr,
  ◌%◌, ◌^◌, ◌<◌,
}
use wclap_bridge.Instance.Values.{i32}
use wclap_bridge.Instance.Group.{has_error}
use wclap_bridge.Instance.Group.Errors.{set_error-has_error}
use wclap_bridge.Instance.Impl.{
  Impl, Extern, func, global, table, memory, shared_memory, Outcome, pure, stop_with_error,
  require_returned, Tells, Tells-bind, Tells-require_returned, bind_some,
}
use wclap_bridge.Instance.Setup.{update_clap_entry, i32_as_u64}
use wclap_bridge.Instance.Setup.Reported.{update_clap_entry-Tells}
use wclap_bridge.Instance.Init.{Replies, call_initialize, wasi_init, init_inner, init32}

call_initialize-Tells : (o : Outcome) (e : Option Extern) → Tells (call_initialize o e)
unfolding call_initialize pure stop_with_error
call_initialize-Tells o none i h = rw h
call_initialize-Tells o (some (func f t)) i h = ground (
  arith,
  Tells-require_returned o "error calling _initialize()" "_initialize() timeout"
      "_initialize() threw (trapped)" i,
  set_error-has_error i.group "_initialize() function signature mismatch",
)
call_initialize-Tells o (some (global k v)) i h = rw (set_error-has_error i.group _)
call_initialize-Tells o (some (memory m)) i h = rw (set_error-has_error i.group _)
call_initialize-Tells o (some shared_memory) i h = rw (set_error-has_error i.group _)
call_initialize-Tells o (some (table t k lo hi)) i h = rw (set_error-has_error i.group _)

wasi_init-Tells : (r : Replies) → Tells (wasi_init r)
unfolding wasi_init
wasi_init-Tells r =
    Tells-bind (call_initialize r.call r.initialize) _ (call_initialize-Tells _ _)
      λ _. update_clap_entry-Tells r.clap_entry

-- A call of `initInner` leaves an error, or a group that was initialised.
init_settles :
    (r : Replies) (i : Impl)
    → let (i', entry) = init_inner r i in (has_error i'.group ≡ false → i'.group.had_init ≡ true)
unfolding init_inner
init_settles r i h = elim (Option-cases (wasi_init r i).1) [
  | inl e ↦ ground (
    arith,
    set_error-has_error i.group "Tried to `.init()` WCLAP twice",
    set_error-has_error (wasi_init r i).0.group "`.wasiInit()` returned false",
  )
  | inr (u, e) ↦ ground (arith, set_error-has_error i.group "Tried to `.init()` WCLAP twice")
]

init_refused :
    (r : Replies) (i : Impl)
    → (has_error i.group ≡ false → i.group.had_init ≡ true)
    → ((init_inner r i).1 ≡ 0) × (has_error (init_inner r i).0.group ≡ true)
unfolding init_inner
init_refused r i h = ground (arith, set_error-has_error i.group "Tried to `.init()` WCLAP twice")

-- However often and with whatever outcome `initInner` has run before, a further run returns 0 and
-- leaves an error.
pub init_once :
    (r r' : Replies) (i : Impl)
    → let again = init_inner r' (init_inner r i).0 in
      (again.1 ≡ 0) × (has_error again.0.group ≡ true)
unfolding init_inner
init_once r r' i = init_refused r' (init_inner r i).0 (init_settles r i)

-- A run of `initInner` ends in one of two ways: the group has an error and 0 is returned, or it has
-- none, is marked as initialised, and the instance's entry pointer is returned.
pub init_reports :
    (r : Replies) (i : Impl)
    → let (i', entry) = init_inner r i in
      ((has_error i'.group ≡ true) × (entry ≡ 0))
      ⊎ ((has_error i'.group ≡ false) × (i'.group.had_init ≡ true) × (entry ≡ i'.wclap_entry_as64))
unfolding init_inner
init_reports r i = elim (Bool-cases (has_error i.group)) [
  | inl bad ↦ ground arith
  | inr good ↦ elim (Bool-cases i.group.had_init) [
    | inl again ↦
        inl (
          ground (arith, set_error-has_error i.group "Tried to `.init()` WCLAP twice"),
          ground arith,
        )
    | inr first ↦ elim (Option-cases (wasi_init r i).1) [
      | inl e ↦ inl (
        ground (arith, set_error-has_error (wasi_init r i).0.group "`.wasiInit()` returned false"),
        ground arith,
      )
      | inr (u, e) ↦ inr (ground (arith, wasi_init-Tells r i), ground arith, ground arith)
    ]
  ]
]

call_initialize_same :
    (o : Outcome) (e : Option Extern) (i : Impl)
    → (call_initialize o e i).1 ≡ some tt
    → (call_initialize o e i).0 ≡ i
unfolding call_initialize pure stop_with_error require_returned
call_initialize_same o none i h = refl
call_initialize_same o (some (func f t)) i h = ground arith
call_initialize_same o (some (global k v)) i h = absurd (ground arith)
call_initialize_same o (some (memory m)) i h = absurd (ground arith)
call_initialize_same o (some shared_memory) i h = absurd (ground arith)
call_initialize_same o (some (table t k lo hi)) i h = absurd (ground arith)

wasi_init_entry :
    (r : Replies) (i : Impl) (v : ℕ)
    → i.group.wasm64 ≡ false
    → r.clap_entry ≡ some (global i32 v)
    → (wasi_init r i).1 ≡ some tt
    → (wasi_init r i).0.wclap_entry_as64 ≡ i32_as_u64 v
unfolding wasi_init update_clap_entry pure
wasi_init_entry r i v narrow exported h =
    let (_, ran, step) =
      bind_some (call_initialize r.call r.initialize) (λ _. update_clap_entry r.clap_entry) i h in
    let same = call_initialize_same r.call r.initialize i ran in
    rw step (rw (same, exported, update_clap_entry, narrow))

i32_as_u64_low : (v : ℕ) → v < 2 ^ 32 → i32_as_u64 v % 2 ^ 32 ≡ v
i32_as_u64_low v h = ground arith

-- `init32` gives the 32-bit entry pointer exactly as the global `clap_entry` holds it after
-- `_initialize`, also one of 2^31 or more, whenever it leaves no error.
pub init32_exact :
    (r : Replies) (i : Impl) (v : ℕ)
    → v < 2 ^ 32
    → i.group.wasm64 ≡ false
    → r.clap_entry ≡ some (global i32 v)
    → has_error (init32 r i).0.group ≡ false
    → (init32 r i).1 ≡ v
unfolding init32 init_inner
init32_exact r i v small narrow exported good = elim (Option-cases (wasi_init r i).1) [
  | inl e ↦ absurd (
      ground (
        arith,
        set_error-has_error i.group "Tried to `.init()` WCLAP twice",
        set_error-has_error (wasi_init r i).0.group "`.wasiInit()` returned false",
      ))
  | inr (u, e) ↦
      let stored = wasi_init_entry r i v narrow exported e in
      ground (
        arith,
        stored,
        i32_as_u64_low v small,
        set_error-has_error i.group "Tried to `.init()` WCLAP twice",
      )
]
