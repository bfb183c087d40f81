-- ===== src/Module/Opening/Succeeds.antt =====
-- The constructor and `getFactory` of wclap-module.h: their outcomes.
use wclap_bridge.Base.{
  ℕ, zero, suc, All, length, ◌^◌, ◌-◌, if◌then◌else◌, ◌≡◌, ◌≢◌, ◌↔◌, refl, sym, arith, Bool, not,
  true, false, Bool-cases, inl, inr, List, [], ◌∷◌, map, none,
}
use mathlib.Core.Path.{subst}
use native.Mathlib.Decide.{ℕ_discrete}
use wclap_bridge.Instance.Group.{Group, error}
use wclap_bridge.Module.Failure.{ErrorState, fresh, set_error}
use wclap_bridge.Module.Register.{host_functions, add_host_functions, register_host, is_minus_one}
use wclap_bridge.Module.Opening.{
  Steps, base_errors, add_to_main, after_entry, after_init, after_hosts, open_module,
}

-- A registration that stops has set the error.
add_host_functions_stops :
    {W : Type 0} (register : W → W × ℕ) (is64 : Bool) (s : ErrorState) (w : W) (members : List ℕ)
    → s.has_error ≡ false
    → let out = add_host_functions register is64 s w members in out.0.has_error ≡ not out.3
unfolding add_host_functions set_error
add_host_functions_stops register is64 s w [] good = good
add_host_functions_stops register is64 s w (m ∷ ms) good =
    ground (arith, add_host_functions_stops register is64 s (register w).0 ms good)

base_errors-none : (g : Group) → ((base_errors g).has_error ≡ false) ↔ (error g ≡ none)
unfolding base_errors fresh set_error
base_errors-none g = ground arith

-- What the constructor's steps find, after the group's error: the registration in the main instance,
-- the entry, and the answer of its `init`.
abbrev pub hosts : {W : Type 0} → Steps W → Bool → Group → W → ErrorState × W × List ℕ × Bool
hosts steps is64 g w = add_to_main steps is64 (base_errors g) w

abbrev pub entry : {W : Type 0} → Steps W → Bool → Group → W → W × ℕ
entry steps is64 g w = steps.init (hosts steps is64 g w).1

abbrev pub entry_started : {W : Type 0} → Steps W → Bool → Group → W → Bool
entry_started steps is64 g w =
    (steps.entry_init (steps.bind_global_arena (entry steps is64 g w).0)).1

hosts_stop :
    {W : Type 0} (steps : Steps W) (is64 : Bool) (g : Group) (w : W)
    → (base_errors g).has_error ≡ false
    → (hosts steps is64 g w).0.has_error ≡ not (hosts steps is64 g w).3
unfolding add_to_main
hosts_stop steps is64 g w good =
    add_host_functions_stops steps.register is64 (base_errors g) w (map (λ f. 0) host_functions)
      good

after_entry_lem :
    {W : Type 0} (s : ErrorState) (o : W × Bool) → (after_entry s o).0.has_error ≡ not o.1
unfolding after_entry set_error
after_entry_lem s (w, true) = refl
after_entry_lem s (w, false) = refl

opened :
    {W : Type 0} (steps : Steps W) (added : ErrorState × W × List ℕ × Bool)
    → added.0.has_error ≡ not added.3
    → let (w, entry) = steps.init added.1 in
      ((after_hosts steps added).0.has_error ≡ false)
      ↔ ((added.3 ≡ true) × (entry ≢ 0) × ((steps.entry_init (steps.bind_global_arena w)).1 ≡ true))
unfolding after_hosts after_init set_error
opened steps (s, w, members, false) stops = (λ h. ground (arith, h, stops), λ h. ground (arith, h))
opened steps (s, w, members, true) stops =
    let is = after_entry_lem s (steps.entry_init (steps.bind_global_arena (steps.init w).0)) in
    elim (ℕ_discrete (steps.init w).1 0) [
      | yes z ↦ (λ h. ground (arith, h, z), λ h. absurd (h.1 z))
      | no nz ↦ (λ h. (refl, nz, ground (arith, h, nz, is)), λ h. ground (arith, h.2, nz, is))
    ]

open_module_flags :
    {W : Type 0} (steps : Steps W) (is64 : Bool) (g : Group) (w : W)
    → ((open_module steps is64 g w).0.has_error ≡ false) ↔ (
        (error g ≡ none)
        × ((hosts steps is64 g w).3 ≡ true)
        × ((entry steps is64 g w).1 ≢ 0)
        × (entry_started steps is64 g w ≡ true))
unfolding open_module
open_module_flags steps is64 g w =
    let (none_if, if_none) = base_errors-none g in
    elim (Bool-cases (base_errors g).has_error) [
      | inl bad ↦ rw bad (λ h. ground (arith, bad, h), λ h. ground (arith, bad, if_none h.0))
      | inr good ↦
          let (to, back) = opened steps (hosts steps is64 g w) (hosts_stop steps is64 g w good) in
          rw good (
            λ h. let (added, entry, started) = to h in (none_if good, added, entry, started),
            λ h. back (h.1, h.2, h.3),
          )
    ]

-- Members before the first registration.
abbrev zero_members : ℕ → List ℕ
zero_members zero = []
zero_members (suc n) = 0 ∷ zero_members n

-- What `n` registrations, one after another, do to the WCLAP, and the indices that they return.
abbrev pub registered : {W : Type 0} → (W → W × ℕ) → ℕ → W → W
registered register zero w = w
registered register (suc n) w = registered register n (register w).0

abbrev pub indices : {W : Type 0} → (W → W × ℕ) → ℕ → W → List ℕ
indices register zero w = []
indices register (suc n) w = (register w).1 ∷ indices register n (register w).0

-- -1 in the pointer's width
abbrev pub minus_one : Bool → ℕ
minus_one is64 = if is64 then 2 ^ 64 - 1 else 2 ^ 32 - 1

is_minus_one_lem : (is64 : Bool) (p : ℕ) → (is_minus_one is64 p ≡ false) ↔ (p ≢ minus_one is64)
unfolding is_minus_one
is_minus_one_lem true p = (λ h e. absurd (ground (arith, h, e)), λ h. ground (arith, h))
is_minus_one_lem false p = (λ h e. absurd (ground (arith, h, e)), λ h. ground (arith, h))

-- A registration of members that are 0 goes on unless the index is -1.
first_goes_on :
    (is64 : Bool) (s : ErrorState) (p : ℕ)
    → (p ≢ minus_one is64)
    → register_host is64 s 0 p ≡ (s, p, true)
unfolding register_host
first_goes_on is64 s p h = let ok = (is_minus_one_lem is64 p).1 h in ground (arith, ok)

first_stops :
    (is64 : Bool) (s : ErrorState) (p : ℕ)
    → is_minus_one is64 p ≡ true
    → (register_host is64 s 0 p).2 ≡ false
unfolding register_host
first_stops is64 s p h = ground (arith, h)

module _ {W : Type 0} (register : W → W × ℕ) (is64 : Bool) (s : ErrorState) where
  abbrev Good : ℕ → W → Type 0
  Good n w = All (λ p. p ≢ minus_one is64) (indices register n w)

  all_added :
      (n : ℕ) (w : W)
      → Good n w
      → let out = add_host_functions register is64 s w (zero_members n) in
        (out.3 ≡ true) × (out.1 ≡ registered register n w)
  unfolding add_host_functions
  all_added zero w good = (refl, refl)
  all_added (suc n) w (first, good) =
      rw (first_goes_on is64 s (register w).1 first, add_host_functions)
        (all_added n (register w).0 good)

  added_all :
      (n : ℕ) (w : W) → (add_host_functions register is64 s w (zero_members n)).3 ≡ true → Good n w
  unfolding add_host_functions
  added_all zero w h = tt
  added_all (suc n) w h = elim (Bool-cases (is_minus_one is64 (register w).1)) [
    | inl stop ↦
        let stopped = first_stops is64 s (register w).1 stop in absurd (ground (arith, h, stopped))
    | inr on ↦
        let first = (is_minus_one_lem is64 (register w).1).0 on in
        (
          first,
          added_all n (register w).0
              (rw (first_goes_on is64 s (register w).1 first, add_host_functions) at h),
        )
  ]

-- How many host functions there are.
abbrev pub host_count : ℕ
host_count = length host_functions

-- `init` finds an entry, and the entry's own returns true.
abbrev Starts : {W : Type 0} → Steps W → W → Type 0
Starts steps w =
    ((steps.init w).1 ≢ 0)
    × ((steps.entry_init (steps.bind_global_arena (steps.init w).0)).1 ≡ true)

-- The module is opened without an error exactly when its group has none, none of the registrations of the
-- 41 host functions, one after another, gives -1 in the width of a pointer, `init` then finds an entry
-- that is not null, and the entry's own `init`, after `bindGlobalArena`, returns true.
pub open_module_succeeds :
    {W : Type 0} (steps : Steps W) (is64 : Bool) (g : Group) (w : W)
    → let found = steps.init (registered steps.register host_count w) in
      ((open_module steps is64 g w).0.has_error ≡ false) ↔ (
        (error g ≡ none)
        × All (λ p. p ≢ minus_one is64) (indices steps.register host_count w)
        × (found.1 ≢ 0)
        × ((steps.entry_init (steps.bind_global_arena found.0)).1 ≡ true))
unfolding add_to_main
open_module_succeeds steps is64 g w =
    let (to, back) = open_module_flags steps is64 g w in
    let after = all_added steps.register is64 (base_errors g) host_count w in
    (
      λ h.
          let (clean, added, found, started) = to h in
          let all = added_all steps.register is64 (base_errors g) host_count w added in
          let starts = subst (Starts steps) (after all).1 (found, started) in
          (clean, all, starts.0, starts.1),
      λ h.
          let (clean, all, found', started') = h in
          let (added, same) = after all in
          let (found, started) = subst (Starts steps) (sym same) (found', started') in
          back (clean, added, found, started),
    )
