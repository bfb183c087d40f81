-- ===== src/Module/Examples.antt =====
-- The theorems on an opened WCLAP, each at a concrete input.
use wclap_bridge.Base.{
  ℕ, ◌+◌, ◌-◌, ◌^◌, All, inl, ltb, if◌then◌else◌, ◌≡◌, ◌≢◌, ◌⊎◌, ◌↔◌, refl, true, false, List, [],
  ◌∷◌, Option, none, some, arith, length, get_elem?, inr,
}
use wclap_bridge.Instance.Group.{error, fresh_group}
use wclap_bridge.Instance.Values.{uint32}
use wclap_bridge.Instance.Call
use wclap_bridge.Instance.Impl.{Outcome}
use wclap_bridge.Instance.Call.{Machine, State, register_host_generic}
use wclap_bridge.Module.Failure.{ErrorState, get_error}
use wclap_bridge.Module.Failure.Reading.{read_c_str, get_error_reads}
use wclap_bridge.Module.Threads.{Thread, Threads, wasi_thread_spawn}
use wclap_bridge.Module.Threads.Table.{IsTable, spawn_places}
use wclap_bridge.Module.Register.{register_host, add_host_functions}
use wclap_bridge.Module.Register.Consecutive.{
  from, zeros, register, TableGrows, registered_everywhere, register64_unnoticed,
}
use wclap_bridge.Module.Opening.{Steps, open_module}
use wclap_bridge.Module.Opening.Succeeds.{
  registered, indices, minus_one, host_count, open_module_succeeds,
}

abbrev good : ErrorState
good = record { has_error = false; error_message = [] }

abbrev bad : ErrorState
bad = record { has_error = true; error_message = 111 ∷ 104 ∷ 33 ∷ [] }

-- The thread 1 has ended, and 2 is running.
abbrev table : List (Option Thread)
table = none ∷ none ∷ some (record { index = 2; thread_arg = 7 }) ∷ []

abbrev running : Threads
running = record { threads = table; errors = good; stopping = [] }

spawn_places_example :
    let (s', id) = wasi_thread_spawn true true 5 running in
    (id ≢ 0)
    × ((get_elem? table id ≡ some none) ⊎ (get_elem? table id ≡ none))
    × (get_elem? s'.threads id ≡ some (some (record { index = id; thread_arg = 5 })))
    × ((2 ≡ id) ⊎ (get_elem? s'.threads 2 ≡ get_elem? table 2))
    × IsTable s'.threads
spawn_places_example = spawn_places running 5 2 (refl, tt) (omega arith) refl

-- A table of so many entries, of at most 100.
abbrev growing : Machine ℕ
growing = record {
  set_deadline = λ w e. w;
  table_get = λ w p. none;
  func_call = λ s f slots. (s, slots, Outcome.returned);
  func_call_unchecked = λ s f slots n. (s, slots, Outcome.returned);
  table_grow = λ w t. if ltb w 100 then (w + 1, inl w) else (w, inr []);
}

growing-TableGrows : TableGrows growing (λ w. w) 100
growing-TableGrows w t room = ground (arith, room)

abbrev of_size : ℕ → State ℕ
of_size n = record { group = fresh_group; world = n }

abbrev append : ℕ → ℕ × ℕ
append n = (n + 1, n)

registered_everywhere_example :
    let adds = register growing none (uint32 ∷ []) in
    let first = add_host_functions adds true good (of_size 8) (zeros 3) in
    let second = add_host_functions adds true good (of_size 9) first.2 in
    (first.0 ≡ good)
    × (first.2 ≡ from 3 8)
    × (first.3 ≡ true)
    × ((◌≡◌ {A = ℕ} 8 9) × (second.0 ≡ good) × (second.2 ≡ first.2) × (second.3 ≡ true)
        ⊎ (◌≢◌ {A = ℕ} 8 9) × (second.0.has_error ≡ true) × (second.3 ≡ false))
unfolding fresh_group
registered_everywhere_example =
    registered_everywhere growing (λ w. w) 100 growing-TableGrows (omega arith) none (uint32 ∷ [])
      true good (of_size 8) (of_size 9) 2 refl refl (omega arith) (omega arith) (omega arith)

-- A table that is full.
abbrev full : Machine ℕ
full = record {
  set_deadline = λ w e. w;
  table_get = λ w p. none;
  func_call = λ s f slots. (s, slots, Outcome.returned);
  func_call_unchecked = λ s f slots n. (s, slots, Outcome.returned);
  table_grow = λ w t. (w, inr []);
}

register64_unnoticed_example :
    let st : State ℕ = record { group = fresh_group; world = 0 } in
    let index = (Call.register_host full true st none (uint32 ∷ [])).1 in
    (register_host true good 0 index ≡ (good, 2 ^ 32 - 1, true))
    × ((register_host true good 5 index).0.has_error ≡ true)
    × ((register_host true good 5 index).2 ≡ false)
    × ((register_host false good 0 index).0.has_error ≡ true)
    × ((register_host false good 0 index).2 ≡ false)
unfolding register_host_generic fresh_group
register64_unnoticed_example =
    register64_unnoticed full true (record { group = fresh_group; world = 0 }) none (uint32 ∷ [])
      good 5 refl (λ z. absurd (omega (arith, z))) (λ z. absurd (omega (arith, z)))

abbrev steps : Steps ℕ
steps = record {
  register = append;
  init = λ n. (n, 4096);
  bind_global_arena = λ n. n;
  entry_init = λ n. (n, true);
}

open_module_succeeds_example :
    let found = steps.init (registered append host_count 8) in
    ((open_module steps false fresh_group 8).0.has_error ≡ false) ↔ (
      (error fresh_group ≡ none)
      × All (λ p. p ≢ minus_one false) (indices append host_count 8)
      × (found.1 ≢ 0)
      × ((steps.entry_init (steps.bind_global_arena found.0)).1 ≡ true))
open_module_succeeds_example = open_module_succeeds steps false fresh_group 8

-- The WCLAP counts how often it is asked.
abbrev ask_factory : ℕ → ℕ × ℕ
ask_factory n = (n + 1, 64)

abbrev build : ℕ → ℕ → ℕ × List ℕ
build n p = (n + 1, p ∷ [])

get_error_reads_example :
    (filled : List ℕ) × (get_error fresh_group bad (9 ∷ 9 ∷ 9 ∷ []) 3 ≡ (bad, some (filled, true)))
    × (length filled ≡ 3)
    × (read_c_str filled ≡ some (111 ∷ 104 ∷ []))
get_error_reads_example =
    get_error_reads fresh_group bad (9 ∷ 9 ∷ 9 ∷ []) 2 refl
      (
        λ z. absurd (omega (arith, z)),
        (λ z. absurd (omega (arith, z)), (λ z. absurd (omega (arith, z)), tt)),
      )
      (omega arith)
