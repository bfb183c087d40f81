-- ===== src/Instance/Call/Examples.antt =====
-- The theorem on histories of calls, at a concrete input.
use wclap_bridge.Base.{
  ℕ, zero, suc, ◌+◌, ◌≡◌, refl, List, [], ◌∷◌, ◌++◌, map, Option, none, some, inl,
}
use wclap_bridge.Instance.Values.{uint32}
use wclap_bridge.Instance.Group.{fresh_group, set_error}
use wclap_bridge.Instance.Impl.{Outcome, returned}
use wclap_bridge.Instance.Call.{Machine, State, Entry, function, call, wt_call}
use wclap_bridge.Instance.Call.Variants.{
  Invocation, calls, calls_void, calls_nullary, calls_at, invoke_all,
}
use wclap_bridge.Instance.Call.Sticky.{stops_at_error}

-- A store whose function 1 counts up, and whose other entries are none.
counts : State ℕ → ℕ → List ℕ → State ℕ × List ℕ × Outcome
counts s f slots = (record s { world = s.world + 1 }, slots, returned)

entries : ℕ → ℕ → Option Entry
entries w zero = none
entries w (suc n) = some (function n)

abbrev counter : Machine ℕ
counter = record {
  set_deadline = λ w e. w;
  table_get = entries;
  func_call = counts;
  func_call_unchecked = λ s f slots n. counts s f slots;
  table_grow = λ w t. (w, inl w);
}

abbrev start : State ℕ
start = record { group = fresh_group; world = 0 }

-- The second call goes through the function pointer 0.
abbrev history : List Invocation
history = calls 1 uint32 (uint32 ∷ []) (5 ∷ []) ∷ calls_void 0 [] [] ∷ []

abbrev later : List Invocation
later = calls_nullary 1 uint32 9 ∷ calls_at 64 uint32 [] [] ∷ []

stops_at_error_example : invoke_all 0 counter (λ w p. some 1) start (history ++ later) ≡ (
  (invoke_all 0 counter (λ w p. some 1) start history).0,
  (invoke_all 0 counter (λ w p. some 1) start history).1 ++ map (λ c. 0) later,
)
unfolding invoke_all wt_call call fresh_group entries counts set_error
stops_at_error_example = stops_at_error 0 counter (λ w p. some 1) start history later refl
