-- ===== src/Module/Closing/Examples.antt =====
-- The theorems on the destructors, each at a concrete input.
use wclap_bridge.Base.{
  ℕ, zero, suc, ◌≡◌, refl, true, false, List, [], ◌∷◌, ◌++◌, none, some, get_elem?, All,
}
use wclap_bridge.Module.Threads.{
  Thread, Threads, wasi_thread_spawn, ask_all, put_thread, free_index, find_empty,
  check_threads_stopped,
}
use wclap_bridge.Instance.Group.{wt_wasi_thread_spawn}
use wclap_bridge.Module.Closing.{
  Event, finishes, spawns, spawns_late, Handler, between, one_event, close_module, ever_ends,
}
use wclap_bridge.Module.Closing.Ends.{closing_ends, closing_waits, rounds}

-- The thread 1 has ended, and 2 is running.
abbrev running : Threads
running = record {
  threads = none ∷ none ∷ some (record { index = 2; thread_arg = 7 }) ∷ [];
  errors = record { has_error = false; error_message = [] };
  stopping = [];
}

abbrev handler : Handler
handler = some (wasi_thread_spawn true true)

-- A thread that had found the handler starts another, which gets the index 1; a further one is refused.
abbrev late : List (List Event)
late = (spawns_late true true 5 ∷ spawns 6 ∷ []) ∷ []

abbrev schedule : List (List Event)
schedule = (finishes 1 ∷ []) ∷ (spawns 8 ∷ finishes 2 ∷ []) ∷ []

all_end :
    (k : ℕ) (t : Thread)
    → get_elem? (rounds true late running).threads k ≡ some (some t)
    → ever_ends k schedule ≡ true
unfolding ever_ends rounds wasi_thread_spawn between one_event wt_wasi_thread_spawn put_thread
    free_index find_empty check_threads_stopped
all_end zero t h = absurd (cc)
all_end (suc zero) t h = refl
all_end (suc (suc zero)) t h = refl
all_end (suc (suc (suc k))) t h = absurd (cc)

closing_ends_example :
    (s' : Threads) × (close_module true handler (late ++ schedule) running ≡ some (none, s'))
    × All (λ x. x ≡ none) s'.threads
    × (rest : List ℕ) × (s'.stopping ≡ ([] ++ ask_all running.threads) ++ rest)
closing_ends_example =
    closing_ends true handler late schedule running ((tt, tt), ((tt, (tt, tt)), tt)) all_end

closing_waits_example : close_module true handler ((spawns 5 ∷ []) ∷ []) running ≡ none
unfolding ever_ends
closing_waits_example =
    closing_waits true handler ((spawns 5 ∷ []) ∷ []) running 2
      (record { index = 2; thread_arg = 7 }) refl refl
