-- ===== src/Instance/Epochs/Examples.antt =====
-- The theorems on the time limit, each at a concrete input.
use wclap_bridge.Base.{ℕ, ◌+◌, ◌≤◌, ◌<◌, refl, true, false, List, [], ◌∷◌, arith}
use wclap_bridge.Instance.Group.{Engine, EngineReplies, global_init}
use wclap_bridge.Instance.Epochs.{epoch_thread_function, epoch_at}
use wclap_bridge.Instance.Epochs.Limit.{deadline_not_early, deadline_reached}

abbrev replies : EngineReplies
replies = record { config_made = true; cache_error = false; engine_made = true }

abbrev engine : Engine
engine = record { time_limit_epochs = 0; engine_exists = false; epoch_running = false }

abbrev sleeps : List ℕ
sleeps = 10 ∷ 11 ∷ 10 ∷ 12 ∷ 10 ∷ 10 ∷ []

abbrev times : List ℕ
times = epoch_thread_function 0 sleeps

-- A limit of 20 ms, in a call that starts at 5 ms.
deadline_not_early_example :
    epoch_at times 25 < epoch_at times 5 + (global_init replies 20 engine).0.time_limit_epochs
unfolding global_init
deadline_not_early_example =
    deadline_not_early replies 20 engine sleeps 0 5 25 (omega arith) refl
      (omega arith, (omega arith, (omega arith, (omega arith, (omega arith, (omega arith, tt))))))
      (omega arith) (omega arith) (omega arith)

deadline_reached_example :
    epoch_at times 5 + (global_init replies 20 engine).0.time_limit_epochs ≤ epoch_at times 55
unfolding global_init
deadline_reached_example =
    deadline_reached replies 20 engine sleeps 0 5 55 12 (omega arith) refl
      (omega arith, (omega arith, (omega arith, (omega arith, (omega arith, (omega arith, tt))))))
      (omega arith) (omega arith) (omega arith)
