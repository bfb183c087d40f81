-- ===== src/Module/Threads.antt =====
-- source/_generic/wclap-module-base.h and wclap-module.h: the threads that a WCLAP has started.
-- `threadMutex` makes each function one step. The index 0 is never a thread's.
pub mod Table
use wclap_bridge.Base.{
  ℕ, zero, suc, ◌+◌, ◌-◌, ◌%◌, ◌^◌, Bool, true, false, not, List, [], ◌∷◌, ◌++◌, Option, none, some,
  is_some, if◌then◌else◌, length, set, ◌==◌, c_str,
}
use wclap_bridge.Module.Failure.{ErrorState, set_error}

-- A thread, as the table keeps it.
pub record Thread : Type 0 where
  pub index : ℕ
  pub thread_arg : ℕ

pub record Threads : Type 0 where
  pub threads : List (Option Thread)
  pub errors : ErrorState
  pub stopping : List ℕ

-- The constructor's `threads.emplace_back()`.
unfoldable pub first_threads : ErrorState → Threads
first_threads e = record { threads = none ∷ []; errors = e; stopping = [] }

-- The loop that looks for an empty entry, from an index on; without one it gives the index behind
-- the end.
unfoldable pub find_empty : List (Option Thread) → ℕ → ℕ
find_empty [] i = i
find_empty (none ∷ ts) i = i
find_empty (some t ∷ ts) i = find_empty ts (suc i)

unfoldable pub free_index : List (Option Thread) → ℕ
unfolding find_empty
free_index [] = 1
free_index (t ∷ ts) = find_empty ts 1

-- `if (index == threads.size()) threads.emplace_back(); threads[index] = …`
unfoldable pub put_thread : List (Option Thread) → ℕ → Thread → List (Option Thread)
put_thread ts index t = if index == length ts then ts ++ (some t ∷ []) else set ts index (some t)

-- `wasiThreadSpawn`: what it returns is the thread's index or -1. `started` is whether
-- `startInstance` gives an instance, `registered` whether `addHostFunctions` succeeds on it.
unfoldable pub wasi_thread_spawn : Bool → Bool → ℕ → Threads → Threads × ℕ
unfolding free_index put_thread
wasi_thread_spawn started registered thread_arg s =
    if s.errors.has_error
    then (s, 2 ^ 32 - 1)
    else (if not started
        then (
          record s {
            errors = set_error s.errors (c_str "failed to start instance for new WCLAP thread");
          },
          2 ^ 32 - 1,
        )
        else (if not registered
            then (
              record s {
                errors =
                    set_error s.errors
                      (c_str "failed to register host functions for new WCLAP thread");
              },
              2 ^ 32 - 1,
            )
            else (let index = free_index s.threads in
                (
                  record s {
                    threads =
                        put_thread s.threads index
                          (record { index = index % 2 ^ 32; thread_arg = thread_arg });
                  },
                  index % 2 ^ 32,
                ))))

-- The end of `runThread`: the thread takes itself off the table.
unfoldable pub finish_thread : ℕ → Threads → Threads
finish_thread index s = record s { threads = set s.threads index none }

-- One round of `checkThreadsStopped`: every thread that is left is asked to stop; the result says
-- whether there was none.
unfoldable pub ask_all : List (Option Thread) → List ℕ
ask_all [] = []
ask_all (none ∷ ts) = ask_all ts
ask_all (some t ∷ ts) = t.index ∷ ask_all ts

unfoldable pub is_nil : List ℕ → Bool
is_nil [] = true
is_nil (x ∷ xs) = false

unfoldable pub check_threads_stopped : Threads → Threads × Bool
unfolding ask_all is_nil
check_threads_stopped s =
    let asked = ask_all s.threads in (record s { stopping = s.stopping ++ asked }, is_nil asked)
