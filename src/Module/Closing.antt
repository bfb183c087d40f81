-- ===== src/Module/Closing.antt =====
-- source/_generic/wclap-module.h and wclap-module-base.h: the destructors of `WclapModule` and of its
-- base. The threads of the WCLAP go on while the base's destructor waits; what they do between two of
-- its rounds comes as a list.
pub mod Ends
mod Examples
use wclap_bridge.Base.{
  ℕ, Bool, true, false, ◌||◌, List, [], ◌∷◌, Option, none, some, if◌then◌else◌, ◌==◌,
}
use wclap_bridge.Instance.Group.{wt_wasi_thread_spawn}
use wclap_bridge.Module.Threads.{Threads, finish_thread, wasi_thread_spawn, check_threads_stopped}

-- What a thread of the WCLAP does: its `runThread` ends, or it calls `thread-spawn` with an argument.
-- `wtWasiThreadSpawn` looks for the handler without a lock, so a call that found it before it was removed
-- takes `threadMutex` and spawns later; whether an instance starts and its host functions are registered
-- comes with it.
pub data Event : Type 0 where
  finishes : ℕ → Event
  spawns : ℕ → Event
  spawns_late : Bool → Bool → ℕ → Event

-- The group's `wasiThreadSpawn`
abbrev pub Handler : Type 0
Handler = Option (ℕ → Threads → Threads × ℕ)

unfoldable pub one_event : Bool → Handler → Event → Threads → Threads
one_event is64 handler (finishes index) s = finish_thread index s
one_event is64 handler (spawns slot) s = (wt_wasi_thread_spawn is64 handler s slot).0
one_event is64 handler (spawns_late started registered slot) s =
    (wt_wasi_thread_spawn is64 (some (wasi_thread_spawn started registered)) s slot).0

unfoldable pub between : Bool → Handler → List Event → Threads → Threads
unfolding one_event
between is64 handler [] s = s
between is64 handler (e ∷ es) s = between is64 handler es (one_event is64 handler e s)

-- `~WclapModuleBase`: none where the loop still waits when the schedule is over.
unfoldable pub stop_threads : Bool → Handler → List (List Event) → Threads → Option Threads
unfolding between
stop_threads is64 handler [] s =
    let (s', all_stopped) = check_threads_stopped s in if all_stopped then some s' else none
stop_threads is64 handler (es ∷ ess) s =
    let (s', all_stopped) = check_threads_stopped s in
    let rest = stop_threads is64 handler ess (between is64 handler es s') in
    if all_stopped then some s' else rest

-- `~WclapModule`, and the base's destructor behind it: the handler is removed first.
unfoldable pub close_module :
    Bool → Handler → List (List Event) → Threads → Option (Handler × Threads)
unfolding stop_threads
close_module is64 handler ess s = elim (stop_threads is64 none ess s) [
  | none ↦ none
  | some s' ↦ some (none, s')
]

-- Whether the thread of an index ends in a schedule.
unfoldable pub ends : ℕ → Event → Bool
ends k (finishes i) = i == k
ends k (spawns slot) = false
ends k (spawns_late started registered slot) = false

unfoldable pub ends_in : ℕ → List Event → Bool
unfolding ends
ends_in k [] = false
ends_in k (e ∷ es) = ends k e || ends_in k es

unfoldable pub ever_ends : ℕ → List (List Event) → Bool
unfolding ends_in
ever_ends k [] = false
ever_ends k (es ∷ ess) = ends_in k es || ever_ends k ess
