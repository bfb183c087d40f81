-- ===== src/Module/Closing/Ends.antt =====
-- The destructor's wait for the threads of a WCLAP.
use wclap_bridge.Base.{
  ℕ, zero, suc, ◌%◌, ◌^◌, if◌then◌else◌, ◌≡◌, ◌≢◌, All, refl, sym, ap, ◌∙◌, Bool, true, false, ◌||◌,
  List, [], ◌∷◌, ◌++◌, Option, none, some, append-nil, append_assoc, get_elem?, set, arith,
  Bool-cases, inl, inr, get_elem?-set_ne,
}
use native.Mathlib.Decide.{ℕ_discrete}
use wclap_bridge.Module.Threads.{
  Thread, Threads, wasi_thread_spawn, finish_thread, check_threads_stopped, ask_all, is_nil,
}
use wclap_bridge.Module.Closing.{
  Event, finishes, spawns, spawns_late, Handler, one_event, between, stop_threads, close_module,
  ends, ends_in, ever_ends,
}
use wclap_bridge.Module.Threads.Table.{spawn_keeps}
use wclap_bridge.Instance.Group.{wt_wasi_thread_spawn}

-- No thread is left at any index.
abbrev pub NoThread : List (Option Thread) → Type 0
NoThread ts = (k : ℕ) (t : Thread) → get_elem? ts k ≢ some (some t)

none_left : (ts : List (Option Thread)) → is_nil (ask_all ts) ≡ true → NoThread ts
unfolding ask_all is_nil
none_left [] h k t e = cc
none_left (none ∷ ts) h zero t e = cc
none_left (none ∷ ts) h (suc k) t e = none_left ts h k t e
none_left (some u ∷ ts) h k t e = cc

none_each : (ts : List (Option Thread)) → is_nil (ask_all ts) ≡ true → All (λ x. x ≡ none) ts
unfolding ask_all is_nil
none_each [] h = tt
none_each (none ∷ ts) h = (refl, none_each ts h)
none_each (some u ∷ ts) h = absurd (cc)

all_gone : (ts : List (Option Thread)) → NoThread ts → is_nil (ask_all ts) ≡ true
unfolding ask_all is_nil
all_gone [] h = refl
all_gone (none ∷ ts) h = all_gone ts (λ k t. h (suc k) t)
all_gone (some u ∷ ts) h = absurd (h zero u refl)

set-none :
    (ts : List (Option Thread)) (i : ℕ) (t : Thread) → get_elem? (set ts i none) i ≢ some (some t)
set-none [] i t e = cc
set-none (x ∷ ts) zero t e = cc
set-none (x ∷ ts) (suc i) t e = set-none ts i t e

-- A call that is no late spawn.
abbrev pub IsTimely : Event → Type 0
IsTimely (finishes i) = Unit {0}
IsTimely (spawns slot) = Unit {0}
IsTimely (spawns_late started registered slot) = ⊥

module _ (is64 : Bool) where
  -- Without a handler, an event only ends threads.
  event_keeps :
      (e : Event) (s : Threads) (k : ℕ) (t : Thread)
      → get_elem? s.threads k ≡ some (some t)
      → ends k e ≡ false
      → get_elem? (one_event is64 none e s).threads k ≡ some (some t)
  unfolding one_event finish_thread ends wt_wasi_thread_spawn
  event_keeps (finishes i) s k t h stays = elim (ℕ_discrete i k) [
    | yes e ↦ ground (arith, e, stays)
    | no ne ↦ get_elem?-set_ne s.threads i k none ne ∙ h
  ]
  event_keeps (spawns slot) s k t h stays = h
  event_keeps (spawns_late started registered slot) s k t h stays =
      spawn_keeps started registered (if is64 then slot % 2 ^ 64 else slot % 2 ^ 32) s k t h

  event_left :
      (e : Event) (s : Threads) (k : ℕ) (t : Thread)
      → IsTimely e
      → get_elem? (one_event is64 none e s).threads k ≡ some (some t)
      → (get_elem? s.threads k ≡ some (some t)) × (ends k e ≡ false)
  unfolding one_event finish_thread ends wt_wasi_thread_spawn
  event_left (finishes i) s k t timely h = elim (ℕ_discrete i k) [
    | yes e ↦ absurd (set-none s.threads i t (ap (λ j. get_elem? (set s.threads i none) j) e ∙ h))
    | no ne ↦ (sym (get_elem?-set_ne s.threads i k none ne) ∙ h, ground (arith, ne))
  ]
  event_left (spawns slot) s k t timely h = (h, refl)
  event_left (spawns_late started registered slot) s k t timely h = absurd timely

  spawn_stopping :
      (started registered : Bool) (thread_arg : ℕ) (s : Threads)
      → (wasi_thread_spawn started registered thread_arg s).0.stopping ≡ s.stopping
  unfolding wasi_thread_spawn
  spawn_stopping started registered thread_arg s = ground arith

  event_stopping : (e : Event) (s : Threads) → (one_event is64 none e s).stopping ≡ s.stopping
  unfolding one_event finish_thread wt_wasi_thread_spawn
  event_stopping (finishes i) s = refl
  event_stopping (spawns slot) s = refl
  event_stopping (spawns_late started registered slot) s = spawn_stopping started registered _ s

  between_keeps :
      (es : List Event) (s : Threads) (k : ℕ) (t : Thread)
      → get_elem? s.threads k ≡ some (some t)
      → ends_in k es ≡ false
      → get_elem? (between is64 none es s).threads k ≡ some (some t)
  unfolding between ends_in
  between_keeps [] s k t h stays = h
  between_keeps (e ∷ es) s k t h stays = elim (Bool-cases (ends k e)) [
    | inl over ↦ absurd (cc)
    | inr not_one ↦
        between_keeps es (one_event is64 none e s) k t (event_keeps e s k t h not_one)
          (ap (λ b. b || ends_in k es) (sym not_one) ∙ stays)
  ]

  between_left :
      (es : List Event) (s : Threads) (k : ℕ) (t : Thread)
      → All IsTimely es
      → get_elem? (between is64 none es s).threads k ≡ some (some t)
      → (get_elem? s.threads k ≡ some (some t)) × (ends_in k es ≡ false)
  unfolding between ends_in
  between_left [] s k t timely h = (h, refl)
  between_left (e ∷ es) s k t timely h =
      let (before, rest) = between_left es (one_event is64 none e s) k t timely.1 h in
      let (first, not_one) = event_left e s k t timely.0 before in (first, rw not_one rest)

  between_stopping :
      (es : List Event) (s : Threads) → (between is64 none es s).stopping ≡ s.stopping
  unfolding between
  between_stopping [] s = refl
  between_stopping (e ∷ es) s = between_stopping es (one_event is64 none e s) ∙ event_stopping e s

  -- One round of the loop, where there is no thread and where there is one.
  round_over :
      (ess : List (List Event)) (s : Threads)
      → is_nil (ask_all s.threads) ≡ true
      → stop_threads is64 none ess s
        ≡ some (record s { stopping = s.stopping ++ ask_all s.threads })
  unfolding stop_threads check_threads_stopped
  round_over [] s h = rw h
  round_over (es ∷ ess) s h = rw h

  round_waits :
      (es : List Event) (ess : List (List Event)) (s : Threads)
      → is_nil (ask_all s.threads) ≡ false
      → stop_threads is64 none (es ∷ ess) s
        ≡ stop_threads is64 none ess
            (between is64 none es (record s { stopping = s.stopping ++ ask_all s.threads }))
  unfolding stop_threads check_threads_stopped
  round_waits es ess s h = rw h

  waits_on : (s : Threads) → is_nil (ask_all s.threads) ≡ false → stop_threads is64 none [] s ≡ none
  unfolding stop_threads check_threads_stopped
  waits_on s h = rw h

  -- How the loop ends: no thread is left, and those that there were have been asked to stop.
  abbrev pub Over : Threads → Option Threads → Type 0
  Over s end =
      (s' : Threads) × (end ≡ some s')
      × All (λ x. x ≡ none) s'.threads
      × (rest : List ℕ) × (s'.stopping ≡ (s.stopping ++ ask_all s.threads) ++ rest)

  last_round :
      (ess : List (List Event)) (s : Threads)
      → is_nil (ask_all s.threads) ≡ true
      → Over s (stop_threads is64 none ess s)
  last_round ess s h = (
    record s { stopping = s.stopping ++ ask_all s.threads },
    round_over ess s h,
    none_each s.threads h,
    [],
    sym (append-nil (s.stopping ++ ask_all s.threads)),
  )

  -- A round after which the loop goes on, and ends.
  later_round :
      (es : List Event) (ess : List (List Event)) (s s' : Threads) (rest : List ℕ)
      → is_nil (ask_all s.threads) ≡ false
      → let asked : Threads = record s { stopping = s.stopping ++ ask_all s.threads } in
        let next = between is64 none es asked in
        stop_threads is64 none ess next ≡ some s'
        → All (λ x. x ≡ none) s'.threads
        → s'.stopping ≡ (next.stopping ++ ask_all next.threads) ++ rest
        → Over s (stop_threads is64 none (es ∷ ess) s)
  later_round es ess s s' rest waiting e none_now same =
      let asked : Threads = record s { stopping = s.stopping ++ ask_all s.threads } in
      (
        s',
        round_waits es ess s waiting ∙ e,
        none_now,
        ask_all (between is64 none es asked).threads ++ rest,
        same
            ∙ (ap (λ l. (l ++ ask_all (between is64 none es asked).threads) ++ rest)
                  (between_stopping es asked)
                ∙ append_assoc asked.stopping _ rest),
      )

  stop_ends :
      (ess : List (List Event)) (s : Threads)
      → All (All IsTimely) ess
      → ((k : ℕ) (t : Thread) → get_elem? s.threads k ≡ some (some t) → ever_ends k ess ≡ true)
      → Over s (stop_threads is64 none ess s)
  unfolding ever_ends
  stop_ends [] s timely all_end = last_round [] s (all_gone s.threads (λ k t e. cc (all_end k t e)))
  stop_ends (es ∷ ess) s timely all_end = elim (Bool-cases (is_nil (ask_all s.threads))) [
    | inl over ↦ last_round (es ∷ ess) s over
    | inr waiting ↦
        let asked : Threads = record s { stopping = s.stopping ++ ask_all s.threads } in
        let (s', e, none_now, rest, same) =
          stop_ends ess (between is64 none es asked) timely.1 (λ k t here.
            let (before, not_yet) = between_left es asked k t timely.0 here in
            ap (λ b. b || ever_ends k ess) (sym not_yet) ∙ all_end k t before) in
        later_round es ess s s' rest waiting e none_now same
  ]

  -- The threads after some rounds, if the loop does not end before.
  unfoldable pub rounds : List (List Event) → Threads → Threads
  unfolding between check_threads_stopped
  rounds [] s = s
  rounds (es ∷ ess) s = rounds ess (between is64 none es (check_threads_stopped s).0)

  stop_ends_late :
      (late ess : List (List Event)) (s : Threads)
      → All (All IsTimely) ess
      → ((k : ℕ) (t : Thread)
          → get_elem? (rounds late s).threads k ≡ some (some t)
          → ever_ends k ess ≡ true)
      → Over s (stop_threads is64 none (late ++ ess) s)
  unfolding rounds check_threads_stopped
  stop_ends_late [] ess s timely all_end = stop_ends ess s timely all_end
  stop_ends_late (es ∷ late) ess s timely all_end = elim (Bool-cases (is_nil (ask_all s.threads))) [
    | inl over ↦ last_round (es ∷ (late ++ ess)) s over
    | inr waiting ↦
        let asked : Threads = record s { stopping = s.stopping ++ ask_all s.threads } in
        let (s', e, none_now, rest, same) =
          stop_ends_late late ess (between is64 none es asked) timely all_end in
        later_round es (late ++ ess) s s' rest waiting e none_now same
  ]

  stop_waits :
      (ess : List (List Event)) (s : Threads) (k : ℕ) (t : Thread)
      → get_elem? s.threads k ≡ some (some t)
      → ever_ends k ess ≡ false
      → stop_threads is64 none ess s ≡ none
  unfolding ever_ends
  stop_waits [] s k t h never = elim (Bool-cases (is_nil (ask_all s.threads))) [
    | inl over ↦ absurd (none_left s.threads over k t h)
    | inr waiting ↦ waits_on s waiting
  ]
  stop_waits (es ∷ ess) s k t h never = elim (Bool-cases (is_nil (ask_all s.threads))) [
    | inl over ↦ absurd (none_left s.threads over k t h)
    | inr waiting ↦ elim (Bool-cases (ends_in k es)) [
      | inl now ↦ absurd (cc)
      | inr not_now ↦
          round_waits es ess s waiting
          ∙ stop_waits ess
              (between is64 none es (record s { stopping = s.stopping ++ ask_all s.threads })) k t
              (between_keeps es (record s { stopping = s.stopping ++ ask_all s.threads }) k t h
                not_now)
              (ap (λ b. b || ever_ends k ess) (sym not_now) ∙ never)
    ]
  ]

  -- Spawns that found the handler before it was removed may come while the destructor waits, in the first
  -- rounds of the schedule. When each thread that the table holds behind them ends at some time of the
  -- rest, whatever threads try to spawn meanwhile and whatever the handler was: the destructors return,
  -- without a handler, with no thread in the table, and every thread that there was at first has been
  -- asked to stop.
  pub closing_ends :
      (handler : Handler) (late ess : List (List Event)) (s : Threads)
      → All (All IsTimely) ess
      → ((k : ℕ) (t : Thread)
          → get_elem? (rounds late s).threads k ≡ some (some t)
          → ever_ends k ess ≡ true)
      → (s' : Threads) × (close_module is64 handler (late ++ ess) s ≡ some (none, s'))
        × All (λ x. x ≡ none) s'.threads
        × (rest : List ℕ) × (s'.stopping ≡ (s.stopping ++ ask_all s.threads) ++ rest)
  unfolding close_module
  closing_ends handler late ess s timely all_end =
      let (s', e, none_now, rest, same) = stop_ends_late late ess s timely all_end in
      (s', rw (e, close_module), none_now, rest, same)

  -- While the schedule has no end of a thread that is in the table, the destructors do not return.
  pub closing_waits :
      (handler : Handler) (ess : List (List Event)) (s : Threads) (k : ℕ) (t : Thread)
      → get_elem? s.threads k ≡ some (some t)
      → ever_ends k ess ≡ false
      → close_module is64 handler ess s ≡ none
  unfolding close_module
  closing_waits handler ess s k t h never = rw (stop_waits ess s k t h never, close_module)
