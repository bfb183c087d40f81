-- ===== src/Instance/Epochs/Limit.antt =====
-- The time limit of calls, in the epochs of the epoch thread.
use wclap_bridge.Base.{
  ℕ, suc, ◌+◌, ◌-◌, ◌*◌, ◌/◌, ◌≤◌, ◌<◌, ◌≡◌, refl, ap, true, List, [], ◌⊎◌, inl, inr, ◌∷◌, arith,
  All, leb, if◌then◌else◌,
}
use native.Mathlib.Decide.{ℕ_discrete}
use wclap_bridge.Instance.Group.{Engine, EngineReplies, global_init, epoch_counter_ms}
use wclap_bridge.Instance.Epochs.{epoch_thread_function, epoch_at}

abbrev pub sum : List ℕ → ℕ
sum [] = 0
sum (d ∷ ds) = d + sum ds

ℕ_cases : (x start now : ℕ) → (x ≤ start) ⊎ ((start < x × x ≤ now) ⊎ (start < x × now < x))
ℕ_cases x start now = ground arith

more : (a b : ℕ) → b < a → a ≡ suc b + (a - suc b)
more a b h = omega arith

cancel : (g a b : ℕ) → g * a < g + g * b → a ≤ b
cancel g a b h = elim (ℕ_cases a b b) [
  | inl le ↦ le
  | inr (inl (gt, x)) ↦ x
  | inr (inr (gt, x)) ↦ absurd (omega (arith, ap (λ n. g * n) (more a b gt)))
]

epoch-nil : (t now : ℕ) → epoch_at (epoch_thread_function t []) now ≡ (if leb t now then 1 else 0)
unfolding epoch_thread_function epoch_at
epoch-nil t now = refl

epoch-cons :
    (t d now : ℕ) (ds : List ℕ)
    → epoch_at (epoch_thread_function t (d ∷ ds)) now ≡ (
        if leb t now
        then suc (epoch_at (epoch_thread_function (t + d) ds) now)
        else epoch_at (epoch_thread_function (t + d) ds) now)
unfolding epoch_thread_function epoch_at
epoch-cons t d now ds = refl

-- Before the first increment the epoch is 0.
epoch_before : (ds : List ℕ) (t now : ℕ) → now < t → epoch_at (epoch_thread_function t ds) now ≡ 0
epoch_before [] t now h = ground (arith, epoch-nil t now)
epoch_before (d ∷ ds) t now h =
    ground (arith, epoch-cons t d now ds, epoch_before ds (t + d) now (omega arith))

-- From a time before the first increment on, at most one epoch for each 10 ms, and one more.
epoch_upto :
    (ds : List ℕ) (t now : ℕ)
    → All (λ d. 10 ≤ d) ds
    → t ≤ now
    → 10 * epoch_at (epoch_thread_function t ds) now + t ≤ now + 10
epoch_upto [] t now slow h = ground (arith, epoch-nil t now)
epoch_upto (d ∷ ds) t now (slow_d, slow) h =
    elim (ℕ_discrete 1 (if leb (t + d) now then 1 else 0)) [
      | yes e ↦ ground (arith, epoch-cons t d now ds, epoch_upto ds (t + d) now slow (ground arith))
      | no ne ↦ ground (arith, epoch-cons t d now ds, epoch_before ds (t + d) now (ground arith))
    ]

-- Between two times at or behind the first increment.
epoch_between :
    (ds : List ℕ) (t start now : ℕ)
    → All (λ d. 10 ≤ d) ds
    → t ≤ start
    → start ≤ now
    → let times = epoch_thread_function t ds in
      10 * epoch_at times now + start ≤ now + 10 + 10 * epoch_at times start
epoch_between [] t start now slow h le = ground (arith, epoch-nil t now, epoch-nil t start)
epoch_between (d ∷ ds) t start now (slow_d, slow) h le = elim (ℕ_cases (t + d) start now) [
  | inl early ↦ ground (
    arith,
    epoch-cons t d now ds,
    epoch-cons t d start ds,
    epoch_between ds (t + d) start now slow early le,
  )
  | inr (inl (late, soon)) ↦ ground (
    arith,
    epoch-cons t d now ds,
    epoch-cons t d start ds,
    epoch_upto ds (t + d) now slow soon,
    epoch_before ds (t + d) start late,
  )
  | inr (inr (late, later)) ↦ ground (
    arith,
    epoch-cons t d now ds,
    epoch-cons t d start ds,
    epoch_before ds (t + d) now later,
    epoch_before ds (t + d) start late,
  )
]

epoch-suc :
    (t d now : ℕ) (ds : List ℕ)
    → t ≤ now
    → epoch_at (epoch_thread_function t (d ∷ ds)) now
      ≡ suc (epoch_at (epoch_thread_function (t + d) ds) now)
epoch-suc t d now ds h = ground (arith, epoch-cons t d now ds)

-- While the thread sleeps, the epoch keeps up with sleeps of at most `g`.
epoch_reaches :
    (g : ℕ) (ds : List ℕ) (t now : ℕ)
    → All (λ d. d ≤ g) ds
    → t ≤ now
    → now < t + sum ds
    → now < t + g * epoch_at (epoch_thread_function t ds) now
epoch_reaches g [] t now quick h run = absurd (omega arith)
epoch_reaches g (d ∷ ds) t now (quick_d, quick) h run =
    rw (epoch-suc t d now ds h) (elim (ℕ_cases (t + d) now now) [
      | inl soon ↦ omega (arith, epoch_reaches g ds (t + d) now quick soon (omega arith))
      | inr (inl (later, x)) ↦ absurd (omega arith)
      | inr (inr (later, x)) ↦ omega (arith, epoch_before ds (t + d) now later)
    ])

epoch_catches :
    (g : ℕ) (ds : List ℕ) (t start now : ℕ)
    → All (λ d. d ≤ g) ds
    → t ≤ start
    → start ≤ now
    → now < t + sum ds
    → let times = epoch_thread_function t ds in
      now + g * epoch_at times start < start + g + g * epoch_at times now
epoch_catches g [] t start now quick h le run = absurd (omega arith)
epoch_catches g (d ∷ ds) t start now (quick_d, quick) h le run =
    rw (epoch-suc t d now ds (omega arith), epoch-suc t d start ds h)
      (elim (ℕ_cases (t + d) start now) [
        | inl early ↦
            omega (arith, epoch_catches g ds (t + d) start now quick early le (omega arith))
        | inr (inl (late, soon)) ↦ omega (
          arith,
          ap (λ n. g * n) (epoch_before ds (t + d) start late),
          epoch_reaches g ds (t + d) now quick soon (omega arith),
        )
        | inr (inr (late, later)) ↦ omega (
          arith,
          ap (λ n. g * n) (epoch_before ds (t + d) start late),
          ap (λ n. g * n) (epoch_before ds (t + d) now later),
        )
      ])

-- The limit in epochs, once the engine is set up with a limit.
limit_epochs :
    (r : EngineReplies) (time_limit_ms : ℕ) (e : Engine)
    → 0 < time_limit_ms
    → (global_init r time_limit_ms e).1 ≡ true
    → (global_init r time_limit_ms e).0.time_limit_epochs ≡ time_limit_ms / epoch_counter_ms + 2
unfolding global_init
limit_epochs r time_limit_ms e pos ok = ground arith

module _ (r : EngineReplies) (time_limit_ms : ℕ) (e : Engine) (ds : List ℕ) (t start now : ℕ) where
  -- The limit of the engine that was set up, and the epochs that have begun at a time.
  abbrev pub epochs : ℕ
  epochs = (global_init r time_limit_ms e).0.time_limit_epochs

  abbrev pub epoch : ℕ → ℕ
  epoch = epoch_at (epoch_thread_function t ds)

  -- A call that starts at `start`, behind the first increment, with a deadline of as many epochs on as
  -- the engine's limit says, where every sleep of the epoch thread lasts at least 10 ms and the engine
  -- was set up with a limit: the epoch is before the deadline until the limit in milliseconds is over.
  pub deadline_not_early :
      0 < time_limit_ms
      → (global_init r time_limit_ms e).1 ≡ true
      → All (λ d. 10 ≤ d) ds
      → t ≤ start
      → start ≤ now
      → now ≤ start + time_limit_ms
      → epoch now < epoch start + epochs
  deadline_not_early pos ok slow h le within =
      omega (arith, limit_epochs r time_limit_ms e pos ok, epoch_between ds t start now slow h le)

  -- Where no sleep lasts longer than `g`, and as long as the thread is running: the deadline is reached
  -- when `g` times the limit in epochs, that is `limit / 10 + 2`, is over.
  pub deadline_reached :
      (g : ℕ)
      → 0 < time_limit_ms
      → (global_init r time_limit_ms e).1 ≡ true
      → All (λ d. d ≤ g) ds
      → t ≤ start
      → start + g * (time_limit_ms / 10 + 2) ≤ now
      → now < t + sum ds
      → epoch start + epochs ≤ epoch now
  deadline_reached g pos ok quick h over run = rw (limit_epochs r time_limit_ms e pos ok) (
      cancel g (epoch start + (time_limit_ms / 10 + 2)) (epoch now)
        (omega (arith, epoch_catches g ds t start now quick h (omega arith) run)))
