-- ===== src/Module/Threads/Table.antt =====
-- The thread table of wclap-module-base.h, and what `wasiThreadSpawn` does to it.
use wclap_bridge.Base.{
  ℕ, zero, suc, ◌+◌, ◌%◌, ◌^◌, ◌≤◌, ◌<◌, ◌≡◌, refl, sym, ap, ◌∙◌, Bool, true, false, List, [], ◌∷◌,
  Option, none, some, arith, length, get_elem?, set, inl, inr, ◌⊎◌, ◌≢◌,
}
use native.Mathlib.Decide.{ℕ_discrete}
use wclap_bridge.Module.Threads.{
  Thread, Threads, find_empty, free_index, put_thread, wasi_thread_spawn, finish_thread,
}

-- Each thread of the list, whose first entry has the index `i`, knows its index.
abbrev pub Indexed : ℕ → List (Option Thread) → Type 0
Indexed i [] = Unit {0}
Indexed i (none ∷ ts) = Indexed (suc i) ts
Indexed i (some t ∷ ts) = (t.index ≡ i) × Indexed (suc i) ts

-- The table begins with the reserved entry.
abbrev pub IsTable : List (Option Thread) → Type 0
IsTable [] = ⊥
IsTable (none ∷ ts) = Indexed 1 ts
IsTable (some t ∷ ts) = ⊥

-- What the search finds: the first empty entry, or the place behind the end.
find_empty_lem :
    (ts : List (Option Thread)) (i : ℕ)
    → (k : ℕ) × (find_empty ts i ≡ k + i)
      × (k ≤ length ts)
      × ((get_elem? ts k ≡ some none) ⊎ (get_elem? ts k ≡ none))
unfolding find_empty
find_empty_lem [] i = (0, omega arith, omega arith, inr refl)
find_empty_lem (none ∷ ts) i = (0, omega arith, omega arith, inl refl)
find_empty_lem (some t ∷ ts) i =
    let (k, e, le, free) = find_empty_lem ts (suc i) in (suc k, omega arith, omega arith, free)

put_thread-cons :
    (x : Option Thread) (ts : List (Option Thread)) (k : ℕ) (t : Thread)
    → put_thread (x ∷ ts) (suc k) t ≡ x ∷ put_thread ts k t
unfolding put_thread
put_thread-cons x ts k t = ground arith

put_thread-nil : (t : Thread) → put_thread [] 0 t ≡ some t ∷ []
unfolding put_thread
put_thread-nil t = refl

put_thread-zero :
    (x : Option Thread) (ts : List (Option Thread)) (t : Thread)
    → put_thread (x ∷ ts) 0 t ≡ some t ∷ ts
unfolding put_thread
put_thread-zero x ts t = ground arith

Indexed-put :
    (i : ℕ) (ts : List (Option Thread)) (k : ℕ) (t : Thread)
    → Indexed i ts
    → k ≤ length ts
    → t.index ≡ k + i
    → Indexed i (put_thread ts k t)
Indexed-put i [] zero t h le e = rw put_thread-nil (omega arith, tt)
Indexed-put i [] (suc k) t h le e = absurd (omega arith)
Indexed-put i (none ∷ ts) zero t h le e = rw put_thread-zero (omega arith, h)
Indexed-put i (some u ∷ ts) zero t h le e = rw put_thread-zero (omega arith, h.1)
Indexed-put i (none ∷ ts) (suc k) t h le e =
    rw put_thread-cons (Indexed-put (suc i) ts k t h (omega arith) (omega arith))
Indexed-put i (some u ∷ ts) (suc k) t h le e =
    rw put_thread-cons (h.0, Indexed-put (suc i) ts k t h.1 (omega arith) (omega arith))

get_elem?-put_self :
    (ts : List (Option Thread)) (k : ℕ) (t : Thread)
    → k ≤ length ts
    → get_elem? (put_thread ts k t) k ≡ some (some t)
get_elem?-put_self [] zero t h = rw put_thread-nil
get_elem?-put_self [] (suc k) t h = absurd (omega arith)
get_elem?-put_self (x ∷ ts) zero t h = rw put_thread-zero
get_elem?-put_self (x ∷ ts) (suc k) t h =
    rw put_thread-cons (get_elem?-put_self ts k t (omega arith))

get_elem?-put_ne :
    (ts : List (Option Thread)) (k j : ℕ) (t : Thread)
    → k ≤ length ts
    → j ≢ k
    → get_elem? (put_thread ts k t) j ≡ get_elem? ts j
get_elem?-put_ne [] zero zero t h ne = absurd (ne refl)
get_elem?-put_ne [] zero (suc j) t h ne = rw put_thread-nil
get_elem?-put_ne [] (suc k) j t h ne = absurd (omega arith)
get_elem?-put_ne (x ∷ ts) zero zero t h ne = absurd (ne refl)
get_elem?-put_ne (x ∷ ts) zero (suc j) t h ne = rw put_thread-zero
get_elem?-put_ne (x ∷ ts) (suc k) zero t h ne = rw put_thread-cons
get_elem?-put_ne (x ∷ ts) (suc k) (suc j) t h ne =
    rw put_thread-cons (get_elem?-put_ne ts k j t (omega arith) (λ e. ne (ap suc e)))

-- Where the new thread goes.
free_index_lem :
    (ts : List (Option Thread))
    → IsTable ts
    → (k : ℕ) × (free_index ts ≡ suc k)
      × (suc k ≤ length ts)
      × ((get_elem? ts (suc k) ≡ some none) ⊎ (get_elem? ts (suc k) ≡ none))
unfolding free_index
free_index_lem [] h = absurd h
free_index_lem (some t ∷ ts) h = absurd h
free_index_lem (none ∷ ts) h =
    let (k, e, le, free) = find_empty_lem ts 1 in (k, omega arith, omega arith, free)

IsTable-put :
    (ts : List (Option Thread)) (k : ℕ) (t : Thread)
    → IsTable ts
    → suc k ≤ length ts
    → t.index ≡ suc k
    → IsTable (put_thread ts (suc k) t)
IsTable-put [] k t h le e = absurd h
IsTable-put (some u ∷ ts) k t h le e = absurd h
IsTable-put (none ∷ ts) k t h le e =
    rw put_thread-cons (Indexed-put 1 ts k t h (omega arith) (omega arith))

-- What a successful `wasiThreadSpawn` does, on a table of fewer than 2^32 entries and a module with no
-- error: it returns an index other than 0 whose entry was empty or absent, puts there a thread that
-- knows this index and its argument, and leaves every other entry `j` as it was; the table stays one
-- in which each thread is under its own index, and its entry 0 is empty.
pub spawn_places :
    (s : Threads) (thread_arg j : ℕ)
    → IsTable s.threads
    → length s.threads < 2 ^ 32
    → s.errors.has_error ≡ false
    → let (s', id) = wasi_thread_spawn true true thread_arg s in
      (id ≢ 0)
      × ((get_elem? s.threads id ≡ some none) ⊎ (get_elem? s.threads id ≡ none))
      × (get_elem? s'.threads id ≡ some (some (record { index = id; thread_arg = thread_arg })))
      × ((j ≡ id) ⊎ (get_elem? s'.threads j ≡ get_elem? s.threads j))
      × IsTable s'.threads
unfolding wasi_thread_spawn
spawn_places s thread_arg j table small good =
    let (k, e, le, free) = free_index_lem s.threads table in
    let same : free_index s.threads % 2 ^ 32 ≡ suc k = omega arith in
    let t : Thread = record { index = suc k; thread_arg = thread_arg } in
    let elsewhere : (j ≡ suc k)
        ⊎ (get_elem? (put_thread s.threads (suc k) t) j ≡ get_elem? s.threads j) =
      elim (ℕ_discrete j (suc k)) [
        | yes here ↦ inl here
        | no there ↦ inr (get_elem?-put_ne s.threads (suc k) j t le there)
      ] in
    rw (good, same, e)
      (
        λ z. absurd (omega arith),
        free,
        get_elem?-put_self s.threads (suc k) t le,
        elsewhere,
        IsTable-put s.threads k t table le refl,
      )

Indexed-set-none :
    (i : ℕ) (ts : List (Option Thread)) (k : ℕ) → Indexed i ts → Indexed i (set ts k none)
Indexed-set-none i [] k h = tt
Indexed-set-none i (none ∷ ts) zero h = h
Indexed-set-none i (some t ∷ ts) zero h = h.1
Indexed-set-none i (none ∷ ts) (suc k) h = Indexed-set-none (suc i) ts k h
Indexed-set-none i (some t ∷ ts) (suc k) h = (h.0, Indexed-set-none (suc i) ts k h.1)

set-none-IsTable :
    (ts : List (Option Thread)) (index : ℕ) → IsTable ts → IsTable (set ts index none)
set-none-IsTable [] index h = absurd h
set-none-IsTable (some t ∷ ts) index h = absurd h
set-none-IsTable (none ∷ ts) zero h = h
set-none-IsTable (none ∷ ts) (suc k) h = Indexed-set-none 1 ts k h

-- A thread that finishes keeps the table one in which each thread is under its own index.
finish-IsTable :
    (s : Threads) (index : ℕ) → IsTable s.threads → IsTable (finish_thread index s).threads
unfolding finish_thread
finish-IsTable s index h = set-none-IsTable s.threads index h

put_keeps :
    (ts : List (Option Thread)) (k : ℕ) (t u : Thread)
    → get_elem? ts k ≡ some (some t)
    → get_elem? (put_thread ts (free_index ts) u) k ≡ some (some t)
unfolding free_index
put_keeps [] k t u h = absurd (cc)
put_keeps (x ∷ ts) zero t u h =
    let (i, e, le, free) = find_empty_lem ts 1 in
    get_elem?-put_ne (x ∷ ts) (find_empty ts 1) 0 u (omega arith) (λ z. absurd (omega arith)) ∙ h
put_keeps (x ∷ ts) (suc k) t u h =
    let (i, e, le, free) = find_empty_lem ts 1 in
    get_elem?-put_ne (x ∷ ts) (find_empty ts 1) (suc k) u (omega arith) (λ z.
      let same : k ≡ i = omega (arith, z, e) in
      let at : get_elem? ts i ≡ some (some t) = ap (get_elem? ts) (sym same) ∙ h in
      elim free [ inl empty ↦ absurd (cc) | inr behind ↦ absurd (cc) ])
    ∙ h

-- A spawn leaves every thread of any table where it is.
pub spawn_keeps :
    (started registered : Bool) (thread_arg : ℕ) (s : Threads) (k : ℕ) (t : Thread)
    → get_elem? s.threads k ≡ some (some t)
    → get_elem? (wasi_thread_spawn started registered thread_arg s).0.threads k ≡ some (some t)
unfolding wasi_thread_spawn
spawn_keeps started registered thread_arg s k t h =
    let u : Thread = record { index = free_index s.threads % 2 ^ 32; thread_arg = thread_arg } in
    ground (arith, h, put_keeps s.threads k t u h)
