-- ===== src/Bridge/Active.antt =====
-- wclap-bridge.cpp: the count of open modules, and the engine under them, over histories of calls.
use wclap_bridge.Base.{
  ℕ, ◌+◌, ◌^◌, ◌≤◌, ◌<◌, ◌≡◌, refl, true, List, [], ◌∷◌, Option, none, some, arith, length,
  Bool-cases, Option-cases, inl, inr, ◌⊎◌, ◌↔◌, ◌≢◌,
}
use wclap_bridge.Instance.Paths.{Dirs}
use wclap_bridge.Instance.Group.{Group, Engine, EngineReplies, global_init, global_deinit}
use wclap_bridge.Bridge.{
  Bridge, Outside, find_module, Ended, done, aborted, undefined, start_bridge, wclap_global_init,
  wclap_global_deinit, wclap_open_with_dirs, open_found, open_group, wclap_close, contains, remove,
  Op, init, deinit, opens, closes, step, after, run,
}

-- The count is the number of open modules, and while one is open the engine is up; when the API says
-- that it was initialised, there is an engine.
pub record Inv (s : Bridge) : Type 0 where
  pub counted : s.active_wclap_count ≡ length s.modules
  pub needs_init : 0 < length s.modules → s.global_init_ok ≡ true
  pub has_engine : s.global_init_ok ≡ true → s.engine.engine_exists ≡ true

global_init_made :
    (r : EngineReplies) (ms : ℕ) (e : Engine)
    → (global_init r ms e).1 ≡ true
    → (global_init r ms e).0.engine_exists ≡ true
unfolding global_init
global_init_made r ms e h = ground arith

step-init :
    (r : EngineReplies) (ms : ℕ) (s s' : Bridge) → Inv s → step (init r ms) s ≡ done s' → Inv s'
unfolding step wclap_global_init
step-init r ms s s' v h =
    ground (arith, global_init_made r ms s.engine, global_init_made r ms (global_deinit s.engine))

step-deinit : (s s' : Bridge) → Inv s → step deinit s ≡ done s' → Inv s'
unfolding step wclap_global_deinit
step-deinit s s' v h = ground arith

open_group-Inv :
    (g : Group) (d : Dirs) (s : Bridge)
    → s.global_init_ok ≡ true
    → length s.modules + 1 < 2 ^ 64
    → Inv s
    → Inv (open_group g d s).0
unfolding open_group
open_group-Inv g d s ok room v = ground arith

open_found-Inv :
    (o : Outside) (d : Dirs) (f : Option (List ℕ × Option (List ℕ))) (s : Bridge)
    → s.global_init_ok ≡ true
    → length s.modules + 1 < 2 ^ 64
    → Inv s
    → Inv (open_found o d f s).0
unfolding open_found
open_found-Inv o d none s ok room v = v
open_found-Inv o d (some ([], dir)) s ok room v = v
open_found-Inv o d (some (b ∷ bytes, dir)) s ok room v = open_group-Inv _ _ s ok room v

wclap_open-Inv :
    (o : Outside) (d : Dirs) (s : Bridge)
    → length s.modules + 1 < 2 ^ 64
    → Inv s
    → Inv (wclap_open_with_dirs o d s).0
unfolding wclap_open_with_dirs
wclap_open-Inv o d s room v = elim (Bool-cases s.global_init_ok) [
  | inr no_engine ↦ ground arith
  | inl ok ↦ elim (Option-cases d.wclap_dir) [
    | inl missing ↦ ground arith
    | inr (dir, given) ↦ ground (arith, open_found-Inv o d (find_module o dir) s ok)
  ]
]

length-remove : (h : ℕ) (ms : List ℕ) → contains h ms ≡ true → length (remove h ms) + 1 ≡ length ms
unfolding contains remove
length-remove h [] e = absurd (ground arith)
length-remove h (m ∷ ms) e = ground (arith, length-remove h ms)

wclap_close-Inv :
    (h : Option ℕ) (s s' : Bridge)
    → length s.modules < 2 ^ 64
    → Inv s
    → wclap_close h s ≡ done s'
    → Inv s'
unfolding wclap_close
wclap_close-Inv none s s' room v e = absurd (ground arith)
wclap_close-Inv (some h) s s' room v e = ground (arith, length-remove h s.modules)

-- A call leaves at most one more module open.
abbrev Grows : Bridge → Bridge → Type 0
Grows s s' = length s'.modules ≤ length s.modules + 1

open_group-Grows : (g : Group) (d : Dirs) (s : Bridge) → Grows s (open_group g d s).0
unfolding open_group
open_group-Grows g d s = ground arith

open_found-Grows :
    (o : Outside) (d : Dirs) (f : Option (List ℕ × Option (List ℕ))) (s : Bridge)
    → Grows s (open_found o d f s).0
unfolding open_found
open_found-Grows o d none s = omega arith
open_found-Grows o d (some ([], dir)) s = omega arith
open_found-Grows o d (some (b ∷ bytes, dir)) s = open_group-Grows _ _ s

wclap_open-Grows : (o : Outside) (d : Dirs) (s : Bridge) → Grows s (wclap_open_with_dirs o d s).0
unfolding wclap_open_with_dirs
wclap_open-Grows o d s = elim (Option-cases d.wclap_dir) [
  | inl missing ↦ ground arith
  | inr (dir, given) ↦ ground (arith, open_found-Grows o d (find_module o dir) s)
]

wclap_close-Grows : (h : Option ℕ) (s s' : Bridge) → wclap_close h s ≡ done s' → Grows s s'
unfolding wclap_close
wclap_close-Grows none s s' e = absurd (ground arith)
wclap_close-Grows (some h) s s' e = ground (arith, length-remove h s.modules)

step-Grows : (op : Op) (s s' : Bridge) → step op s ≡ done s' → Grows s s'
unfolding step wclap_global_init wclap_global_deinit
step-Grows (init r ms) s s' e = ground arith
step-Grows deinit s s' e = ground arith
step-Grows (opens o d) s s' e = ground (arith, wclap_open-Grows o d s)
step-Grows (closes h) s s' e = wclap_close-Grows h s s' e

step-Inv :
    (op : Op) (s s' : Bridge) → length s.modules + 1 < 2 ^ 64 → Inv s → step op s ≡ done s' → Inv s'
unfolding step
step-Inv (init r ms) s s' room v e = step-init r ms s s' v e
step-Inv deinit s s' room v e = step-deinit s s' v e
step-Inv (opens o d) s s' room v e = ground (arith, wclap_open-Inv o d s)
step-Inv (closes h) s s' room v e = wclap_close-Inv h s s' (omega arith) v e

after_done :
    (ops : List Op) (e : Ended Bridge) {s' : Bridge}
    → after ops e ≡ done s'
    → (q : Bridge) × (e ≡ done q) × (after ops (done q) ≡ done s')
unfolding after
after_done ops (done q) h = (q, refl, h)
after_done [] aborted h = absurd (ground arith)
after_done [] undefined h = absurd (ground arith)
after_done (op ∷ ops) aborted h = absurd (ground arith)
after_done (op ∷ ops) undefined h = absurd (ground arith)

after-Inv :
    (ops : List Op) (s s' : Bridge)
    → length s.modules + length ops < 2 ^ 64
    → Inv s
    → after ops (done s) ≡ done s'
    → Inv s'
unfolding after
after-Inv [] s s' room v e = ground arith
after-Inv (op ∷ ops) s s' room v e =
    let (q, stepped, later) = after_done ops (step op s) e in
    after-Inv ops q s' (omega (arith, step-Grows op s q stepped))
      (step-Inv op s q (omega arith) v stepped) later

start-Inv : Inv start_bridge
unfolding start_bridge
start-Inv = record { counted = refl; needs_init = λ h. absurd (omega arith); has_engine = λ h. cc }

-- After any history of fewer than 2^64 calls from the start, in any order and with any outcome of the
-- file system and of Wasmtime, up to a call that does not return: the active count is the number of
-- open modules, and either none is open or the engine exists.
pub run_counts :
    (ops : List Op) (s : Bridge)
    → length ops < 2 ^ 64
    → run ops start_bridge ≡ done s
    → (s.active_wclap_count ≡ length s.modules)
      × ((length s.modules ≡ 0) ⊎ (s.engine.engine_exists ≡ true))
unfolding run
run_counts ops s short e =
    let v = after-Inv ops start_bridge s (unfold start_bridge in omega arith) start-Inv e in
    (v.counted, ground (arith, v.has_engine, v.needs_init))

-- With modules open, `wclap_global_deinit` aborts, and so does `wclap_global_init` with another time
-- limit; with none open neither ever aborts. The state is one that satisfies the invariant.
pub teardown_aborts :
    (r : EngineReplies) (ms : ℕ) (s : Bridge)
    → Inv s
    → ((wclap_global_deinit s ≡ aborted) ↔ (0 < length s.modules))
      × ((wclap_global_init r ms s ≡ aborted) ↔ ((0 < length s.modules) × (ms ≢ s.global_init_ms)))
unfolding wclap_global_deinit wclap_global_init
teardown_aborts r ms s v =
    ((λ h. ground arith, λ h. ground arith), (λ h. ground arith, λ h. ground arith))
