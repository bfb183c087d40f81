-- ===== src/Collector/Scanning.antt =====
-- wclap-bridge-plugin.cpp: scans, and the life of the collected plugin.
use wclap_bridge.Base.{
  ℕ, ◌+◌, ◌≡◌, refl, Bool, true, false, List, [], ◌∷◌, ◌++◌, Option, none, some, arith,
  Option-cases, inl, inr, c_str, ◌∙◌,
}
use wclap_bridge.Collector.{
  Wclap, Opened, Outside, State, is_wclap, scan_entries, start, clap_init, clap_deinit,
  scan_wclap_directories, scan_wclap_directory,
}

-- A path that ends in `.wclap` and cannot be opened ends the scan of its directory by a null pointer
-- that is read through, whatever was opened before and whatever follows.
pub null_wclap_ends_scan :
    (open_wclap : List ℕ → Option Opened) (path : List ℕ) (paths : List (List ℕ)) (ws : List Wclap)
    → is_wclap path ≡ some true
    → open_wclap path ≡ none
    → scan_entries open_wclap (path ∷ paths) ws ≡ none
unfolding scan_entries
null_wclap_ends_scan open_wclap path paths ws e n = ground arith

-- After a first `clap_init` that fails, because the engine does not start, a second one returns
-- true, whatever would happen then, and no plugin is listed.
pub failed_init_forgotten :
    (o o' : Outside)
    → o.global_init_ok ≡ false
    → (s s' : State) × (clap_init o start ≡ some (s, false))
      × (clap_init o' s ≡ some (s', true))
      × (s'.plugin_list ≡ [])
unfolding clap_init start
failed_init_forgotten o o' h =
    (record start { init_counter = 1 }, record start { init_counter = 2 }, ground arith, refl, refl)

-- Calls of the collected plugin's entry: `clap_init`, in some surroundings, and `clap_deinit`.
pub data Event : Type 0 where
  init : Outside → Event
  deinit : Event

unfoldable pub after_events : List Event → State → Option State
after_events [] s = some s
after_events (deinit ∷ es) s = after_events es (clap_deinit s)
after_events (init o ∷ es) s = elim (clap_init o s) [
  | none ↦ none
  | some (s', ok) ↦ after_events es s'
]

scan_wclap_directory-invalidations :
    (o : Outside) (path : List ℕ) (s s' : State)
    → scan_wclap_directory o path s ≡ some s'
    → s'.invalidations ≡ s.invalidations
unfolding scan_wclap_directory
scan_wclap_directory-invalidations o path s s' h = ground arith

scan_wclap_directories-invalidations :
    (o : Outside) (s s' : State)
    → scan_wclap_directories o s ≡ some s'
    → s'.invalidations ≡ s.invalidations
unfolding scan_wclap_directories
scan_wclap_directories-invalidations o s s' h =
    elim (Option-cases (scan_wclap_directory o (c_str "/usr/lib/wclap/") s)) [
      | inl e ↦ absurd (ground arith)
      | inr (q, e) ↦
          let first = scan_wclap_directory-invalidations o (c_str "/usr/lib/wclap/") s q e in
          elim (Option-cases o.home) [
            | inl n ↦ ground arith
            | inr (home, n) ↦
                ground (
                  arith,
                  first,
                  scan_wclap_directory-invalidations o (home ++ c_str "/.wclap/") q s',
                )
          ]
    ]

clap_init-invalidations :
    (o : Outside) (s s' : State) (ok : Bool)
    → clap_init o s ≡ some (s', ok)
    → s'.invalidations ≡ s.invalidations
unfolding clap_init
clap_init-invalidations o s s' ok h =
    let counted = record s { init_counter = s.init_counter + 1 } in
    elim (Option-cases (scan_wclap_directories o counted)) [
      | inl e ↦ ground arith
      | inr (q, e) ↦ ground (arith, scan_wclap_directories-invalidations o counted q e)
    ]

-- The invalidation factory never has an entry: after any history of `clap_init` and `clap_deinit`
-- calls in any surroundings, from a state in which the list that it reads is empty, as it is at the start,
-- that list is empty.
pub no_invalidations :
    (es : List Event) (s s' : State)
    → s.invalidations ≡ []
    → after_events es s ≡ some s'
    → s'.invalidations ≡ []
unfolding after_events
no_invalidations [] s s' none_yet h = ground arith
no_invalidations (deinit ∷ es) s s' none_yet h =
    no_invalidations es (clap_deinit s) s' (unfold clap_deinit in ground arith) h
no_invalidations (init o ∷ es) s s' none_yet h = elim (Option-cases (clap_init o s)) [
  | inl e ↦ absurd (ground arith)
  | inr ((q, ok), e) ↦
      no_invalidations es q s' (clap_init-invalidations o s q ok e ∙ none_yet) (ground arith)
]
