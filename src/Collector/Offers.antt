-- ===== src/Collector/Offers.antt =====
-- wclap-bridge-plugin.cpp: where the collected plugins come from, and where they are routed to.
use wclap_bridge.Base.{
  ℕ, suc, ◌+◌, ◌≡◌, refl, sym, ap, ◌≢◌, List, [], ◌∷◌, ◌++◌, Option, none, some, arith, bytes_eq,
  bytes_eq_sound, bytes_eq_refl, All, Bool-cases, Option-cases, inl, inr, get_elem?,
}
use mathlib.Core.List.{Memᴰ}
use wclap_bridge.Collector.Unique.{ids, Unique, scan_wclap_plugins-Unique}
use wclap_bridge.Collector.{
  Descriptor, Plugin, Wclap, Newer, replace_duplicate, scan_factory, scan_wclap_plugins,
  create_plugin,
}

-- The WCLAP at the plugin's index has a factory that gives the plugin's descriptor.
abbrev pub Offers : List Wclap → Plugin → Type 0
Offers ws p =
    (w : Wclap) × (ds : List (Option Descriptor)) × (get_elem? ws p.wclap_index ≡ some w)
    × (w.plugin_factory ≡ some ds)
    × Memᴰ (some p.desc) ds

module _ (P : Plugin → Type 0) where
  All-append : (ps qs : List Plugin) → All P ps → All P qs → All P (ps ++ qs)
  All-append [] qs h k = k
  All-append (p ∷ ps) qs h k = (h.0, All-append ps qs h.1 k)

  All-mem : {p : Plugin} (ps : List Plugin) → All P ps → Memᴰ p ps → P p
  All-mem [] h m = elim m [ ]
  All-mem (q ∷ ps) h (Memᴰ.head e) = rw e h.0
  All-mem (q ∷ ps) h (Memᴰ.tail m) = All-mem ps h.1 m

  replace_duplicate-All :
      (newer : Newer) (p : Plugin) (ps : List Plugin)
      → P p
      → All P ps
      → All P (replace_duplicate newer p ps).0
  unfolding replace_duplicate
  replace_duplicate-All newer p [] hp h = tt
  replace_duplicate-All newer p (q ∷ ps) hp h =
      ground (arith, replace_duplicate-All newer p ps hp h.1)

  scan_factory-All :
      (newer : Newer) (index : ℕ) (ds : List (Option Descriptor)) (ps : List Plugin)
      → ((d : Descriptor) → Memᴰ (some d) ds → P (record { desc = d; wclap_index = index }))
      → All P ps
      → All P (scan_factory newer index ds ps).0
  unfolding scan_factory
  scan_factory-All newer index [] ps from h = h
  scan_factory-All newer index (none ∷ ds) ps from h =
      scan_factory-All newer index ds ps (λ d m. from d (Memᴰ.tail m)) h
  scan_factory-All newer index (some d ∷ ds) ps from h =
      let p : Plugin = record { desc = d; wclap_index = index } in
      let h' = replace_duplicate-All newer p ps (from d (Memᴰ.head refl)) h in
      elim (Bool-cases (replace_duplicate newer p ps).1) [
        | inl found ↦ rw found h'
        | inr new ↦ rw new (
            scan_factory-All newer index ds _ (λ d m. from d (Memᴰ.tail m))
              (All-append _ (p ∷ []) h' (from d (Memᴰ.head refl), tt)))
      ]

-- The WCLAPs from an index of the list on.
abbrev Placed : List Wclap → ℕ → List Wclap → Type 0
Placed all index [] = Unit {0}
Placed all index (w ∷ ws) = (get_elem? all index ≡ some w) × Placed all (suc index) ws

Placed-all :
    (all ws : List Wclap) (index : ℕ)
    → ((k : ℕ) → get_elem? all (k + index) ≡ get_elem? ws k)
    → Placed all index ws
Placed-all all [] index h = tt
Placed-all all (w ∷ ws) index h =
    let here : 0 + index ≡ index = omega arith in
    (rw here at (h 0), Placed-all all ws (suc index) (λ k. later k))
  where
    later : (k : ℕ) → get_elem? all (k + suc index) ≡ get_elem? ws k
    later k = let e : suc k + index ≡ k + suc index = omega arith in rw e at (h (suc k))

scan_wclap_plugins-Offers :
    (newer : Newer) (all : List Wclap) (index : ℕ) (ws : List Wclap) (ps : List Plugin)
    → Placed all index ws
    → All (Offers all) ps
    → All (Offers all) (scan_wclap_plugins newer index ws ps)
unfolding scan_wclap_plugins
scan_wclap_plugins-Offers newer all index [] ps placed h = h
scan_wclap_plugins-Offers newer all index (w ∷ ws) ps placed h =
    elim (Option-cases w.plugin_factory) [
      | inl e ↦
          rw (e, scan_wclap_plugins)
            (scan_wclap_plugins-Offers newer all (suc index) ws ps placed.1 h)
      | inr (ds, e) ↦
          let h' =
            scan_factory-All (Offers all) newer index ds ps (λ d m. (w, ds, placed.0, e, m)) h in
          elim (Bool-cases (scan_factory newer index ds ps).1) [
            | inl returned ↦ rw (e, scan_wclap_plugins) (rw returned h')
            | inr on ↦
                rw (e, scan_wclap_plugins)
                  (rw on (scan_wclap_plugins-Offers newer all (suc index) ws _ placed.1 h'))
          ]
    ]

not_listed :
    (x : List ℕ) (ps : List Plugin) {p : Plugin}
    → All (λ y. x ≢ y) (ids ps)
    → Memᴰ p ps
    → x ≢ p.desc.id
not_listed x [] h m = elim m [ ]
not_listed x (q ∷ ps) h (Memᴰ.head e) = rw e h.0
not_listed x (q ∷ ps) h (Memᴰ.tail m) = not_listed x ps h.1 m

create_plugin_listed :
    (ps : List Plugin) (p : Plugin)
    → Unique (ids ps)
    → Memᴰ p ps
    → create_plugin ps p.desc.id ≡ some p.wclap_index
unfolding create_plugin
create_plugin_listed [] p u m = elim m [ ]
create_plugin_listed (q ∷ ps) p u (Memᴰ.head e) = rw (e, bytes_eq_refl q.desc.id)
create_plugin_listed (q ∷ ps) p u (Memᴰ.tail m) = elim (Bool-cases (bytes_eq p.desc.id q.desc.id)) [
  | inl same ↦ absurd (not_listed q.desc.id ps u.0 m (sym (bytes_eq_sound _ _ same)))
  | inr other ↦ rw other (create_plugin_listed ps p u.1 m)
]

-- Every plugin in the collected list, from an empty list and for any version order, is offered by
-- the WCLAP at its index, and `create_plugin` with its id asks that WCLAP.
pub collected_routes :
    (newer : Newer) (ws : List Wclap) (p : Plugin)
    → Memᴰ p (scan_wclap_plugins newer 0 ws [])
    → Offers ws p
      × (create_plugin (scan_wclap_plugins newer 0 ws []) p.desc.id ≡ some p.wclap_index)
collected_routes newer ws p m = (
  All-mem (Offers ws) _
      (scan_wclap_plugins-Offers newer ws 0 ws []
        (Placed-all ws ws 0 (λ k. ap (get_elem? ws) (omega arith))) tt)
      m,
  create_plugin_listed _ p (scan_wclap_plugins-Unique newer 0 ws [] tt) m,
)
