-- ===== src/Collector/Unique.antt =====
-- wclap-bridge-plugin.cpp: the ids of the collected list of plugins.
use wclap_bridge.Base.{
  ℕ, suc, ◌≡◌, refl, ap, ◌≢◌, false, List, [], ◌∷◌, ◌++◌, Option, none, some, arith, bytes_eq,
  bytes_eq_sound, bytes_eq_refl, All, Bool-cases, Option-cases, inl, inr,
}
use wclap_bridge.Collector.{
  Descriptor, Plugin, Wclap, Newer, replace_duplicate, scan_factory, scan_wclap_plugins,
}

abbrev pub ids : List Plugin → List (List ℕ)
ids [] = []
ids (p ∷ ps) = p.desc.id ∷ ids ps

abbrev pub Unique : List (List ℕ) → Type 0
Unique [] = Unit {0}
Unique (x ∷ xs) = All (λ y. x ≢ y) xs × Unique xs

ids-append : (ps qs : List Plugin) → ids (ps ++ qs) ≡ ids ps ++ ids qs
ids-append [] qs = refl
ids-append (p ∷ ps) qs = ap (λ t. p.desc.id ∷ t) (ids-append ps qs)

All-snoc :
    (P : List ℕ → Type 0) (xs : List (List ℕ)) (x : List ℕ)
    → All P xs
    → P x
    → All P (xs ++ (x ∷ []))
All-snoc P [] x h hx = (hx, tt)
All-snoc P (y ∷ ys) x h hx = (h.0, All-snoc P ys x h.1 hx)

Unique-snoc :
    (xs : List (List ℕ)) (x : List ℕ) → Unique xs → All (λ y. y ≢ x) xs → Unique (xs ++ (x ∷ []))
Unique-snoc [] x u h = (tt, tt)
Unique-snoc (y ∷ ys) x u h = (All-snoc (λ z. y ≢ z) ys x u.0 h.0, Unique-snoc ys x u.1 h.1)

not_equal : (a b : List ℕ) → bytes_eq a b ≡ false → b ≢ a
not_equal a b h e = absurd (ground (arith, bytes_eq_refl a, ap (bytes_eq a) e))

-- What the loop over the list does.
ids-replace_duplicate :
    (newer : Newer) (p : Plugin) (ps : List Plugin) → ids (replace_duplicate newer p ps).0 ≡ ids ps
unfolding replace_duplicate
ids-replace_duplicate newer p [] = refl
ids-replace_duplicate newer p (q ∷ ps) = elim (Bool-cases (bytes_eq p.desc.id q.desc.id)) [
  | inl same ↦ ground (arith, bytes_eq_sound p.desc.id q.desc.id same)
  | inr other ↦ ground (arith, ids-replace_duplicate newer p ps)
]

no_duplicate :
    (newer : Newer) (p : Plugin) (ps : List Plugin)
    → (replace_duplicate newer p ps).1 ≡ false
    → All (λ y. y ≢ p.desc.id) (ids ps)
unfolding replace_duplicate
no_duplicate newer p [] h = tt
no_duplicate newer p (q ∷ ps) h = elim (Bool-cases (bytes_eq p.desc.id q.desc.id)) [
  | inl same ↦ absurd (ground arith)
  | inr other ↦ (not_equal _ _ other, no_duplicate newer p ps (ground arith))
]

scan_factory-Unique :
    (newer : Newer) (index : ℕ) (ds : List (Option Descriptor)) (ps : List Plugin)
    → Unique (ids ps)
    → Unique (ids (scan_factory newer index ds ps).0)
unfolding scan_factory
scan_factory-Unique newer index [] ps u = u
scan_factory-Unique newer index (none ∷ ds) ps u = scan_factory-Unique newer index ds ps u
scan_factory-Unique newer index (some d ∷ ds) ps u =
    let p : Plugin = record { desc = d; wclap_index = index } in
    let ps' = (replace_duplicate newer p ps).0 in
    let same : ids ps' ≡ ids ps = ids-replace_duplicate newer p ps in
    let u' : Unique (ids ps') = rw same u in
    elim (Bool-cases (replace_duplicate newer p ps).1) [
      | inl found ↦ rw found u'
      | inr new ↦ rw new (
          scan_factory-Unique newer index ds (ps' ++ (p ∷ [])) (
            rw (ids-append ps' (p ∷ []))
              (Unique-snoc (ids ps') d.id u' (rw same (no_duplicate newer p ps new)))))
    ]

pub scan_wclap_plugins-Unique :
    (newer : Newer) (index : ℕ) (ws : List Wclap) (ps : List Plugin)
    → Unique (ids ps)
    → Unique (ids (scan_wclap_plugins newer index ws ps))
unfolding scan_wclap_plugins
scan_wclap_plugins-Unique newer index [] ps u = u
scan_wclap_plugins-Unique newer index (w ∷ ws) ps u = elim (Option-cases w.plugin_factory) [
  | inl e ↦ rw (e, scan_wclap_plugins) (scan_wclap_plugins-Unique newer (suc index) ws ps u)
  | inr (ds, e) ↦
      let u' = scan_factory-Unique newer index ds ps u in
      elim (Bool-cases (scan_factory newer index ds ps).1) [
        | inl returned ↦ rw (e, scan_wclap_plugins) (rw returned u')
        | inr on ↦
            rw (e, scan_wclap_plugins) (rw on (scan_wclap_plugins-Unique newer (suc index) ws _ u'))
      ]
]
