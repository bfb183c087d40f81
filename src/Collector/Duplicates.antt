-- ===== src/Collector/Duplicates.antt =====
-- wclap-bridge-plugin.cpp, `scanWclapPlugins`: where the list of plugins ends.
use wclap_bridge.Base.{
  ℕ, suc, ◌≡◌, ◌≢◌, refl, sym, ap, ◌∙◌, Bool, true, false, List, [], ◌∷◌, ◌++◌, append-nil,
  append_assoc, map, Option, none, some, All, bytes_eq, bytes_eq_sound, bytes_eq_refl, Bool-cases,
  Option-cases, inl, inr, if◌then◌else◌,
}
use wclap_bridge.Collector.{
  Descriptor, Plugin, Wclap, Newer, is_newer, replace_duplicate, scan_factory, scan_wclap_plugins,
}

abbrev pub id_of : Plugin → List ℕ
id_of p = p.desc.id

-- All that the factories of the WCLAPs give, in their order, with the index of the WCLAP.
abbrev pub of_factory : ℕ → List (Option Descriptor) → List Plugin
of_factory index [] = []
of_factory index (none ∷ ds) = of_factory index ds
of_factory index (some d ∷ ds) = record { desc = d; wclap_index = index } ∷ of_factory index ds

abbrev pub of_wclap : ℕ → Option (List (Option Descriptor)) → List Plugin
of_wclap index none = []
of_wclap index (some ds) = of_factory index ds

abbrev pub given : ℕ → List Wclap → List Plugin
given index [] = []
given index (w ∷ ws) = of_wclap index w.plugin_factory ++ given (suc index) ws

-- No id of the second list is one of the first, nor one before it in the second.
abbrev pub AllNew : List Plugin → List Plugin → Type 0
AllNew ps [] = Unit {0}
AllNew ps (q ∷ qs) = All (λ e. id_of e ≢ id_of q) ps × AllNew (ps ++ (q ∷ [])) qs

-- The scan of one list of plugins.
flat : Newer → List Plugin → List Plugin → List Plugin × Bool
flat newer [] ps = (ps, false)
flat newer (p ∷ rest) ps =
    let (ps', duplicate) = replace_duplicate newer p ps in
    let later = flat newer rest (ps' ++ (p ∷ [])) in if duplicate then (ps', true) else later

scan_factory-flat :
    (newer : Newer) (index : ℕ) (ds : List (Option Descriptor)) (ps : List Plugin)
    → scan_factory newer index ds ps ≡ flat newer (of_factory index ds) ps
unfolding scan_factory flat
scan_factory-flat newer index [] ps = refl
scan_factory-flat newer index (none ∷ ds) ps = scan_factory-flat newer index ds ps
scan_factory-flat newer index (some d ∷ ds) ps =
    let p : Plugin = record { desc = d; wclap_index = index } in
    ap
      (λ r.
        if (replace_duplicate newer p ps).1 then ((replace_duplicate newer p ps).0, true) else r)
      (scan_factory-flat newer index ds ((replace_duplicate newer p ps).0 ++ (p ∷ [])))

flat_append :
    (newer : Newer) (xs ys ps : List Plugin)
    → flat newer (xs ++ ys) ps ≡ (
        let (ps', returned) = flat newer xs ps in
        if returned then (ps', true) else flat newer ys ps')
unfolding flat
flat_append newer [] ys ps = refl
flat_append newer (x ∷ xs) ys ps = elim (Bool-cases (replace_duplicate newer x ps).1) [
  | inl dup ↦ rw dup refl
  | inr fresh ↦ rw fresh (flat_append newer xs ys ((replace_duplicate newer x ps).0 ++ (x ∷ [])))
]

factory-flat :
    (newer : Newer) (index : ℕ) (ds : List (Option Descriptor)) (ws : List Wclap) (ps : List Plugin)
    → ((qs : List Plugin)
        → scan_wclap_plugins newer (suc index) ws qs ≡ (flat newer (given (suc index) ws) qs).0)
    → (let (ps', returned) = scan_factory newer index ds ps in
        let rest = scan_wclap_plugins newer (suc index) ws ps' in if returned then ps' else rest)
      ≡ (flat newer (of_factory index ds ++ given (suc index) ws) ps).0
factory-flat newer index ds ws ps later =
    let offered = of_factory index ds in
    let behind = given (suc index) ws in
    let one = scan_factory-flat newer index ds ps in
    let both = flat_append newer offered behind ps in
    elim (Bool-cases (flat newer offered ps).1) [
      | inl stop ↦ rw (one, both, stop) refl
      | inr on ↦ rw (one, both, on) (later (flat newer offered ps).0)
    ]

scan-flat :
    (newer : Newer) (index : ℕ) (ws : List Wclap) (ps : List Plugin)
    → scan_wclap_plugins newer index ws ps ≡ (flat newer (given index ws) ps).0
unfolding scan_wclap_plugins flat
scan-flat newer index [] ps = refl
scan-flat newer index (w ∷ ws) ps = elim (Option-cases w.plugin_factory) [
  | inl e ↦ rw (e, scan_wclap_plugins) (scan-flat newer (suc index) ws ps)
  | inr (ds, e) ↦
      rw (e, scan_wclap_plugins)
        (factory-flat newer index ds ws ps (λ qs. scan-flat newer (suc index) ws qs))
]

other_id : (a b : List ℕ) → b ≢ a → bytes_eq a b ≡ false
other_id a b ne = elim (Bool-cases (bytes_eq a b)) [
  | inl same ↦ absurd (ne (sym (bytes_eq_sound a b same)))
  | inr other ↦ other
]

-- A plugin whose id is not listed changes nothing.
replace_new :
    (newer : Newer) (p : Plugin) (ps : List Plugin)
    → All (λ e. id_of e ≢ id_of p) ps
    → replace_duplicate newer p ps ≡ (ps, false)
unfolding replace_duplicate
replace_new newer p [] all = refl
replace_new newer p (e ∷ ps) (ne, all) =
    rw (other_id (id_of p) (id_of e) ne, replace_new newer p ps all) refl

kept_id : (b : Bool) (p e : Plugin) → id_of e ≡ id_of p → id_of (if b then p else e) ≡ id_of e
kept_id true p e same = sym same
kept_id false p e same = refl

-- One whose id is listed is found, and the ids stay.
replace_old :
    (newer : Newer) (p e : Plugin) (l r : List Plugin)
    → id_of e ≡ id_of p
    → let out = replace_duplicate newer p (l ++ (e ∷ r)) in
      (out.1 ≡ true) × (map id_of out.0 ≡ map id_of (l ++ (e ∷ r)))
unfolding replace_duplicate
replace_old newer p e [] r same =
    let found : bytes_eq p.desc.id e.desc.id ≡ true =
      ap (bytes_eq (id_of p)) same ∙ bytes_eq_refl (id_of p) in
    rw found (
      refl,
      ap (λ i. i ∷ map id_of r) (kept_id (is_newer newer e.desc.version p.desc.version) p e same),
    )
replace_old newer p e (x ∷ l) r same = elim (Bool-cases (bytes_eq p.desc.id x.desc.id)) [
  | inl found ↦
      let equal : id_of x ≡ id_of p = sym (bytes_eq_sound (id_of p) (id_of x) found) in
      rw found (
        refl,
        ap (λ i. i ∷ map id_of (l ++ (e ∷ r)))
            (kept_id (is_newer newer x.desc.version p.desc.version) p x equal),
      )
  | inr other ↦
      let (dup, ids) = replace_old newer p e l r same in rw other (dup, ap (λ is. id_of x ∷ is) ids)
]

flat_ends :
    (newer : Newer) (before after ps l r : List Plugin) (p e : Plugin)
    → AllNew ps before
    → ps ++ before ≡ l ++ (e ∷ r)
    → id_of e ≡ id_of p
    → map id_of (flat newer (before ++ (p ∷ after)) ps).0 ≡ map id_of (ps ++ before)
unfolding flat
flat_ends newer [] after ps l r p e new split same =
    let (dup, ids) = replace_old newer p e l r same in
    let at : ps ≡ l ++ (e ∷ r) = sym (append-nil ps) ∙ split in rw (append-nil ps, at, dup) ids
flat_ends newer (q ∷ before) after ps l r p e (all, new) split same =
    let assoc = append_assoc ps (q ∷ []) before in
    rw (replace_new newer q ps all) (
      flat_ends newer before after (ps ++ (q ∷ [])) l r p e new (assoc ∙ split) same
      ∙ ap (map id_of) assoc)

-- Where, of all that the factories of the WCLAPs give in their order, the plugins up to some place have
-- different ids, and the next one has the id of one of these: the ids that are listed are those up to that
-- place, whatever the factory and the other WCLAPs give behind it.
pub duplicate_hides_rest :
    (newer : Newer) (ws : List Wclap) (before after l r : List Plugin) (p e : Plugin)
    → given 0 ws ≡ before ++ (p ∷ after)
    → AllNew [] before
    → before ≡ l ++ (e ∷ r)
    → id_of e ≡ id_of p
    → map id_of (scan_wclap_plugins newer 0 ws []) ≡ map id_of before
duplicate_hides_rest newer ws before after l r p e all new split same =
    ap (map id_of) (scan-flat newer 0 ws [])
    ∙ (ap (λ g. map id_of (flat newer g []).0) all
        ∙ flat_ends newer before after [] l r p e new split same)
