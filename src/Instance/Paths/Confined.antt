-- ===== src/Instance/Paths/Confined.antt =====
-- Which native files `mapPath` of wclap-instance-wasmtime.h can name.
use wclap_bridge.Base.{
  ℕ, ◌≡◌, refl, sym, ap, ◌∙◌, List, ◌∷◌, ◌++◌, Option, none, some, c_str, true, Bool-cases, ◌⊎◌,
  inl, inr, take, drop, length, bytes_eq, bytes_eq_sound, take-append-drop, arith,
}
use wclap_bridge.Instance.Paths.{
  Dirs, is_absolute, join_path, absolute, test_prefix, map_path, or_else, plugin_prefix,
  presets_prefix, cache_prefix, var_prefix,
}

-- The prefix names a directory that the WCLAP was given.
pub data Mount (d : Dirs) (prefix dir : List ℕ) : Type 0 where
  plugin : prefix ≡ plugin_prefix → d.wclap_dir ≡ some dir → Mount d prefix dir
  presets : prefix ≡ presets_prefix → d.preset_dir ≡ some dir → Mount d prefix dir
  cache : prefix ≡ cache_prefix → d.cache_dir ≡ some dir → Mount d prefix dir
  var : prefix ≡ var_prefix → d.var_dir ≡ some dir → Mount d prefix dir

test_prefix-some :
    (v path : List ℕ) (dir? : Option (List ℕ)) (prefix p : List ℕ)
    → test_prefix v path dir? prefix ≡ some p
    → (dir : List ℕ) × (dir? ≡ some dir)
      × (v ≡ prefix ++ drop (length prefix) v)
      × (p ≡ join_path dir (drop (length prefix) path))
unfolding test_prefix
test_prefix-some v path none prefix p h = absurd (ground arith)
test_prefix-some v path (some dir) prefix p h =
    elim (Bool-cases (bytes_eq (take (length prefix) v) prefix)) [
      | inl e ↦ (
        dir,
        refl,
        sym (take-append-drop (length prefix) v)
            ∙ ap (λ t. t ++ drop (length prefix) v) (bytes_eq_sound _ _ e),
        ground arith,
      )
      | inr e ↦ absurd (ground arith)
    ]

or_else-some :
    (a b : Option (List ℕ)) (p : List ℕ) → or_else a b ≡ some p → (a ≡ some p) ⊎ (b ≡ some p)
or_else-some none b p h = inr h
or_else-some (some a) b p h = inl h

absolute_of_is_absolute : (cwd v : List ℕ) → is_absolute v ≡ true → absolute cwd v ≡ v
unfolding absolute
absolute_of_is_absolute cwd v h = rw h

module _ (cwd : List ℕ) (d : Dirs) (v p : List ℕ) where
  abbrev pub Confined : Type 0
  Confined =
      (prefix : List ℕ) × (dir : List ℕ) × (rest : List ℕ) × Mount d prefix dir
      × (v ≡ prefix ++ rest)
      × (p ≡ join_path dir rest)

  confined_of_test :
      (prefix : List ℕ) (dir? : Option (List ℕ))
      → ((rest : List ℕ) → is_absolute (prefix ++ rest) ≡ true)
      → ((dir : List ℕ) → dir? ≡ some dir → Mount d prefix dir)
      → test_prefix v (absolute cwd v) dir? prefix ≡ some p
      → Confined
  confined_of_test prefix dir? rooted mount h =
      let (dir, given, split, out) = test_prefix-some v (absolute cwd v) dir? prefix p h in
      let same : absolute cwd v ≡ v =
        absolute_of_is_absolute cwd v (rw split (rooted (drop (length prefix) v))) in
      (prefix, dir, drop (length prefix) v, mount dir given, split, rw same at out)

  -- Every path that `mapPath` gives comes from one of the four prefixes of the virtual path, and is
  -- the rest of it joined to the directory that was given for that prefix.
  pub map_path_confined : map_path cwd d v ≡ some p → Confined
  unfolding map_path is_absolute c_str
  map_path_confined h = elim (or_else-some _ _ p h) [
    | inl e ↦ confined_of_test plugin_prefix d.wclap_dir (λ r. refl) (λ _ g. Mount.plugin refl g) e
    | inr e ↦ elim (or_else-some _ _ p e) [
      | inl e ↦
          confined_of_test presets_prefix d.preset_dir (λ r. refl) (λ _ g. Mount.presets refl g) e
      | inr e ↦ elim (or_else-some _ _ p e) [
        | inl e ↦
            confined_of_test cache_prefix d.cache_dir (λ r. refl) (λ _ g. Mount.cache refl g) e
        | inr e ↦ confined_of_test var_prefix d.var_dir (λ r. refl) (λ _ g. Mount.var refl g) e
      ]
    ]
  ]

-- A second slash behind the prefix leaves the directory: whatever directory was given for the
-- plugin, `/plugin.wclap//x` is mapped to the native path `/x`.
pub map_path_escapes :
    (cwd dir rest : List ℕ) (d : Dirs)
    → d.wclap_dir ≡ some dir
    → map_path cwd d (plugin_prefix ++ (b'/' ∷ rest)) ≡ some (b'/' ∷ rest)
unfolding map_path c_str is_absolute bytes_eq absolute
map_path_escapes cwd dir rest d h = rw h
