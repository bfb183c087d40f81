-- ===== src/Plugin/Factory/Prefixed.antt =====
-- wclap-plugin-factory.h: the configured prefix on a plugin's id.
use wclap_bridge.Base.{
  ℕ, zero, suc, ◌+◌, ◌≤◌, ◌≡◌, ◌≢◌, ◌⊎◌, inl, inr, refl, ap, ◌∙◌, bytes_eq_refl, List, [], ◌∷◌,
  ◌++◌, Option, none, some, length, drop, All, arith,
}
use wclap_bridge.Plugin.Factory.{
  Config, WclapDescriptor, Descriptor, read_string, read_features, unknown_clap_id, translate,
  plugin_factory, find_id, created, create_plugin, ask, found,
}

abbrev pub how_many : List (Option WclapDescriptor) → ℕ
how_many [] = 0
how_many (none ∷ ds) = how_many ds
how_many (some d ∷ ds) = suc (how_many ds)

-- A descriptor's id is the prefix and what the WCLAP gave, or the name for none; its features are at
-- most 1000.
abbrev pub Translated : Config → Descriptor → Type 0
Translated config d =
    (((text : List ℕ) × (d.id ≡ config.plugin_id_prefix ++ text)) ⊎ (d.id ≡ unknown_clap_id))
    × (length d.features ≤ 1000)

length-read_features :
    (n : ℕ) (features : ℕ → Option (List ℕ)) (i : ℕ) → length (read_features n features i) ≤ n
unfolding read_features
length-read_features zero features i = omega arith
length-read_features (suc n) features i = ground (arith, length-read_features n features (i + 1))

prefixed :
    (config : Config) (id : Option (List ℕ))
    → let out = read_string id unknown_clap_id config.plugin_id_prefix [] in
      ((text : List ℕ) × (out ≡ config.plugin_id_prefix ++ text)) ⊎ (out ≡ unknown_clap_id)
unfolding read_string
prefixed config none = inr refl
prefixed config (some text) = inl (text ++ [], refl)

translate-Translated :
    (config : Config) (d : WclapDescriptor) → Translated config (translate config d)
unfolding translate
translate-Translated config d = (prefixed config d.id, length-read_features 1000 d.features 0)

-- The factory lists as many plugins as the WCLAP gave descriptors, each with an id of the prefix and
-- the WCLAP's id, or else the name for none, and with at most 1000 features.
pub plugin_factory_lists :
    (config : Config) (ds : List (Option WclapDescriptor))
    → (length (plugin_factory config ds) ≡ how_many ds)
      × All (Translated config) (plugin_factory config ds)
unfolding plugin_factory
plugin_factory_lists config [] = (refl, tt)
plugin_factory_lists config (none ∷ ds) = plugin_factory_lists config ds
plugin_factory_lists config (some d ∷ ds) =
    let (same, all) = plugin_factory_lists config ds in
    (ap suc same, (translate-Translated config d, all))

-- The descriptor is the first of the list with the id.
abbrev pub FirstWith : List ℕ → List Descriptor → Descriptor → Type 0
FirstWith id ds d =
    (before : List Descriptor) × (after : List Descriptor) × (ds ≡ before ++ (d ∷ after))
    × All (λ e. e.id ≢ id) before
    × (d.id ≡ id)

translate_unknown :
    (config : Config) (d : WclapDescriptor)
    → d.id ≡ none
    → (translate config d).id ≡ unknown_clap_id
unfolding translate read_string
translate_unknown config d no_id = rw no_id refl

create_listed :
    {W : Type 0} (call : W → List ℕ → W × ℕ) (config : Config) (d : Descriptor) (w : W)
    → length config.plugin_id_prefix ≤ length d.id
    → create_plugin call config (d ∷ []) w d.id
      ≡ created d (call w (drop (length config.plugin_id_prefix) d.id))
unfolding create_plugin found ask find_id created
create_listed call config d w short = ground (arith, bytes_eq_refl d.id)

-- A plugin to which the WCLAP gave no id is listed without the prefix, of at most 15 bytes here. A
-- request for its listed id asks the WCLAP for that id without as many bytes as the prefix has.
pub unknown_id_cut :
    {W : Type 0} (call : W → List ℕ → W × ℕ) (config : Config) (d : WclapDescriptor) (w : W)
    → d.id ≡ none
    → length config.plugin_id_prefix ≤ 15
    → let listed = translate config d in
      (listed.id ≡ unknown_clap_id)
      × (create_plugin call config (plugin_factory config (some d ∷ [])) w listed.id
          ≡ created listed (call w (drop (length config.plugin_id_prefix) unknown_clap_id)))
unfolding plugin_factory unknown_clap_id
unknown_id_cut call config d w no_id short =
    let unknown = translate_unknown config d no_id in
    (
      unknown,
      create_listed call config (translate config d) w (rw unknown short)
          ∙ ap
              (λ id.
                created (translate config d) (call w (drop (length config.plugin_id_prefix) id)))
              unknown,
    )
