-- ===== src/Module/PortTypes/Known.antt =====
-- The port types that cross between host and WCLAP.
use wclap_bridge.Base.{
  ℕ, ◌≡◌, ◌⊎◌, inl, inr, sym, ap, ◌∙◌, List, true, false, Bool, Bool-cases, bytes_eq,
  bytes_eq_sound, bytes_eq_refl,
}
use wclap_bridge.Module.PortTypes.{
  PortIds, PortPtrs, translate_port_type, translate_wclap_port_type,
}

clash : {b : Bool} → b ≡ true → b ≡ false → ⊥
clash p q = cc

module _ (ids : PortIds) (ptrs : PortPtrs) (get_string : ℕ → List ℕ) where
  -- A port type that the bridge knows.
  abbrev pub IsKnown : List ℕ → Type 0
  IsKnown t = (t ≡ ids.mono) ⊎ ((t ≡ ids.stereo) ⊎ ((t ≡ ids.surround) ⊎ (t ≡ ids.ambisonic)))

  -- The module's pointers lead to the strings.
  abbrev pub Holds : Type 0
  Holds =
      (get_string ptrs.mono_ptr ≡ ids.mono)
      × (get_string ptrs.stereo_ptr ≡ ids.stereo)
      × (get_string ptrs.surround_ptr ≡ ids.surround)
      × (get_string ptrs.ambisonic_ptr ≡ ids.ambisonic)

  eq_of_known : (t : List ℕ) (x : List ℕ) → t ≡ x → bytes_eq t x ≡ true
  eq_of_known t x e = ap (λ y. bytes_eq t y) (sym e) ∙ bytes_eq_refl t

  unknown :
      (t : List ℕ)
      → IsKnown t
      → bytes_eq t ids.mono ≡ false
      → bytes_eq t ids.stereo ≡ false
      → bytes_eq t ids.surround ≡ false
      → bytes_eq t ids.ambisonic ≡ false
      → ⊥
  unknown t (inl e) a b c d = clash (eq_of_known t ids.mono e) a
  unknown t (inr (inl e)) a b c d = clash (eq_of_known t ids.stereo e) b
  unknown t (inr (inr (inl e))) a b c d = clash (eq_of_known t ids.surround e) c
  unknown t (inr (inr (inr e))) a b c d = clash (eq_of_known t ids.ambisonic e) d

  read_known : (t : List ℕ) → Holds → IsKnown t → get_string (translate_port_type ids ptrs t) ≡ t
  unfolding translate_port_type
  read_known t (m, s, su, a) known = elim (Bool-cases (bytes_eq t ids.mono)) [
    | inl mono ↦ rw mono (m ∙ sym (bytes_eq_sound t ids.mono mono))
    | inr not_mono ↦ elim (Bool-cases (bytes_eq t ids.stereo)) [
      | inl stereo ↦ rw (not_mono, stereo) (s ∙ sym (bytes_eq_sound t ids.stereo stereo))
      | inr not_stereo ↦ elim (Bool-cases (bytes_eq t ids.surround)) [
        | inl surround ↦
            rw (not_mono, not_stereo, surround) (su ∙ sym (bytes_eq_sound t ids.surround surround))
        | inr not_surround ↦ elim (Bool-cases (bytes_eq t ids.ambisonic)) [
          | inl amb ↦
              rw (not_mono, not_stereo, not_surround, amb)
                (a ∙ sym (bytes_eq_sound t ids.ambisonic amb))
          | inr not_amb ↦ absurd (unknown t known not_mono not_stereo not_surround not_amb)
        ]
      ]
    ]
  ]

  wclap_known : (t : List ℕ) → IsKnown t → translate_wclap_port_type ids t ≡ t
  unfolding translate_wclap_port_type
  wclap_known t known = elim (Bool-cases (bytes_eq t ids.mono)) [
    | inl mono ↦ rw mono (sym (bytes_eq_sound t ids.mono mono))
    | inr not_mono ↦ elim (Bool-cases (bytes_eq t ids.stereo)) [
      | inl stereo ↦ rw (not_mono, stereo) (sym (bytes_eq_sound t ids.stereo stereo))
      | inr not_stereo ↦ elim (Bool-cases (bytes_eq t ids.surround)) [
        | inl surround ↦
            rw (not_mono, not_stereo, surround) (sym (bytes_eq_sound t ids.surround surround))
        | inr not_surround ↦ elim (Bool-cases (bytes_eq t ids.ambisonic)) [
          | inl amb ↦
              rw (not_mono, not_stereo, not_surround, amb)
                (sym (bytes_eq_sound t ids.ambisonic amb))
          | inr not_amb ↦ absurd (unknown t known not_mono not_stereo not_surround not_amb)
        ]
      ]
    ]
  ]

  -- Where the pointers that the module gives out lead to the strings of the four known port types: a known
  -- port type of the host's that the WCLAP hands back as it got it is the same for the host again.
  pub port_type_returns :
      (t : List ℕ)
      → Holds
      → IsKnown t
      → translate_wclap_port_type ids (get_string (translate_port_type ids ptrs t)) ≡ t
  port_type_returns t holds known =
      ap (translate_wclap_port_type ids) (read_known t holds known) ∙ wclap_known t known
