-- ===== src/Plugin/Process/Checked.antt =====
-- What `pluginProcess` of wclap-plugin.h hands back to the host.
use wclap_bridge.Base.{
  ℕ, zero, suc, ◌≡◌, refl, ap, ◌∙◌, Bool, true, List, [], ◌∷◌, Option, none, some, length, All,
}
use wclap_bridge.Plugin.Events.{Event, Sizes}
use wclap_bridge.Plugin.Streams.Bounded.{check_buffers_safe}
use wclap_bridge.Plugin.Process.{
  AudioBuffer, HostProcess, Memory, Value, get_array, copy_back_channels, copy_back_data, copy_back,
  as32, as64, plugin_process,
}

module _ {W S D : Type 0} (m : Memory W S D) where
  length-get_array :
      {X : Type 0} (read : Value S D → X) (w : W) (p i n : ℕ)
      → length (get_array m read w p i n) ≡ n
  unfolding get_array
  length-get_array read w p i zero = refl
  length-get_array read w p i (suc n) = ap suc (length-get_array read w p (suc i) n)

  -- A channel of `frames` samples that all pass the test.
  abbrev pub IsChannel : {X : Type 0} → (X → Bool) → ℕ → List X → Type 0
  IsChannel below frames channel = (length channel ≡ frames) × All (λ x. below x ≡ true) channel

  channels_safe :
      {X : Type 0} (read : Value S D → X) (below : X → Bool) (silence : X) (frames : ℕ) (w : W)
      (pointers c : ℕ) (channels : List (List X))
      → below silence ≡ true
      → let out = copy_back_channels m read below silence frames w pointers c channels in
        (length out ≡ length channels) × All (IsChannel below frames) out
  unfolding copy_back_channels
  channels_safe read below silence frames w pointers c [] quiet = (refl, tt)
  channels_safe read below silence frames w pointers c (channel ∷ channels) quiet =
      let (same, all) = channels_safe read below silence frames w pointers (suc c) channels quiet in
      let (safe, len, again) =
        check_buffers_safe below silence (get_array m read w _ 0 frames) quiet in
      (ap suc same, ((len ∙ length-get_array read w _ 0 frames, safe), all))

  -- Channels as there were before, each of `frames` samples that pass the test.
  abbrev pub IsSafe :
      {X : Type 0} → (X → Bool) → ℕ → Option (List (List X)) → Option (List (List X)) → Type 0
  IsSafe below frames none none = Unit {0}
  IsSafe below frames none (some out) = ⊥
  IsSafe below frames (some channels) none = ⊥
  IsSafe below frames (some channels) (some out) =
      (length out ≡ length channels) × All (IsChannel below frames) out

  data-IsSafe :
      {X : Type 0} (read : Value S D → X) (below : X → Bool) (silence : X) (frames : ℕ) (w : W)
      (pointers : ℕ) (channels : Option (List (List X)))
      → below silence ≡ true
      → IsSafe below frames channels
          (copy_back_data m read below silence frames w pointers channels)
  unfolding copy_back_data
  data-IsSafe read below silence frames w pointers none quiet = tt
  data-IsSafe read below silence frames w pointers (some channels) quiet =
      channels_safe read below silence frames w pointers 0 channels quiet

  module _ (below32 : S → Bool) (silence32 : S) (below64 : D → Bool) (silence64 : D) where
    -- The buffers of the ports afterwards, against those before.
    abbrev pub PortsSafe : ℕ → List (AudioBuffer S D) → List (AudioBuffer S D) → Type 0
    PortsSafe frames [] [] = Unit {0}
    PortsSafe frames [] (o ∷ os) = ⊥
    PortsSafe frames (b ∷ bs) [] = ⊥
    PortsSafe frames (b ∷ bs) (o ∷ os) =
        (IsSafe below32 frames b.data32 o.data32
          × IsSafe below64 frames b.data64 o.data64
          × (o.channel_count ≡ b.channel_count))
        × PortsSafe frames bs os

    ports_safe :
        (frames : ℕ) (w : W) (ports i : ℕ) (bs : List (AudioBuffer S D))
        → below32 silence32 ≡ true
        → below64 silence64 ≡ true
        → PortsSafe frames bs (copy_back m below32 silence32 below64 silence64 frames w ports i bs)
    unfolding copy_back
    ports_safe frames w ports i [] quiet32 quiet64 = tt
    ports_safe frames w ports i (b ∷ bs) quiet32 quiet64 = (
      (
        data-IsSafe (as32 m) below32 silence32 frames w _ b.data32 quiet32,
        data-IsSafe (as64 m) below64 silence64 frames w _ b.data64 quiet64,
        refl,
      ),
      ports_safe frames w ports (suc i) bs quiet32 quiet64,
    )

    -- Whatever the WCLAP's `process` does to its memory, where silence is below the limit: the host's
    -- output ports keep their number, each has 32-bit and 64-bit channels where and as many as it had,
    -- every channel has as many samples as there are frames, and every sample is below the limit.
    pub process_output_safe :
        (sizes : Sizes) (is64 : Bool) (wclap_process : W → List Event → ℕ → W × ℕ) (w : W)
        (plugin_list_index : ℕ) (h : HostProcess S D)
        → below32 silence32 ≡ true
        → below64 silence64 ≡ true
        → PortsSafe h.frames h.audio_outputs
            (plugin_process m below32 silence32 below64 silence64 sizes is64 wclap_process w
              plugin_list_index h).1
    unfolding plugin_process
    process_output_safe sizes is64 wclap_process w plugin_list_index h quiet32 quiet64 =
        ports_safe h.frames _ _ 0 h.audio_outputs quiet32 quiet64
