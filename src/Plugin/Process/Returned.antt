-- ===== src/Plugin/Process/Returned.antt =====
-- What the host's output buffers hold after `pluginProcess` of wclap-plugin.h.
use wclap_bridge.Base.{
  ℕ, suc, ◌≡◌, refl, ap, ◌∙◌, Bool, List, [], ◌∷◌, map, Option, none, some, arith, length,
}
use wclap_bridge.Plugin.Events.{Event, Sizes, copy_input_events}
use wclap_bridge.Plugin.Streams.{check_buffers}
use wclap_bridge.Plugin.Process.{
  AudioBuffer, WclapBuffer, buffer, pointer, HostProcess, Memory, Value, prepare, plugin_process,
  copy_back, copy_back_data, copy_back_channels, get_array, as32, as64, as_ptr, as_buffer,
}

-- As many channels.
abbrev pub SameChannels : {X : Type 0} → Option (List (List X)) → Option (List (List X)) → Type 0
SameChannels none none = Unit {0}
SameChannels none (some new) = ⊥
SameChannels (some old) none = ⊥
SameChannels (some old) (some new) = length new ≡ length old

abbrev pub SamePorts : {S D : Type 0} → List (AudioBuffer S D) → List (AudioBuffer S D) → Type 0
SamePorts [] [] = Unit {0}
SamePorts [] (n ∷ ns) = ⊥
SamePorts (b ∷ bs) [] = ⊥
SamePorts (b ∷ bs) (n ∷ ns) =
    (SameChannels b.data32 n.data32 × SameChannels b.data64 n.data64) × SamePorts bs ns

checked_data : {X : Type 0} → (X → Bool) → X → Option (List (List X)) → Option (List (List X))
checked_data below silence none = none
checked_data below silence (some channels) = some (map (check_buffers below silence) channels)

module _ {S D : Type 0} (below32 : S → Bool) (silence32 : S) (below64 : D → Bool)
    (silence64 : D) where
  -- The host's ports with the new samples, each one checked.
  unfoldable pub with_samples :
      List (AudioBuffer S D) → List (AudioBuffer S D) → List (AudioBuffer S D)
  unfolding checked_data
  with_samples [] ns = []
  with_samples (b ∷ bs) [] = []
  with_samples (b ∷ bs) (n ∷ ns) =
      record b {
        data32 = checked_data below32 silence32 n.data32;
        data64 = checked_data below64 silence64 n.data64;
      }
      ∷ with_samples bs ns

module _ {W S D : Type 0} (m : Memory W S D) where
  -- From the place `c` of `pointers` on, there are the pointers of arrays that hold the channels.
  abbrev pub ChannelsHeld : {X : Type 0} → (Value S D → X) → ℕ → W → ℕ → ℕ → List (List X) → Type 0
  ChannelsHeld read frames w pointers c [] = Unit {0}
  ChannelsHeld read frames w pointers c (channel ∷ channels) =
      ((p : ℕ) × (m.get w pointers c ≡ pointer p) × (get_array m read w p 0 frames ≡ channel))
      × ChannelsHeld read frames w pointers (suc c) channels

  abbrev pub DataHeld : {X : Type 0} → (Value S D → X) → ℕ → W → ℕ → Option (List (List X)) → Type 0
  DataHeld read frames w pointers none = Unit {0}
  DataHeld read frames w pointers (some channels) = ChannelsHeld read frames w pointers 0 channels

  -- From the place `i` of `ports` on, there are structs that lead to the samples of the buffers.
  abbrev pub PortsHeld : ℕ → W → ℕ → ℕ → List (AudioBuffer S D) → Type 0
  PortsHeld frames w ports i [] = Unit {0}
  PortsHeld frames w ports i (b ∷ bs) =
      ((wb : WclapBuffer) × (m.get w ports i ≡ buffer wb)
        × DataHeld (as32 m) frames w wb.data32_ptr b.data32
        × DataHeld (as64 m) frames w wb.data64_ptr b.data64)
      × PortsHeld frames w ports (suc i) bs

  channels_returned :
      {X : Type 0} (read : Value S D → X) (below : X → Bool) (silence : X) (frames : ℕ) (w : W)
      (pointers c : ℕ) (old new : List (List X))
      → length new ≡ length old
      → ChannelsHeld read frames w pointers c new
      → copy_back_channels m read below silence frames w pointers c old
        ≡ map (check_buffers below silence) new
  unfolding copy_back_channels as_ptr
  channels_returned read below silence frames w pointers c [] [] same shown = refl
  channels_returned read below silence frames w pointers c [] (n ∷ ns) same shown =
      absurd (omega (arith, same))
  channels_returned read below silence frames w pointers c (o ∷ os) [] same shown =
      absurd (omega (arith, same))
  channels_returned read below silence frames w pointers c (o ∷ os) (n ∷ ns) same
        ((p, at, holds), more) =
      ap
        (λ v.
          check_buffers below silence (get_array m read w (as_ptr m v) 0 frames)
          ∷ copy_back_channels m read below silence frames w pointers (suc c) os)
        at
      ∙ (ap
            (λ ch.
              check_buffers below silence ch
              ∷ copy_back_channels m read below silence frames w pointers (suc c) os)
            holds
          ∙ ap (λ r. check_buffers below silence n ∷ r)
              (channels_returned read below silence frames w pointers (suc c) os ns
                (omega (arith, same)) more))

  data_returned :
      {X : Type 0} (read : Value S D → X) (below : X → Bool) (silence : X) (frames : ℕ) (w : W)
      (pointers : ℕ) (old new : Option (List (List X)))
      → SameChannels old new
      → DataHeld read frames w pointers new
      → copy_back_data m read below silence frames w pointers old ≡ checked_data below silence new
  unfolding copy_back_data checked_data
  data_returned read below silence frames w pointers none none same shown = refl
  data_returned read below silence frames w pointers none (some n) same shown = absurd same
  data_returned read below silence frames w pointers (some o) none same shown = absurd same
  data_returned read below silence frames w pointers (some o) (some n) same shown =
      ap some (channels_returned read below silence frames w pointers 0 o n same shown)

  module _ (below32 : S → Bool) (silence32 : S) (below64 : D → Bool) (silence64 : D) where
    ports_returned :
        (frames : ℕ) (w : W) (ports i : ℕ) (bs ns : List (AudioBuffer S D))
        → SamePorts bs ns
        → PortsHeld frames w ports i ns
        → copy_back m below32 silence32 below64 silence64 frames w ports i bs
          ≡ with_samples below32 silence32 below64 silence64 bs ns
    unfolding copy_back with_samples as_buffer
    ports_returned frames w ports i [] [] same shown = refl
    ports_returned frames w ports i [] (n ∷ ns) same shown = absurd same
    ports_returned frames w ports i (b ∷ bs) [] same shown = absurd same
    ports_returned frames w ports i (b ∷ bs) (n ∷ ns) ((same32, same64), same)
          ((wb, at, d32, d64), more) =
        ap
          (λ v.
            record b {
              data32 =
                  copy_back_data m (as32 m) below32 silence32 frames w (as_buffer m v).data32_ptr
                    b.data32;
              data64 =
                  copy_back_data m (as64 m) below64 silence64 frames w (as_buffer m v).data64_ptr
                    b.data64;
            }
            ∷ copy_back m below32 silence32 below64 silence64 frames w ports (suc i) bs)
          at
        ∙ (ap
              (λ d.
                record b {
                  data32 = d;
                  data64 =
                      copy_back_data m (as64 m) below64 silence64 frames w wb.data64_ptr b.data64;
                }
                ∷ copy_back m below32 silence32 below64 silence64 frames w ports (suc i) bs)
              (data_returned (as32 m) below32 silence32 frames w wb.data32_ptr b.data32 n.data32
                same32 d32)
            ∙ (ap
                  (λ d.
                    record b { data32 = checked_data below32 silence32 n.data32; data64 = d }
                    ∷ copy_back m below32 silence32 below64 silence64 frames w ports (suc i) bs)
                  (data_returned (as64 m) below64 silence64 frames w wb.data64_ptr b.data64 n.data64
                    same64 d64)
                ∙ ap
                    (λ r.
                      record b {
                        data32 = checked_data below32 silence32 n.data32;
                        data64 = checked_data below64 silence64 n.data64;
                      }
                      ∷ r)
                    (ports_returned frames w ports (suc i) bs ns same more)))

    -- Where the WCLAP, called by `pluginProcess` on the memory, the process structure and the events that
    -- were made for it, leaves in its memory, at the output ports of that structure, structs and pointers
    -- that lead to samples, as many channels as the host's buffers have: the host's buffers get exactly
    -- these samples, each one checked, port by port and channel by channel, with the host's own counts,
    -- latencies and masks, and the result is the WCLAP's status.
    pub process_returns :
        (sizes : Sizes) (is64 : Bool) (wclap_process : W → List Event → ℕ → W × ℕ) (w : W)
        (plugin_list_index : ℕ) (h : HostProcess S D) (new : List (AudioBuffer S D))
        → let events = copy_input_events sizes is64 [] h.events_in in
          let (w', p, process_ptr) = prepare m w plugin_list_index h in
          let (w₂, status) = wclap_process w' events process_ptr in
          PortsHeld h.frames w₂ p.audio_outputs_ptr 0 new
          → SamePorts h.audio_outputs new
          → plugin_process m below32 silence32 below64 silence64 sizes is64 wclap_process w
              plugin_list_index h
            ≡ (w₂, with_samples below32 silence32 below64 silence64 h.audio_outputs new, status)
    unfolding plugin_process
    process_returns sizes is64 wclap_process w plugin_list_index h new held same =
        let events = copy_input_events sizes is64 [] h.events_in in
        let (w', p, process_ptr) = prepare m w plugin_list_index h in
        let (w₂, status) = wclap_process w' events process_ptr in
        ap (λ (bs : List (AudioBuffer S D)). (w₂, bs, status))
          (ports_returned h.frames w₂ p.audio_outputs_ptr 0 h.audio_outputs new same held)
