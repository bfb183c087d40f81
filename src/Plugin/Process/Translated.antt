-- ===== src/Plugin/Process/Translated.antt =====
-- What the loops of `pluginProcess` of wclap-plugin.h leave in the WCLAP's memory.
use wclap_bridge.Base.{
  ℕ, suc, ◌≡◌, inl, inr, refl, sym, ap, ◌∙◌, Bool, true, false, List, [], ◌∷◌, Option, none, some,
  arith, length, All, Bool-cases,
}
use wclap_bridge.Plugin.Process.{
  Memory, Value, pointer, set_array, get_array, copy_channels, translate_data,
}
use wclap_bridge.Plugin.Process.Frame.{
  IsArena, differ, Frame, Frame-trans, Frame-array, Frame-weaken, Frame-put, Frame-set_array,
  Frame-inner, set_array_used, get_array-set_array, Room, Room-head, Room-tail,
}
use wclap_bridge.Plugin.Process.Shown.{
  ChannelShown, ChannelsShown, DataShown, get_array_keeps, channel_keeps,
}

-- Channels of so many samples, where there are channels.
abbrev pub IsLong : {X : Type 0} → ℕ → Option (List (List X)) → Type 0
IsLong frames none = Unit {0}
IsLong frames (some channels) = All (λ channel. length channel ≡ frames) channels

module _ {W S D : Type 0} (m : Memory W S D) (used : W → ℕ → ℕ → Bool) (laws : IsArena m used) where
  -- What was in use still is.
  abbrev pub Grown : W → W → Type 0
  Grown w₀ w = (q i : ℕ) → used w₀ q i ≡ true → used w q i ≡ true

  free_before :
      (w₀ w₁ : W) (p : ℕ)
      → Grown w₀ w₁
      → ((i : ℕ) → used w₁ p i ≡ false)
      → (i : ℕ) → used w₀ p i ≡ false
  free_before w₀ w₁ p mono free i = elim (Bool-cases (used w₀ p i)) [
    | inl taken ↦ let t = mono p i taken in let f = free i in absurd (cc)
    | inr free₀ ↦ free₀
  ]

  module _ {X : Type 0} (wrap : X → Value S D) (read : Value S D → X)
      (back : (x : X) → read (wrap x) ≡ x) (frames : ℕ) where
    pub rebase :
        (w₀ w₁ w : W) (pointers c : ℕ) (channels : List (List X))
        → Grown w₀ w₁
        → ChannelsShown m used laws read frames w₁ w pointers c channels
        → ChannelsShown m used laws read frames w₀ w pointers c channels
    rebase w₀ w₁ w pointers c [] mono shown = tt
    rebase w₀ w₁ w pointers c (channel ∷ channels) mono ((p, at, (free, taken), holds), more) = (
      (p, at, (free_before w₀ w₁ p mono free, taken), holds),
      rebase w₀ w₁ w pointers (suc c) channels mono more,
    )

    -- The memory after one turn of the loop over the channels.
    after_channel : W → ℕ → ℕ → List X → W
    after_channel w pointers c channel =
        m.put (set_array m wrap (m.array w frames).0 (m.array w frames).1 0 channel) pointers c
          (pointer (m.array w frames).1)

    module _ (w : W) (pointers c : ℕ) (channel : List X) (at : used w pointers c ≡ true)
        (long : length channel ≡ frames) where
      channel-Room : Room used (m.array w frames).0 (m.array w frames).1 0 (length channel)
      channel-Room j le lt = laws.array_used w frames j (omega (arith, lt, long))

      filled_used :
          (q j : ℕ)
          → used w q j ≡ true
          → used (set_array m wrap (m.array w frames).0 (m.array w frames).1 0 channel) q j ≡ true
      filled_used q j u =
          set_array_used m used laws wrap (m.array w frames).0 (m.array w frames).1 0 q j channel
            channel-Room
          ∙ laws.array_keeps_used w frames q j u

      channel_used : Grown w (after_channel w pointers c channel)
      unfolding after_channel
      channel_used q j u =
          laws.put_used (set_array m wrap (m.array w frames).0 (m.array w frames).1 0 channel)
            pointers c q j (pointer (m.array w frames).1) (filled_used pointers c at)
          ∙ filled_used q j u

      channel-Frame : Frame m used laws pointers c w (after_channel w pointers c channel)
      unfolding after_channel
      channel-Frame =
          let (w₁, p) = m.array w frames in
          Frame-put m used laws pointers c w (set_array m wrap w₁ p 0 channel) (pointer p)
            (filled_used pointers c at)
            (Frame-set_array m used laws wrap pointers c w w₁ p 0 channel
              (laws.array_fresh w frames) channel-Room
              (Frame-array m used laws pointers c w frames))

      channel_shown :
          ChannelShown m used laws read frames w
            (after_channel w pointers c channel)
            pointers
            c
            channel
      unfolding after_channel
      channel_shown =
          let w₁ = (m.array w frames).0 in
          let p = (m.array w frames).1 in
          let w₂ = set_array m wrap w₁ p 0 channel in
          let free = laws.array_fresh w frames in
          let at₂ = filled_used pointers c at in
          let room₂ : Room used w₂ p 0 frames = λ j le lt.
            set_array_used m used laws wrap w₁ p 0 p j channel channel-Room
            ∙ laws.array_used w frames j (omega (arith, lt)) in
          (
            p,
            laws.put_same w₂ pointers c (pointer p) at₂,
            (free, λ j le lt. laws.put_used w₂ pointers c p j (pointer p) at₂ ∙ room₂ j le lt),
            get_array_keeps m used laws read frames w₂ (m.put w₂ pointers c (pointer p)) p 0 frames
                  (λ j le lt.
                    laws.put_other w₂ pointers c p j (pointer p) at₂ (room₂ j le lt)
                      (inl (λ s. differ used w p pointers c free at (sym s))))
                ∙ (ap (get_array m read w₂ p 0) (sym long)
                    ∙ get_array-set_array m used laws wrap read back w₁ p 0 channel channel-Room),
          )

    -- The places for the pointers that are still to come.
    next-Room :
        (w : W) (pointers c : ℕ) (channel : List X) (channels : List (List X))
        → Room used w pointers c (suc (length channels))
        → length channel ≡ frames
        → Room used (after_channel w pointers c channel) pointers (suc c) (length channels)
    next-Room w pointers c channel channels room long j le lt =
        channel_used w pointers c channel (Room-head used w pointers c (length channels) room) long
          pointers j (Room-tail used w pointers c (length channels) room j le lt)

    copy_used :
        (w : W) (pointers c : ℕ) (channels : List (List X))
        → Room used w pointers c (length channels)
        → All (λ channel. length channel ≡ frames) channels
        → Grown w (copy_channels m wrap frames w pointers c channels)
    unfolding copy_channels after_channel
    copy_used w pointers c [] room long q j u = u
    copy_used w pointers c (channel ∷ channels) room (long, longs) q j u =
        copy_used (after_channel w pointers c channel) pointers (suc c) channels
          (next-Room w pointers c channel channels room long) longs q j
          (channel_used w pointers c channel (Room-head used w pointers c (length channels) room)
            long q j u)

    copy-Frame :
        (w : W) (pointers c : ℕ) (channels : List (List X))
        → Room used w pointers c (length channels)
        → All (λ channel. length channel ≡ frames) channels
        → Frame m used laws pointers c w (copy_channels m wrap frames w pointers c channels)
    unfolding copy_channels after_channel
    copy-Frame w pointers c [] room long = λ q i u o. (u, refl)
    copy-Frame w pointers c (channel ∷ channels) room (long, longs) =
        let w₁ = after_channel w pointers c channel in
        let w₂ = copy_channels m wrap frames w₁ pointers (suc c) channels in
        Frame-trans m used laws pointers c w w₁ w₂
          (channel-Frame w pointers c channel (Room-head used w pointers c (length channels) room)
            long)
          (Frame-weaken m used laws pointers c w₁ w₂ (
            copy-Frame w₁ pointers (suc c) channels
              (next-Room w pointers c channel channels room long) longs))

    copy_shown :
        (w : W) (pointers c : ℕ) (channels : List (List X))
        → Room used w pointers c (length channels)
        → All (λ channel. length channel ≡ frames) channels
        → ChannelsShown m used laws read frames w
            (copy_channels m wrap frames w pointers c channels)
            pointers
            c
            channels
    unfolding copy_channels after_channel
    copy_shown w pointers c [] room long = tt
    copy_shown w pointers c (channel ∷ channels) room (long, longs) =
        let w₁ = after_channel w pointers c channel in
        let w₂ = copy_channels m wrap frames w₁ pointers (suc c) channels in
        let at = Room-head used w pointers c (length channels) room in
        let room₁ = next-Room w pointers c channel channels room long in
        let grown = channel_used w pointers c channel at long in
        (
          channel_keeps m used laws read frames w w₁ w₂ pointers (suc c) c
              (copy-Frame w₁ pointers (suc c) channels room₁ longs) at pointers c channel
              (grown pointers c at) (inr (omega arith))
              (channel_shown w pointers c channel at long),
          rebase w w₁ w₂ pointers (suc c) channels grown
              (copy_shown w₁ pointers (suc c) channels room₁ longs),
        )

    pub data_used :
        (w : W) (channels : Option (List (List X)))
        → IsLong frames channels
        → Grown w (translate_data m wrap frames w channels).0
    unfolding translate_data
    data_used w none long q j u = u
    data_used w (some channels) long q j u =
        copy_used (m.array w (length channels)).0 (m.array w (length channels)).1 0 channels
          (λ i le lt. laws.array_used w (length channels) i (omega (arith, lt))) long q j
          (laws.array_keeps_used w (length channels) q j u)

    pub data-Frame :
        (d e : ℕ) (w : W) (channels : Option (List (List X)))
        → IsLong frames channels
        → Frame m used laws d e w (translate_data m wrap frames w channels).0
    unfolding translate_data
    data-Frame d e w none long = λ q i u o. (u, refl)
    data-Frame d e w (some channels) long =
        let (w₁, pointers) = m.array w (length channels) in
        Frame-inner m used laws d e pointers w w₁
          (copy_channels m wrap frames w₁ pointers 0 channels)
          (laws.array_fresh w (length channels)) (Frame-array m used laws d e w (length channels))
          (copy-Frame w₁ pointers 0 channels
            (λ i le lt. laws.array_used w (length channels) i (omega (arith, lt))) long)

    pub data_shown :
        (w₀ w : W) (channels : Option (List (List X)))
        → Grown w₀ w
        → IsLong frames channels
        → let (w', pointers) = translate_data m wrap frames w channels in
          DataShown m used laws read frames w₀ w' pointers channels
    unfolding translate_data
    data_shown w₀ w none mono long = refl
    data_shown w₀ w (some channels) mono long =
        let n = length channels in
        let w₁ = (m.array w n).0 in
        let pointers = (m.array w n).1 in
        let room : Room used w₁ pointers 0 n =
          λ i le lt. laws.array_used w n i (omega (arith, lt)) in
        (
          (
            free_before w₀ w pointers mono (laws.array_fresh w n),
            λ i le lt. copy_used w₁ pointers 0 channels room long pointers i (room i le lt),
          ),
          rebase w₀ w₁ (copy_channels m wrap frames w₁ pointers 0 channels) pointers 0 channels
              (λ q i u. laws.array_keeps_used w n q i (mono q i u))
              (copy_shown w₁ pointers 0 channels room long),
        )

  -- What is new since `w₁` is new since an earlier memory.
  pub data_rebase :
      {X : Type 0} (wrap : X → Value S D) (read : Value S D → X)
      (back : (x : X) → read (wrap x) ≡ x) (frames : ℕ) (w₀ w₁ w : W) (pointers : ℕ)
      (channels : Option (List (List X)))
      → Grown w₀ w₁
      → DataShown m used laws read frames w₁ w pointers channels
      → DataShown m used laws read frames w₀ w pointers channels
  data_rebase wrap read back frames w₀ w₁ w pointers none mono shown = shown
  data_rebase wrap read back frames w₀ w₁ w pointers (some channels) mono ((free, room), shown) = (
    (free_before w₀ w₁ pointers mono free, room),
    rebase wrap read back frames w₀ w₁ w pointers 0 channels mono shown,
  )
