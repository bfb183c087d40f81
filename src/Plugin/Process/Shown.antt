-- ===== src/Plugin/Process/Shown.antt =====
-- What the WCLAP finds in its memory when `pluginProcess` of wclap-plugin.h calls it.
use wclap_bridge.Base.{
  ℕ, zero, suc, ◌+◌, ◌≤◌, arith, length, ◌<◌, ◌≡◌, ◌≢◌, ◌⊎◌, inl, refl, ap, ◌∙◌, Bool, true, false,
  List, [], ◌∷◌, Option, none, some,
}
use wclap_bridge.Plugin.Process.{Memory, Value, pointer, get_array}
use wclap_bridge.Plugin.Process.Frame.{IsArena, differ, Frame, Room, Room-head, Room-tail}

module _ {W S D : Type 0} (m : Memory W S D) (used : W → ℕ → ℕ → Bool) (laws : IsArena m used) where
  -- An array of which nothing was in use in `w₀`, and `n` places are in use in `w`.
  abbrev pub IsNew : W → W → ℕ → ℕ → Type 0
  IsNew w₀ w p n = ((i : ℕ) → used w₀ p i ≡ false) × Room used w p 0 n

  module _ {X : Type 0} (read : Value S D → X) (frames : ℕ) where
    -- The place `c` of `pointers` holds the pointer of a new array of `frames` places that holds the channel.
    abbrev pub ChannelShown : W → W → ℕ → ℕ → List X → Type 0
    ChannelShown w₀ w pointers c channel =
        (p : ℕ) × (m.get w pointers c ≡ pointer p)
        × IsNew w₀ w p frames
        × (get_array m read w p 0 frames ≡ channel)

    abbrev pub ChannelsShown : W → W → ℕ → ℕ → List (List X) → Type 0
    ChannelsShown w₀ w pointers c [] = Unit {0}
    ChannelsShown w₀ w pointers c (channel ∷ channels) =
        ChannelShown w₀ w pointers c channel × ChannelsShown w₀ w pointers (suc c) channels

    -- The pointer is 0 where there are no channels, and that of a new array of their pointers else.
    abbrev pub DataShown : W → W → ℕ → Option (List (List X)) → Type 0
    DataShown w₀ w pointers none = pointers ≡ 0
    DataShown w₀ w pointers (some channels) =
        IsNew w₀ w pointers (length channels) × ChannelsShown w₀ w pointers 0 channels

    pub get_array_keeps :
        (w w' : W) (p i n : ℕ)
        → ((j : ℕ) → i ≤ j → j < i + n → m.get w' p j ≡ m.get w p j)
        → get_array m read w' p i n ≡ get_array m read w p i n
    unfolding get_array
    get_array_keeps w w' p i zero same = refl
    get_array_keeps w w' p i (suc n) same =
        ap (λ v. read v ∷ get_array m read w' p (suc i) n) (same i (omega arith) (omega arith))
        ∙ ap (λ ys. read (m.get w p i) ∷ ys)
            (get_array_keeps w w' p (suc i) n
              (λ j le lt. same j (omega (arith, le)) (omega (arith, lt))))

    module _ (w₀ w w' : W) (d e x : ℕ) (f : Frame m used laws d e w w')
        (u : used w₀ d x ≡ true) where
      IsNew-keeps : (p n : ℕ) → IsNew w₀ w p n → IsNew w₀ w' p n
      IsNew-keeps p n (free, room) =
          (free, λ j le lt. (f p j (room j le lt) (inl (differ used w₀ p d x free u))).0)

      pub channel_keeps :
          (pointers c : ℕ) (channel : List X)
          → used w pointers c ≡ true
          → (pointers ≢ d) ⊎ (c < e)
          → ChannelShown w₀ w pointers c channel
          → ChannelShown w₀ w' pointers c channel
      channel_keeps pointers c channel taken o (p, at, (free, room), holds) = (
        p,
        (f pointers c taken o).1 ∙ at,
        IsNew-keeps p frames (free, room),
        get_array_keeps w w' p 0 frames
              (λ j le lt. (f p j (room j le lt) (inl (differ used w₀ p d x free u))).1)
            ∙ holds,
      )

      channels_keep :
          (pointers c : ℕ) (channels : List (List X))
          → Room used w pointers c (length channels)
          → pointers ≢ d
          → ChannelsShown w₀ w pointers c channels
          → ChannelsShown w₀ w' pointers c channels
      channels_keep pointers c [] room ne shown = tt
      channels_keep pointers c (channel ∷ channels) room ne (one, more) = (
        channel_keeps pointers c channel (Room-head used w pointers c (length channels) room)
            (inl ne) one,
        channels_keep pointers (suc c) channels (Room-tail used w pointers c (length channels) room)
            ne more,
      )

      pub data_keeps :
          (pointers : ℕ) (channels : Option (List (List X)))
          → DataShown w₀ w pointers channels
          → DataShown w₀ w' pointers channels
      data_keeps pointers none shown = shown
      data_keeps pointers (some channels) ((free, room), shown) = (
        IsNew-keeps pointers (length channels) (free, room),
        channels_keep pointers 0 channels room (differ used w₀ pointers d x free u) shown,
      )
