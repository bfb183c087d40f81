-- ===== src/Plugin/Process/Ports.antt =====
-- The audio ports that `pluginProcess` of wclap-plugin.h puts into the WCLAP's memory.
use wclap_bridge.Base.{
  ℕ, suc, ◌+◌, ◌≤◌, ◌<◌, ◌≡◌, ◌≢◌, ◌⊎◌, inr, refl, ◌∙◌, Bool, true, List, [], ◌∷◌, arith, length,
  All,
}
use wclap_bridge.Plugin.Process.{
  AudioBuffer, WclapBuffer, Memory, sample32, sample64, buffer, translate_data, translate_buffer,
  translate_ports, as32, as64,
}
use wclap_bridge.Plugin.Process.Frame.{
  IsArena, Frame, Frame-trans, Frame-weaken, Frame-put, Room, Room-head, Room-tail,
}
use wclap_bridge.Plugin.Process.Shown.{DataShown, data_keeps}
use wclap_bridge.Plugin.Process.Translated.{
  data_used, data-Frame, data_shown, data_rebase, Grown, IsLong,
}

-- Every channel has the samples of the frames.
abbrev pub IsFull : {S D : Type 0} → ℕ → AudioBuffer S D → Type 0
IsFull frames b = IsLong frames b.data32 × IsLong frames b.data64

module _ {W S D : Type 0} (m : Memory W S D) (used : W → ℕ → ℕ → Bool) (laws : IsArena m used)
    (frames : ℕ) where
  back32 : (x : S) → as32 m (sample32 x) ≡ x
  unfolding as32
  back32 x = refl

  back64 : (x : D) → as64 m (sample64 x) ≡ x
  unfolding as64
  back64 x = refl

  -- The place `i` of `ports` holds the struct of the buffer, and its pointers lead to the samples.
  abbrev pub BufferShown : W → W → ℕ → ℕ → AudioBuffer S D → Type 0
  BufferShown w₀ w ports i b =
      (wb : WclapBuffer) × (m.get w ports i ≡ buffer wb)
      × DataShown m used laws (as32 m) frames w₀ w wb.data32_ptr b.data32
      × DataShown m used laws (as64 m) frames w₀ w wb.data64_ptr b.data64
      × (wb.channels ≡ b.channel_count)
      × (wb.wclap_latency ≡ b.latency)
      × (wb.wclap_constant_mask ≡ b.constant_mask)

  abbrev pub PortsShown : W → W → ℕ → ℕ → List (AudioBuffer S D) → Type 0
  PortsShown w₀ w ports i [] = Unit {0}
  PortsShown w₀ w ports i (b ∷ bs) = BufferShown w₀ w ports i b × PortsShown w₀ w ports (suc i) bs

  module _ (w₀ w w' : W) (d e x : ℕ) (f : Frame m used laws d e w w') (u : used w₀ d x ≡ true) where
    buffer_keeps :
        (ports i : ℕ) (b : AudioBuffer S D)
        → used w ports i ≡ true
        → (ports ≢ d) ⊎ (i < e)
        → BufferShown w₀ w ports i b
        → BufferShown w₀ w' ports i b
    buffer_keeps ports i b taken o (wb, at, d32, d64, n, l, k) = (
      wb,
      (f ports i taken o).1 ∙ at,
      data_keeps m used laws (as32 m) frames w₀ w w' d e x f u wb.data32_ptr b.data32 d32,
      data_keeps m used laws (as64 m) frames w₀ w w' d e x f u wb.data64_ptr b.data64 d64,
      n,
      l,
      k,
    )

  -- What happens behind the last port leaves the ports as they are.
  pub ports_keep :
      (w₀ w w' : W) (ports i e : ℕ) (bs : List (AudioBuffer S D))
      → Frame m used laws ports e w w'
      → Room used w₀ ports i (length bs)
      → Room used w ports i (length bs)
      → i + length bs ≤ e
      → PortsShown w₀ w ports i bs
      → PortsShown w₀ w' ports i bs
  ports_keep w₀ w w' ports i e [] f u taken le shown = tt
  ports_keep w₀ w w' ports i e (b ∷ bs) f u taken le (one, more) = (
    buffer_keeps w₀ w w' ports e i f (Room-head used w₀ ports i (length bs) u) ports i b
        (Room-head used w ports i (length bs) taken) (inr (omega (arith, le))) one,
    ports_keep w₀ w w' ports (suc i) e bs f (Room-tail used w₀ ports i (length bs) u)
        (Room-tail used w ports i (length bs) taken) (omega (arith, le)) more,
  )

  pub ports_rebase :
      (w₀ w₁ w : W) (ports i : ℕ) (bs : List (AudioBuffer S D))
      → Grown m used laws w₀ w₁
      → PortsShown w₁ w ports i bs
      → PortsShown w₀ w ports i bs
  ports_rebase w₀ w₁ w ports i [] mono shown = tt
  ports_rebase w₀ w₁ w ports i (b ∷ bs) mono ((wb, at, d32, d64, n, l, k), more) = (
    (
      wb,
      at,
      data_rebase m used laws sample32 (as32 m) back32 frames w₀ w₁ w wb.data32_ptr b.data32 mono
          d32,
      data_rebase m used laws sample64 (as64 m) back64 frames w₀ w₁ w wb.data64_ptr b.data64 mono
          d64,
      n,
      l,
      k,
    ),
    ports_rebase w₀ w₁ w ports (suc i) bs mono more,
  )

  module _ (w : W) (ports i : ℕ) (b : AudioBuffer S D) (at : used w ports i ≡ true)
      (full : IsFull frames b) where
    datas_used :
        let w₁ = (translate_data m sample32 frames w b.data32).0 in
        Grown m used laws w (translate_data m sample64 frames w₁ b.data64).0
    datas_used q j u =
        data_used m used laws sample64 (as64 m) back64 frames
          (translate_data m sample32 frames w b.data32).0 b.data64 full.1 q j
          (data_used m used laws sample32 (as32 m) back32 frames w b.data32 full.0 q j u)

    buffer_used : Grown m used laws w (translate_buffer m frames w ports i b)
    unfolding translate_buffer
    buffer_used q j u =
        let w₁ = (translate_data m sample32 frames w b.data32).0 in
        laws.put_used (translate_data m sample64 frames w₁ b.data64).0 ports i q j _
          (datas_used ports i at)
        ∙ datas_used q j u

    buffer-Frame : Frame m used laws ports i w (translate_buffer m frames w ports i b)
    unfolding translate_buffer
    buffer-Frame =
        let w₁ = (translate_data m sample32 frames w b.data32).0 in
        let w₂ = (translate_data m sample64 frames w₁ b.data64).0 in
        Frame-put m used laws ports i w w₂ _ (datas_used ports i at) (
          Frame-trans m used laws ports i w w₁ w₂
            (data-Frame m used laws sample32 (as32 m) back32 frames ports i w b.data32 full.0)
            (data-Frame m used laws sample64 (as64 m) back64 frames ports i w₁ b.data64 full.1))

    buffer_shown :
        (w₀ : W)
        → Grown m used laws w₀ w
        → used w₀ ports i ≡ true
        → BufferShown w₀ (translate_buffer m frames w ports i b) ports i b
    unfolding translate_buffer
    buffer_shown w₀ mono u =
        let (w₁, p32) = translate_data m sample32 frames w b.data32 in
        let (w₂, p64) = translate_data m sample64 frames w₁ b.data64 in
        let wb : WclapBuffer = record {
          data32_ptr = p32;
          data64_ptr = p64;
          channels = b.channel_count;
          wclap_latency = b.latency;
          wclap_constant_mask = b.constant_mask;
        } in
        let w₃ = m.put w₂ ports i (buffer wb) in
        let used1 : Grown m used laws w₀ w₁ = λ q j v.
          data_used m used laws sample32 (as32 m) back32 frames w b.data32 full.0 q j
            (mono q j v) in
        let at₂ = datas_used ports i at in
        let put_frame : Frame m used laws ports i w₂ w₃ =
          Frame-put m used laws ports i w₂ w₂ (buffer wb) at₂ (λ q j v o. (v, refl)) in
        let put_frame1 : Frame m used laws ports i w₁ w₃ =
          Frame-put m used laws ports i w₁ w₂ (buffer wb) at₂
            (data-Frame m used laws sample64 (as64 m) back64 frames ports i w₁ b.data64 full.1) in
        (
          wb,
          laws.put_same w₂ ports i (buffer wb) at₂,
          data_keeps m used laws (as32 m) frames w₀ w₁ w₃ ports i i put_frame1 u p32 b.data32
              (data_shown m used laws sample32 (as32 m) back32 frames w₀ w b.data32 mono full.0),
          data_keeps m used laws (as64 m) frames w₀ w₂ w₃ ports i i put_frame u p64 b.data64
              (data_shown m used laws sample64 (as64 m) back64 frames w₀ w₁ b.data64 used1 full.1),
          refl,
          refl,
          refl,
        )

  next_ports :
      (w : W) (ports i : ℕ) (b : AudioBuffer S D) (bs : List (AudioBuffer S D))
      → Room used w ports i (suc (length bs))
      → IsFull frames b
      → Room used (translate_buffer m frames w ports i b) ports (suc i) (length bs)
  next_ports w ports i b bs room full j le lt =
      buffer_used w ports i b (Room-head used w ports i (length bs) room) full ports j
        (Room-tail used w ports i (length bs) room j le lt)

  pub ports_used :
      (w : W) (ports i : ℕ) (bs : List (AudioBuffer S D))
      → Room used w ports i (length bs)
      → All (IsFull frames) bs
      → Grown m used laws w (translate_ports m frames w ports i bs)
  unfolding translate_ports
  ports_used w ports i [] room full q j u = u
  ports_used w ports i (b ∷ bs) room (full, fulls) q j u =
      ports_used (translate_buffer m frames w ports i b) ports (suc i) bs
        (next_ports w ports i b bs room full) fulls q j
        (buffer_used w ports i b (Room-head used w ports i (length bs) room) full q j u)

  pub ports-Frame :
      (w : W) (ports i : ℕ) (bs : List (AudioBuffer S D))
      → Room used w ports i (length bs)
      → All (IsFull frames) bs
      → Frame m used laws ports i w (translate_ports m frames w ports i bs)
  unfolding translate_ports
  ports-Frame w ports i [] room full = λ q j u o. (u, refl)
  ports-Frame w ports i (b ∷ bs) room (full, fulls) =
      let w₁ = translate_buffer m frames w ports i b in
      let w₂ = translate_ports m frames w₁ ports (suc i) bs in
      Frame-trans m used laws ports i w w₁ w₂
        (buffer-Frame w ports i b (Room-head used w ports i (length bs) room) full)
        (Frame-weaken m used laws ports i w₁ w₂
          (ports-Frame w₁ ports (suc i) bs (next_ports w ports i b bs room full) fulls))

  pub ports_shown :
      (w₀ w : W) (ports i : ℕ) (bs : List (AudioBuffer S D))
      → Grown m used laws w₀ w
      → Room used w₀ ports i (length bs)
      → All (IsFull frames) bs
      → PortsShown w₀ (translate_ports m frames w ports i bs) ports i bs
  unfolding translate_ports
  ports_shown w₀ w ports i [] mono room full = tt
  ports_shown w₀ w ports i (b ∷ bs) mono room (full, fulls) =
      let w₁ = translate_buffer m frames w ports i b in
      let w₂ = translate_ports m frames w₁ ports (suc i) bs in
      let u = Room-head used w₀ ports i (length bs) room in
      let at = mono ports i u in
      let room_w : Room used w ports i (suc (length bs)) = λ j le lt. mono ports j (room j le lt) in
      let grown = buffer_used w ports i b at full in
      let mono₁ : Grown m used laws w₀ w₁ = λ q j v. grown q j (mono q j v) in
      (
        buffer_keeps w₀ w₁ w₂ ports (suc i) i
            (ports-Frame w₁ ports (suc i) bs (next_ports w ports i b bs room_w full) fulls) u ports
            i b (grown ports i at) (inr (omega arith)) (buffer_shown w ports i b at full w₀ mono u),
        ports_shown w₀ w₁ ports (suc i) bs mono₁ (Room-tail used w₀ ports i (length bs) room) fulls,
      )
