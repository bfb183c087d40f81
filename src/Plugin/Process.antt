-- ===== src/Plugin/Process.antt =====
-- `pluginProcess` of wclap-plugin.h. The WCLAP's memory, with the arena that `scoped` allocates from, is a
-- type `W`; a place in it is an array's pointer and an index. `S` and `D` are the types of 32-bit and
-- 64-bit samples.
pub mod Frame
pub mod Shown
pub mod Translated
pub mod Ports
pub mod Call
pub mod Returned
pub mod Checked
mod Examples
use wclap_bridge.Base.{ℕ, zero, suc, List, [], ◌∷◌, Bool, Option, none, some, length}
use wclap_bridge.Plugin.Events.{Event, Sizes, View, copy_input_events}
use wclap_bridge.Plugin.Streams.{check_buffers}

-- `clap_audio_buffer`, with its channels: each list has `channel_count` of them.
pub record AudioBuffer (S D : Type 0) : Type 0 where
  pub data32 : Option (List (List S))
  pub data64 : Option (List (List D))
  pub channel_count : ℕ
  pub latency : ℕ
  pub constant_mask : ℕ

-- `wclap_audio_buffer`: the pointers are 0 where there is no data.
pub record WclapBuffer : Type 0 where
  pub data32_ptr : ℕ
  pub data64_ptr : ℕ
  pub channels : ℕ
  pub wclap_latency : ℕ
  pub wclap_constant_mask : ℕ

-- `wclap_process`
pub record WclapProcess : Type 0 where
  pub steady_time : ℕ
  pub frames_count : ℕ
  pub transport_ptr : ℕ
  pub audio_inputs_ptr : ℕ
  pub audio_outputs_ptr : ℕ
  pub audio_inputs_count : ℕ
  pub audio_outputs_count : ℕ
  pub in_events : ℕ
  pub out_events : ℕ

-- `clap_process`, with its events and the bytes of its transport event.
pub record HostProcess (S D : Type 0) : Type 0 where
  pub host_steady_time : ℕ
  pub frames : ℕ
  pub host_transport : Option (List ℕ)
  pub audio_inputs : List (AudioBuffer S D)
  pub audio_outputs : List (AudioBuffer S D)
  pub events_in : List View

-- What a place holds: a sample, a pointer, a struct, the bytes of a transport event, or the context of an
-- event list, which `setPlugin` writes.
pub data Value (S D : Type 0) : Type 0 where
  sample32 : S → Value S D
  sample64 : D → Value S D
  pointer : ℕ → Value S D
  buffer : WclapBuffer → Value S D
  process : WclapProcess → Value S D
  transport : List ℕ → Value S D
  event_list : ℕ → Value S D

-- What a place reads as where it holds something else.
pub record Garbage (S D : Type 0) : Type 0 where
  pub bits32 : Value S D → S
  pub bits64 : Value S D → D
  pub bits_ptr : Value S D → ℕ
  pub bits_buffer : Value S D → WclapBuffer

-- The memory: `array` reserves an array in the arena; `put` and `get` are a place's.
pub record Memory (W S D : Type 0) : Type 0 where
  pub array : W → ℕ → W × ℕ
  pub put : W → ℕ → ℕ → Value S D → W
  pub get : W → ℕ → ℕ → Value S D
  pub garbage : Garbage S D

module _ {W S D : Type 0} (m : Memory W S D) where
  unfoldable pub as32 : Value S D → S
  as32 (sample32 x) = x
  as32 v = m.garbage.bits32 v

  unfoldable pub as64 : Value S D → D
  as64 (sample64 x) = x
  as64 v = m.garbage.bits64 v

  unfoldable pub as_ptr : Value S D → ℕ
  as_ptr (pointer p) = p
  as_ptr v = m.garbage.bits_ptr v

  unfoldable pub as_buffer : Value S D → WclapBuffer
  as_buffer (buffer b) = b
  as_buffer v = m.garbage.bits_buffer v

  -- `setArray`, from an index on, and `getArray`
  unfoldable pub set_array : {X : Type 0} → (X → Value S D) → W → ℕ → ℕ → List X → W
  set_array wrap w p i [] = w
  set_array wrap w p i (x ∷ xs) = set_array wrap (m.put w p i (wrap x)) p (suc i) xs

  unfoldable pub get_array : {X : Type 0} → (Value S D → X) → W → ℕ → ℕ → ℕ → List X
  get_array read w p i zero = []
  get_array read w p i (suc n) = read (m.get w p i) ∷ get_array read w p (suc i) n

  -- The loop over the channels in `translateBuffer`, from the channel `c` on, each of `frames` samples.
  unfoldable pub copy_channels : {X : Type 0} → (X → Value S D) → ℕ → W → ℕ → ℕ → List (List X) → W
  unfolding set_array
  copy_channels wrap frames w pointers c [] = w
  copy_channels wrap frames w pointers c (channel ∷ channels) =
      let (w₁, p) = m.array w frames in
      let w₂ = set_array wrap w₁ p 0 channel in
      copy_channels wrap frames (m.put w₂ pointers c (pointer p)) pointers (suc c) channels

  -- The part of `translateBuffer` for one sample type: the array of the channels' pointers, or 0.
  unfoldable pub translate_data :
      {X : Type 0} → (X → Value S D) → ℕ → W → Option (List (List X)) → W × ℕ
  unfolding copy_channels
  translate_data wrap frames w none = (w, 0)
  translate_data wrap frames w (some channels) =
      let (w₁, pointers) = m.array w (length channels) in
      (copy_channels wrap frames w₁ pointers 0 channels, pointers)

  unfoldable pub translate_buffer : ℕ → W → ℕ → ℕ → AudioBuffer S D → W
  unfolding translate_data
  translate_buffer frames w ports i b =
      let (w₁, p32) = translate_data sample32 frames w b.data32 in
      let (w₂, p64) = translate_data sample64 frames w₁ b.data64 in
      m.put w₂ ports i (
        buffer (record {
          data32_ptr = p32;
          data64_ptr = p64;
          channels = b.channel_count;
          wclap_latency = b.latency;
          wclap_constant_mask = b.constant_mask;
        }))

  -- The loop over the ports
  unfoldable pub translate_ports : ℕ → W → ℕ → ℕ → List (AudioBuffer S D) → W
  unfolding translate_buffer
  translate_ports frames w ports i [] = w
  translate_ports frames w ports i (b ∷ bs) =
      translate_ports frames (translate_buffer frames w ports i b) ports (suc i) bs

  -- The copy of an output port's channels back to the host, from the channel `c` on.
  unfoldable pub copy_back_channels :
      {X : Type 0}
      → (Value S D → X)
      → (X → Bool)
      → X
      → ℕ
      → W
      → ℕ
      → ℕ
      → List (List X)
      → List (List X)
  unfolding get_array as_ptr
  copy_back_channels read below silence frames w pointers c [] = []
  copy_back_channels read below silence frames w pointers c (channel ∷ channels) =
      check_buffers below silence (get_array read w (as_ptr (m.get w pointers c)) 0 frames)
      ∷ copy_back_channels read below silence frames w pointers (suc c) channels

  unfoldable pub copy_back_data :
      {X : Type 0}
      → (Value S D → X)
      → (X → Bool)
      → X
      → ℕ
      → W
      → ℕ
      → Option (List (List X))
      → Option (List (List X))
  unfolding copy_back_channels
  copy_back_data read below silence frames w pointers none = none
  copy_back_data read below silence frames w pointers (some channels) =
      some (copy_back_channels read below silence frames w pointers 0 channels)

  -- The limit of `checkBuffers` for both types of samples.
  module _ (below32 : S → Bool) (silence32 : S) (below64 : D → Bool) (silence64 : D) where
    unfoldable pub copy_back : ℕ → W → ℕ → ℕ → List (AudioBuffer S D) → List (AudioBuffer S D)
    unfolding copy_back_data as_buffer as32 as64
    copy_back frames w ports i [] = []
    copy_back frames w ports i (b ∷ bs) =
        let wb = as_buffer (m.get w ports i) in
        record b {
          data32 = copy_back_data as32 below32 silence32 frames w wb.data32_ptr b.data32;
          data64 = copy_back_data as64 below64 silence64 frames w wb.data64_ptr b.data64;
        }
        ∷ copy_back frames w ports (suc i) bs

  -- `copyAcross` of an event list, and `setPlugin` on it.
  unfoldable pub copy_event_list : W → ℕ → W × ℕ
  copy_event_list w plugin_list_index =
      let (w₁, p) = m.array w 1 in (m.put w₁ p 0 (event_list plugin_list_index), p)

  unfoldable pub copy_transport : W → Option (List ℕ) → W × ℕ
  copy_transport w none = (w, 0)
  copy_transport w (some t) = let (w₁, p) = m.array w 1 in (m.put w₁ p 0 (transport t), p)

  -- `pluginProcess` up to the call: the memory, and the process structure with its pointer.
  unfoldable pub prepare : W → ℕ → HostProcess S D → W × WclapProcess × ℕ
  unfolding copy_event_list copy_transport translate_ports
  prepare w plugin_list_index h =
      let (w₁, in_events) = copy_event_list w plugin_list_index in
      let (w₂, out_events) = copy_event_list w₁ plugin_list_index in
      let (w₃, t) = copy_transport w₂ h.host_transport in
      let (w₄, inputs) = m.array w₃ (length h.audio_inputs) in
      let w₅ = translate_ports h.frames w₄ inputs 0 h.audio_inputs in
      let (w₆, outputs) = m.array w₅ (length h.audio_outputs) in
      let w₇ = translate_ports h.frames w₆ outputs 0 h.audio_outputs in
      let p : WclapProcess = record {
        steady_time = h.host_steady_time;
        frames_count = h.frames;
        transport_ptr = t;
        audio_inputs_ptr = inputs;
        audio_outputs_ptr = outputs;
        audio_inputs_count = length h.audio_inputs;
        audio_outputs_count = length h.audio_outputs;
        in_events = in_events;
        out_events = out_events;
      } in
      let (w₈, process_ptr) = m.array w₇ 1 in (m.put w₈ process_ptr 0 (process p), p, process_ptr)

  -- `pluginProcess`, with the WCLAP's `process` on its memory, the events that were copied for it and the
  -- pointer of the process structure: the memory, the host's output buffers, and the status.
  module _ (below32 : S → Bool) (silence32 : S) (below64 : D → Bool) (silence64 : D) where
    unfoldable pub plugin_process :
        Sizes
        → Bool
        → (W → List Event → ℕ → W × ℕ)
        → W
        → ℕ
        → HostProcess S D
        → W × List (AudioBuffer S D) × ℕ
    unfolding prepare copy_back
    plugin_process sizes is64 wclap_process w plugin_list_index h =
        let (w₁, p, process_ptr) = prepare w plugin_list_index h in
        let (w₂, status) =
          wclap_process w₁ (copy_input_events sizes is64 [] h.events_in) process_ptr in
        (
          w₂,
          copy_back below32 silence32 below64 silence64 h.frames w₂ p.audio_outputs_ptr 0
              h.audio_outputs,
          status,
        )
