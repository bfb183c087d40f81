-- ===== src/Plugin/Process/Call.antt =====
-- `pluginProcess` of wclap-plugin.h up to its call: what the WCLAP is called with.
use wclap_bridge.Base.{ℕ, ◌≡◌, ◌∙◌, refl, Bool, List, Option, none, some, arith, length, All}
use wclap_bridge.Plugin.Process.{
  Value, WclapProcess, HostProcess, Memory, process, copy_event_list, copy_transport,
  translate_ports, prepare,
}
use wclap_bridge.Plugin.Process.Frame.{
  IsArena, Frame, Frame-trans, Frame-array, Frame-inner, Frame-fresh, Room,
}
use wclap_bridge.Plugin.Process.Translated.{Grown}
use wclap_bridge.Plugin.Process.Ports.{
  PortsShown, IsFull, ports_keep, ports_rebase, ports_used, ports-Frame, ports_shown,
}

module _ {W S D : Type 0} (m : Memory W S D) (used : W → ℕ → ℕ → Bool) (laws : IsArena m used) where
  -- An array of one place, and a write to it.
  copied_used :
      (w : W) (v : Value S D) → Grown m used laws w (m.put (m.array w 1).0 (m.array w 1).1 0 v)
  copied_used w v q i u =
      laws.put_used (m.array w 1).0 (m.array w 1).1 0 q i v (laws.array_used w 1 0 (omega arith))
      ∙ laws.array_keeps_used w 1 q i u

  event_list_used : (w : W) (n : ℕ) → Grown m used laws w (copy_event_list m w n).0
  unfolding copy_event_list
  event_list_used w n = copied_used w _

  transport_used : (w : W) (t : Option (List ℕ)) → Grown m used laws w (copy_transport m w t).0
  unfolding copy_transport
  transport_used w none q i u = u
  transport_used w (some t) q i u = copied_used w _ q i u

  -- From the memory `w₃` on: the arrays of the ports and the process structure.
  after_ports :
      (w₀ w₃ : W) (h : HostProcess S D) (p : W → ℕ → ℕ → WclapProcess)
      → Grown m used laws w₀ w₃
      → All (IsFull h.frames) h.audio_inputs
      → All (IsFull h.frames) h.audio_outputs
      → let (w₄, inputs) = m.array w₃ (length h.audio_inputs) in
        let w₅ = translate_ports m h.frames w₄ inputs 0 h.audio_inputs in
        let (w₆, outputs) = m.array w₅ (length h.audio_outputs) in
        let w₇ = translate_ports m h.frames w₆ outputs 0 h.audio_outputs in
        let (w₈, at) = m.array w₇ 1 in
        let w₉ = m.put w₈ at 0 (process (p w₇ inputs outputs)) in
        PortsShown m used laws h.frames w₀ w₉ inputs 0 h.audio_inputs
        × PortsShown m used laws h.frames w₀ w₉ outputs 0 h.audio_outputs
        × (m.get w₉ at 0 ≡ process (p w₇ inputs outputs))
  after_ports w₀ w₃ h p grown full_in full_out =
      let n = length h.audio_inputs in
      let k = length h.audio_outputs in
      let w₄ = (m.array w₃ n).0 in
      let inputs = (m.array w₃ n).1 in
      let w₅ = translate_ports m h.frames w₄ inputs 0 h.audio_inputs in
      let w₆ = (m.array w₅ k).0 in
      let outputs = (m.array w₅ k).1 in
      let w₇ = translate_ports m h.frames w₆ outputs 0 h.audio_outputs in
      let w₈ = (m.array w₇ 1).0 in
      let at = (m.array w₇ 1).1 in
      let v = process (p w₇ inputs outputs) in
      let w₉ = m.put w₈ at 0 v in
      let at_used = laws.array_used w₇ 1 0 (omega arith) in
      let in_room : Room used w₄ inputs 0 n =
        λ j le lt. laws.array_used w₃ n j (omega (arith, lt)) in
      let grown5 : Grown m used laws w₄ w₅ =
        ports_used m used laws h.frames w₄ inputs 0 h.audio_inputs in_room full_in in
      let out_room : Room used w₆ outputs 0 k =
        λ j le lt. laws.array_used w₅ k j (omega (arith, lt)) in
      let grown7 : Grown m used laws w₆ w₇ =
        ports_used m used laws h.frames w₆ outputs 0 h.audio_outputs out_room full_out in
      let grown4 : Grown m used laws w₀ w₄ =
        λ q i u. laws.array_keeps_used w₃ n q i (grown q i u) in
      let grown6 : Grown m used laws w₀ w₆ =
        λ q i u. laws.array_keeps_used w₅ k q i (grown5 q i (grown4 q i u)) in
      let last : (d e : ℕ) → Frame m used laws d e w₇ w₉ = λ d e.
        Frame-fresh m used laws d e w₇ w₈ at 0 v (laws.array_fresh w₇ 1) at_used
          (Frame-array m used laws d e w₇ 1) in
      let middle : Frame m used laws inputs n w₅ w₇ =
        Frame-inner m used laws inputs n outputs w₅ w₆ w₇ (laws.array_fresh w₅ k)
          (Frame-array m used laws inputs n w₅ k)
          (ports-Frame m used laws h.frames w₆ outputs 0 h.audio_outputs out_room full_out) in
      let ins =
        ports_keep m used laws h.frames w₄ w₅ w₉ inputs 0 n h.audio_inputs
          (Frame-trans m used laws inputs n w₅ w₇ w₉ middle (last inputs n)) in_room
          (λ j le lt. grown5 inputs j (in_room j le lt)) (omega arith)
          (ports_shown m used laws h.frames w₄ w₄ inputs 0 h.audio_inputs (λ q i u. u) in_room
            full_in) in
      let outs =
        ports_keep m used laws h.frames w₆ w₇ w₉ outputs 0 k h.audio_outputs (last outputs k)
          out_room (λ j le lt. grown7 outputs j (out_room j le lt)) (omega arith)
          (ports_shown m used laws h.frames w₆ w₆ outputs 0 h.audio_outputs (λ q i u. u) out_room
            full_out) in
      (
        ports_rebase m used laws h.frames w₀ w₄ w₉ inputs 0 h.audio_inputs grown4 ins,
        ports_rebase m used laws h.frames w₀ w₆ w₉ outputs 0 h.audio_outputs grown6 outs,
        laws.put_same w₈ at 0 v at_used,
      )

  -- Where the arena gives out new places only, as many as it is asked for, and places that it gave out keep
  -- what is written to them, and every channel of the host's has the samples of the frames: when the WCLAP
  -- is called, the pointer that it gets leads to the process structure with the host's time and counts,
  -- whose inputs and outputs lead, port by port and channel by channel, to the host's samples, each
  -- channel in an array of as many places as there are frames, none of which was in use before.
  pub prepare_shows :
      (w : W) (plugin_list_index : ℕ) (h : HostProcess S D)
      → All (IsFull h.frames) h.audio_inputs
      → All (IsFull h.frames) h.audio_outputs
      → let (w', p, process_ptr) = prepare m w plugin_list_index h in
        (m.get w' process_ptr 0 ≡ process p)
        × (p.steady_time ≡ h.host_steady_time)
        × (p.frames_count ≡ h.frames)
        × (p.audio_inputs_count ≡ length h.audio_inputs)
        × (p.audio_outputs_count ≡ length h.audio_outputs)
        × PortsShown m used laws h.frames w w' p.audio_inputs_ptr 0 h.audio_inputs
        × PortsShown m used laws h.frames w w' p.audio_outputs_ptr 0 h.audio_outputs
  unfolding prepare
  prepare_shows w plugin_list_index h full_in full_out =
      let (w₁, in_events) = copy_event_list m w plugin_list_index in
      let (w₂, out_events) = copy_event_list m w₁ plugin_list_index in
      let (w₃, t) = copy_transport m w₂ h.host_transport in
      let grown : Grown m used laws w w₃ = λ q i u.
        transport_used w₂ h.host_transport q i
          (event_list_used w₁ plugin_list_index q i (event_list_used w plugin_list_index q i u)) in
      let (ins, outs, at) =
        after_ports w w₃ h
          (λ w₇ inputs outputs. record {
            steady_time = h.host_steady_time;
            frames_count = h.frames;
            transport_ptr = t;
            audio_inputs_ptr = inputs;
            audio_outputs_ptr = outputs;
            audio_inputs_count = length h.audio_inputs;
            audio_outputs_count = length h.audio_outputs;
            in_events = in_events;
            out_events = out_events;
          })
          grown full_in full_out in
      (at, refl, refl, refl, refl, ins, outs)
