-- ===== src/Plugin/Process/Examples.antt =====
-- The theorems on processing, each at a concrete input.
use wclap_bridge.Base.{
  ℕ, suc, ◌≡◌, ◌≢◌, ◌⊎◌, inl, inr, refl, Bool, true, false, ◌&&◌, List, [], ◌∷◌, none, some, arith,
  ltb, ◌==◌, if◌then◌else◌,
}
use wclap_bridge.Plugin.Events.{Event, Sizes}
use wclap_bridge.Plugin.Process.{
  AudioBuffer, HostProcess, Memory, Value, pointer, buffer, process, get_array, as32, prepare,
  plugin_process,
}
use wclap_bridge.Plugin.Process.Frame.{IsArena}
use wclap_bridge.Plugin.Process.Ports.{PortsShown}
use wclap_bridge.Plugin.Process.Call.{prepare_shows}
use wclap_bridge.Plugin.Process.Checked.{process_output_safe, PortsSafe}
use wclap_bridge.Plugin.Process.Returned.{process_returns, with_samples}

-- A store: the arrays up to a number are in use, each of its size, and each place holds a value.
record Store : Type 0 where
  next : ℕ
  size : ℕ → ℕ
  holds : ℕ → ℕ → Value ℕ ℕ

abbrev empty : Store
empty = record { next = 1; size = λ p. 0; holds = λ p i. pointer 0 }

abbrev store : Memory Store ℕ ℕ
store = record {
  array = λ w n.
      (record w { next = suc w.next; size = λ q. if q == w.next then n else w.size q }, w.next);
  put = λ w p i v. record w { holds = λ q j. if (q == p) && (j == i) then v else w.holds q j };
  get = λ w p i. w.holds p i;
  garbage = record {
    bits32 = λ v. 0;
    bits64 = λ v. 0;
    bits_ptr = λ v. 0;
    bits_buffer = λ v. record {
      data32_ptr = 0;
      data64_ptr = 0;
      channels = 0;
      wclap_latency = 0;
      wclap_constant_mask = 0;
    };
  };
}

abbrev in_use : Store → ℕ → ℕ → Bool
in_use w q i = ltb q w.next && ltb i (w.size q)

other_place : (p i q j : ℕ) → (p ≢ q) ⊎ (i ≢ j) → ((q == p) && (j == i)) ≡ false
other_place p i q j (inl ne) = ground (arith, ne)
other_place p i q j (inr ne) = ground (arith, ne)

same_place : (p i : ℕ) → ((p == p) && (i == i)) ≡ true
same_place p i = ground arith

store-IsArena : IsArena store in_use
store-IsArena = record {
  array_fresh = λ w n i. ground arith;
  array_used = λ w n i lt. ground (arith, lt);
  array_keeps_used = λ w n q i u. ground (arith, u);
  array_keeps = λ w n q i u. refl;
  put_used = λ w p i q j v at. refl;
  put_same = λ w p i v at. rw (same_place p i) refl;
  put_other = λ w p i q j v at u ne. rw (other_place p i q j ne) refl;
}

abbrev sizes : Sizes
sizes = record {
  core_event_space_id = 0;
  note = 48;
  note_expression = 56;
  param = 64;
  param_gesture = 24;
  transport = 104;
  midi = 24;
  sysex = 40;
  midi2 = 40;
}

abbrev mono_buffer : List ℕ → AudioBuffer ℕ ℕ
mono_buffer channel = record {
  data32 = some (channel ∷ []);
  data64 = none;
  channel_count = 1;
  latency = 0;
  constant_mask = 0;
}

-- Two frames; the second output sample is over the limit.
abbrev host : HostProcess ℕ ℕ
host = record {
  host_steady_time = 48000;
  frames = 2;
  host_transport = some (1 ∷ 2 ∷ []);
  audio_inputs = mono_buffer (3 ∷ 4 ∷ []) ∷ [];
  audio_outputs = mono_buffer (5 ∷ 200 ∷ []) ∷ [];
  events_in = [];
}

abbrev below : ℕ → Bool
below x = ltb x 100

abbrev idle : Store → List Event → ℕ → Store × ℕ
idle w events p = (w, 1)

prepare_shows_example :
    let (w', p, process_ptr) = prepare store empty 3 host in
    (store.get w' process_ptr 0 ≡ process p)
    × (p.steady_time ≡ 48000)
    × (p.frames_count ≡ 2)
    × (p.audio_inputs_count ≡ 1)
    × (p.audio_outputs_count ≡ 1)
    × PortsShown store in_use store-IsArena 2 empty w' p.audio_inputs_ptr 0 host.audio_inputs
    × PortsShown store in_use store-IsArena 2 empty w' p.audio_outputs_ptr 0 host.audio_outputs
prepare_shows_example =
    prepare_shows store in_use store-IsArena empty 3 host (((refl, tt), tt), tt)
      (((refl, tt), tt), tt)

process_output_safe_example :
    PortsSafe store below 0 below 0 2 host.audio_outputs
      (plugin_process store below 0 below 0 sizes false idle empty 3 host).1
process_output_safe_example =
    process_output_safe store below 0 below 0 sizes false idle empty 3 host refl refl

-- A WCLAP that copies its two input samples to its output.
pointer_at : Store → ℕ → ℕ → ℕ
pointer_at w p i = elim (w.holds p i) [ pointer q ↦ q | _ ↦ 0 ]

first_channel : Store → ℕ → ℕ
first_channel w ports = elim (w.holds ports 0) [ buffer b ↦ pointer_at w b.data32_ptr 0 | _ ↦ 0 ]

copy_two : Store → ℕ → ℕ → Store
copy_two w from to = store.put (store.put w to 0 (w.holds from 0)) to 1 (w.holds from 1)

pass_through : Store → List Event → ℕ → Store × ℕ
pass_through w events p = elim (w.holds p 0) [
  | process q ↦
      (copy_two w (first_channel w q.audio_inputs_ptr) (first_channel w q.audio_outputs_ptr), 1)
  | _ ↦ (w, 0)
]

process_returns_example :
    plugin_process store below 0 below 0 sizes false pass_through empty 3 host ≡ (
      (pass_through (prepare store empty 3 host).0 [] (prepare store empty 3 host).2).0,
      with_samples below 0 below 0 host.audio_outputs (mono_buffer (3 ∷ 4 ∷ []) ∷ []),
      1,
    )
unfolding pass_through copy_two first_channel pointer_at prepare get_array as32
process_returns_example =
    process_returns store below 0 below 0 sizes false pass_through empty 3 host
      (mono_buffer (3 ∷ 4 ∷ []) ∷ []) ((_, refl, ((_, refl, refl), tt), tt), tt) ((refl, tt), tt)
