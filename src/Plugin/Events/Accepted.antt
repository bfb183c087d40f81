-- ===== src/Plugin/Events/Accepted.antt =====
-- Which events wclap-plugin.h hands over in each direction.
use wclap_bridge.Base.{
  ℕ, zero, suc, sym, ap, ◌∙◌, refl, append-nil, append_assoc, Bool-cases, inl, inr, Option, none,
  true, get_elem?, ◌++◌, ◌≡◌, List, [], ◌∷◌, Bool, some, arith, leb, ◌==◌, if◌then◌else◌,
}
use wclap_bridge.Plugin.Events.{
  Header, View, Event, plain, param_value, midi_sysex, Sizes, try_copy_input_event,
  copy_input_events, output_event, copied_param, plain_output, param_output, sysex_output,
}

-- How an event of CLAP's own goes to the WCLAP, by its type, 0 to 12: as its bytes, as a parameter
-- value or modulation, or as a sysex event.
pub data Shape : Type 0 where
  as_bytes : Shape
  parameter : Shape
  with_buffer : Shape

abbrev pub shapes : List Shape
shapes =
    as_bytes ∷ as_bytes ∷ as_bytes ∷ as_bytes ∷ as_bytes ∷ parameter ∷ parameter ∷ as_bytes
    ∷ as_bytes ∷ as_bytes ∷ as_bytes ∷ with_buffer ∷ as_bytes ∷ []

abbrev pub shaped : Bool → View → Option Shape → List Event
shaped is64 e none = []
shaped is64 e (some as_bytes) = plain e.header (e.raw e.header.size) ∷ []
shaped is64 e (some parameter) = param_value (copied_param is64 e.param) ∷ []
shaped is64 e (some with_buffer) = midi_sysex e.sysex ∷ []

-- The event for the WCLAP, if there is one.
abbrev pub input_of : Sizes → Bool → View → List Event
input_of sizes is64 e =
    if e.header.space_id == sizes.core_event_space_id
    then shaped is64 e (get_elem? shapes e.header.kind)
    else []

abbrev pub inputs_of : Sizes → Bool → List View → List Event
inputs_of sizes is64 [] = []
inputs_of sizes is64 (e ∷ es) = input_of sizes is64 e ++ inputs_of sizes is64 es

-- The size of the native struct of each type.
abbrev pub native_sizes : Sizes → List ℕ
native_sizes z =
    z.note ∷ z.note ∷ z.note ∷ z.note ∷ z.note_expression ∷ z.param ∷ z.param ∷ z.param_gesture
    ∷ z.param_gesture ∷ z.transport ∷ z.midi ∷ z.sysex ∷ z.midi2 ∷ []

-- The event for the host: as it came, with the size of the native struct in its header, where a sysex event
-- has at most 1024 bytes.
abbrev pub resized : View → Option Shape → Option ℕ → Option Event
resized e none n = none
resized e (some s) none = none
resized e (some as_bytes) (some n) = some (plain (record e.header { size = n }) (e.raw n))
resized e (some parameter) (some n) =
    some (param_value (record e.param { header = record e.param.header { size = n } }))
resized e (some with_buffer) (some n) =
    if leb e.sysex.size 1024
    then some (midi_sysex (record e.sysex { header = record e.sysex.header { size = n } }))
    else none

abbrev pub output_of : Sizes → View → Option Event
output_of sizes e =
    if e.header.space_id == sizes.core_event_space_id
    then resized e (get_elem? shapes e.header.kind) (get_elem? (native_sizes sizes) e.header.kind)
    else none

copied_core :
    (sizes : Sizes) (is64 : Bool) (events : List Event) (e : View)
    → (e.header.space_id == sizes.core_event_space_id) ≡ true
    → (k : ℕ) → e.header.kind ≡ k
    → try_copy_input_event sizes is64 events e ≡ events ++ shaped is64 e (get_elem? shapes k)
unfolding try_copy_input_event
copied_core sizes is64 events e core zero h = rw (core, h, try_copy_input_event) refl
copied_core sizes is64 events e core (suc zero) h = rw (core, h, try_copy_input_event) refl
copied_core sizes is64 events e core (suc (suc zero)) h = rw (core, h, try_copy_input_event) refl
copied_core sizes is64 events e core (suc (suc (suc zero))) h =
    rw (core, h, try_copy_input_event) refl
copied_core sizes is64 events e core (suc (suc (suc (suc zero)))) h =
    rw (core, h, try_copy_input_event) refl
copied_core sizes is64 events e core (suc (suc (suc (suc (suc zero))))) h =
    rw (core, h, try_copy_input_event) refl
copied_core sizes is64 events e core (suc (suc (suc (suc (suc (suc zero)))))) h =
    rw (core, h, try_copy_input_event) refl
copied_core sizes is64 events e core (suc (suc (suc (suc (suc (suc (suc zero))))))) h =
    rw (core, h, try_copy_input_event) refl
copied_core sizes is64 events e core (suc (suc (suc (suc (suc (suc (suc (suc zero)))))))) h =
    rw (core, h, try_copy_input_event) refl
copied_core sizes is64 events e core (suc (suc (suc (suc (suc (suc (suc (suc (suc zero))))))))) h =
    rw (core, h, try_copy_input_event) refl
copied_core sizes is64 events e core
      (suc (suc (suc (suc (suc (suc (suc (suc (suc (suc zero)))))))))) h =
    rw (core, h, try_copy_input_event) refl
copied_core sizes is64 events e core
      (suc (suc (suc (suc (suc (suc (suc (suc (suc (suc (suc zero))))))))))) h =
    rw (core, h, try_copy_input_event) refl
copied_core sizes is64 events e core
      (suc (suc (suc (suc (suc (suc (suc (suc (suc (suc (suc (suc zero)))))))))))) h =
    rw (core, h, try_copy_input_event) refl
copied_core sizes is64 events e core
      (suc (suc (suc (suc (suc (suc (suc (suc (suc (suc (suc (suc (suc n))))))))))))) h =
    ground (arith, core, h, append-nil events)

copied_one :
    (sizes : Sizes) (is64 : Bool) (events : List Event) (e : View)
    → try_copy_input_event sizes is64 events e ≡ events ++ input_of sizes is64 e
unfolding try_copy_input_event
copied_one sizes is64 events e =
    elim (Bool-cases (e.header.space_id == sizes.core_event_space_id)) [
      | inl core ↦ copied_core sizes is64 events e core e.header.kind refl ∙ rw core refl
      | inr other ↦ rw (other, try_copy_input_event) (sym (append-nil events))
    ]

copied_all :
    (sizes : Sizes) (is64 : Bool) (events : List Event) (es : List View)
    → copy_input_events sizes is64 events es ≡ events ++ inputs_of sizes is64 es
unfolding copy_input_events
copied_all sizes is64 events [] = sym (append-nil events)
copied_all sizes is64 events (e ∷ es) =
    copied_all sizes is64 (try_copy_input_event sizes is64 events e) es
    ∙ (ap (λ l. l ++ inputs_of sizes is64 es) (copied_one sizes is64 events e)
        ∙ append_assoc events (input_of sizes is64 e) (inputs_of sizes is64 es))

resized_core :
    (sizes : Sizes) (e : View)
    → (e.header.space_id == sizes.core_event_space_id) ≡ true
    → (k : ℕ) → e.header.kind ≡ k
    → output_event sizes e ≡ resized e (get_elem? shapes k) (get_elem? (native_sizes sizes) k)
unfolding output_event plain_output param_output sysex_output
resized_core sizes e core zero h = rw (core, h, output_event) refl
resized_core sizes e core (suc zero) h = rw (core, h, output_event) refl
resized_core sizes e core (suc (suc zero)) h = rw (core, h, output_event) refl
resized_core sizes e core (suc (suc (suc zero))) h = rw (core, h, output_event) refl
resized_core sizes e core (suc (suc (suc (suc zero)))) h = rw (core, h, output_event) refl
resized_core sizes e core (suc (suc (suc (suc (suc zero))))) h = rw (core, h, output_event) refl
resized_core sizes e core (suc (suc (suc (suc (suc (suc zero)))))) h =
    rw (core, h, output_event) refl
resized_core sizes e core (suc (suc (suc (suc (suc (suc (suc zero))))))) h =
    rw (core, h, output_event) refl
resized_core sizes e core (suc (suc (suc (suc (suc (suc (suc (suc zero)))))))) h =
    rw (core, h, output_event) refl
resized_core sizes e core (suc (suc (suc (suc (suc (suc (suc (suc (suc zero))))))))) h =
    rw (core, h, output_event) refl
resized_core sizes e core (suc (suc (suc (suc (suc (suc (suc (suc (suc (suc zero)))))))))) h =
    rw (core, h, output_event) refl
resized_core sizes e core (suc (suc (suc (suc (suc (suc (suc (suc (suc (suc (suc zero))))))))))) h =
    ground (arith, core, h)
resized_core sizes e core
      (suc (suc (suc (suc (suc (suc (suc (suc (suc (suc (suc (suc zero)))))))))))) h =
    rw (core, h, output_event) refl
resized_core sizes e core
      (suc (suc (suc (suc (suc (suc (suc (suc (suc (suc (suc (suc (suc n))))))))))))) h =
    ground (arith, core, h)

output_lem : (sizes : Sizes) (e : View) → output_event sizes e ≡ output_of sizes e
unfolding output_event
output_lem sizes e = elim (Bool-cases (e.header.space_id == sizes.core_event_space_id)) [
  | inl core ↦ resized_core sizes e core e.header.kind refl ∙ rw core refl
  | inr other ↦ rw (other, output_event) refl
]

-- Of the events that `pluginProcess` reads, `inputEvents` gets those of CLAP's own with the types 0 to 12,
-- in their order behind what is there, each in the shape of its type. The function that pushes an event
-- out hands it to the host for exactly these types, with the native size of its type, but for a sysex
-- event of more than 1024 bytes.
pub supported_both_ways :
    (sizes : Sizes) (is64 : Bool) (events : List Event) (es : List View) (e : View)
    → (copy_input_events sizes is64 events es ≡ events ++ inputs_of sizes is64 es)
      × (output_event sizes e ≡ output_of sizes e)
supported_both_ways sizes is64 events es e = (copied_all sizes is64 events es, output_lem sizes e)

abbrev pub header_of : Event → Header
header_of (plain h bytes) = h
header_of (param_value p) = p.header
header_of (midi_sysex x) = x.header

-- An event whose casts see one header goes out with that header's time, space, type and flags.
pub output_header :
    (sizes : Sizes) (e : View) (o : Event)
    → e.param.header ≡ e.header
    → e.sysex.header ≡ e.header
    → output_event sizes e ≡ some o
    → record (header_of o) { size = 0 } ≡ record e.header { size = 0 }
unfolding output_event plain_output param_output sysex_output
output_header sizes e o p x h = ground arith
