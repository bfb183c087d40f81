-- ===== src/Plugin/Events.antt =====
-- `inputEventsGet`, `tryCopyInputEvent` and `outputEventsTryPush` of wclap-plugin.h, with the layout of
-- CLAP's event structs, which clap.h declares, as a parameter.
pub mod Accepted
use wclap_bridge.Base.{
  ℕ, ◌%◌, ◌^◌, not, ◌&&◌, ◌||◌, List, [], ◌∷◌, ◌++◌, Bool, true, false, Option, none, some, ltb,
  leb, ◌==◌, if◌then◌else◌, get_elem?,
}

pub record Header : Type 0 where
  pub size : ℕ
  pub time : ℕ
  pub space_id : ℕ
  pub kind : ℕ
  pub flags : ℕ

-- `clap_event_param_value`, which also stands for `clap_event_param_mod`
pub record ParamValue : Type 0 where
  pub header : Header
  pub param_id : ℕ
  pub cookie : ℕ
  pub note_id : ℕ
  pub port_index : ℕ
  pub channel : ℕ
  pub key : ℕ
  pub value : ℕ

-- `clap_event_midi_sysex`, with the bytes that its buffer points to
pub record Sysex : Type 0 where
  pub header : Header
  pub port_index : ℕ
  pub buffer : List ℕ
  pub size : ℕ

-- An event where it lies, as each of the structs that a cast reads it as. `raw n` is its first `n`
-- bytes.
pub record View : Type 0 where
  pub header : Header
  pub raw : ℕ → List ℕ
  pub param : ParamValue
  pub sysex : Sysex

-- An event that is handed over, with the header that it gets.
pub data Event : Type 0 where
  plain : Header → List ℕ → Event
  param_value : ParamValue → Event
  midi_sysex : Sysex → Event

-- What clap.h declares: `CLAP_CORE_EVENT_SPACE_ID`, and the sizes of the native structs, of notes, note expressions, parameter values, gestures,
-- transports, MIDI, sysex and MIDI 2 events.
pub record Sizes : Type 0 where
  pub core_event_space_id : ℕ
  pub note : ℕ
  pub note_expression : ℕ
  pub param : ℕ
  pub param_gesture : ℕ
  pub transport : ℕ
  pub midi : ℕ
  pub sysex : ℕ
  pub midi2 : ℕ

-- `inputEventsGet`: the null pointer behind the last.
unfoldable pub input_events_get : List Event → ℕ → Option Event
input_events_get events index = get_elem? events index

-- `tryCopyInputEvent`: the events that the WCLAP will see. A cookie gets the width of the WCLAP's
-- pointers, `Size`.
unfoldable pub copied_param : Bool → ParamValue → ParamValue
copied_param is64 e = record e { cookie = if is64 then e.cookie % 2 ^ 64 else e.cookie % 2 ^ 32 }

unfoldable pub try_copy_input_event : Sizes → Bool → List Event → View → List Event
unfolding copied_param
try_copy_input_event sizes is64 events e =
    let t = e.header.kind in
    if not (e.header.space_id == sizes.core_event_space_id)
    then events
    else (if leb t 4 || ((leb 7 t && leb t 10) || (t == 12))
        then events ++ (plain e.header (e.raw e.header.size) ∷ [])
        else (if t == 5 || (t == 6)
            then events ++ (param_value (copied_param is64 e.param) ∷ [])
            else (if t == 11 then events ++ (midi_sysex e.sysex ∷ []) else events)))

-- `pluginProcess`: `inputEvents` is emptied, and gets the host's events in their order.
unfoldable pub copy_input_events : Sizes → Bool → List Event → List View → List Event
unfolding try_copy_input_event
copy_input_events sizes is64 events [] = events
copy_input_events sizes is64 events (e ∷ es) =
    copy_input_events sizes is64 (try_copy_input_event sizes is64 events e) es

-- `outputEventsTryPush`: the event that goes to the host's `try_push`, or none where the function
-- returns false without it. Its header gets the size of the native struct.
unfoldable pub plain_output : View → ℕ → Option Event
plain_output e n = some (plain (record e.header { size = n }) (e.raw n))

unfoldable pub param_output : ParamValue → ℕ → Option Event
param_output p n = some (param_value (record p { header = record p.header { size = n } }))

unfoldable pub sysex_output : Sysex → ℕ → Option Event
sysex_output x n =
    if ltb 1024 x.size
    then none
    else some (midi_sysex (record x { header = record x.header { size = n } }))

unfoldable pub output_event : Sizes → View → Option Event
unfolding plain_output param_output sysex_output
output_event sizes e =
    let t = e.header.kind in
    if not (e.header.space_id == sizes.core_event_space_id)
    then none
    else (if ltb t 4
        then plain_output e sizes.note
        else (if t == 4
            then plain_output e sizes.note_expression
            else (if t == 5 || (t == 6)
                then param_output e.param sizes.param
                else (if t == 7 || (t == 8)
                    then plain_output e sizes.param_gesture
                    else (if t == 9
                        then plain_output e sizes.transport
                        else (if t == 10
                            then plain_output e sizes.midi
                            else (if t == 11
                                then sysex_output e.sysex sizes.sysex
                                else (if t == 12 then plain_output e sizes.midi2 else none))))))))

-- The host's list takes an event, and says whether it did.
push_event : {H : Type 0} → (H → Event → H × Bool) → H → Option Event → H × Bool
push_event try_push h none = (h, false)
push_event try_push h (some event) = try_push h event

unfoldable pub output_events_try_push :
    {H : Type 0} → Option (H → Event → H × Bool) → Sizes → H → View → H × Bool
unfolding push_event
output_events_try_push none sizes h e = (h, false)
output_events_try_push (some try_push) sizes h e = push_event try_push h (output_event sizes e)
