-- ===== src/Plugin/Examples.antt =====
-- The theorems on a plugin's native side, each at a concrete input.
use wclap_bridge.Base.{
  ℕ, zero, suc, ◌≡◌, refl, c_str, false, List, [], ◌∷◌, ◌++◌, none, some, arith, length, take, ltb,
  if◌then◌else◌,
}
use wclap_bridge.Plugin.Streams.{ReadReply, read_bytes, clamp, istream_read}
use wclap_bridge.Plugin.Streams.Bounded.{istream_read_fills, Answers}
use wclap_bridge.Plugin.Events.{Header, View, Sizes, copy_input_events, output_event}
use wclap_bridge.Plugin.Events.Accepted.{inputs_of, output_of, supported_both_ways}
use wclap_bridge.Plugin.Factory.{Config, WclapDescriptor}

zero_bytes : ℕ → List ℕ
zero_bytes zero = []
zero_bytes (suc n) = 0 ∷ zero_bytes n

-- The host's stream gives the byte 7, three times at most.
sevens : ℕ → ReadReply
sevens n = read_bytes (if ltb n 3 then n else 3) (7 ∷ 7 ∷ 7 ∷ zero_bytes 1021)

istream_read_fills_example :
    (memory' : List ℕ) × ((istream_read (some sevens) (1 ∷ 2 ∷ 3 ∷ 4 ∷ []) 1 2).0 ≡ some memory')
    × (length memory' ≡ 4)
    × (take 1 memory' ≡ 1 ∷ [])
    × Answers
        (sevens (clamp 2))
        (1 ∷ 2 ∷ 3 ∷ 4 ∷ [])
        memory'
        1
        (istream_read (some sevens) (1 ∷ 2 ∷ 3 ∷ 4 ∷ []) 1 2).1
unfolding clamp sevens zero_bytes
istream_read_fills_example =
    istream_read_fills sevens (1 ∷ 2 ∷ 3 ∷ 4 ∷ []) 1 2 (omega arith) (omega arith)
      (omega arith, refl)

abbrev note_header : Header
note_header = record { size = 40; time = 3; space_id = 0; kind = 1; flags = 0 }

abbrev note_on : View
note_on = record {
  header = note_header;
  raw = λ n. 1 ∷ 2 ∷ [];
  param = record {
    header = note_header;
    param_id = 0;
    cookie = 0;
    note_id = 0;
    port_index = 0;
    channel = 0;
    key = 0;
    value = 0;
  };
  sysex = record { header = note_header; port_index = 0; buffer = []; size = 0 };
}

abbrev sizes : Sizes
sizes = record {
  core_event_space_id = 0;
  note = 48;
  note_expression = 56;
  param = 64;
  param_gesture = 24;
  transport = 104;
  midi = 24;
  sysex = 40;
  midi2 = 40;
}

supported_both_ways_example :
    (copy_input_events sizes false [] (note_on ∷ note_on ∷ [])
      ≡ [] ++ inputs_of sizes false (note_on ∷ note_on ∷ []))
    × (output_event sizes note_on ≡ output_of sizes note_on)
supported_both_ways_example = supported_both_ways sizes false [] (note_on ∷ note_on ∷ []) note_on

abbrev config : Config
config = record {
  plugin_id_prefix = c_str "wclap:";
  plugin_name_prefix = [];
  plugin_name_suffix = c_str " (WCLAP)";
}

abbrev reverb : WclapDescriptor
reverb = record {
  clap_version = (1, 2, 0);
  id = some (c_str "reverb");
  name = some (c_str "Reverb");
  vendor = none;
  url = none;
  manual_url = none;
  support_url = none;
  version = none;
  description = none;
  features = λ i. none;
}
