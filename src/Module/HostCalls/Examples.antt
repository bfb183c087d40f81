-- ===== src/Module/HostCalls/Examples.antt =====
-- The theorems on the host methods, each at a concrete input.
use wclap_bridge.Base.{
  ℕ, ◌+◌, ◌≡◌, refl, true, false, List, [], ◌∷◌, Option, none, some, arith, get_elem?, bytes_eq,
}
use wclap_bridge.Plugin.Extensions.{HostExt, log_host}
use wclap_bridge.Module.PortTypes.{PortIds, PortPtrs}
use wclap_bridge.Module.HostMethods.{log_log, Reads}
use wclap_bridge.Module.HostCalls.{
  Native, Ports, TrackInfo, Module, new_plugin, plugin_init, call_plugin, set_plugin, call_host,
  nothing,
}
use wclap_bridge.Module.HostCalls.Routed.{call_host_routed}

-- A host that counts its calls, and has only the extension `log`, whose id is 1 here.
abbrev no_track : TrackInfo (Option (List ℕ))
no_track = record {
  flags = 0;
  name = [];
  color = [];
  audio_channel_count = 0;
  audio_port_type = none;
}

abbrev native : Native ℕ
native = record {
  native_has = λ h id. bytes_eq id (1 ∷ []);
  native_call = λ h c. (h + 1, 7);
  native_register_timer = λ h period. (h + 1, true, 3);
  native_track_info = λ h. (h + 1, false, no_track);
}

abbrev reads : Reads
reads = record { get_string = λ p. p ∷ []; get_bytes = λ p n. [] }

abbrev ids : PortIds
ids = record { mono = 1 ∷ []; stereo = 2 ∷ []; surround = 3 ∷ []; ambisonic = 4 ∷ [] }

abbrev ptrs : PortPtrs
ptrs = record { mono_ptr = 1; stereo_ptr = 2; surround_ptr = 3; ambisonic_ptr = 4; other_ptr = 5 }

abbrev ports : Ports
ports = record { ids = ids; ptrs = ptrs; has_audio_channel = λ flags. false }

id_of : HostExt → List ℕ
id_of log_host = 1 ∷ []
id_of e = 2 ∷ []

abbrev two_plugins : Module ℕ
two_plugins = record {
  contexts = λ p. 0;
  plugin_list = some (new_plugin 10) ∷ some (plugin_init native id_of true (new_plugin 20)) ∷ [];
}

call_host_routed_example :
    (s' : Module ℕ) × (call_host native reads ports
        (set_plugin false two_plugins 4096 1)
        4096
        (log_log 0 64)
      ≡ some (s', 7, nothing))
    × (get_elem? s'.plugin_list 1
        ≡ some (some (record (plugin_init native id_of true (new_plugin 20)) { host = 21 })))
    × (get_elem? s'.plugin_list 0 ≡ get_elem? two_plugins.plugin_list 0)
unfolding call_plugin plugin_init new_plugin id_of bytes_eq
call_host_routed_example =
    call_host_routed native reads ports false two_plugins 4096 1 0
      (plugin_init native id_of true (new_plugin 20)) (log_log 0 64) 21 7 nothing (omega arith) refl
      refl (λ e. absurd (omega (arith, e)))
