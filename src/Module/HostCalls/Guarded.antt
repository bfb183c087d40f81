-- ===== src/Module/HostCalls/Guarded.antt =====
-- What the host methods of wclap-module.h do with a call of the WCLAP's.
use wclap_bridge.Base.{ℕ, ◌≡◌, ap, true, false, List, none, some}
use wclap_bridge.Plugin.Extensions.{HostExt}
use wclap_bridge.Module.HostMethods.{HostCall, ext_member, member_of, Reads}
use wclap_bridge.Module.HostCalls.{Native, Ports, Plugin, new_plugin, member_set, call_plugin}

module _ {H : Type 0} (native : Native H) (m : Reads) (ports : Ports) where
  -- A host that says that it has an audio channel gives the channel's port type.
  abbrev pub GivesPortType : Type 0
  GivesPortType =
      (h : H)
      → ports.has_audio_channel (native.native_track_info h).2.flags ≡ true
      → (t : List ℕ) × ((native.native_track_info h).2.audio_port_type ≡ some t)

  call_null :
      (p : Plugin H) (c : HostCall ℕ)
      → member_set p (member_of c) ≡ false
      → call_plugin native m ports p c ≡ none
  unfolding call_plugin
  call_null p c null_member = rw null_member

  -- Before `pluginInit`, every call of a method of an extension goes through a null member.
  pub early_call :
      (h : H) (e : HostExt) (c : HostCall ℕ)
      → member_of c ≡ ext_member e
      → call_plugin native m ports (new_plugin h) c ≡ none
  unfolding new_plugin member_set
  early_call h e c through =
      call_null (new_plugin h) c (ap (λ k. member_set (new_plugin h) k) through)
