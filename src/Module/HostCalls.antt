-- ===== src/Module/HostCalls.antt =====
-- source/_generic/wclap-module.h: the host methods that a WCLAP calls, with `getPlugin` and `setPlugin`
-- of wclap-module-base.h and the members that `pluginInit` of wclap-plugin.h fetches. A string that a
-- method reads from the WCLAP's memory is `get_string` of its pointer; `none` is a call through a null
-- pointer.
pub mod Guarded
pub mod Routed
mod Examples
use wclap_bridge.Base.{
  ℕ, ◌%◌, ◌^◌, Bool, true, false, List, Option, none, some, if◌then◌else◌, ◌==◌, get_elem?, set,
}
use wclap_bridge.Plugin.Extensions.{HostExt}
use wclap_bridge.Module.HostMethods.{
  HostCall, timer_support_register_timer, track_info_get, Member, host_member, ext_member,
  webview_member, member_of, default_result, Reads, native_of,
}
use wclap_bridge.Module.PortTypes.{PortIds, PortPtrs, translate_port_type}

-- `clap_track_info` and `wclap_track_info`, with the port type as `P`.
pub record TrackInfo (P : Type 0) : Type 0 where
  pub flags : ℕ
  pub name : List ℕ
  pub color : List ℕ
  pub audio_channel_count : ℕ
  pub audio_port_type : P

-- The native host: whether `get_extension` gives an extension, what a method does, and the two methods
-- that also write a value, `register_timer` and `track_info`'s `get`. A null port type is none.
pub record Native (H : Type 0) : Type 0 where
  pub native_has : H → List ℕ → Bool
  pub native_call : H → HostCall (List ℕ) → H × ℕ
  pub native_register_timer : H → ℕ → H × Bool × ℕ
  pub native_track_info : H → H × Bool × TrackInfo (Option (List ℕ))

-- What a method writes into the memory of the WCLAP.
pub data Write : Type 0 where
  nothing : Write
  set_timer_id : ℕ → ℕ → Write
  set_track_info : ℕ → TrackInfo ℕ → Write

-- The port types of the module, and `CLAP_TRACK_INFO_HAS_AUDIO_CHANNEL` as a test on the flags.
pub record Ports : Type 0 where
  pub ids : PortIds
  pub ptrs : PortPtrs
  pub has_audio_channel : ℕ → Bool

-- `hostTimerSupport_register_timer` and `hostTrackInfo_get`, behind the host's answer.
unfoldable pub after_timer : {H : Type 0} → ℕ → H × Bool × ℕ → Option (H × ℕ × Write)
after_timer timer_id (h, true, native_timer_id) = some (h, 1, set_timer_id timer_id native_timer_id)
after_timer timer_id (h, false, native_timer_id) = some (h, 0, nothing)

unfoldable pub wclap_port_type : Ports → Bool → Option (List ℕ) → Option ℕ
wclap_port_type ports false port_type = some ports.ptrs.other_ptr
wclap_port_type ports true none = none
wclap_port_type ports true (some t) = some (translate_port_type ports.ids ports.ptrs t)

unfoldable pub track_written :
    {H : Type 0} → H → ℕ → TrackInfo (Option (List ℕ)) → Option ℕ → Option (H × ℕ × Write)
track_written h info_ptr info none = none
track_written h info_ptr info (some t) = some (
  h,
  1,
  set_track_info info_ptr (record {
    flags = info.flags;
    name = info.name;
    color = info.color;
    audio_channel_count = info.audio_channel_count;
    audio_port_type = t;
  }),
)

unfoldable pub after_track :
    {H : Type 0} → Ports → ℕ → H × Bool × TrackInfo (Option (List ℕ)) → Option (H × ℕ × Write)
unfolding wclap_port_type track_written
after_track ports info_ptr (h, false, info) = some (h, 0, nothing)
after_track ports info_ptr (h, true, info) =
    track_written h info_ptr info
      (wclap_port_type ports (ports.has_audio_channel info.flags) info.audio_port_type)

unfoldable pub after_native : {H : Type 0} → H × ℕ → Option (H × ℕ × Write)
after_native (h, result) = some (h, result, nothing)

-- The method's call through its member, which is not null.
unfoldable pub through_member :
    {H : Type 0} → Native H → Reads → Ports → H → HostCall ℕ → Option (H × ℕ × Write)
unfolding after_native after_timer after_track native_of
through_member native m ports h (timer_support_register_timer period_ms timer_id) =
    after_timer timer_id (native.native_register_timer h period_ms)
through_member native m ports h (track_info_get info_ptr) =
    after_track ports info_ptr (native.native_track_info h)
through_member native m ports h c = after_native (native.native_call h (native_of m c))

-- A plugin: its native host, and whether the members `hostAmbisonic` and so on, and `hostWebview`, are
-- not null.
pub record Plugin (H : Type 0) : Type 0 where
  pub host : H
  pub members : HostExt → Bool
  pub webview : Bool

-- `Plugin`'s constructor leaves every member null.
unfoldable pub new_plugin : {H : Type 0} → H → Plugin H
new_plugin h = record { host = h; members = λ e. false; webview = false }

-- `pluginInit`: the members are what the native host answers, and the helper's proxy.
unfoldable pub plugin_init :
    {H : Type 0} → Native H → (HostExt → List ℕ) → Bool → Plugin H → Plugin H
plugin_init native id_of proxy p = record {
  host = p.host;
  members = λ e. native.native_has p.host (id_of e);
  webview = proxy;
}

unfoldable pub member_set : {H : Type 0} → Plugin H → Member → Bool
member_set p host_member = true
member_set p (ext_member e) = p.members e
member_set p webview_member = p.webview

unfoldable pub call_plugin :
    {H : Type 0} → Native H → Reads → Ports → Plugin H → HostCall ℕ → Option (H × ℕ × Write)
unfolding member_set through_member member_of
call_plugin native m ports p c =
    if member_set p (member_of c) then through_member native m ports p.host c else none

-- What the WCLAP's structs hold, the context pointer of each by its address, and `pluginList`, by index.
pub record Module (H : Type 0) : Type 0 where
  pub contexts : ℕ → ℕ
  pub plugin_list : List (Option (Plugin H))

-- `setPlugin`, with `Size` as wide as the WCLAP's pointers.
unfoldable pub set_plugin : {H : Type 0} → Bool → Module H → ℕ → ℕ → Module H
set_plugin is64 s struct plugin_list_index = record s {
  contexts = λ p.
      if p == struct
      then (if is64 then plugin_list_index % 2 ^ 64 else plugin_list_index % 2 ^ 32)
      else s.contexts p;
}

unfoldable pub listed : {H : Type 0} → Option (Option (Plugin H)) → Option (Plugin H)
listed none = none
listed (some p) = p

-- `getPlugin`
unfoldable pub get_plugin : {H : Type 0} → Module H → ℕ → Option (Plugin H)
unfolding listed
get_plugin s struct = listed (get_elem? s.plugin_list (s.contexts struct))

-- A host method that the WCLAP calls with the pointer of a host struct: the module, the result, and what
-- is written into the WCLAP.
unfoldable pub after_plugin :
    {H : Type 0} → Module H → ℕ → Plugin H → Option (H × ℕ × Write) → Option (Module H × ℕ × Write)
after_plugin s index p none = none
after_plugin s index p (some (h, result, write)) = some (
  record s { plugin_list = set s.plugin_list index (some (record p { host = h })) },
  result,
  write,
)

unfoldable pub call_host :
    {H : Type 0}
    → Native H
    → Reads
    → Ports
    → Module H
    → ℕ
    → HostCall ℕ
    → Option (Module H × ℕ × Write)
unfolding get_plugin after_plugin call_plugin default_result
call_host native m ports s w_host c = elim (get_plugin s w_host) [
  | none ↦ some (s, default_result c, nothing)
  | some p ↦ after_plugin s (s.contexts w_host) p (call_plugin native m ports p c)
]
