-- ===== src/Plugin/Extensions.antt =====
-- `pluginGetExtension` of wclap-plugin.h and `hostTemplate_get_extension` of wclap-module.h: the
-- tables of the extensions that the bridge translates. CLAP's headers declare their ids.
pub mod Served
mod Examples
use wclap_bridge.Base.{
  ℕ, bytes_eq, Bool, true, false, List, [], ◌∷◌, Option, none, some, ◌==◌, if◌then◌else◌,
}

-- The extensions of a plugin, in the order of the tests.
pub data PluginExt : Type 0 where
  ambisonic_ext : PluginExt
  audio_ports_activation_ext : PluginExt
  audio_ports_config_ext : PluginExt
  audio_ports_config_info_ext : PluginExt
  audio_ports_ext : PluginExt
  configurable_audio_ports_ext : PluginExt
  gui_ext : PluginExt
  latency_ext : PluginExt
  note_name_ext : PluginExt
  note_ports_ext : PluginExt
  param_indication_ext : PluginExt
  params_ext : PluginExt
  preset_load_ext : PluginExt
  remote_controls_ext : PluginExt
  render_ext : PluginExt
  state_context_ext : PluginExt
  state_ext : PluginExt
  surround_ext : PluginExt
  tail_ext : PluginExt
  thread_pool_ext : PluginExt
  timer_support_ext : PluginExt
  track_info_ext : PluginExt
  voice_info_ext : PluginExt
  webview_ext : PluginExt

abbrev pub plugin_exts : List PluginExt
plugin_exts =
    ambisonic_ext ∷ audio_ports_activation_ext ∷ audio_ports_config_ext
    ∷ audio_ports_config_info_ext ∷ audio_ports_ext ∷ configurable_audio_ports_ext ∷ gui_ext
    ∷ latency_ext ∷ note_name_ext ∷ note_ports_ext ∷ param_indication_ext ∷ params_ext
    ∷ preset_load_ext ∷ remote_controls_ext ∷ render_ext ∷ state_context_ext ∷ state_ext
    ∷ surround_ext ∷ tail_ext ∷ thread_pool_ext ∷ timer_support_ext ∷ track_info_ext
    ∷ voice_info_ext ∷ webview_ext ∷ []

-- The extensions of a host, but `webview`, in the order of the tests.
pub data HostExt : Type 0 where
  ambisonic_host : HostExt
  audio_ports_config_host : HostExt
  audio_ports_host : HostExt
  gui_host : HostExt
  latency_host : HostExt
  log_host : HostExt
  note_name_host : HostExt
  note_ports_host : HostExt
  params_host : HostExt
  preset_load_host : HostExt
  remote_controls_host : HostExt
  state_host : HostExt
  surround_host : HostExt
  tail_host : HostExt
  thread_check_host : HostExt
  thread_pool_host : HostExt
  timer_support_host : HostExt
  track_info_host : HostExt
  voice_info_host : HostExt

abbrev pub host_exts : List HostExt
host_exts =
    ambisonic_host ∷ audio_ports_config_host ∷ audio_ports_host ∷ gui_host ∷ latency_host ∷ log_host
    ∷ note_name_host ∷ note_ports_host ∷ params_host ∷ preset_load_host ∷ remote_controls_host
    ∷ state_host ∷ surround_host ∷ tail_host ∷ thread_check_host ∷ thread_pool_host
    ∷ timer_support_host ∷ track_info_host ∷ voice_info_host ∷ []

-- The chain of tests: the first whose id is the one that is asked for.
unfoldable pub find_by {ℓ} : {A : Type ℓ} → (A → List ℕ) → List A → List ℕ → Option A
find_by id_of [] id = none
find_by id_of (x ∷ xs) id = if bytes_eq (id_of x) id then some x else find_by id_of xs id

-- The members that keep the WCLAP's own extensions, such as `guiExt` and `webviewExt`: 0 before they
-- are set.
abbrev pub Members : Type 0
Members = PluginExt → ℕ

unfoldable pub set_member : (PluginExt → List ℕ) → Members → PluginExt → ℕ → Members
set_member id_of m e p x = if bytes_eq (id_of x) (id_of e) then p else m x

-- The branch for an extension: that of `gui` also sets `webviewExt` where it is null.
unfoldable pub serve :
    (PluginExt → List ℕ) → Members → ℕ → Option PluginExt → Members × Option PluginExt
unfolding set_member
serve id_of m p none = (m, none)
serve id_of m p (some gui_ext) =
    let m' = set_member id_of m gui_ext p in
    (if m' webview_ext == 0 then set_member id_of m' webview_ext p else m', some gui_ext)
serve id_of m p (some e) = (set_member id_of m e p, some e)

-- `pluginGetExtension`: `call_get_extension` is the WCLAP's `get_extension`, which gives a pointer to
-- its own extension, or 0.
unfoldable pub plugin_get_extension :
    {W : Type 0}
    → (PluginExt → List ℕ)
    → (W → List ℕ → W × ℕ)
    → W
    → Members
    → List ℕ
    → W × Members × Option PluginExt
unfolding serve find_by
plugin_get_extension id_of call_get_extension w m id =
    let (w', p) = call_get_extension w id in
    let (m', served) = serve id_of m p (find_by id_of plugin_exts id) in
    if p == 0 then (w', m, none) else (w', m', served)

-- What `hostTemplate_get_extension` gives the WCLAP: null, the bridge's own `webview`, or its struct
-- for one of the host's.
pub data HostReply : Type 0 where
  null : HostReply
  webview_ptr : HostReply
  host_ptr : HostExt → HostReply

unfoldable pub as_reply : Option HostExt → HostReply
as_reply none = null
as_reply (some e) = host_ptr e

-- `hostTemplate_get_extension`: whether `getPlugin` finds the plugin, what the native host has, and
-- the id that was read.
unfoldable pub host_get_extension :
    (HostExt → List ℕ) → List ℕ → Bool → (List ℕ → Bool) → List ℕ → HostReply
unfolding find_by as_reply
host_get_extension id_of webview_id has_plugin native_has id =
    if has_plugin
    then (if bytes_eq id webview_id
        then webview_ptr
        else (if native_has id then as_reply (find_by id_of host_exts id) else null))
    else null
