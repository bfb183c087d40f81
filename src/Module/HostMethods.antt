-- ===== src/Module/HostMethods.antt =====
-- source/_generic/wclap-module.h: the host methods that a WCLAP calls, as data: which member of the plugin
-- each goes through, what it returns where there is no plugin, and what it hands over.
use wclap_bridge.Base.{ℕ, Bool, List}
use wclap_bridge.Plugin.Extensions.{
  HostExt, ambisonic_host, audio_ports_config_host, audio_ports_host, gui_host, latency_host,
  log_host, note_name_host, note_ports_host, params_host, preset_load_host, remote_controls_host,
  state_host, surround_host, tail_host, thread_check_host, thread_pool_host, timer_support_host,
  track_info_host, voice_info_host,
}

-- A call with the type of its strings: pointers as the WCLAP makes it, bytes as the host gets it.
pub data HostCall (S : Type 0) : Type 0 where
  request_restart : HostCall S
  request_process : HostCall S
  request_callback : HostCall S
  ambisonic_changed : HostCall S
  audio_ports_config_rescan : HostCall S
  audio_ports_is_rescan_flag_supported : ℕ → HostCall S
  audio_ports_rescan : ℕ → HostCall S
  gui_resize_hints_changed : HostCall S
  gui_request_resize : ℕ → ℕ → HostCall S
  gui_request_show : HostCall S
  gui_request_hide : HostCall S
  gui_closed : Bool → HostCall S
  latency_changed : HostCall S
  log_log : ℕ → S → HostCall S
  note_name_changed : HostCall S
  note_ports_supported_dialects : HostCall S
  note_ports_rescan : ℕ → HostCall S
  params_rescan : ℕ → HostCall S
  params_clear : ℕ → ℕ → HostCall S
  params_request_flush : HostCall S
  preset_load_on_error : ℕ → S → S → ℕ → S → HostCall S
  preset_load_loaded : ℕ → S → S → HostCall S
  remote_controls_changed : HostCall S
  remote_controls_suggest_page : ℕ → HostCall S
  state_mark_dirty : HostCall S
  surround_changed : HostCall S
  tail_changed : HostCall S
  thread_check_is_main_thread : HostCall S
  thread_check_is_audio_thread : HostCall S
  thread_pool_request_exec : ℕ → HostCall S
  timer_support_register_timer : ℕ → ℕ → HostCall S
  timer_support_unregister_timer : ℕ → HostCall S
  track_info_get : ℕ → HostCall S
  voice_info_changed : HostCall S
  webview_send : S → ℕ → HostCall S

-- The member of the plugin that a method calls through: `host`, `hostAmbisonic` and so on, or
-- `hostWebview`.
pub data Member : Type 0 where
  host_member : Member
  ext_member : HostExt → Member
  webview_member : Member

unfoldable pub member_of : {S : Type 0} → HostCall S → Member
member_of ambisonic_changed = ext_member ambisonic_host
member_of audio_ports_config_rescan = ext_member audio_ports_config_host
member_of (audio_ports_is_rescan_flag_supported flag) = ext_member audio_ports_host
member_of (audio_ports_rescan flags) = ext_member audio_ports_host
member_of gui_resize_hints_changed = ext_member gui_host
member_of (gui_request_resize width height) = ext_member gui_host
member_of gui_request_show = ext_member gui_host
member_of gui_request_hide = ext_member gui_host
member_of (gui_closed was_destroyed) = ext_member gui_host
member_of latency_changed = ext_member latency_host
member_of (log_log severity msg) = ext_member log_host
member_of note_name_changed = ext_member note_name_host
member_of note_ports_supported_dialects = ext_member note_ports_host
member_of (note_ports_rescan flags) = ext_member note_ports_host
member_of (params_rescan flags) = ext_member params_host
member_of (params_clear param_id flags) = ext_member params_host
member_of params_request_flush = ext_member params_host
member_of (preset_load_on_error kind location load_key os_error msg) = ext_member preset_load_host
member_of (preset_load_loaded kind location load_key) = ext_member preset_load_host
member_of remote_controls_changed = ext_member remote_controls_host
member_of (remote_controls_suggest_page page_id) = ext_member remote_controls_host
member_of state_mark_dirty = ext_member state_host
member_of surround_changed = ext_member surround_host
member_of tail_changed = ext_member tail_host
member_of thread_check_is_main_thread = ext_member thread_check_host
member_of thread_check_is_audio_thread = ext_member thread_check_host
member_of (thread_pool_request_exec num_tasks) = ext_member thread_pool_host
member_of (timer_support_register_timer period_ms timer_id) = ext_member timer_support_host
member_of (timer_support_unregister_timer timer_id) = ext_member timer_support_host
member_of (track_info_get info_ptr) = ext_member track_info_host
member_of voice_info_changed = ext_member voice_info_host
member_of (webview_send buffer size) = webview_member
member_of request_restart = host_member
member_of request_process = host_member
member_of request_callback = host_member

-- The result where there is no plugin; 0 stands for false and for no result.
unfoldable pub default_result : {S : Type 0} → HostCall S → ℕ
default_result thread_check_is_main_thread = 1
default_result thread_check_is_audio_thread = 1
default_result c = 0

-- What a method reads of the WCLAP: `getString` up to `maxLogStringLength`, `getArray` of bytes.
pub record Reads : Type 0 where
  pub get_string : ℕ → List ℕ
  pub get_bytes : ℕ → ℕ → List ℕ

-- The call with its strings read.
unfoldable pub native_of : Reads → HostCall ℕ → HostCall (List ℕ)
native_of m request_restart = request_restart
native_of m request_process = request_process
native_of m request_callback = request_callback
native_of m ambisonic_changed = ambisonic_changed
native_of m audio_ports_config_rescan = audio_ports_config_rescan
native_of m (audio_ports_is_rescan_flag_supported flag) = audio_ports_is_rescan_flag_supported flag
native_of m (audio_ports_rescan flags) = audio_ports_rescan flags
native_of m gui_resize_hints_changed = gui_resize_hints_changed
native_of m (gui_request_resize width height) = gui_request_resize width height
native_of m gui_request_show = gui_request_show
native_of m gui_request_hide = gui_request_hide
native_of m (gui_closed was_destroyed) = gui_closed was_destroyed
native_of m latency_changed = latency_changed
native_of m (log_log severity msg) = log_log severity (m.get_string msg)
native_of m note_name_changed = note_name_changed
native_of m note_ports_supported_dialects = note_ports_supported_dialects
native_of m (note_ports_rescan flags) = note_ports_rescan flags
native_of m (params_rescan flags) = params_rescan flags
native_of m (params_clear param_id flags) = params_clear param_id flags
native_of m params_request_flush = params_request_flush
native_of m (preset_load_on_error kind location load_key os_error msg) =
    preset_load_on_error kind (m.get_string location) (m.get_string load_key) os_error
      (m.get_string msg)
native_of m (preset_load_loaded kind location load_key) =
    preset_load_loaded kind (m.get_string location) (m.get_string load_key)
native_of m remote_controls_changed = remote_controls_changed
native_of m (remote_controls_suggest_page page_id) = remote_controls_suggest_page page_id
native_of m state_mark_dirty = state_mark_dirty
native_of m surround_changed = surround_changed
native_of m tail_changed = tail_changed
native_of m thread_check_is_main_thread = thread_check_is_main_thread
native_of m thread_check_is_audio_thread = thread_check_is_audio_thread
native_of m (thread_pool_request_exec num_tasks) = thread_pool_request_exec num_tasks
native_of m (timer_support_register_timer period_ms timer_id) =
    timer_support_register_timer period_ms timer_id
native_of m (timer_support_unregister_timer timer_id) = timer_support_unregister_timer timer_id
native_of m (track_info_get info_ptr) = track_info_get info_ptr
native_of m voice_info_changed = voice_info_changed
native_of m (webview_send buffer size) = webview_send (m.get_bytes buffer size) size
