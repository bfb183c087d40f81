-- ===== src/Plugin/Extensions/Examples.antt =====
-- The theorems on the extension tables, each at a concrete input.
use wclap_bridge.Base.{
  ℕ, zero, suc, ◌+◌, ◌≡◌, ◌≢◌, ◌⊎◌, refl, sym, ap, ◌∙◌, bytes_eq_sound, List, [], ◌∷◌, none, some,
}
use wclap_bridge.Plugin.Extensions.{
  PluginExt, HostExt, Members, plugin_get_extension, ambisonic_ext, audio_ports_activation_ext,
  audio_ports_config_ext, audio_ports_config_info_ext, audio_ports_ext,
  configurable_audio_ports_ext, gui_ext, latency_ext, note_name_ext, note_ports_ext,
  param_indication_ext, params_ext, preset_load_ext, remote_controls_ext, render_ext,
  state_context_ext, state_ext, surround_ext, tail_ext, thread_pool_ext, timer_support_ext,
  track_info_ext, voice_info_ext, webview_ext, ambisonic_host, audio_ports_config_host,
  audio_ports_host, gui_host, latency_host, log_host, note_name_host, note_ports_host, params_host,
  preset_load_host, remote_controls_host, state_host, surround_host, tail_host, thread_check_host,
  thread_pool_host, timer_support_host, track_info_host, voice_info_host,
}
use wclap_bridge.Plugin.Extensions.Served.{Distinct, get_extension_serves}

head : List ℕ → ℕ
head [] = 0
head (x ∷ xs) = x

head_eq : {a b : ℕ} → ◌≡◌ {A = List ℕ} (a ∷ []) (b ∷ []) → a ≡ b
unfolding head
head_eq h = ap head h

-- An id of its own for each extension: its number.
plugin_number : PluginExt → ℕ
plugin_number ambisonic_ext = 0
plugin_number audio_ports_activation_ext = 1
plugin_number audio_ports_config_ext = 2
plugin_number audio_ports_config_info_ext = 3
plugin_number audio_ports_ext = 4
plugin_number configurable_audio_ports_ext = 5
plugin_number gui_ext = 6
plugin_number latency_ext = 7
plugin_number note_name_ext = 8
plugin_number note_ports_ext = 9
plugin_number param_indication_ext = 10
plugin_number params_ext = 11
plugin_number preset_load_ext = 12
plugin_number remote_controls_ext = 13
plugin_number render_ext = 14
plugin_number state_context_ext = 15
plugin_number state_ext = 16
plugin_number surround_ext = 17
plugin_number tail_ext = 18
plugin_number thread_pool_ext = 19
plugin_number timer_support_ext = 20
plugin_number track_info_ext = 21
plugin_number voice_info_ext = 22
plugin_number webview_ext = 23

plugin_of : ℕ → PluginExt
plugin_of zero = ambisonic_ext
plugin_of (suc zero) = audio_ports_activation_ext
plugin_of (suc (suc zero)) = audio_ports_config_ext
plugin_of (suc (suc (suc zero))) = audio_ports_config_info_ext
plugin_of (suc (suc (suc (suc zero)))) = audio_ports_ext
plugin_of (suc (suc (suc (suc (suc zero))))) = configurable_audio_ports_ext
plugin_of (suc (suc (suc (suc (suc (suc zero)))))) = gui_ext
plugin_of (suc (suc (suc (suc (suc (suc (suc zero))))))) = latency_ext
plugin_of (suc (suc (suc (suc (suc (suc (suc (suc zero)))))))) = note_name_ext
plugin_of (suc (suc (suc (suc (suc (suc (suc (suc (suc zero))))))))) = note_ports_ext
plugin_of (suc (suc (suc (suc (suc (suc (suc (suc (suc (suc zero)))))))))) = param_indication_ext
plugin_of (suc (suc (suc (suc (suc (suc (suc (suc (suc (suc (suc zero))))))))))) = params_ext
plugin_of (suc (suc (suc (suc (suc (suc (suc (suc (suc (suc (suc (suc zero)))))))))))) =
    preset_load_ext
plugin_of (suc (suc (suc (suc (suc (suc (suc (suc (suc (suc (suc (suc (suc zero))))))))))))) =
    remote_controls_ext
plugin_of (suc (suc (suc (suc (suc (suc (suc (suc (suc (suc (suc (suc (suc (suc zero)))))))))))))) =
    render_ext
plugin_of
      (suc
        (suc (suc (suc (suc (suc (suc (suc (suc (suc (suc (suc (suc (suc (suc zero))))))))))))))) =
    state_context_ext
plugin_of
      (suc (
        suc (
          suc
            (suc (suc (suc (suc (suc (suc (suc (suc (suc (suc (suc (suc (suc zero)))))))))))))))) =
    state_ext
plugin_of
      (suc (
        suc (
          suc (
            suc (
              suc
                (suc (suc (suc (suc (suc (suc (suc (suc (suc (suc (suc (suc zero))))))))))))))))) =
    surround_ext
plugin_of
      (suc (
        suc (
          suc (
            suc (
              suc (
                suc (
                  suc
                    (suc (suc (suc (suc (suc (suc (suc (suc (suc (suc (suc zero)))))))))))))))))) =
    tail_ext
plugin_of
      (suc (
        suc (
          suc (
            suc (
              suc (
                suc (
                  suc (
                    suc (
                      suc
                        (suc (suc (suc (suc (suc (suc (suc (suc (suc (suc zero))))))))))))))))))) =
    thread_pool_ext
plugin_of
      (suc (
        suc (
          suc (
            suc (
              suc (
                suc (
                  suc (
                    suc (
                      suc (
                        suc (
                          suc
                            (suc (suc (suc (suc (suc (suc (suc (suc (suc zero)))))))))))))))))))) =
    timer_support_ext
plugin_of
      (suc (
        suc (
          suc (
            suc (
              suc (
                suc (
                  suc (
                    suc (
                      suc (
                        suc (
                          suc (
                            suc (
                              suc
                                (suc (suc (suc (suc (suc (suc (suc (suc zero))))))))))))))))))))) =
    track_info_ext
plugin_of
      (suc (
        suc (
          suc (
            suc (
              suc (
                suc (
                  suc (
                    suc (
                      suc (
                        suc (
                          suc (
                            suc (
                              suc (
                                suc (
                                  suc
                                    (suc (suc (suc (suc (suc (suc (suc zero)))))))))))))))))))))) =
    voice_info_ext
plugin_of
      (suc (
        suc (
          suc (
            suc (
              suc (
                suc (
                  suc (
                    suc (
                      suc (
                        suc (
                          suc (
                            suc (
                              suc (
                                suc (
                                  suc (
                                    suc
                                      (suc (suc (suc (suc (suc (suc (suc n))))))))))))))))))))))) =
    webview_ext

plugin_of-number : (e : PluginExt) → plugin_of (plugin_number e) ≡ e
unfolding plugin_of plugin_number
plugin_of-number ambisonic_ext = refl
plugin_of-number audio_ports_activation_ext = refl
plugin_of-number audio_ports_config_ext = refl
plugin_of-number audio_ports_config_info_ext = refl
plugin_of-number audio_ports_ext = refl
plugin_of-number configurable_audio_ports_ext = refl
plugin_of-number gui_ext = refl
plugin_of-number latency_ext = refl
plugin_of-number note_name_ext = refl
plugin_of-number note_ports_ext = refl
plugin_of-number param_indication_ext = refl
plugin_of-number params_ext = refl
plugin_of-number preset_load_ext = refl
plugin_of-number remote_controls_ext = refl
plugin_of-number render_ext = refl
plugin_of-number state_context_ext = refl
plugin_of-number state_ext = refl
plugin_of-number surround_ext = refl
plugin_of-number tail_ext = refl
plugin_of-number thread_pool_ext = refl
plugin_of-number timer_support_ext = refl
plugin_of-number track_info_ext = refl
plugin_of-number voice_info_ext = refl
plugin_of-number webview_ext = refl

abbrev plugin_id : PluginExt → List ℕ
plugin_id e = plugin_number e ∷ []

plugin_id-Distinct : Distinct plugin_id
plugin_id-Distinct a b h =
    sym (plugin_of-number a) ∙ (ap plugin_of (head_eq (bytes_eq_sound _ _ h)) ∙ plugin_of-number b)

-- An id of its own for each extension: its number.
host_number : HostExt → ℕ
host_number ambisonic_host = 0
host_number audio_ports_config_host = 1
host_number audio_ports_host = 2
host_number gui_host = 3
host_number latency_host = 4
host_number log_host = 5
host_number note_name_host = 6
host_number note_ports_host = 7
host_number params_host = 8
host_number preset_load_host = 9
host_number remote_controls_host = 10
host_number state_host = 11
host_number surround_host = 12
host_number tail_host = 13
host_number thread_check_host = 14
host_number thread_pool_host = 15
host_number timer_support_host = 16
host_number track_info_host = 17
host_number voice_info_host = 18

host_of : ℕ → HostExt
host_of zero = ambisonic_host
host_of (suc zero) = audio_ports_config_host
host_of (suc (suc zero)) = audio_ports_host
host_of (suc (suc (suc zero))) = gui_host
host_of (suc (suc (suc (suc zero)))) = latency_host
host_of (suc (suc (suc (suc (suc zero))))) = log_host
host_of (suc (suc (suc (suc (suc (suc zero)))))) = note_name_host
host_of (suc (suc (suc (suc (suc (suc (suc zero))))))) = note_ports_host
host_of (suc (suc (suc (suc (suc (suc (suc (suc zero)))))))) = params_host
host_of (suc (suc (suc (suc (suc (suc (suc (suc (suc zero))))))))) = preset_load_host
host_of (suc (suc (suc (suc (suc (suc (suc (suc (suc (suc zero)))))))))) = remote_controls_host
host_of (suc (suc (suc (suc (suc (suc (suc (suc (suc (suc (suc zero))))))))))) = state_host
host_of (suc (suc (suc (suc (suc (suc (suc (suc (suc (suc (suc (suc zero)))))))))))) = surround_host
host_of (suc (suc (suc (suc (suc (suc (suc (suc (suc (suc (suc (suc (suc zero))))))))))))) =
    tail_host
host_of (suc (suc (suc (suc (suc (suc (suc (suc (suc (suc (suc (suc (suc (suc zero)))))))))))))) =
    thread_check_host
host_of
      (suc
        (suc (suc (suc (suc (suc (suc (suc (suc (suc (suc (suc (suc (suc (suc zero))))))))))))))) =
    thread_pool_host
host_of
      (suc (
        suc (
          suc
            (suc (suc (suc (suc (suc (suc (suc (suc (suc (suc (suc (suc (suc zero)))))))))))))))) =
    timer_support_host
host_of
      (suc (
        suc (
          suc (
            suc (
              suc
                (suc (suc (suc (suc (suc (suc (suc (suc (suc (suc (suc (suc zero))))))))))))))))) =
    track_info_host
host_of
      (suc (
        suc (
          suc (
            suc (
              suc (
                suc
                  (suc (suc (suc (suc (suc (suc (suc (suc (suc (suc (suc (suc n)))))))))))))))))) =
    voice_info_host

host_of-number : (e : HostExt) → host_of (host_number e) ≡ e
unfolding host_of host_number
host_of-number ambisonic_host = refl
host_of-number audio_ports_config_host = refl
host_of-number audio_ports_host = refl
host_of-number gui_host = refl
host_of-number latency_host = refl
host_of-number log_host = refl
host_of-number note_name_host = refl
host_of-number note_ports_host = refl
host_of-number params_host = refl
host_of-number preset_load_host = refl
host_of-number remote_controls_host = refl
host_of-number state_host = refl
host_of-number surround_host = refl
host_of-number tail_host = refl
host_of-number thread_check_host = refl
host_of-number thread_pool_host = refl
host_of-number timer_support_host = refl
host_of-number track_info_host = refl
host_of-number voice_info_host = refl

abbrev host_id : HostExt → List ℕ
host_id e = host_number e ∷ []

host_id-Distinct : Distinct host_id
host_id-Distinct a b h =
    sym (host_of-number a) ∙ (ap host_of (head_eq (bytes_eq_sound _ _ h)) ∙ host_of-number b)

-- A WCLAP that has every extension, at 64.
gives : ℕ → List ℕ → ℕ × ℕ
gives calls id = (calls + 1, 64)

abbrev unset : Members
unset = λ e. 0

get_extension_serves_example :
    let (w', p) = gives 0 (plugin_id params_ext) in
    let out = plugin_get_extension plugin_id gives 0 unset (plugin_id params_ext) in
    ((p ≡ 0) × (out ≡ (w', unset, none)))
    ⊎ ((p ≢ 0) × (out.0 ≡ w') × (out.1 params_ext ≡ p) × (out.2 ≡ some params_ext))
get_extension_serves_example =
    get_extension_serves plugin_id plugin_id-Distinct gives 0 unset params_ext
