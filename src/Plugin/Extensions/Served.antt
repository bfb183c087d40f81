-- ===== src/Plugin/Extensions/Served.antt =====
-- The answers of `pluginGetExtension` and `hostTemplate_get_extension`.
use wclap_bridge.Base.{
  ℕ, ◌≡◌, ◌≢◌, ◌⊎◌, inl, inr, refl, ap, ◌∙◌, arith, bytes_eq, bytes_eq_refl, Bool, true, false,
  Bool-cases, List, [], ◌∷◌, none, some, ◌==◌, if◌then◌else◌,
}
use native.Mathlib.Decide.{ℕ_discrete}
use wclap_bridge.Plugin.Extensions.{
  PluginExt, HostExt, plugin_exts, host_exts, find_by, Members, set_member, serve,
  plugin_get_extension, null, webview_ptr, host_ptr, as_reply, host_get_extension, ambisonic_ext,
  audio_ports_activation_ext, audio_ports_config_ext, audio_ports_config_info_ext, audio_ports_ext,
  configurable_audio_ports_ext, gui_ext, latency_ext, note_name_ext, note_ports_ext,
  param_indication_ext, params_ext, preset_load_ext, remote_controls_ext, render_ext,
  state_context_ext, state_ext, surround_ext, tail_ext, thread_pool_ext, timer_support_ext,
  track_info_ext, voice_info_ext, webview_ext, ambisonic_host, audio_ports_config_host,
  audio_ports_host, gui_host, latency_host, log_host, note_name_host, note_ports_host, params_host,
  preset_load_host, remote_controls_host, state_host, surround_host, tail_host, thread_check_host,
  thread_pool_host, timer_support_host, track_info_host, voice_info_host,
}

abbrev Listed : {A : Type 0} → A → List A → Type 0
Listed a [] = ◌≡◌ {A = ℕ} 0 1
Listed a (x ∷ xs) = (x ≡ a) ⊎ Listed a xs

-- No two have an id in common.
abbrev pub Distinct : {A : Type 0} → (A → List ℕ) → Type 0
Distinct {A} id_of = (a b : A) → bytes_eq (id_of a) (id_of b) ≡ true → a ≡ b

find_by-Listed :
    {A : Type 0} (id_of : A → List ℕ) (distinct : Distinct id_of) (xs : List A) (a : A)
    → Listed a xs
    → find_by id_of xs (id_of a) ≡ some a
unfolding find_by
find_by-Listed id_of distinct [] a listed = absurd (omega arith)
find_by-Listed id_of distinct (x ∷ xs) a (inl same) = rw same (rw (bytes_eq_refl (id_of a)) refl)
find_by-Listed id_of distinct (x ∷ xs) a (inr later) =
    elim (Bool-cases (bytes_eq (id_of x) (id_of a))) [
      | inl same ↦ rw (same, distinct x a same) refl
      | inr other ↦ rw other (find_by-Listed id_of distinct xs a later)
    ]

plugin_ext-Listed : (e : PluginExt) → Listed e plugin_exts
plugin_ext-Listed ambisonic_ext = inl refl
plugin_ext-Listed audio_ports_activation_ext = inr (inl refl)
plugin_ext-Listed audio_ports_config_ext = inr (inr (inl refl))
plugin_ext-Listed audio_ports_config_info_ext = inr (inr (inr (inl refl)))
plugin_ext-Listed audio_ports_ext = inr (inr (inr (inr (inl refl))))
plugin_ext-Listed configurable_audio_ports_ext = inr (inr (inr (inr (inr (inl refl)))))
plugin_ext-Listed gui_ext = inr (inr (inr (inr (inr (inr (inl refl))))))
plugin_ext-Listed latency_ext = inr (inr (inr (inr (inr (inr (inr (inl refl)))))))
plugin_ext-Listed note_name_ext = inr (inr (inr (inr (inr (inr (inr (inr (inl refl))))))))
plugin_ext-Listed note_ports_ext = inr (inr (inr (inr (inr (inr (inr (inr (inr (inl refl)))))))))
plugin_ext-Listed param_indication_ext =
    inr (inr (inr (inr (inr (inr (inr (inr (inr (inr (inl refl))))))))))
plugin_ext-Listed params_ext =
    inr (inr (inr (inr (inr (inr (inr (inr (inr (inr (inr (inl refl)))))))))))
plugin_ext-Listed preset_load_ext =
    inr (inr (inr (inr (inr (inr (inr (inr (inr (inr (inr (inr (inl refl))))))))))))
plugin_ext-Listed remote_controls_ext =
    inr (inr (inr (inr (inr (inr (inr (inr (inr (inr (inr (inr (inr (inl refl)))))))))))))
plugin_ext-Listed render_ext =
    inr (inr (inr (inr (inr (inr (inr (inr (inr (inr (inr (inr (inr (inr (inl refl))))))))))))))
plugin_ext-Listed state_context_ext =
    inr
      (inr (inr (inr (inr (inr (inr (inr (inr (inr (inr (inr (inr (inr (inr (inl refl)))))))))))))))
plugin_ext-Listed state_ext = inr (
    inr (
      inr (inr (inr (inr (inr (inr (inr (inr (inr (inr (inr (inr (inr (inr (inl refl))))))))))))))))
plugin_ext-Listed surround_ext = inr (
    inr (
      inr (
        inr (
          inr (inr (inr (inr (inr (inr (inr (inr (inr (inr (inr (inr (inr (inl refl)))))))))))))))))
plugin_ext-Listed tail_ext = inr (
    inr (
      inr (
        inr (
          inr (
            inr (
              inr (inr (inr (inr (inr (inr (inr (inr (inr (inr (inr (inr (inl refl))))))))))))))))))
plugin_ext-Listed thread_pool_ext = inr (
    inr (
      inr (
        inr (
          inr (
            inr (
              inr (
                inr (
                  inr (inr (inr (inr (inr (inr (inr (inr (inr (inr (inr (inl refl)))))))))))))))))))
plugin_ext-Listed timer_support_ext = inr (
    inr (
      inr (
        inr (
          inr (
            inr (
              inr (
                inr (
                  inr (
                    inr (
                      inr (inr (inr (inr (inr (inr (inr (inr (inr (inr (inl refl))))))))))))))))))))
plugin_ext-Listed track_info_ext = inr (
    inr (
      inr (
        inr (
          inr (
            inr (
              inr (
                inr (
                  inr (
                    inr (
                      inr (
                        inr (
                          inr (inr (inr (inr (inr (inr (inr (inr (inr (inl refl)))))))))))))))))))))
plugin_ext-Listed voice_info_ext = inr (
    inr (
      inr (
        inr (
          inr (
            inr (
              inr (
                inr (
                  inr (
                    inr (
                      inr (
                        inr (
                          inr (
                            inr (
                              inr (inr (inr (inr (inr (inr (inr (inr (inl refl))))))))))))))))))))))
plugin_ext-Listed webview_ext = inr (
    inr (
      inr (
        inr (
          inr (
            inr (
              inr (
                inr (
                  inr (
                    inr (
                      inr (
                        inr (
                          inr (
                            inr (
                              inr (
                                inr (
                                  inr (inr (inr (inr (inr (inr (inr (inl refl)))))))))))))))))))))))

host_ext-Listed : (e : HostExt) → Listed e host_exts
host_ext-Listed ambisonic_host = inl refl
host_ext-Listed audio_ports_config_host = inr (inl refl)
host_ext-Listed audio_ports_host = inr (inr (inl refl))
host_ext-Listed gui_host = inr (inr (inr (inl refl)))
host_ext-Listed latency_host = inr (inr (inr (inr (inl refl))))
host_ext-Listed log_host = inr (inr (inr (inr (inr (inl refl)))))
host_ext-Listed note_name_host = inr (inr (inr (inr (inr (inr (inl refl))))))
host_ext-Listed note_ports_host = inr (inr (inr (inr (inr (inr (inr (inl refl)))))))
host_ext-Listed params_host = inr (inr (inr (inr (inr (inr (inr (inr (inl refl))))))))
host_ext-Listed preset_load_host = inr (inr (inr (inr (inr (inr (inr (inr (inr (inl refl)))))))))
host_ext-Listed remote_controls_host =
    inr (inr (inr (inr (inr (inr (inr (inr (inr (inr (inl refl))))))))))
host_ext-Listed state_host =
    inr (inr (inr (inr (inr (inr (inr (inr (inr (inr (inr (inl refl)))))))))))
host_ext-Listed surround_host =
    inr (inr (inr (inr (inr (inr (inr (inr (inr (inr (inr (inr (inl refl))))))))))))
host_ext-Listed tail_host =
    inr (inr (inr (inr (inr (inr (inr (inr (inr (inr (inr (inr (inr (inl refl)))))))))))))
host_ext-Listed thread_check_host =
    inr (inr (inr (inr (inr (inr (inr (inr (inr (inr (inr (inr (inr (inr (inl refl))))))))))))))
host_ext-Listed thread_pool_host =
    inr
      (inr (inr (inr (inr (inr (inr (inr (inr (inr (inr (inr (inr (inr (inr (inl refl)))))))))))))))
host_ext-Listed timer_support_host = inr (
    inr (
      inr (inr (inr (inr (inr (inr (inr (inr (inr (inr (inr (inr (inr (inr (inl refl))))))))))))))))
host_ext-Listed track_info_host = inr (
    inr (
      inr (
        inr (
          inr (inr (inr (inr (inr (inr (inr (inr (inr (inr (inr (inr (inr (inl refl)))))))))))))))))
host_ext-Listed voice_info_host = inr (
    inr (
      inr (
        inr (
          inr (
            inr (
              inr (inr (inr (inr (inr (inr (inr (inr (inr (inr (inr (inr (inl refl))))))))))))))))))

serve_lem :
    (id_of : PluginExt → List ℕ) (m : Members) (p : ℕ) (e : PluginExt)
    → let out = serve id_of m p (some e) in (out.0 e ≡ p) × (out.1 ≡ some e)
unfolding serve set_member
serve_lem id_of m p gui_ext = (ground (arith, bytes_eq_refl (id_of gui_ext)), refl)
serve_lem id_of m p e = (rw (bytes_eq_refl (id_of e)) refl, refl)

serve_gui-webview :
    (id_of : PluginExt → List ℕ) (m : Members) (p : ℕ)
    → m webview_ext ≡ 0
    → let out = serve id_of m p (some gui_ext) in (out.0 webview_ext ≡ p) × (out.1 ≡ some gui_ext)
unfolding serve set_member
serve_gui-webview id_of m p none_yet =
    (ground (arith, none_yet, bytes_eq_refl (id_of webview_ext)), refl)

module _ {W : Type 0} (id_of : PluginExt → List ℕ) (call : W → List ℕ → W × ℕ) (w : W) (m : Members)
    (e : PluginExt) (found : find_by id_of plugin_exts (id_of e) ≡ some e) where
  served_null :
      (call w (id_of e)).1 ≡ 0
      → plugin_get_extension id_of call w m (id_of e) ≡ ((call w (id_of e)).0, m, none)
  unfolding plugin_get_extension
  served_null z = rw z refl

  served_some :
      (call w (id_of e)).1 ≢ 0
      → plugin_get_extension id_of call w m (id_of e) ≡ (
        (call w (id_of e)).0,
        (serve id_of m (call w (id_of e)).1 (some e)).0,
        (serve id_of m (call w (id_of e)).1 (some e)).1,
      )
  unfolding plugin_get_extension
  served_some nz =
      let is : ((call w (id_of e)).1 == 0) ≡ false = ground (arith, nz) in rw (found, is) refl

plugin_found :
    (id_of : PluginExt → List ℕ) (distinct : Distinct id_of) (e : PluginExt)
    → find_by id_of plugin_exts (id_of e) ≡ some e
plugin_found id_of distinct e = find_by-Listed id_of distinct plugin_exts e (plugin_ext-Listed e)

-- The extensions have distinct ids. A plugin's host asks for one that the bridge lists. Where the WCLAP has none the answer
-- is null; otherwise it is the bridge's struct, and the member keeps the WCLAP's pointer.
pub get_extension_serves :
    {W : Type 0} (id_of : PluginExt → List ℕ) (distinct : Distinct id_of)
    (call : W → List ℕ → W × ℕ) (w : W) (m : Members) (e : PluginExt)
    → let (w', p) = call w (id_of e) in
      let out = plugin_get_extension id_of call w m (id_of e) in
      ((p ≡ 0) × (out ≡ (w', m, none)))
      ⊎ ((p ≢ 0) × (out.0 ≡ w') × (out.1 e ≡ p) × (out.2 ≡ some e))
get_extension_serves id_of distinct call w m e =
    let found = plugin_found id_of distinct e in
    let (kept, answer) = serve_lem id_of m (call w (id_of e)).1 e in
    elim (ℕ_discrete (call w (id_of e)).1 0) [
      | yes z ↦ inl (z, served_null id_of call w m e found z)
      | no nz ↦
          let out = served_some id_of call w m e found nz in
          inr (nz, ap (λ o. o.0) out, ap (λ o. o.1 e) out ∙ kept, ap (λ o. o.2) out ∙ answer)
    ]

-- The extensions have distinct ids. Where `webviewExt` is null and the WCLAP has a GUI extension, the host's question for it makes
-- the GUI extension's pointer the value of `webviewExt` too.
pub gui_taken_for_webview :
    {W : Type 0} (id_of : PluginExt → List ℕ) (distinct : Distinct id_of)
    (call : W → List ℕ → W × ℕ) (w : W) (m : Members)
    → m webview_ext ≡ 0
    → (call w (id_of gui_ext)).1 ≢ 0
    → let out = plugin_get_extension id_of call w m (id_of gui_ext) in
      (out.1 webview_ext ≡ (call w (id_of gui_ext)).1) × (out.2 ≡ some gui_ext)
gui_taken_for_webview id_of distinct call w m none_yet some_gui =
    let out = served_some id_of call w m gui_ext (plugin_found id_of distinct gui_ext) some_gui in
    let (taken, answer) = serve_gui-webview id_of m (call w (id_of gui_ext)).1 none_yet in
    (ap (λ o. o.1 webview_ext) out ∙ taken, ap (λ o. o.2) out ∙ answer)

-- The host extensions have distinct ids. A WCLAP with a plugin asks for a host extension that the bridge lists, which is not `webview`: it
-- gets the bridge's struct exactly when the native host has the extension, and null otherwise. For
-- `webview` it gets the bridge's struct whatever the host has.
pub host_extension_serves :
    (id_of : HostExt → List ℕ) (distinct : Distinct id_of) (webview_id : List ℕ)
    (native_has : List ℕ → Bool) (e : HostExt)
    → bytes_eq (id_of e) webview_id ≡ false
    → (host_get_extension id_of webview_id true native_has (id_of e)
        ≡ (if native_has (id_of e) then host_ptr e else null))
      × (host_get_extension id_of webview_id true native_has webview_id ≡ webview_ptr)
unfolding host_get_extension as_reply
host_extension_serves id_of distinct webview_id native_has e other =
    ground (
      arith,
      find_by-Listed id_of distinct host_exts e (host_ext-Listed e),
      bytes_eq_refl webview_id,
    )
