-- ===== src/Module/Register.antt =====
-- source/_generic/wclap-module.h: `registerHost` and `addHostFunctions`, which put the bridge's host
-- functions into the function table of each instance.
pub mod Consecutive
use wclap_bridge.Base.{
  ℕ, suc, ◌+◌, ◌-◌, ◌^◌, String, c_str, Bool, true, false, not, ◌&&◌, ◌||◌, List, [], ◌∷◌, ◌++◌,
  Option, none, some, if◌then◌else◌, ◌==◌,
}
use wclap_bridge.Module.Failure.{ErrorState, set_error}

-- The host functions, in the order in which they are registered: the struct and its member.
abbrev pub host_functions : List (String × String)
host_functions =
    ("hostTemplate", "get_extension")
    ∷ ("hostTemplate", "request_restart")
    ∷ ("hostTemplate", "request_process")
    ∷ ("hostTemplate", "request_callback")
    ∷ ("inputEventsTemplate", "size")
    ∷ ("inputEventsTemplate", "get")
    ∷ ("outputEventsTemplate", "try_push")
    ∷ ("istreamTemplate", "read")
    ∷ ("ostreamTemplate", "write")
    ∷ ("hostAmbisonic", "changed")
    ∷ ("hostAudioPortsConfig", "rescan")
    ∷ ("hostAudioPorts", "is_rescan_flag_supported")
    ∷ ("hostAudioPorts", "rescan")
    ∷ ("hostGui", "resize_hints_changed")
    ∷ ("hostGui", "request_resize")
    ∷ ("hostGui", "request_show")
    ∷ ("hostGui", "request_hide")
    ∷ ("hostGui", "closed")
    ∷ ("hostLatency", "changed")
    ∷ ("hostLog", "log")
    ∷ ("hostNoteName", "changed")
    ∷ ("hostNotePorts", "supported_dialects")
    ∷ ("hostNotePorts", "rescan")
    ∷ ("hostParams", "rescan")
    ∷ ("hostParams", "clear")
    ∷ ("hostParams", "request_flush")
    ∷ ("hostPresetLoad", "on_error")
    ∷ ("hostPresetLoad", "loaded")
    ∷ ("hostRemoteControls", "changed")
    ∷ ("hostRemoteControls", "suggest_page")
    ∷ ("hostState", "mark_dirty")
    ∷ ("hostSurround", "changed")
    ∷ ("hostTail", "changed")
    ∷ ("hostThreadCheck", "is_main_thread")
    ∷ ("hostThreadCheck", "is_audio_thread")
    ∷ ("hostThreadPool", "request_exec")
    ∷ ("hostTimerSupport", "register_timer")
    ∷ ("hostTimerSupport", "unregister_timer")
    ∷ ("hostTrackInfo", "get")
    ∷ ("hostVoiceInfo", "changed")
    ∷ ("hostWebview", "send")
    ∷ []

-- `wasmFn.wasmPointer == -1`, in the pointer's width
unfoldable pub is_minus_one : Bool → ℕ → Bool
is_minus_one is64 p = if is64 then p == 2 ^ 64 - 1 else p == 2 ^ 32 - 1

-- `registerHost`: the member's new value, and whether to go on. `index` is what
-- `registerHostFunction` returns.
unfoldable pub register_host : Bool → ErrorState → ℕ → ℕ → ErrorState × ℕ × Bool
unfolding is_minus_one
register_host is64 s prev_index index =
    if is_minus_one is64 index
    then (set_error s (c_str "failed to register function"), index, false)
    else (if not (prev_index == 0) && not (index == prev_index)
        then (set_error s (c_str "function index mismatch"), index, false)
        else (s, index, true))

-- `addHostFunctions`: over the members' values, in their order. `register` is what
-- `registerHostFunction` does to the instance, `W`, and the pointer that it returns. It stops at the
-- first that fails. The result has the instance, the members' new values, and what is returned.
unfoldable pub add_host_functions :
    {W : Type 0} → (W → W × ℕ) → Bool → ErrorState → W → List ℕ → ErrorState × W × List ℕ × Bool
unfolding register_host
add_host_functions register is64 s w [] = (s, w, [], true)
add_host_functions register is64 s w (prev ∷ prevs) =
    let (w', index) = register w in
    let (s', value, go_on) = register_host is64 s prev index in
    let rest = add_host_functions register is64 s' w' prevs in
    if go_on then (rest.0, rest.1, value ∷ rest.2, rest.3) else (s', w', value ∷ prevs, false)
