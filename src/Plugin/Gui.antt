-- ===== src/Plugin/Gui.antt =====
-- The GUI methods of wclap-plugin.h, `gui_is_api_supported` to `gui_hide`: a window of the native
-- library `webviewGui`, and the WCLAP's own GUI behind `guiExt`. The window was given the plugin by
-- `init` and may call it, so both work on one state, `S`. A `double` is its bits, a handle of a window a
-- number, and resize hints are the bytes of their struct.
use wclap_bridge.Base.{ℕ, Bool, true, false, List, Option, none, some, if◌then◌else◌}

-- The methods of the window; `Bool × ℕ × ℕ` is a result and the width and height that stand in
-- the caller's variables afterwards. `adjust_size` and those named `get_` also take what stands in the
-- variables that they are to fill.
pub record WebviewGui (S : Type 0) : Type 0 where
  pub is_api_supported : S → List ℕ → Bool → S × Bool
  pub get_preferred_api : S → List ℕ → Bool → S × Bool × List ℕ × Bool
  pub create : S → List ℕ → Bool → S × Bool
  pub destroy : S → S
  pub set_scale : S → ℕ → S × Bool
  pub get_size : S → ℕ → ℕ → S × Bool × ℕ × ℕ
  pub can_resize : S → S × Bool
  pub get_resize_hints : S → List ℕ → S × Bool × List ℕ
  pub adjust_size : S → ℕ → ℕ → S × Bool × ℕ × ℕ
  pub set_size : S → ℕ → ℕ → S × Bool
  pub set_parent : S → ℕ → S × Bool
  pub set_transient : S → ℕ → S × Bool
  pub suggest_title : S → List ℕ → S
  pub show : S → S × Bool
  pub hide : S → S × Bool

-- The calls of the WCLAP through `guiExt`, as `mainThread` answers them. Numbers and hints go across in
-- an arena, which holds what the call gets and then what it leaves.
pub record WclapGui (S : Type 0) : Type 0 where
  pub ext_create : S → List ℕ → Bool → S × Bool
  pub ext_destroy : S → S
  pub ext_get_size : S → ℕ → ℕ → S × Bool × ℕ × ℕ
  pub ext_can_resize : S → S × Bool
  pub ext_get_resize_hints : S → List ℕ → S × Bool × List ℕ
  pub ext_adjust_size : S → ℕ → ℕ → S × Bool × ℕ × ℕ
  pub ext_set_size : S → ℕ → ℕ → S × Bool
  pub ext_suggest_title : S → List ℕ → S
  pub ext_show : S → S × Bool
  pub ext_hide : S → S × Bool

-- `guiExt`, where it is not null.
abbrev pub GuiExt : Type 0 → Type 0
GuiExt S = Option (WclapGui S)

-- The methods that only pass the call on to the window.
unfoldable pub gui_is_api_supported : {S : Type 0} → WebviewGui S → S → List ℕ → Bool → S × Bool
gui_is_api_supported g n api is_floating = g.is_api_supported n api is_floating

unfoldable pub gui_get_preferred_api :
    {S : Type 0} → WebviewGui S → S → List ℕ → Bool → S × Bool × List ℕ × Bool
gui_get_preferred_api g n api is_floating = g.get_preferred_api n api is_floating

unfoldable pub gui_set_scale : {S : Type 0} → WebviewGui S → S → ℕ → S × Bool
gui_set_scale g n scale = g.set_scale n scale

unfoldable pub gui_set_parent : {S : Type 0} → WebviewGui S → S → ℕ → S × Bool
gui_set_parent g n window = g.set_parent n window

unfoldable pub gui_set_transient : {S : Type 0} → WebviewGui S → S → ℕ → S × Bool
gui_set_transient g n window = g.set_transient n window

-- Calls of the WCLAP whose result is dropped.
unfoldable pub tell : {S : Type 0} → GuiExt S → (WclapGui S → S → S) → S → S
tell none call s = s
tell (some x) call s = call x s

-- `gui_create`; `api_webview` is CLAP_WINDOW_API_WEBVIEW.
unfoldable pub gui_create :
    {S : Type 0} → WebviewGui S → GuiExt S → List ℕ → S → List ℕ → Bool → S × Bool
unfolding tell
gui_create g ext api_webview s api is_floating =
    let (s', created) = g.create s api is_floating in
    if created
    then (tell ext (λ x v. (x.ext_create v api_webview is_floating).0) s', true)
    else (s', false)

unfoldable pub gui_destroy : {S : Type 0} → WebviewGui S → GuiExt S → S → S
unfolding tell
gui_destroy g ext s = g.destroy (tell ext (λ x v. x.ext_destroy v) s)

-- `gui_get_size`, of variables that hold `width` and `height`.
unfoldable pub gui_get_size : {S : Type 0} → WebviewGui S → GuiExt S → S → ℕ → ℕ → S × Bool × ℕ × ℕ
gui_get_size g none s width height = g.get_size s width height
gui_get_size g (some x) s width height =
    let (s', ok, wide, high) = x.ext_get_size s 0 0 in
    if ok then ((g.set_size s' wide high).0, true, wide, high) else g.get_size s' width height

unfoldable pub gui_can_resize : {S : Type 0} → WebviewGui S → GuiExt S → S → S × Bool
gui_can_resize g none s = g.can_resize s
gui_can_resize g (some x) s = x.ext_can_resize s

-- `gui_get_resize_hints`; `zeros` is an empty struct of hints.
unfoldable pub gui_get_resize_hints :
    {S : Type 0} → WebviewGui S → GuiExt S → List ℕ → S → List ℕ → S × Bool × List ℕ
gui_get_resize_hints g none zeros s hints = g.get_resize_hints s hints
gui_get_resize_hints g (some x) zeros s hints =
    let (s', ok, left) = x.ext_get_resize_hints s zeros in
    if ok then (s', true, left) else g.get_resize_hints s' hints

unfoldable pub gui_adjust_size :
    {S : Type 0} → WebviewGui S → GuiExt S → S → ℕ → ℕ → S × Bool × ℕ × ℕ
gui_adjust_size g none s width height = g.adjust_size s width height
gui_adjust_size g (some x) s width height =
    let (s', ok, wide, high) = x.ext_adjust_size s width height in
    if ok then (s', true, wide, high) else g.adjust_size s' width height

-- `gui_set_size`, `gui_suggest_title`, `gui_show` and `gui_hide`: the WCLAP is told, and the window
-- answers.
unfoldable pub gui_set_size : {S : Type 0} → WebviewGui S → GuiExt S → S → ℕ → ℕ → S × Bool
unfolding tell
gui_set_size g ext s width height =
    g.set_size (tell ext (λ x v. (x.ext_set_size v width height).0) s) width height

unfoldable pub gui_suggest_title : {S : Type 0} → WebviewGui S → GuiExt S → S → List ℕ → S
unfolding tell
gui_suggest_title g ext s title =
    g.suggest_title (tell ext (λ x v. x.ext_suggest_title v title) s) title

unfoldable pub gui_show : {S : Type 0} → WebviewGui S → GuiExt S → S → S × Bool
unfolding tell
gui_show g ext s = g.show (tell ext (λ x v. (x.ext_show v).0) s)

unfoldable pub gui_hide : {S : Type 0} → WebviewGui S → GuiExt S → S → S × Bool
unfolding tell
gui_hide g ext s = g.hide (tell ext (λ x v. (x.ext_hide v).0) s)
