-- ===== src/Plugin/Webview/Uri.antt =====
-- `webview_get_uri` of wclap-plugin.h: where it reads.
use wclap_bridge.Base.{
  ℕ, suc, ◌≤◌, ◌≡◌, refl, List, [], ◌∷◌, Bool, none, some, arith, length, get_elem?,
}
use wclap_bridge.Plugin.Streams.{count}
use wclap_bridge.Plugin.Webview.{webview_get_uri, check_terminator}

get_elem?-length : (xs : List ℕ) → get_elem? xs (length xs) ≡ none
get_elem?-length [] = refl
get_elem?-length (x ∷ xs) = get_elem?-length xs

check_at_end : (filled : List ℕ) (n : ℕ) → check_terminator filled (suc n) (length filled) ≡ none
unfolding check_terminator
check_at_end filled n = rw (get_elem?-length filled, check_terminator)

-- With a buffer of `suc n` bytes, of which the WCLAP says that its URI takes up all: the terminator is
-- looked for behind the buffer. Without a buffer of the host's, every positive result within the
-- capacity makes the function read through a null pointer.
pub get_uri_outside :
    (was_file : Bool) (buffer filled : List ℕ) (n result : ℕ)
    → length filled ≡ suc n
    → suc result ≤ suc n
    → (webview_get_uri was_file (some buffer) (suc n) filled (count (suc n)) ≡ none)
      × (webview_get_uri was_file none (suc n) filled (count (suc result)) ≡ none)
unfolding webview_get_uri
get_uri_outside was_file buffer filled n result full within =
    let at_end : check_terminator filled (suc n) (suc n) ≡ none =
      rw full at (check_at_end filled n) in
    (ground (arith, at_end), ground arith)
