-- ===== src/Plugin/Webview/Examples.antt =====
-- The theorems on the web page of a plugin, each at a concrete input.
use wclap_bridge.Base.{
  ℕ, ◌≡◌, ◌≢◌, ◌⊎◌, refl, true, false, Bool, List, [], ◌∷◌, ◌++◌, drop, ◌+◌, suc, Option, none,
  some, arith, take, length, c_str,
}
use wclap_bridge.Instance.Paths.{Dirs, map_path, join_path, plugin_prefix}
use wclap_bridge.Plugin.Streams.{Count, count}
use wclap_bridge.Plugin.Webview.{File, taken, trim_query, webview_get_file, webview_get_uri}
use wclap_bridge.Plugin.Webview.Served.{webview_get_file_ends, Readable, Written, IsStream}
use wclap_bridge.Plugin.Webview.Uri.{get_uri_outside}
use wclap_bridge.Plugin.Webview.FileUri.{uri_bytes}
use wclap_bridge.Plugin.Webview.Page.{page_found}
use wclap_bridge.Module.Failure.Reading.{read_c_str, IsText}

abbrev dirs : Dirs
dirs = record { wclap_dir = some (c_str "/w"); preset_dir = none; cache_dir = none; var_dir = none }

-- A stream that takes two bytes at a time.
abbrev write : List ℕ → List ℕ → List ℕ × Count
write h bytes = (h ++ take 2 bytes, count (length (take 2 bytes)))

write-IsStream : IsStream write (λ h. h)
unfolding taken
write-IsStream h [] = (omega arith, refl)
write-IsStream h (x ∷ []) = (omega arith, refl)
write-IsStream h (x ∷ y ∷ bytes) = (omega arith, refl)

abbrev open_file : List ℕ → Option File
open_file path = some (record { file_size = 3; content = some (1 ∷ 2 ∷ 3 ∷ []) })

abbrev guess : List ℕ → List ℕ
guess path = c_str "text/html"

webview_get_file_ends_example :
    (h' : List ℕ) × (mime' : List ℕ) × (ok : Bool) × (webview_get_file write open_file guess
        (c_str "/")
        dirs
        (c_str "/plugin.wclap/a.html?x")
        (0 ∷ 0 ∷ [])
        2
        (9 ∷ [])
      ≡ some (h', mime', ok))
    × (((ok ≡ false) × (h' ≡ 9 ∷ []))
        ⊎ ((mapped : List ℕ) × (bytes : List ℕ) × (map_path
                (c_str "/")
                dirs
                (c_str "/plugin.wclap/a.html?x")
              ≡ some mapped)
            × Readable write (λ h. h) (open_file (trim_query mapped)) bytes
            × Written write (λ h. h) (9 ∷ []) bytes (h', ok)))
webview_get_file_ends_example =
    webview_get_file_ends write (λ h. h) open_file guess (c_str "/") dirs
      (c_str "/plugin.wclap/a.html?x") (0 ∷ 0 ∷ []) 2 (9 ∷ []) write-IsStream

-- A buffer of eight bytes, which the URI fills with its terminator.
get_uri_outside_example :
    (webview_get_uri false (some []) 8 (c_str "file:/a" ++ (0 ∷ [])) (count 8) ≡ none)
    × (webview_get_uri false none 8 (c_str "file:/a" ++ (0 ∷ [])) (count 3) ≡ none)
unfolding c_str
get_uri_outside_example =
    get_uri_outside false [] (c_str "file:/a" ++ (0 ∷ [])) 7 2 refl (omega arith)

nonzero : (n : ℕ) → suc n ≢ 0
nonzero n e = absurd (omega (arith, e))

ui_html-IsText : IsText (c_str "ui.html")
unfolding c_str
ui_html-IsText =
    (nonzero _, (nonzero _, (nonzero _, (nonzero _, (nonzero _, (nonzero _, (nonzero _, tt)))))))

-- The page "ui.html" of the bundle in "/w".
page_found_example :
    (host : List ℕ) × (page : List ℕ) × (webview_get_uri false
        (some [])
        (length (uri_bytes 2 (drop 1 plugin_prefix ++ c_str "ui.html") []))
        (uri_bytes 2 (drop 1 plugin_prefix ++ c_str "ui.html") [])
        (count (5 + (2 + length (plugin_prefix ++ c_str "ui.html"))))
      ≡ some (true, some host, count (suc (length page))))
    × (read_c_str host ≡ some page)
    × (map_path (c_str "/") dirs page ≡ some (join_path (c_str "/w") (c_str "ui.html")))
page_found_example =
    page_found (c_str "/") dirs (c_str "/w") (c_str "ui.html") [] 2 false [] refl ui_html-IsText
