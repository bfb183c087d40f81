-- ===== src/Plugin/Webview/Page.antt =====
-- From the URI of a web page to its file: `webview_get_uri` of wclap-plugin.h and `mapPath` of
-- wclap-instance-wasmtime.h.
use wclap_bridge.Base.{
  ℕ, suc, ◌+◌, ◌≡◌, ◌≢◌, refl, ap, ◌∙◌, Bool, true, List, ◌∷◌, ◌++◌, Option, some, arith, length,
  c_str, inl, bytes_eq, bytes_eq_refl, take, drop, take-length-append, drop-length-append,
}
use wclap_bridge.Instance.Paths.{
  Dirs, map_path, test_prefix, join_path, is_absolute, absolute, plugin_prefix, presets_prefix,
  cache_prefix, var_prefix, or_else,
}
use wclap_bridge.Module.Failure.Reading.{read_c_str, IsText}
use wclap_bridge.Plugin.Streams.{count}
use wclap_bridge.Plugin.Webview.{webview_get_uri}
use wclap_bridge.Plugin.Webview.FileUri.{uri_bytes, uri_room, IsRelative, get_uri_file}

test_plugin :
    (dir rest : List ℕ)
    → test_prefix (plugin_prefix ++ rest) (plugin_prefix ++ rest) (some dir) plugin_prefix
      ≡ some (join_path dir rest)
unfolding test_prefix
test_plugin dir rest =
    let same : bytes_eq (take (length plugin_prefix) (plugin_prefix ++ rest)) plugin_prefix ≡ true =
      ap (λ t. bytes_eq t plugin_prefix) (take-length-append plugin_prefix rest)
      ∙ bytes_eq_refl plugin_prefix in
    rw (same, test_prefix)
      (ap (λ t. some (join_path dir t)) (drop-length-append plugin_prefix rest))

map_path_plugin :
    (cwd : List ℕ) (d : Dirs) (dir rest : List ℕ)
    → d.wclap_dir ≡ some dir
    → map_path cwd d (plugin_prefix ++ rest) ≡ some (join_path dir rest)
unfolding map_path absolute is_absolute c_str
map_path_plugin cwd d dir rest given =
    let v : List ℕ = plugin_prefix ++ rest in
    let others : Option (List ℕ) =
      or_else (test_prefix v v d.preset_dir presets_prefix) (
        or_else (test_prefix v v d.cache_dir cache_prefix)
          (test_prefix v v d.var_dir var_prefix)) in
    ap (λ (o : Option (List ℕ)). or_else (test_prefix v v o plugin_prefix) others) given
    ∙ ap (λ o. or_else o others) (test_plugin dir rest)

nonzero : (n : ℕ) → suc n ≢ 0
nonzero n e = absurd (omega (arith, e))

plugin_path-IsText : (rest : List ℕ) → IsText rest → IsText (drop 1 plugin_prefix ++ rest)
unfolding c_str
plugin_path-IsText rest h = (
  nonzero _,
  (
    nonzero _,
    (
      nonzero _,
      (
        nonzero _,
        (
          nonzero _,
          (
            nonzero _,
            (
              nonzero _,
              (nonzero _, (nonzero _, (nonzero _, (nonzero _, (nonzero _, (nonzero _, h)))))),
            ),
          ),
        ),
      ),
    ),
  ),
)

plugin_path-IsRelative : (rest : List ℕ) → IsRelative (drop 1 plugin_prefix ++ rest)
unfolding c_str
plugin_path-IsRelative rest e = absurd (omega (arith, e))

-- A WCLAP that leaves the URI of a file of its bundle in the buffer, `file:` with slashes and
-- `/plugin.wclap/` in front of the file's path, terminated, and returns the length
-- without the terminator: the path that the host reads back, given to `mapPath` of an instance with a
-- directory of the bundle, names that file in the directory.
pub page_found :
    (cwd : List ℕ) (d : Dirs) (dir rest tail : List ℕ) (k : ℕ) (was_file : Bool) (buffer : List ℕ)
    → d.wclap_dir ≡ some dir
    → IsText rest
    → let uri : List ℕ = uri_bytes k (drop 1 plugin_prefix ++ rest) tail in
      (host : List ℕ) × (page : List ℕ) × (webview_get_uri was_file
          (some buffer)
          (length uri)
          uri
          (count (5 + (k + length (plugin_prefix ++ rest))))
        ≡ some (true, some host, count (suc (length page))))
      × (read_c_str host ≡ some page)
      × (map_path cwd d page ≡ some (join_path dir rest))
unfolding c_str
page_found cwd d dir rest tail k was_file buffer given text =
    let path : List ℕ = drop 1 plugin_prefix ++ rest in
    let (host, answer, read) =
      get_uri_file k path tail (plugin_path-IsRelative rest) (plugin_path-IsText rest text) was_file
        buffer (length (uri_bytes k path tail)) (5 + (k + length (b'/' ∷ path))) refl
        (uri_room k path tail) (inl refl) in
    (host, b'/' ∷ path, answer, read, map_path_plugin cwd d dir rest given)
