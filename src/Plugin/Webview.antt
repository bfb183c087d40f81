-- ===== src/Plugin/Webview.antt =====
-- `webview_get_uri` and the file part of `webview_get_resource` of wclap-plugin.h. A C string or buffer
-- is its bytes; `none` in a result is an access that C++ leaves undefined.
pub mod Served
pub mod Uri
pub mod FileUri
pub mod Page
mod Examples
use wclap_bridge.Base.{
  ℕ, zero, suc, ◌+◌, ◌-◌, ◌*◌, ◌||◌, ◌&&◌, List, [], ◌∷◌, Bool, true, false, not, Option, none,
  some, ltb, leb, ◌==◌, if◌then◌else◌, take, drop, length, get_elem?, bytes_eq, c_str, strncpy,
}
use wclap_bridge.Instance.Paths.{Dirs, map_path}
use wclap_bridge.Plugin.Streams.{Count, count, minus}

-- "trim query/hash"
unfoldable pub trim_query : List ℕ → List ℕ
trim_query [] = []
trim_query (c ∷ cs) =
    let rest = trim_query cs in if (c == b'?') || (c == b'#') then [] else c ∷ rest

-- A file that opens: the size that `tellg` gives, and what reading so many bytes gives.
pub record File : Type 0 where
  pub file_size : ℕ
  pub content : Option (List ℕ)

-- What an `int64_t` adds to the index, 0 where it is not positive.
unfoldable pub taken : Count → ℕ
taken (count n) = n
taken (minus n) = 0

module _ {H : Type 0} (write : H → List ℕ → H × Count) where
  -- The loop that writes to the stream, on the bytes from `index` on; none is no more fuel.
  unfoldable pub write_all : ℕ → H → List ℕ → Option (H × Bool)
  unfolding taken
  write_all fuel h [] = some (h, true)
  write_all zero h (b ∷ bs) = none
  write_all (suc fuel) h (b ∷ bs) =
      let reply = write h (b ∷ bs) in
      let rest = write_all fuel reply.0 (drop (taken reply.1) (b ∷ bs)) in
      if taken reply.1 == 0 then some (reply.0, false) else rest

  -- From the opened file on. Each write that goes on takes a byte, so that the size is fuel enough.
  unfoldable pub serve_file : H → Option File → Option (H × Bool)
  unfolding write_all
  serve_file h none = some (h, false)
  serve_file h (some f) =
      if ltb (100 * 1024 * 1024) f.file_size
      then some (h, false)
      else elim f.content [ none ↦ some (h, false) | some bytes ↦ write_all (length bytes) h bytes ]

  unfoldable pub serve_mapped :
      (List ℕ → Option File)
      → List ℕ
      → List ℕ
      → ℕ
      → H
      → Option (List ℕ)
      → Option (H × List ℕ × Bool)
  unfolding serve_file trim_query
  serve_mapped open_file mime_guess mime mime_capacity h none = some (h, mime, false)
  serve_mapped open_file mime_guess mime mime_capacity h (some mapped) =
      elim (serve_file h (open_file (trim_query mapped))) [
        | none ↦ none
        | some (h', ok) ↦ some (h', strncpy mime mime_guess mime_capacity, ok)
      ]

  -- `webview_get_resource`, of a WCLAP whose web page is a file: the host's stream, the buffer of the
  -- media type, and the result. `guess` is `guessMediaType`.
  unfoldable pub webview_get_file :
      (List ℕ → Option File)
      → (List ℕ → List ℕ)
      → List ℕ
      → Dirs
      → List ℕ
      → List ℕ
      → ℕ
      → H
      → Option (H × List ℕ × Bool)
  unfolding serve_mapped
  webview_get_file open_file guess cwd dirs path mime mime_capacity h =
      serve_mapped open_file (guess path) mime mime_capacity h (map_path cwd dirs path)

-- `while (path[0] == '/' && path[1] == '/') ++path;`: how often; none reads behind the buffer.
unfoldable pub strip_slashes : List ℕ → Option ℕ
strip_slashes [] = none
strip_slashes (c ∷ []) = if c == b'/' then none else some 0
strip_slashes (c ∷ d ∷ cs) =
    let rest = strip_slashes (d ∷ cs) in
    if (c == b'/') && (d == b'/') then elim rest [ none ↦ none | some n ↦ some (suc n) ] else some 0

-- `pathStr`, from the buffer and the length of the URI with its terminator; none throws.
unfoldable pub path_string : List ℕ → ℕ → Option ℕ → Option (List ℕ)
path_string uri result none = none
path_string uri result (some n) =
    if leb (5 + n) (result - 1) then some (take (result - 1 - (5 + n)) (drop (5 + n) uri)) else none

-- `c_str()`, up to the first zero
unfoldable pub until_zero : List ℕ → List ℕ
until_zero [] = []
until_zero (c ∷ cs) = let rest = until_zero cs in if c == 0 then [] else c ∷ rest

-- The end of `webview_get_uri`: whether it is the URI of a file, the host's buffer, and the result.
unfoldable pub keep_path : List ℕ → ℕ → Option (List ℕ) → Option (Bool × List ℕ × ℕ)
unfolding until_zero
keep_path uri capacity none = none
keep_path uri capacity (some path) =
    some (true, strncpy uri (until_zero path) capacity, suc (length path))

unfoldable pub finish_uri : List ℕ → ℕ → ℕ → Option (Bool × List ℕ × ℕ)
unfolding strip_slashes path_string keep_path
finish_uri uri capacity result =
    if ltb (length uri) 5
    then none
    else (if bytes_eq (take 5 uri) (c_str "file:")
        then keep_path uri capacity (path_string uri result (strip_slashes (drop 5 uri)))
        else some (false, uri, result))

-- `if (uri[result] == 0) …`
unfoldable pub check_terminator : List ℕ → ℕ → ℕ → Option (Bool × List ℕ × ℕ)
unfolding finish_uri
check_terminator uri capacity result = elim (get_elem? uri result) [
  | none ↦ none
  | some c ↦ finish_uri uri capacity (if c == 0 then suc result else result)
]

-- `webview_get_uri`, with what the WCLAP left in its buffer of `capacity` bytes and its result: the new
-- `wasFileUri`, the host's buffer, and the result. The host's buffer has `capacity` bytes; without
-- one the code reads through a null pointer.
unfoldable pub webview_get_uri :
    Bool → Option (List ℕ) → ℕ → List ℕ → Count → Option (Bool × Option (List ℕ) × Count)
unfolding check_terminator
webview_get_uri was_file uri capacity filled (minus e) = some (was_file, uri, minus e)
webview_get_uri was_file uri capacity filled (count result) =
    if (result == 0) || ltb capacity result then some (was_file, uri, count result) else (elim uri [
      | none ↦ none
      | some buffer ↦ elim (check_terminator filled capacity result) [
        | none ↦ none
        | some (file, host, n) ↦ some (file, some host, count n)
      ]
    ])
