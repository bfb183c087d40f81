-- ===== src/Plugin/Webview/FileUri.antt =====
-- `webview_get_uri` of wclap-plugin.h, of a URI that names a file.
use wclap_bridge.Base.{
  ℕ, zero, suc, ◌+◌, ◌-◌, ◌≤◌, ◌<◌, ◌≡◌, ◌≢◌, ◌⊎◌, inl, inr, refl, sym, ap, ◌∙◌, Bool, true, false,
  List, [], ◌∷◌, ◌++◌, append_assoc, some, arith, take, drop, length, length-append, get_elem?,
  bytes_eq, c_str, strncpy, ◌==◌, ◌||◌, ltb, leb, take-length-append,
}
use wclap_bridge.Module.Failure.Reading.{read_c_str, IsText}
use wclap_bridge.Plugin.Streams.{count}
use wclap_bridge.Plugin.Webview.{
  strip_slashes, path_string, until_zero, keep_path, finish_uri, check_terminator, webview_get_uri,
}

abbrev pub slashes : ℕ → List ℕ
slashes zero = []
slashes (suc k) = b'/' ∷ slashes k

-- The first byte is there, and no slash.
abbrev pub NoSlash : List ℕ → Type 0
NoSlash [] = ⊥
NoSlash (c ∷ cs) = c ≢ b'/'

strip_one : (rest : List ℕ) → NoSlash rest → strip_slashes (b'/' ∷ rest) ≡ some 0
unfolding strip_slashes
strip_one [] h = absurd h
strip_one (c ∷ cs) h = ground (arith, h)

strip_more :
    (c : ℕ) (rest : List ℕ) (n : ℕ)
    → strip_slashes (b'/' ∷ rest) ≡ some n
    → strip_slashes (b'/' ∷ b'/' ∷ rest) ≡ some (suc n)
unfolding strip_slashes
strip_more c rest n h = rw h

strip_all :
    (k : ℕ) (rest : List ℕ) → NoSlash rest → strip_slashes (slashes k ++ (b'/' ∷ rest)) ≡ some k
strip_all zero rest h = strip_one rest h
strip_all (suc zero) rest h = strip_more 0 rest 0 (strip_one rest h)
strip_all (suc (suc k)) rest h =
    strip_more 0 (slashes k ++ (b'/' ∷ rest)) (suc k) (strip_all (suc k) rest h)

drop_sum : (m k n : ℕ) (xs : List ℕ) → m ≡ k + n → drop m xs ≡ drop n (drop k xs)
drop_sum m zero n xs e = ap (λ i. drop i xs) (omega (arith, e))
drop_sum zero (suc k) n xs e = absurd (omega (arith, e))
drop_sum (suc m) (suc k) zero [] e = refl
drop_sum (suc m) (suc k) (suc n) [] e = refl
drop_sum (suc m) (suc k) n (x ∷ xs) e = drop_sum m k n xs (omega (arith, e))

drop-slashes : (k : ℕ) (rest : List ℕ) → drop k (slashes k ++ rest) ≡ rest
drop-slashes zero rest = refl
drop-slashes (suc k) rest = drop-slashes k rest

until_zero_text : (text : List ℕ) → IsText text → until_zero text ≡ text
unfolding until_zero
until_zero_text [] h = refl
until_zero_text (c ∷ cs) (nz, h) = ground (arith, nz, until_zero_text cs h)

-- A text that `strncpy` copies with room for its terminator is read back.
read-strncpy :
    (buffer text : List ℕ) (n : ℕ)
    → IsText text
    → length text < n
    → n ≤ length buffer
    → read_c_str (strncpy buffer text n) ≡ some text
unfolding read_c_str strncpy
read-strncpy [] text n h lt le = absurd (omega arith)
read-strncpy (b ∷ buffer) [] zero h lt le = absurd (omega arith)
read-strncpy (b ∷ buffer) [] (suc n) h lt le = refl
read-strncpy (b ∷ buffer) (c ∷ text) zero h lt le = absurd (omega arith)
read-strncpy (b ∷ buffer) (c ∷ text) (suc n) (nz, h) lt le =
    ground (arith, nz, read-strncpy buffer text n h (omega arith) (omega arith))

get_elem?-here : (xs ys : List ℕ) (x : ℕ) → get_elem? (xs ++ (x ∷ ys)) (length xs) ≡ some x
get_elem?-here [] ys x = refl
get_elem?-here (z ∷ xs) ys x = get_elem?-here xs ys x

-- A path that does not begin with a slash.
abbrev pub IsRelative : List ℕ → Type 0
IsRelative [] = Unit {0}
IsRelative (c ∷ cs) = c ≢ b'/'

relative-NoSlash : (path tail : List ℕ) → IsRelative path → NoSlash (path ++ (0 ∷ tail))
relative-NoSlash [] tail h = λ e. absurd (omega (arith, e))
relative-NoSlash (c ∷ cs) tail h = h

-- The URI in its buffer, with slashes, a slash and a path, the terminator, and what stands behind.
unfoldable pub uri_bytes : ℕ → List ℕ → List ℕ → List ℕ
uri_bytes k path tail = c_str "file:" ++ (slashes k ++ ((b'/' ∷ path) ++ (0 ∷ tail)))

finish_when :
    (uri : List ℕ) (capacity r : ℕ)
    → ltb (length uri) 5 ≡ false
    → bytes_eq (take 5 uri) (c_str "file:") ≡ true
    → finish_uri uri capacity r
      ≡ keep_path uri capacity (path_string uri r (strip_slashes (drop 5 uri)))
unfolding finish_uri
finish_when uri capacity r long file = rw (long, file, finish_uri)

not_short : (n : ℕ) → ltb (suc (suc (suc (suc (suc n))))) 5 ≡ false
not_short n = ground arith

keep_text :
    (uri path : List ℕ) (capacity : ℕ)
    → IsText path
    → keep_path uri capacity (some path) ≡ some (true, strncpy uri path capacity, suc (length path))
unfolding keep_path
keep_text uri path capacity text = rw (until_zero_text path text, keep_path)

check_zero :
    (filled : List ℕ) (capacity r : ℕ)
    → get_elem? filled r ≡ some 0
    → check_terminator filled capacity r ≡ finish_uri filled capacity (suc r)
unfolding check_terminator
check_zero filled capacity r at = rw (at, check_terminator)

check_other :
    (filled : List ℕ) (capacity r c : ℕ)
    → get_elem? filled r ≡ some c
    → c ≢ 0
    → check_terminator filled capacity r ≡ finish_uri filled capacity r
unfolding check_terminator
check_other filled capacity r zero at ne = absurd (ne refl)
check_other filled capacity r (suc c) at ne =
    let not_zero : (suc c == 0) ≡ false = ground arith in rw (at, not_zero, check_terminator)

length-slashes : (k : ℕ) → length (slashes k) ≡ k
length-slashes zero = refl
length-slashes (suc k) = ap suc (length-slashes k)

-- The answer, once the terminator has been looked for.
get_when :
    (was_file : Bool) (buffer filled host : List ℕ) (capacity result n : ℕ)
    → 0 < result
    → result ≤ capacity
    → check_terminator filled capacity result ≡ some (true, host, n)
    → webview_get_uri was_file (some buffer) capacity filled (count result)
      ≡ some (true, some host, count n)
unfolding webview_get_uri
get_when was_file buffer filled host capacity result n pos le e =
    let in_range : ((result == 0) || ltb capacity result) ≡ false = ground arith in
    rw (in_range, e, webview_get_uri)

-- The buffer holds the terminator.
pub uri_room :
    (k : ℕ) (path tail : List ℕ) → 5 + (k + length (b'/' ∷ path)) ≤ length (uri_bytes k path tail)
unfolding uri_bytes c_str
uri_room k path tail =
    let p : List ℕ = b'/' ∷ path in
    omega (
      arith,
      length-append (slashes k) (p ++ (0 ∷ tail)),
      length-append p (0 ∷ tail),
      length-slashes k,
    )

module _ (k : ℕ) (path tail : List ℕ) (relative : IsRelative path) (text : IsText path) where
  slash_path-IsText : IsText (b'/' ∷ path)
  slash_path-IsText = (λ e. absurd (omega (arith, e)), text)

  uri_drop : drop (5 + k) (uri_bytes k path tail) ≡ (b'/' ∷ path) ++ (0 ∷ tail)
  unfolding uri_bytes c_str
  uri_drop =
      drop_sum (5 + k) 5 k (uri_bytes k path tail) refl
      ∙ drop-slashes k ((b'/' ∷ path) ++ (0 ∷ tail))

  uri_strip : strip_slashes (drop 5 (uri_bytes k path tail)) ≡ some k
  unfolding uri_bytes c_str
  uri_strip = strip_all k (path ++ (0 ∷ tail)) (relative-NoSlash path tail relative)

  uri_path :
      (r : ℕ)
      → r ≡ 6 + (k + length (b'/' ∷ path))
      → path_string (uri_bytes k path tail) r (some k) ≡ some (b'/' ∷ path)
  unfolding path_string
  uri_path r e =
      let enough : leb (5 + k) (r - 1) ≡ true = ground (arith, e) in
      let size : r - 1 - (5 + k) ≡ length (b'/' ∷ path) = omega (arith, e) in
      rw (enough, size, uri_drop) (ap some (take-length-append (b'/' ∷ path) (0 ∷ tail)))

  finish_file :
      (capacity r : ℕ)
      → r ≡ 6 + (k + length (b'/' ∷ path))
      → finish_uri (uri_bytes k path tail) capacity r
        ≡ some (
          true,
          strncpy (uri_bytes k path tail) (b'/' ∷ path) capacity,
          suc (length (b'/' ∷ path)),
        )
  unfolding uri_bytes c_str bytes_eq
  finish_file capacity r e =
      let uri = uri_bytes k path tail in
      finish_when uri capacity r (not_short _) refl
      ∙ (ap (λ s. keep_path uri capacity (path_string uri r s)) uri_strip
          ∙ (ap (keep_path uri capacity) (uri_path r e)
              ∙ keep_text uri (b'/' ∷ path) capacity slash_path-IsText))

  -- Where the terminator stands.
  uri_end : get_elem? (uri_bytes k path tail) (5 + (k + length (b'/' ∷ path))) ≡ some 0
  unfolding uri_bytes c_str
  uri_end =
      let p : List ℕ = b'/' ∷ path in
      let before : List ℕ = c_str "file:" ++ (slashes k ++ p) in
      let same : uri_bytes k path tail ≡ before ++ (0 ∷ tail) =
        ap (λ x. c_str "file:" ++ x) (sym (append_assoc (slashes k) p (0 ∷ tail)))
        ∙ sym (append_assoc (c_str "file:") (slashes k ++ p) (0 ∷ tail)) in
      let size : length before ≡ 5 + (k + length p) =
        omega (arith, length-append (slashes k) p, length-slashes k) in
      ap (λ u. get_elem? u (5 + (k + length p))) same
      ∙ (ap (get_elem? (before ++ (0 ∷ tail))) (sym size) ∙ get_elem?-here before tail 0)

  -- A WCLAP that leaves a terminated URI of a file in its buffer, with a path that has one slash or more
  -- in front, and returns its length, either without the terminator or with it where no zero follows: the
  -- host gets the path with one slash, as a C string, and its length with the terminator, and the bridge
  -- notes that the page is a file.
  pub get_uri_file :
      (was_file : Bool) (buffer : List ℕ) (capacity result : ℕ)
      → capacity ≡ length (uri_bytes k path tail)
      → result ≤ capacity
      → (result ≡ 5 + (k + length (b'/' ∷ path)))
        ⊎ ((result ≡ 6 + (k + length (b'/' ∷ path)))
            × (c : ℕ) × (get_elem? (uri_bytes k path tail) result ≡ some c)
            × (c ≢ 0))
      → (host : List ℕ) × (webview_get_uri was_file
            (some buffer)
            capacity
            (uri_bytes k path tail)
            (count result)
          ≡ some (true, some host, count (suc (length (b'/' ∷ path)))))
        × (read_c_str host ≡ some (b'/' ∷ path))
  get_uri_file was_file buffer capacity result cap le how =
      let uri = uri_bytes k path tail in
      let p : List ℕ = b'/' ∷ path in
      let checked : check_terminator uri capacity result
          ≡ some (true, strncpy uri p capacity, suc (length p)) =
        elim how [
          | inl short ↦
              check_zero uri capacity result (ap (get_elem? uri) short ∙ uri_end)
              ∙ finish_file capacity (suc result) (omega (arith, short))
          | inr (full, c, at, ne) ↦
              check_other uri capacity result c at ne ∙ finish_file capacity result full
        ] in
      (
        strncpy uri p capacity,
        get_when was_file buffer uri (strncpy uri p capacity) capacity result (suc (length p))
            (elim how [
              | inl short ↦ omega (arith, short)
              | inr (full, c, at, ne) ↦ omega (arith, full)
            ])
            le checked,
        read-strncpy uri p capacity slash_path-IsText
            (elim how [
              | inl short ↦ omega (arith, short, le)
              | inr (full, c, at, ne) ↦ omega (arith, full, le)
            ])
            (omega (arith, cap)),
      )
