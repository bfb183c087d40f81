-- ===== src/Plugin/Webview/Served.antt =====
-- `webview_get_resource` of wclap-plugin.h, for files: what the host's stream gets.
use wclap_bridge.Base.{
  ℕ, zero, suc, ◌+◌, ◌≤◌, ◌<◌, ◌*◌, ◌≡◌, ◌⊎◌, inl, inr, refl, sym, ap, ◌∙◌, List, [], ◌∷◌, ◌++◌,
  Bool, true, false, Option, none, some, arith, take, drop, length, ◌==◌, append-nil, append_assoc,
  length-drop, ltb, strncpy, Option-cases, take-append-drop,
}
use wclap_bridge.Instance.Paths.{Dirs, map_path}
use wclap_bridge.Plugin.Streams.{Count}
use wclap_bridge.Plugin.Webview.{
  File, trim_query, taken, write_all, serve_file, serve_mapped, webview_get_file,
}

zero-or-suc : (n : ℕ) → (n ≡ 0) ⊎ ((k : ℕ) × (n ≡ suc k))
zero-or-suc zero = inl refl
zero-or-suc (suc k) = inr (k, refl)

take_sum : (m k n : ℕ) (xs : List ℕ) → m ≡ k + n → take m xs ≡ take k xs ++ take n (drop k xs)
take_sum m zero n xs e = ap (λ i. take i xs) (omega (arith, e))
take_sum zero (suc k) n xs e = absurd (omega (arith, e))
take_sum (suc m) (suc k) zero [] e = refl
take_sum (suc m) (suc k) (suc n) [] e = refl
take_sum (suc m) (suc k) n (x ∷ xs) e = ap (λ t. x ∷ t) (take_sum m k n xs (omega (arith, e)))

small_enough : (size : ℕ) → size ≤ 100 * 1024 * 1024 → ltb (100 * 1024 * 1024) size ≡ false
small_enough size h = ground arith

le-or-lt : (a b : ℕ) → (a ≤ b) ⊎ (b < a)
le-or-lt a b = ground arith

suc-ne_zero : (k : ℕ) → (suc k == 0) ≡ false
suc-ne_zero k = ground arith

module _ {H : Type 0} (write : H → List ℕ → H × Count) (content : H → List ℕ) where
  -- A host's stream: a write takes a beginning of the bytes that it is given, as long as it says.
  abbrev pub IsStream : Type 0
  IsStream =
      (h : H) (bytes : List ℕ)
      → (taken (write h bytes).1 ≤ length bytes)
        × (content (write h bytes).0 ≡ content h ++ take (taken (write h bytes).1) bytes)

  write_step :
      (fuel : ℕ) (h : H) (b : ℕ) (bs : List ℕ)
      → taken (write h (b ∷ bs)).1 ≡ 0
      → write_all write (suc fuel) h (b ∷ bs) ≡ some ((write h (b ∷ bs)).0, false)
  unfolding write_all
  write_step fuel h b bs stopped = ground arith

  write_more :
      (fuel : ℕ) (h : H) (b k : ℕ) (bs : List ℕ)
      → taken (write h (b ∷ bs)).1 ≡ suc k
      → write_all write (suc fuel) h (b ∷ bs)
        ≡ write_all write fuel (write h (b ∷ bs)).0 (drop k bs)
  unfolding write_all
  write_more fuel h b k bs more = rw (more, suc-ne_zero k)

  -- What the stream has after the loop.
  abbrev pub Written : H → List ℕ → H × Bool → Type 0
  Written h bytes (h', ok) =
      ((ok ≡ true) × (content h' ≡ content h ++ bytes))
      ⊎ ((ok ≡ false) × (n : ℕ) × (n < length bytes) × (content h' ≡ content h ++ take n bytes))

  Written-append :
      (h h₁ : H) (k : ℕ) (bytes : List ℕ) (end : H × Bool)
      → k ≤ length bytes
      → content h₁ ≡ content h ++ take k bytes
      → Written h₁ (drop k bytes) end
      → Written h bytes end
  Written-append h h₁ k bytes (h', ok) le first (inl (yes_ok, rest)) =
      inl (yes_ok, rest ∙ (rw first (append_assoc (content h) _ _ ∙ rw (take-append-drop k bytes))))
  Written-append h h₁ k bytes (h', ok) le first (inr (not_ok, n, lt, rest)) = inr (
    not_ok,
    k + n,
    omega (arith, length-drop k bytes),
    rest
        ∙ (rw first (
            append_assoc (content h) _ _
            ∙ sym (ap (λ t. content h ++ t) (take_sum (k + n) k n bytes refl)))),
  )

  write_all_ends :
      (stream : IsStream) (fuel : ℕ) (h : H) (bytes : List ℕ)
      → length bytes ≤ fuel
      → (end : H × Bool) × (write_all write fuel h bytes ≡ some end) × Written h bytes end
  unfolding write_all
  write_all_ends stream fuel h [] enough =
      ((h, true), refl, inl (refl, sym (append-nil (content h))))
  write_all_ends stream zero h (b ∷ bs) enough = absurd (omega arith)
  write_all_ends stream (suc fuel) h (b ∷ bs) enough =
      let (fits, gets) = stream h (b ∷ bs) in
      elim (zero-or-suc (taken (write h (b ∷ bs)).1)) [
        | inl stopped ↦ (
          ((write h (b ∷ bs)).0, false),
          write_step fuel h b bs stopped,
          inr (refl, 0, omega arith, rw stopped at gets),
        )
        | inr (k, more) ↦
            let (end, e, w) =
              write_all_ends stream fuel (write h (b ∷ bs)).0 (drop k bs)
                (omega (arith, length-drop k bs)) in
            (
              end,
              write_more fuel h b k bs more ∙ e,
              Written-append h (write h (b ∷ bs)).0 (suc k) (b ∷ bs) end (omega arith)
                  (rw more at gets) w,
            )
      ]

  -- The file was opened and read, and is small enough.
  abbrev pub Readable : Option File → List ℕ → Type 0
  Readable file? bytes =
      (f : File) × (file? ≡ some f) × (f.file_size ≤ 100 * 1024 * 1024) × (f.content ≡ some bytes)

  -- Nothing was written, or the file's bytes.
  abbrev pub FileServed : H → Option File → H × Bool → Type 0
  FileServed h file? end =
      ((end.1 ≡ false) × (end.0 ≡ h))
      ⊎ ((bytes : List ℕ) × Readable file? bytes × Written h bytes end)

  serve_read :
      (stream : IsStream) (h : H) (size : ℕ) (content? : Option (List ℕ))
      → size ≤ 100 * 1024 * 1024
      → let f : File = record { file_size = size; content = content? } in
        (end : H × Bool) × (serve_file write h (some f) ≡ some end) × FileServed h (some f) end
  unfolding serve_file
  serve_read stream h size none small = ((h, false), ground arith, inl (refl, refl))
  serve_read stream h size (some bytes) small =
      let (end, e, w) = write_all_ends stream (length bytes) h bytes (omega arith) in
      (end, rw (small_enough size small) e, inr (bytes, (_, refl, small, refl), w))

  serve_large :
      (h : H) (f : File)
      → 100 * 1024 * 1024 < f.file_size
      → serve_file write h (some f) ≡ some (h, false)
  unfolding serve_file
  serve_large h f large = ground arith

  serve_file_ends :
      (stream : IsStream) (h : H) (file? : Option File)
      → (end : H × Bool) × (serve_file write h file? ≡ some end) × FileServed h file? end
  unfolding serve_file
  serve_file_ends stream h none = ((h, false), refl, inl (refl, refl))
  serve_file_ends stream h (some f) = elim (le-or-lt f.file_size (100 * 1024 * 1024)) [
    | inl small ↦ serve_read stream h f.file_size f.content small
    | inr large ↦ ((h, false), serve_large h f large, inl (refl, refl))
  ]

  -- Over a stream of the host's whose writes take as many of the first bytes as they say:
  -- `webview_get_resource` of a path always comes to an end. Either it returns false and the stream is
  -- untouched; or the path is mapped to a native file of at most 100 MB that was read, and the stream
  -- gets all of its bytes once and in their order when the result is true, and fewer of its first bytes
  -- when it is false.
  pub webview_get_file_ends :
      (open_file : List ℕ → Option File) (guess : List ℕ → List ℕ) (cwd : List ℕ) (dirs : Dirs)
      (path mime : List ℕ) (mime_capacity : ℕ) (h : H)
      → IsStream
      → (h' : H) × (mime' : List ℕ) × (ok : Bool) × (webview_get_file write open_file guess cwd dirs
            path mime mime_capacity h
          ≡ some (h', mime', ok))
        × (((ok ≡ false) × (h' ≡ h))
            ⊎ ((mapped : List ℕ) × (bytes : List ℕ) × (map_path cwd dirs path ≡ some mapped)
                × Readable (open_file (trim_query mapped)) bytes
                × Written h bytes (h', ok)))
  unfolding webview_get_file serve_mapped
  webview_get_file_ends open_file guess cwd dirs path mime mime_capacity h stream =
      elim (Option-cases (map_path cwd dirs path)) [
        | inl no_map ↦ (h, mime, false, rw no_map, inl (refl, refl))
        | inr (mapped, e) ↦
            let ((h', ok), served, out) =
              serve_file_ends stream h (open_file (trim_query mapped)) in
            (
              h',
              strncpy mime (guess path) mime_capacity,
              ok,
              rw (e, served, serve_mapped),
              elim out [
                | inl untouched ↦ inl untouched
                | inr (bytes, read, w) ↦ inr (mapped, bytes, e, read, w)
              ],
            )
      ]
