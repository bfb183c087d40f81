-- ===== src/Module/Failure/Reading.antt =====
-- What the caller of `getError` of wclap-module-base.h reads.
use wclap_bridge.Base.{
  ℕ, zero, suc, ◌≤◌, ◌<◌, ◌≡◌, refl, ap, strncpy, true, List, [], ◌∷◌, Option, none, some, arith,
  if◌then◌else◌, ◌==◌, ◌≢◌, set, length, length-set, take, All, ◌⊎◌, ◌↔◌, ◌∙◌,
}
use wclap_bridge.Instance.Group.{Group, error}
use wclap_bridge.Instance.Group.Errors.{is_some-error}
use wclap_bridge.Instance.Group
use wclap_bridge.Module.Failure.{ErrorState, get_error}

-- The C string in a buffer: the bytes before the first zero, if there is one.
unfoldable pub read_c_str : List ℕ → Option (List ℕ)
read_c_str [] = none
read_c_str (b ∷ bs) =
    if b == 0 then some [] else elim (read_c_str bs) [ none ↦ none | some s ↦ some (b ∷ s) ]

-- A text with no zero byte in it.
abbrev pub IsText : List ℕ → Type 0
IsText t = All (λ b. b ≢ 0) t

length-strncpy : (buffer text : List ℕ) (n : ℕ) → length (strncpy buffer text n) ≡ length buffer
unfolding strncpy
length-strncpy buffer text zero = refl
length-strncpy [] text (suc n) = refl
length-strncpy (b ∷ buffer) [] (suc n) = ap suc (length-strncpy buffer [] n)
length-strncpy (b ∷ buffer) (c ∷ text) (suc n) = ap suc (length-strncpy buffer text n)

read-fill :
    (buffer text : List ℕ) (n : ℕ)
    → n < length buffer
    → IsText text
    → read_c_str (set (strncpy buffer text n) n 0) ≡ some (take n text)
unfolding read_c_str strncpy
read-fill [] text n h t = absurd (omega arith)
read-fill (b ∷ buffer) text zero h t = refl
read-fill (b ∷ buffer) [] (suc n) h t = refl
read-fill (b ∷ buffer) (c ∷ text) (suc n) h t =
    ground (arith, t.0, read-fill buffer text n (omega arith) t.1)

-- With a buffer of at least the given capacity, which is not 0, and an error in the module whose
-- text has no zero byte, `getError` writes inside the buffer, keeps its size, and leaves in it, as a
-- C string, as much of the text as the capacity less one holds. The error stays.
pub get_error_reads :
    (g : Group) (s : ErrorState) (buffer : List ℕ) (n : ℕ)
    → s.has_error ≡ true
    → IsText s.error_message
    → suc n ≤ length buffer
    → (filled : List ℕ) × (get_error g s buffer (suc n) ≡ (s, some (filled, true)))
      × (length filled ≡ length buffer)
      × (read_c_str filled ≡ some (take n s.error_message))
unfolding get_error
get_error_reads g s buffer n e text room = (
  set (strncpy buffer s.error_message n) n 0,
  ground arith,
  length-set (strncpy buffer s.error_message n) n 0 ∙ length-strncpy buffer s.error_message n,
  read-fill buffer s.error_message n room text,
)

-- With a capacity of 0, `getError` writes outside the buffer, whatever the buffer is, exactly if the
-- module or its instance group has an error.
pub get_error_empty_buffer :
    (g : Group) (s : ErrorState) (buffer : List ℕ)
    → ((get_error g s buffer 0).1 ≡ none) ↔ ((s.has_error ≡ true) ⊎ (Group.has_error g ≡ true))
unfolding get_error
get_error_empty_buffer g s buffer =
    let told = is_some-error g in (λ h. ground (arith, told), λ h. ground (arith, told))
