-- ===== src/Base/Text.antt =====
-- C strings: a literal as its bytes (the sources' literals are ASCII), and `strncpy`.
use Prim.Native.Nat.{ℕ, zero, suc}
use Prim.Native.Char.{code}
use Prim.Native.String.{String}
use mathlib.Core.List.{List, [], ◌∷◌}

unfoldable pub c_str : String → List ℕ
c_str String.[] = []
c_str (String.◌∷◌ c s) = code c ∷ c_str s

-- `strncpy(buffer, text, n)`: the first `n` bytes of the text, padded by zeros up to `n`; what
-- stands behind stays.
unfoldable pub strncpy : List ℕ → List ℕ → ℕ → List ℕ
strncpy buffer text zero = buffer
strncpy [] text (suc n) = []
strncpy (b ∷ buffer) [] (suc n) = 0 ∷ strncpy buffer [] n
strncpy (b ∷ buffer) (c ∷ text) (suc n) = c ∷ strncpy buffer text n
