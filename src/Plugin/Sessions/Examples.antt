-- ===== src/Plugin/Sessions/Examples.antt =====
-- The theorem on sessions, at a concrete input.
use wclap_bridge.Base.{ℕ, Bool, true, false, List, [], ◌∷◌, ◌++◌, length}
use wclap_bridge.Plugin.Streams.{Count, count, minus}
use wclap_bridge.Plugin.Sessions.{Code, ends, writes, Ostream}

-- A stream that takes all.
abbrev append : Ostream (List ℕ)
append h bytes = (h ++ bytes, count (length bytes))

is_count : Count → Bool
is_count (count n) = true
is_count (minus n) = false

-- The WCLAP writes two bytes of its memory, and succeeds if it could.
abbrev saves : Code
saves = writes (7 ∷ 8 ∷ 9 ∷ []) 1 2 (λ r. ends (7 ∷ 8 ∷ 9 ∷ []) (is_count r))

abbrev before : List ℕ
before = 1 ∷ []

abbrev stored : List ℕ
stored = 1 ∷ 8 ∷ 9 ∷ []
