-- ===== src/Plugin/Sessions/Lent.antt =====
-- The streams that wclap-plugin.h lends the WCLAP, while and after it has them.
use wclap_bridge.Base.{ℕ, ◌≤◌, ◌≡◌, Bool, List, [], ◌∷◌, ◌++◌, take, length, All}
use wclap_bridge.Plugin.Streams.{minus}
use wclap_bridge.Plugin.Sessions.{Code, ends, writes, reads, Ostream, Streams}

-- What the code comes to where every stream call is refused with -1.
unfoldable pub refused : Code → Bool
refused (ends memory result) = result
refused (writes memory buffer size go_on) = refused (go_on (minus 1))
refused (reads memory buffer size go_on) = refused (go_on memory (minus 1))

abbrev pub join : List (List ℕ) → List ℕ
join [] = []
join (c ∷ cs) = c ++ join cs

module _ {H : Type 0} where
  module _ (write : Ostream H) (content : H → List ℕ) where
    -- A stream of the host's that takes some first bytes of what is written.
    abbrev pub Appends : Type 0
    Appends =
        (h : H) (bytes : List ℕ) → (n : ℕ) × (content (write h bytes).0 ≡ content h ++ take n bytes)

    -- The stream has grown by pieces of at most 1024 bytes.
    abbrev pub Grown : H → H → Type 0
    Grown h h' =
        (pieces : List (List ℕ)) × (content h' ≡ content h ++ join pieces)
        × All (λ piece. length piece ≤ 1024) pieces
