-- ===== src/Module/Routing/Examples.antt =====
-- The theorem on the routing, at a concrete input.
use wclap_bridge.Base.{ℕ, ◌+◌, ◌≡◌, true, false, List, [], ◌∷◌, some, if◌then◌else◌}
use wclap_bridge.Module.Routing.{Methods, open_wclap, Call, asks_error, asks_version, asks_factory}
use wclap_bridge.Module.Routing.Same.{answers, routed, routed_same}

-- Modules that count how often they are asked for a factory, from a width on.
abbrev counting : ℕ → Methods ℕ ℕ
counting width = record {
  construct = λ g. g + width;
  get_error = λ a buffer n. (a, record { buffer = buffer; has_error = false });
  version = λ a. 1 ∷ 2 ∷ 0 ∷ [];
  factory = λ a id. (a + 1, a);
}

abbrev history : List Call
history = asks_factory (7 ∷ []) ∷ asks_version ∷ asks_error [] 0 ∷ asks_factory (7 ∷ []) ∷ []

routed_same_example :
    routed (counting 32) (counting 64) (open_wclap (counting 32) (counting 64) true 0) history
    ≡ some (if true then answers (counting 64) 64 history else answers (counting 32) 32 history)
routed_same_example = routed_same (counting 32) (counting 64) true 0 history
