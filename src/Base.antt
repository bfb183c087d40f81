-- ===== src/Base.antt =====
-- Names that the other modules share: the libraries', passed on, with Boolean tests, lists over the
-- native numbers and C strings.
mod Tests
mod Lists
mod Text
mod Bytes
pub use Tests.*
pub use Lists.*
unfoldable pub use Text.{c_str, strncpy}
unfoldable pub use Bytes.{bytes_eq}
pub use Bytes.{bytes_eq_sound, bytes_eq_refl, take-length-append, drop-length-append}
pub use Prim.Native.Nat.{ℕ, zero, suc, ◌+◌, ◌-◌, ◌*◌, ◌/◌, ◌%◌, ◌^◌, ◌≤◌, ◌<◌, min}
pub use Prim.Native.String.{String}
pub use mathlib.Core.Path.{◌≡◌, refl, sym, ap, ◌∙◌}
pub use mathlib.Core.Logic.{◌≢◌, ◌↔◌, ◌⊎◌, inl, inr}
pub use mathlib.Core.Bool.{Bool, true, false, not, ◌&&◌, ◌||◌}
pub use mathlib.Core.Option.{Option, none, some}
pub use mathlib.Core.List.{List, [], ◌∷◌, ◌++◌, map, append-nil, append_assoc}
pub use native.Mathlib.Omega.{arith}
pub use text.Mathlib.Text.{◌==◌ as str_eq}
pub use text.Mathlib.TextEquality.{eq_iff}
