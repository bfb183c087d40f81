-- ===== src/Module/Routing.antt =====
-- source/wclap-module.h: the module behind a handle of the C API, which is one of the two that
-- source/_generic/wclap-module.h makes, for 32-bit and for 64-bit WCLAPs. `none` is a call through a
-- null pointer.
pub mod Same
mod Examples
use wclap_bridge.Base.{ℕ, Bool, true, false, List, [], ◌∷◌, Option, none, some, if◌then◌else◌}

-- What `getError` leaves in the buffer, and its result.
pub record ErrorReply : Type 0 where
  pub buffer : List ℕ
  pub has_error : Bool

-- The functions that both modules have, on a module of type `A`: the constructor, `getError` with
-- the buffer and its length, `clapVersion`, `getFactory` with an id and a pointer as its result.
pub record Methods (G A : Type 0) : Type 0 where
  pub construct : G → A
  pub get_error : A → List ℕ → ℕ → A × ErrorReply
  pub version : A → List ℕ
  pub factory : A → List ℕ → A × ℕ

-- The members `wclap32` and `wclap64`.
pub record WclapModule (A B : Type 0) : Type 0 where
  pub wclap32 : Option A
  pub wclap64 : Option B

module _ {G A B : Type 0} (m32 : Methods G A) (m64 : Methods G B) where
  -- The constructor, of a group that is 64-bit or not.
  unfoldable pub open_wclap : Bool → G → WclapModule A B
  open_wclap is64 g =
      if is64
      then record { wclap32 = none; wclap64 = some (m64.construct g) }
      else record { wclap32 = some (m32.construct g); wclap64 = none }

  unfoldable pub kept32 : {R : Type 0} → WclapModule A B → A × R → Option (WclapModule A B × R)
  kept32 s (a, r) = some (record s { wclap32 = some a }, r)

  unfoldable pub kept64 : {R : Type 0} → WclapModule A B → B × R → Option (WclapModule A B × R)
  kept64 s (b, r) = some (record s { wclap64 = some b }, r)

  unfoldable pub route :
      {R : Type 0} → (A → A × R) → (B → B × R) → WclapModule A B → Option (WclapModule A B × R)
  unfolding kept32 kept64
  route f32 f64 s = elim s.wclap32 [
    | some a ↦ kept32 s (f32 a)
    | none ↦ elim s.wclap64 [ some b ↦ kept64 s (f64 b) | none ↦ none ]
  ]

  -- `getError`, `moduleClapVersion` and `getFactory`
  unfoldable pub get_error : WclapModule A B → List ℕ → ℕ → Option (WclapModule A B × ErrorReply)
  unfolding route
  get_error s buffer buffer_length =
      route (λ a. m32.get_error a buffer buffer_length) (λ b. m64.get_error b buffer buffer_length)
        s

  unfoldable pub module_clap_version : WclapModule A B → Option (WclapModule A B × List ℕ)
  unfolding route
  module_clap_version s = route (λ a. (a, m32.version a)) (λ b. (b, m64.version b)) s

  unfoldable pub get_factory : WclapModule A B → List ℕ → Option (WclapModule A B × ℕ)
  unfolding route
  get_factory s id = route (λ a. m32.factory a id) (λ b. m64.factory b id) s

-- A call of one of the three through a handle, and its answer.
pub data Call : Type 0 where
  asks_error : List ℕ → ℕ → Call
  asks_version : Call
  asks_factory : List ℕ → Call

pub data Answer : Type 0 where
  error_answer : ErrorReply → Answer
  version_answer : List ℕ → Answer
  factory_answer : ℕ → Answer

unfoldable pub answered : {M R : Type 0} → (R → Answer) → Option (M × R) → Option (M × Answer)
answered f none = none
answered f (some (s, r)) = some (s, f r)

module _ {G A B : Type 0} (m32 : Methods G A) (m64 : Methods G B) where
  unfoldable pub one_call : WclapModule A B → Call → Option (WclapModule A B × Answer)
  unfolding answered get_error module_clap_version get_factory
  one_call s (asks_error buffer n) = answered error_answer (get_error m32 m64 s buffer n)
  one_call s asks_version = answered version_answer (module_clap_version m32 m64 s)
  one_call s (asks_factory id) = answered factory_answer (get_factory m32 m64 s id)
