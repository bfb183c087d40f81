-- ===== src/Instance/Impl.antt =====
-- wclap-instance-wasmtime.h, InstanceImpl: one thread's instance of a WCLAP, and the small monad in
-- which the early returns of its set-up are written. What Wasmtime answers to each call comes in
-- records of replies; the handles it gives out are numbers.
use wclap_bridge.Base.{
  ℕ, ◌≡◌, String, Bool, true, false, not, List, Option, none, some, is_some, arith, Option-cases,
  inl, inr,
}
use wclap_bridge.Instance.Values.{ValKind, FuncType}
use wclap_bridge.Instance.Group.{Group, Trap, has_error, set_error, set_runtime_error, set_trap}
use wclap_bridge.Instance.Group.Errors.{set_error-has_error, set_trap-has_error}

-- `wasmtime_extern_t`, with the type of a function or a table and the value of a global.
pub data Extern : Type 0 where
  func : ℕ → FuncType → Extern
  global : ValKind → ℕ → Extern
  table : ℕ → ValKind → ℕ → ℕ → Extern
  memory : ℕ → Extern
  shared_memory : Extern

-- How a call into WebAssembly ends.
pub data Outcome : Type 0 where
  returned : Outcome
  failed : List ℕ → Outcome
  trapped : Trap → Outcome

pub record Impl : Type 0 where
  pub group : Group
  pub wclap_entry_as64 : ℕ
  pub wt_memory : Option ℕ
  pub wt_function_table : Option ℕ
  pub wt_malloc_func : Option ℕ

-- `none` is an early `return false`.
abbrev pub M : Type 0 → Type 0
M A = Impl → Impl × Option A

infixl 5 ◌>>=◌ ◌>>◌
unfoldable pub ◌>>=◌ : {A B : Type 0} → M A → (A → M B) → M B
◌>>=◌ m f i = let (i', r) = m i in elim r [ none ↦ (i', none) | some a ↦ f a i' ]

abbrev pub ◌>>◌ : {B : Type 0} → M (Unit {0}) → M B → M B
m >> k = m >>= λ _. k

unfoldable pub pure : {A : Type 0} → A → M A
pure a i = (i, some a)

-- The lambda `stopWithError`
unfoldable pub stop_with_error : {A : Type 0} → String → M A
stop_with_error message i = (record i { group = set_error i.group message }, none)

unfoldable pub require : Bool → String → M (Unit {0})
unfolding pure stop_with_error
require true message = pure tt
require false message = stop_with_error message

-- `if (error) { group.setError(error); return stopWithError(message); }`
unfoldable pub require_ok : Option (List ℕ) → String → M (Unit {0})
unfolding pure stop_with_error
require_ok none message i = pure tt i
require_ok (some e) message i =
    stop_with_error message (record i { group = (set_runtime_error i.group (some e)).0 })

-- The same behind a call, with the two messages for a trap.
unfoldable pub require_returned : Outcome → String → String → String → M (Unit {0})
unfolding pure require_ok
require_returned returned on_error on_timeout on_trap i = pure tt i
require_returned (failed e) on_error on_timeout on_trap i = require_ok (some e) on_error i
require_returned (trapped t) on_error on_timeout on_trap i =
    (record i { group = (set_trap i.group (some t) on_timeout on_trap).0 }, none)

-- Started without an error, the step succeeds exactly if there is none afterwards.
abbrev pub Tells : {A : Type 0} → M A → Type 0
Tells m = (i : Impl) → has_error i.group ≡ false → is_some (m i).1 ≡ not (has_error (m i).0.group)

pub Tells-bind :
    {A B : Type 0} (m : M A) (f : A → M B) → Tells m → ((a : A) → Tells (f a)) → Tells (m >>= f)
unfolding ◌>>=◌
Tells-bind m f hm hf i h = elim (Option-cases (m i).1) [
  | inl e ↦ ground (arith, hm i h)
  | inr (a, e) ↦ ground (arith, hm i h, hf a (m i).0)
]

pub Tells-pure : {A : Type 0} (a : A) → Tells (pure a)
unfolding pure
Tells-pure a i h = rw h

pub Tells-stop : (A : Type 0) (message : String) → Tells (stop_with_error {A = A} message)
unfolding stop_with_error
Tells-stop A message i h = rw (set_error-has_error i.group message)

pub Tells-require : (b : Bool) (message : String) → Tells (require b message)
unfolding require
Tells-require true message = Tells-pure tt
Tells-require false message = Tells-stop (Unit {0}) message

pub Tells-require_ok : (e : Option (List ℕ)) (message : String) → Tells (require_ok e message)
unfolding require_ok
Tells-require_ok none message i h = Tells-pure tt i h
Tells-require_ok (some e) message i h =
    rw (set_error-has_error (set_runtime_error i.group (some e)).0 message)

pub Tells-require_returned : (o : Outcome) (a b c : String) → Tells (require_returned o a b c)
unfolding require_returned
Tells-require_returned returned a b c i h = Tells-pure tt i h
Tells-require_returned (failed e) a b c i h = Tells-require_ok (some e) a i h
Tells-require_returned (trapped t) a b c i h = rw (set_trap-has_error i.group t b c)

-- Inversion of a successful bind.
pub bind_some :
    {A B : Type 0} (m : M A) (f : A → M B) (i : Impl) {b : B}
    → ((m >>= f) i).1 ≡ some b
    → (a : A) × ((m i).1 ≡ some a) × ((m >>= f) i ≡ f a (m i).0)
unfolding ◌>>=◌
bind_some m f i h = elim (Option-cases (m i).1) [
  | inl e ↦ absurd (ground arith)
  | inr (a, e) ↦ (a, e, ground arith)
]
