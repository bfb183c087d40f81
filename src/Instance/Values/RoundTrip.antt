-- ===== src/Instance/Values/RoundTrip.antt =====
-- The conversions of wclap-instance-wasmtime.h, one after the other.
use wclap_bridge.Base.{ℕ, ◌^◌, ◌<◌, ◌≡◌, refl, List, [], ◌∷◌, Option, none, some, arith, ap}
use wclap_bridge.Instance.Values.{
  ArgType, bool, int8, uint8, int16, uint16, int32, uint32, int64, uint64, float, double, pointer32,
  pointer64, ValKind, i32, i64, f32, f64, funcref, limit, arg_to_wasm_val, wasm_val_to_arg,
  wasm_val_type_code, make_wasmtime_func_type, encode_args, args_as_tuple, unchecked,
}

-- Every value of every argument type survives the way into a slot and back.
pub to_arg-to_wasm :
    (t : ArgType) (v : ℕ) → v < limit t → wasm_val_to_arg t (arg_to_wasm_val t v) ≡ v
unfolding arg_to_wasm_val wasm_val_to_arg
to_arg-to_wasm bool v h = ground arith
to_arg-to_wasm int8 v h = ground arith
to_arg-to_wasm uint8 v h = omega arith
to_arg-to_wasm int16 v h = ground arith
to_arg-to_wasm uint16 v h = omega arith
to_arg-to_wasm int32 v h = omega arith
to_arg-to_wasm uint32 v h = omega arith
to_arg-to_wasm int64 v h = omega arith
to_arg-to_wasm uint64 v h = omega arith
to_arg-to_wasm float v h = omega arith
to_arg-to_wasm double v h = omega arith
to_arg-to_wasm pointer32 v h = omega arith
to_arg-to_wasm pointer64 v h = omega arith

-- How many values a WebAssembly type has; a function reference is no argument of these functions.
abbrev pub kind_limit : ValKind → ℕ
kind_limit i32 = 2 ^ 32
kind_limit i64 = 2 ^ 64
kind_limit f32 = 2 ^ 32
kind_limit f64 = 2 ^ 64
kind_limit funcref = 0

pub to_wasm_fits :
    (t : ArgType) (v : ℕ) → v < limit t → arg_to_wasm_val t v < kind_limit (wasm_val_type_code t)
unfolding arg_to_wasm_val wasm_val_type_code
to_wasm_fits bool v h = omega arith
to_wasm_fits int8 v h = ground arith
to_wasm_fits uint8 v h = omega arith
to_wasm_fits int16 v h = ground arith
to_wasm_fits uint16 v h = omega arith
to_wasm_fits int32 v h = omega arith
to_wasm_fits uint32 v h = omega arith
to_wasm_fits int64 v h = omega arith
to_wasm_fits uint64 v h = omega arith
to_wasm_fits float v h = omega arith
to_wasm_fits double v h = omega arith
to_wasm_fits pointer32 v h = omega arith
to_wasm_fits pointer64 v h = omega arith

pub to_arg_bound : (t : ArgType) (raw : ℕ) → wasm_val_to_arg t raw < limit t
unfolding wasm_val_to_arg
to_arg_bound bool raw = ground arith
to_arg_bound int8 raw = omega arith
to_arg_bound uint8 raw = omega arith
to_arg_bound int16 raw = omega arith
to_arg_bound uint16 raw = omega arith
to_arg_bound int32 raw = omega arith
to_arg_bound uint32 raw = omega arith
to_arg_bound int64 raw = omega arith
to_arg_bound uint64 raw = omega arith
to_arg_bound float raw = omega arith
to_arg_bound double raw = omega arith
to_arg_bound pointer32 raw = omega arith
to_arg_bound pointer64 raw = omega arith

-- One value for each type, each in the type's range.
abbrev pub WellTyped : List ArgType → List ℕ → Type 0
WellTyped [] [] = Unit {0}
WellTyped [] (v ∷ vs) = ⊥
WellTyped (t ∷ ts) [] = ⊥
WellTyped (t ∷ ts) (v ∷ vs) = (v < limit t) × WellTyped ts vs

-- A slot for each kind of the signature, that holds a value of that kind.
abbrev pub SlotsFit : List ValKind → List ℕ → Type 0
SlotsFit [] [] = Unit {0}
SlotsFit [] (x ∷ xs) = ⊥
SlotsFit (k ∷ ks) [] = ⊥
SlotsFit (k ∷ ks) (x ∷ xs) = (x < kind_limit k) × SlotsFit ks xs

args_as_tuple-encode_args :
    (ts : List ArgType) (vs : List ℕ) → WellTyped ts vs → args_as_tuple ts (encode_args ts vs) ≡ vs
unfolding args_as_tuple encode_args
args_as_tuple-encode_args [] [] h = refl
args_as_tuple-encode_args [] (v ∷ vs) h = absurd h
args_as_tuple-encode_args (t ∷ ts) [] h = absurd h
args_as_tuple-encode_args (t ∷ ts) (v ∷ vs) h =
    ground (arith, to_arg-to_wasm t v h.0, args_as_tuple-encode_args ts vs h.1)

-- The slots that the bridge fills for a list of well-typed arguments fit the parameter kinds of the
-- signature that it declares to Wasmtime for the same list of types, one slot for each kind.
pub encode_args_fit :
    (r : Option ArgType) (ts : List ArgType) (vs : List ℕ)
    → WellTyped ts vs
    → SlotsFit (make_wasmtime_func_type r ts).params (encode_args ts vs)
unfolding make_wasmtime_func_type encode_args
encode_args_fit none [] [] h = tt
encode_args_fit (some r) [] [] h = tt
encode_args_fit none (t ∷ ts) (v ∷ vs) h = (to_wasm_fits t v h.0, encode_args_fit none ts vs h.1)
encode_args_fit (some r) (t ∷ ts) (v ∷ vs) h =
    (to_wasm_fits t v h.0, encode_args_fit (some r) ts vs h.1)
encode_args_fit r [] (v ∷ vs) h = absurd h
encode_args_fit r (t ∷ ts) [] h = absurd h

-- A registered host function with a result, called through its trampoline with encoded arguments,
-- runs the native function on the arguments themselves, leaves the native function's state, and
-- gives back the native result when slot 0 is decoded. The arguments are well typed, there is at
-- least one, and the native function returns a value of its type.
pub unchecked-encode_args :
    {S : Type 0} (r t : ArgType) (ts : List ArgType) (f : S → List ℕ → S × ℕ) (s : S) (v : ℕ)
    (vs : List ℕ)
    → WellTyped (t ∷ ts) (v ∷ vs)
    → (f s (v ∷ vs)).1 < limit r
    → let (s', slots) = unchecked (some r) (t ∷ ts) f s (encode_args (t ∷ ts) (v ∷ vs)) in
      (s' ≡ (f s (v ∷ vs)).0) × (args_as_tuple (r ∷ []) slots ≡ (f s (v ∷ vs)).1 ∷ [])
unfolding unchecked encode_args args_as_tuple
unchecked-encode_args r t ts f s v vs h out =
    rw (to_arg-to_wasm t v h.0, args_as_tuple-encode_args ts vs h.1)
      (refl, ap (λ x. x ∷ []) (to_arg-to_wasm r _ out))
