-- ===== src/Instance/Values.antt =====
-- wclap-instance-wasmtime.h: the conversions between C++ arguments and Wasmtime's raw values, the
-- type codes of function signatures, and the trampoline of a registered host function.
-- A value of a C++ type is its bit pattern, a number below `limit` of the type; a `float` or a
-- `double` is its bits. A `wasmtime_val_raw` is its low 64 bits, since no conversion writes more.
pub mod RoundTrip
use wclap_bridge.Base.{
  ℕ, ◌+◌, ◌-◌, ◌%◌, ◌^◌, List, [], ◌∷◌, Option, none, some, ltb, ◌==◌, if◌then◌else◌,
}

-- The types that the overloads take; `pointer32` and `pointer64` are `wclap32::Pointer<V>` and
-- `wclap64::Pointer<V>`.
pub data ArgType : Type 0 where
  bool int8 uint8 int16 uint16 int32 uint32 int64 uint64 float double pointer32 pointer64 : ArgType

-- How many values the type has.
abbrev pub limit : ArgType → ℕ
limit bool = 2
limit int8 = 2 ^ 8
limit uint8 = 2 ^ 8
limit int16 = 2 ^ 16
limit uint16 = 2 ^ 16
limit int32 = 2 ^ 32
limit uint32 = 2 ^ 32
limit int64 = 2 ^ 64
limit uint64 = 2 ^ 64
limit float = 2 ^ 32
limit double = 2 ^ 64
limit pointer32 = 2 ^ 32
limit pointer64 = 2 ^ 64

-- `int32_t(v)` for a signed `v` of `half` + `half` values: the sign is carried up.
abbrev sign_extend : ℕ → ℕ → ℕ
sign_extend half v = if ltb v half then v else v + 2 ^ 32 - (half + half)

-- `argToWasmVal`: the slot starts as zeros, and one member of it is written.
unfoldable pub arg_to_wasm_val : ArgType → ℕ → ℕ
arg_to_wasm_val bool v = v
arg_to_wasm_val int8 v = sign_extend 128 v
arg_to_wasm_val uint8 v = v
arg_to_wasm_val int16 v = sign_extend 32768 v
arg_to_wasm_val uint16 v = v
arg_to_wasm_val int32 v = v
arg_to_wasm_val uint32 v = v % 2 ^ 32
arg_to_wasm_val int64 v = v
arg_to_wasm_val uint64 v = v % 2 ^ 64
arg_to_wasm_val float v = v
arg_to_wasm_val double v = v
arg_to_wasm_val pointer32 v = v % 2 ^ 32
arg_to_wasm_val pointer64 v = v % 2 ^ 64

-- The members of the union.
abbrev pub as_i32 : ℕ → ℕ
as_i32 raw = raw % 2 ^ 32

abbrev pub as_i64 : ℕ → ℕ
as_i64 raw = raw % 2 ^ 64

-- `wasmValToArg`
unfoldable pub wasm_val_to_arg : ArgType → ℕ → ℕ
wasm_val_to_arg bool raw = if as_i32 raw == 0 then 0 else 1
wasm_val_to_arg int8 raw = as_i32 raw % 2 ^ 8
wasm_val_to_arg uint8 raw = as_i32 raw % 2 ^ 8
wasm_val_to_arg int16 raw = as_i32 raw % 2 ^ 16
wasm_val_to_arg uint16 raw = as_i32 raw % 2 ^ 16
wasm_val_to_arg int32 raw = as_i32 raw
wasm_val_to_arg uint32 raw = as_i32 raw
wasm_val_to_arg int64 raw = as_i64 raw
wasm_val_to_arg uint64 raw = as_i64 raw
wasm_val_to_arg float raw = as_i32 raw
wasm_val_to_arg double raw = as_i64 raw
wasm_val_to_arg pointer32 raw = as_i32 raw
wasm_val_to_arg pointer64 raw = as_i64 raw

pub data ValKind : Type 0 where
  i32 i64 f32 f64 funcref : ValKind

-- `wasmValTypeCode`
unfoldable pub wasm_val_type_code : ArgType → ValKind
wasm_val_type_code bool = i32
wasm_val_type_code int8 = i32
wasm_val_type_code uint8 = i32
wasm_val_type_code int16 = i32
wasm_val_type_code uint16 = i32
wasm_val_type_code int32 = i32
wasm_val_type_code uint32 = i32
wasm_val_type_code int64 = i64
wasm_val_type_code uint64 = i64
wasm_val_type_code float = f32
wasm_val_type_code double = f64
wasm_val_type_code pointer32 = i32
wasm_val_type_code pointer64 = i64

pub record FuncType : Type 0 where
  pub params : List ValKind
  pub results : List ValKind

-- `setWasmtimeValTypes`, from index 0 on
unfoldable pub set_wasmtime_val_types : List ArgType → List ValKind
unfolding wasm_val_type_code
set_wasmtime_val_types [] = []
set_wasmtime_val_types (t ∷ ts) = wasm_val_type_code t ∷ set_wasmtime_val_types ts

-- `makeWasmtimeFuncType`; `none` is a `void` return
unfoldable pub make_wasmtime_func_type : Option ArgType → List ArgType → FuncType
unfolding set_wasmtime_val_types
make_wasmtime_func_type none args = record { params = set_wasmtime_val_types args; results = [] }
make_wasmtime_func_type (some r) args = record {
  params = set_wasmtime_val_types args;
  results = wasm_val_type_code r ∷ [];
}

-- `{argToWasmVal(args)...}`
unfoldable pub encode_args : List ArgType → List ℕ → List ℕ
unfolding arg_to_wasm_val
encode_args (t ∷ ts) (v ∷ vs) = arg_to_wasm_val t v ∷ encode_args ts vs
encode_args _ _ = []

-- `argsAsTuple`: slot by slot, for the types of the native function
unfoldable pub args_as_tuple : List ArgType → List ℕ → List ℕ
unfolding wasm_val_to_arg
args_as_tuple (t ∷ ts) (raw ∷ raws) = wasm_val_to_arg t raw ∷ args_as_tuple ts raws
args_as_tuple _ _ = []

-- A write to slot 0, the only one that the code makes.
abbrev pub set_slot0 : ℕ → List ℕ → List ℕ
set_slot0 v [] = []
set_slot0 v (x ∷ xs) = v ∷ xs

-- `WrappedFn::unchecked`: what Wasmtime calls for a registered host function. The native function
-- takes its state (the `context`) and returns it.
unfoldable pub unchecked :
    {S : Type 0} → Option ArgType → List ArgType → (S → List ℕ → S × ℕ) → S → List ℕ → S × List ℕ
unfolding args_as_tuple arg_to_wasm_val
unchecked none args native_fn s slots =
    let (s', _) = native_fn s (args_as_tuple args slots) in (s', slots)
unchecked (some r) args native_fn s slots =
    let (s', v) = native_fn s (args_as_tuple args slots) in
    (s', set_slot0 (arg_to_wasm_val r v) slots)
