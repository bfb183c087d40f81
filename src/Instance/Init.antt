-- ===== src/Instance/Init.antt =====
-- wclap-instance-wasmtime.h and .cpp: `init32`, `init64`, `initInner` and `wasiInit`, which run once
-- for each group.
pub mod Once
use wclap_bridge.Base.{
  ℕ, ◌%◌, ◌^◌, Bool, true, false, List, [], ◌∷◌, Option, none, some, if◌then◌else◌, is_some,
}
use wclap_bridge.Instance.Values.{ValKind, FuncType}
use wclap_bridge.Instance.Group.{has_error, set_error}
use wclap_bridge.Instance.Impl.{
  Impl, Extern, func, global, table, memory, shared_memory, Outcome, M, ◌>>=◌, ◌>>◌, pure,
  stop_with_error, require_returned,
}
use wclap_bridge.Instance.Setup.{update_clap_entry}

-- What Wasmtime answers: the export `_initialize`, how its call ends, and the export `clap_entry`
-- after it.
pub record Replies : Type 0 where
  pub initialize : Option Extern
  pub call : Outcome
  pub clap_entry : Option Extern

-- A function with no parameter and no result.
unfoldable pub is_initialize_type : FuncType → Bool
is_initialize_type t = both t.params t.results
  where
    both : List ValKind → List ValKind → Bool
    both [] [] = true
    both _ _ = false

unfoldable pub call_initialize : Outcome → Option Extern → M (Unit {0})
call_initialize o none i = pure tt i
call_initialize o (some (func f t)) i =
    if is_initialize_type t
    then require_returned o "error calling _initialize()" "_initialize() timeout"
        "_initialize() threw (trapped)" i
    else stop_with_error "_initialize() function signature mismatch" i
call_initialize o (some (global k v)) i = stop_with_error "_initialize isn't a function" i
call_initialize o (some (memory m)) i = stop_with_error "_initialize isn't a function" i
call_initialize o (some shared_memory) i = stop_with_error "_initialize isn't a function" i
call_initialize o (some (table t k lo hi)) i = stop_with_error "_initialize isn't a function" i

unfoldable pub wasi_init : Replies → M (Unit {0})
wasi_init r = do call_initialize r.call r.initialize; update_clap_entry r.clap_entry

after_wasi_init : Impl × Option (Unit {0}) → Impl × ℕ
after_wasi_init (i, none) =
    (record i { group = set_error i.group "`.wasiInit()` returned false" }, 0)
after_wasi_init (i, some _) =
    (record i { group = record i.group { had_init = true } }, i.wclap_entry_as64)

unfoldable pub init_inner : Replies → Impl → Impl × ℕ
unfolding after_wasi_init
init_inner r i =
    if has_error i.group
    then (i, 0)
    else (if i.group.had_init
        then (record i { group = set_error i.group "Tried to `.init()` WCLAP twice" }, 0)
        else after_wasi_init (wasi_init r i))

unfoldable pub init32 : Replies → Impl → Impl × ℕ
init32 r i = let (i', entry) = init_inner r i in (i', entry % 2 ^ 32)

unfoldable pub init64 : Replies → Impl → Impl × ℕ
init64 r i = let (i', entry) = init_inner r i in (i', entry % 2 ^ 64)
