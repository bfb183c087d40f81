-- ===== src/Instance/Setup/Reported.antt =====
-- What InstanceImpl::setup of wclap-instance-wasmtime.cpp reports, and what it leaves behind.
use wclap_bridge.Base.{
  ◌≡◌, false, not, List, [], ◌∷◌, Option, none, some, is_some, arith, Bool-cases, ◌⊎◌, inl, inr,
}
use wclap_bridge.Instance.Group.{has_error}
use wclap_bridge.Instance.Group.Errors.{set_error-has_error}
use wclap_bridge.Instance.Impl.{
  Impl, Extern, func, global, table, memory, shared_memory, Tells, Tells-bind, Tells-stop,
  Tells-require, Tells-require_ok, Tells-require_returned, pure, stop_with_error,
}
use wclap_bridge.Instance.Setup.{
  Replies, make_store, make_wasi, link_shared, link_imports, start, memory_of, update_clap_entry,
  malloc_of, find_table, setup_steps, setup,
}

make_store-Tells : (r : Replies) → Tells (make_store r)
unfolding make_store
make_store-Tells r = Tells-bind _ _ (Tells-require _ _) λ _.
    Tells-bind _ _ (Tells-require _ _)
      λ _. Tells-bind _ _ (Tells-require _ _) λ _. Tells-require _ _

make_wasi-Tells : (r : Replies) → Tells (make_wasi r)
unfolding make_wasi
make_wasi-Tells r = Tells-bind _ _ (Tells-require _ _) λ _. Tells-require_ok _ _

link_shared-Tells : (r : Replies) → Tells (link_shared r)
unfolding link_shared
link_shared-Tells r = Tells-bind _ _ (Tells-require_ok _ _) λ _. Tells-require_ok _ _

link_imports-Tells : (r : Replies) → Tells (link_imports r)
unfolding link_imports pure
link_imports-Tells r i h = ground (arith, link_shared-Tells r i)

start-Tells : (r : Replies) → Tells (start r)
unfolding start
start-Tells r = Tells-require_returned _ _ _ _

memory_of-Tells : (e : Option Extern) → Tells (memory_of e)
unfolding memory_of pure stop_with_error
memory_of-Tells none i h = Tells-require i.group.shared_memory _ i h
memory_of-Tells (some (memory m)) i h = ground arith
memory_of-Tells (some shared_memory) i h = Tells-require i.group.shared_memory _ i h
memory_of-Tells (some (func f t)) i h =
    ground (arith, Tells-stop (Unit {0}) "exported memory isn't a (Shared)Memory" i)
memory_of-Tells (some (global k v)) i h =
    ground (arith, Tells-stop (Unit {0}) "exported memory isn't a (Shared)Memory" i)
memory_of-Tells (some (table t k lo hi)) i h =
    ground (arith, Tells-stop (Unit {0}) "exported memory isn't a (Shared)Memory" i)

pub update_clap_entry-Tells : (e : Option Extern) → Tells (update_clap_entry e)
unfolding update_clap_entry pure stop_with_error
update_clap_entry-Tells (some (global k v)) i h =
    ground (arith, set_error-has_error i.group "clap_entry is not a (correctly-sized) pointer")
update_clap_entry-Tells none i h = rw (set_error-has_error i.group _)
update_clap_entry-Tells (some (memory m)) i h = rw (set_error-has_error i.group _)
update_clap_entry-Tells (some shared_memory) i h = rw (set_error-has_error i.group _)
update_clap_entry-Tells (some (func f t)) i h = rw (set_error-has_error i.group _)
update_clap_entry-Tells (some (table t k lo hi)) i h = rw (set_error-has_error i.group _)

malloc_of-Tells : (e : Option Extern) → Tells (malloc_of e)
unfolding malloc_of pure stop_with_error
malloc_of-Tells (some (func f t)) i h =
    ground (arith, set_error-has_error i.group "malloc() function signature mismatch")
malloc_of-Tells none i h = rw (set_error-has_error i.group _)
malloc_of-Tells (some (memory m)) i h = rw (set_error-has_error i.group _)
malloc_of-Tells (some shared_memory) i h = rw (set_error-has_error i.group _)
malloc_of-Tells (some (global k v)) i h = rw (set_error-has_error i.group _)
malloc_of-Tells (some (table t k lo hi)) i h = rw (set_error-has_error i.group _)

find_table-Tells : (es : List Extern) → Tells (find_table es)
unfolding find_table pure stop_with_error
find_table-Tells [] i h = rw (set_error-has_error i.group _)
find_table-Tells (table t k lo hi ∷ es) i h = ground (
  arith,
  find_table-Tells es i h,
  set_error-has_error i.group "exported function table can't grow enough for CLAP host functions",
)
find_table-Tells (func f t ∷ es) i h = find_table-Tells es i h
find_table-Tells (global k v ∷ es) i h = find_table-Tells es i h
find_table-Tells (memory m ∷ es) i h = find_table-Tells es i h
find_table-Tells (shared_memory ∷ es) i h = find_table-Tells es i h

setup_steps-Tells : (r : Replies) → Tells (setup_steps r)
unfolding setup_steps
setup_steps-Tells r = Tells-bind (make_store r) _ (make_store-Tells r) λ _.
    Tells-bind (make_wasi r) _ (make_wasi-Tells r) λ _.
      Tells-bind (link_imports r) _ (link_imports-Tells r) λ _.
        Tells-bind (start r) _ (start-Tells r) λ _.
          Tells-bind (memory_of (r.export_get "memory")) _ (memory_of-Tells _) λ _.
            Tells-bind (update_clap_entry (r.export_get "clap_entry")) _ (update_clap_entry-Tells _)
              λ _.
                Tells-bind (malloc_of (r.export_get "malloc")) _ (malloc_of-Tells _)
                  λ _. find_table-Tells r.exports

-- Set-up returns true exactly if the group has no error afterwards, and a group that had one before
-- is left as it was.
pub setup_reports :
    (r : Replies) (i : Impl)
    → (is_some (setup r i).1 ≡ not (has_error (setup r i).0.group))
      × ((has_error i.group ≡ false) ⊎ (setup r i ≡ (i, none)))
unfolding setup
setup_reports r i = elim (Bool-cases (has_error i.group)) [
  | inl bad ↦ (ground arith, inr (ground arith))
  | inr good ↦ (ground (arith, setup_steps-Tells r i), inl good)
]
