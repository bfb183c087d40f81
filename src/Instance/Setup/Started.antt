-- ===== src/Instance/Setup/Started.antt =====
-- InstanceGroup::startInstance of wclap-instance-wasmtime.cpp: which calls give out an instance.
use wclap_bridge.Base.{◌≡◌, ◌⊎◌, inl, inr, refl, true, false, Bool-cases, none, is_some, arith}
use wclap_bridge.Instance.Group.{Group}
use wclap_bridge.Instance.Impl.{Impl}
use wclap_bridge.Instance.Setup.{Replies, setup, fresh_impl, keep_single, start_instance}

keep_single_lem :
    (r : Replies) (made : Impl)
    → let (g', i) = keep_single made in
      (is_some i ≡ true) × ((g'.shared_memory ≡ true) ⊎ (start_instance r g' ≡ (g', none)))
unfolding keep_single start_instance
keep_single_lem r made = elim (Bool-cases made.group.shared_memory) [
  | inl shared ↦ (refl, inl (ground arith))
  | inr alone ↦ (refl, inr (ground arith))
]

start_instance_made :
    (r : Replies) (g : Group)
    → g.single_thread ≡ false
    → start_instance r g ≡ keep_single (setup r (fresh_impl g)).0
unfolding start_instance
start_instance_made r g free = ground arith

start_instance_used :
    (r : Replies) (g : Group) → g.single_thread ≡ true → start_instance r g ≡ (g, none)
unfolding start_instance
start_instance_used r g used = ground arith

-- A call either finds that the single instance was given out, changes nothing and gives none, or
-- it gives an instance. Afterwards the group has shared memory, or every further call of any
-- outcome gives none and changes nothing.
pub start_instance_once :
    (r r' : Replies) (g : Group)
    → let (g', i) = start_instance r g in
      ((g.single_thread ≡ true) × (start_instance r g ≡ (g, none)))
      ⊎ ((is_some i ≡ true) × ((g'.shared_memory ≡ true) ⊎ (start_instance r' g' ≡ (g', none))))
start_instance_once r r' g = elim (Bool-cases g.single_thread) [
  | inl used ↦ inl (used, start_instance_used r g used)
  | inr free ↦
      inr (rw (start_instance_made r g free) (keep_single_lem r' (setup r (fresh_impl g)).0))
]
