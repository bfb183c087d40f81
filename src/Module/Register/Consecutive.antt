-- ===== src/Module/Register/Consecutive.antt =====
-- The host functions of wclap-module.h in the function tables of a WCLAP's instances.
use wclap_bridge.Base.{
  ℕ, zero, suc, ◌+◌, ◌-◌, ◌^◌, ◌%◌, ◌<◌, ◌≤◌, not, false, ◌≡◌, ◌≢◌, refl, ap, ◌∙◌, Bool, true,
  false, List, [], ◌∷◌, Option, arith, length, All, inl, inr, ◌⊎◌,
}
use native.Mathlib.Decide.{ℕ_discrete}
use wclap_bridge.Instance.Values.{ArgType, FuncType, make_wasmtime_func_type}
use wclap_bridge.Instance.Group.{Group, has_error}
use wclap_bridge.Instance.Call.{Machine, State, register_host_generic}
use wclap_bridge.Instance.Call
use wclap_bridge.Module.Failure.{ErrorState, set_error}
use wclap_bridge.Module.Register.{is_minus_one, register_host, add_host_functions}

-- The indices from one on.
abbrev pub from : ℕ → ℕ → List ℕ
from zero i = []
from (suc n) i = i ∷ from n (i + 1)

abbrev pub zeros : ℕ → List ℕ
zeros zero = []
zeros (suc n) = 0 ∷ zeros n

length-zeros : (n : ℕ) → length (zeros n) ≡ n
length-zeros zero = refl
length-zeros (suc n) = ground (arith, length-zeros n)

zeros-All : (n : ℕ) → All (λ m. m ≡ 0) (zeros n)
zeros-All zero = tt
zeros-All (suc n) = (refl, zeros-All n)

-- A registration in a table with room, of an instance without an error, puts the function behind the entries
-- that the table has, and returns its index, which is how many there were.
abbrev pub AppendsTo : {W : Type 0} → (W → W × ℕ) → (W → Bool) → (W → ℕ) → ℕ → Type 0
AppendsTo {W} register sound size limit =
    (w : W)
    → sound w ≡ true
    → size w < limit
    → (sound (register w).0 ≡ true) × (size (register w).0 ≡ size w + 1) × ((register w).1 ≡ size w)

module _ {W : Type 0} (register : W → W × ℕ) (sound : W → Bool) (size : W → ℕ) (limit : ℕ)
    (appends : AppendsTo register sound size limit) (small : limit < 2 ^ 32) (is64 : Bool)
    (s : ErrorState) where
  first_registration :
      (w : W) (members : List ℕ)
      → sound w ≡ true
      → size w + length members ≤ limit
      → All (λ m. m ≡ 0) members
      → let out = add_host_functions register is64 s w members in
        (out.0 ≡ s) × (out.2 ≡ from (length members) (size w)) × (out.3 ≡ true)
  unfolding add_host_functions
  first_registration w [] ok room zeros = (refl, refl, refl)
  first_registration w (m ∷ ms) ok room zeros =
      let (ok', grown, index) = appends w ok (omega arith) in
      ground (
        arith,
        grown,
        index,
        small,
        first_registration (register w).0 ms ok' (omega (arith, grown)) zeros.1,
      )

  matching_registration :
      (w : W) (n i : ℕ)
      → sound w ≡ true
      → i ≡ size w
      → size w + n ≤ limit
      → let out = add_host_functions register is64 s w (from n i) in
        (out.0 ≡ s) × (out.2 ≡ from n i) × (out.3 ≡ true)
  unfolding add_host_functions
  matching_registration w zero i ok at room = (refl, refl, refl)
  matching_registration w (suc n) i ok at room =
      let (ok', grown, index) = appends w ok (omega arith) in
      ground (
        arith,
        grown,
        index,
        small,
        matching_registration (register w).0 n (i + 1) ok' (omega (arith, grown, at))
            (omega (arith, grown)),
      )

  other_registration :
      (w : W) (n i : ℕ)
      → sound w ≡ true
      → size w < limit
      → i ≢ 0
      → i ≢ size w
      → let out = add_host_functions register is64 s w (from (suc n) i) in
        (out.0.has_error ≡ true) × (out.3 ≡ false)
  unfolding add_host_functions set_error
  other_registration w n i ok room some_index elsewhere =
      let (ok', grown, index) = appends w ok room in ground (arith, index, small)

  first_of :
      (w : W) (n : ℕ)
      → sound w ≡ true
      → size w + n ≤ limit
      → let out = add_host_functions register is64 s w (zeros n) in
        (out.0 ≡ s) × (out.2 ≡ from n (size w)) × (out.3 ≡ true)
  first_of w n ok room =
      let (kept, indices, done) =
        first_registration w (zeros n) ok (rw (length-zeros n) room) (zeros-All n) in
      (kept, indices ∙ ap (λ k. from k (size w)) (length-zeros n), done)

  pub second_of :
      (w₁ w₂ : W) (n : ℕ)
      → sound w₂ ≡ true
      → 0 < size w₁
      → size w₂ + suc n ≤ limit
      → let members = from (suc n) (size w₁) in
        let second = add_host_functions register is64 s w₂ members in
        (size w₁ ≡ size w₂) × (second.0 ≡ s) × (second.2 ≡ members) × (second.3 ≡ true)
        ⊎ (size w₁ ≢ size w₂) × (second.0.has_error ≡ true) × (second.3 ≡ false)
  second_of w₁ w₂ n ok some_entries room = elim (ℕ_discrete (size w₁) (size w₂)) [
    | yes same ↦
        let (kept, indices, done) =
          matching_registration w₂ (suc n) (size w₁) ok same (omega arith) in
        inl (same, kept, indices, done)
    | no other ↦
        let (err, stopped) =
          other_registration w₂ n (size w₁) ok (omega arith) (omega arith) other in
        inr (other, err, stopped)
  ]

-- What Wasmtime says of a table: growing it by an entry, where it has fewer than `limit`, gives the
-- number of entries that it had, and adds one.
abbrev pub TableGrows : {W : Type 0} → Machine W → (W → ℕ) → ℕ → Type 0
TableGrows {W} mc size limit =
    (w : W) (t : FuncType)
    → size w < limit
    → ((mc.table_grow w t).1 ≡ inl (size w)) × (size (mc.table_grow w t).0 ≡ size w + 1)

-- `registerHost32` and `registerHost64`, of a function of the type, which Wasmtime can make
abbrev pub register :
    {W : Type 0} → Machine W → Option ArgType → List ArgType → State W → State W × ℕ
register mc ret types st = Call.register_host mc true st ret types

module _ {W : Type 0} (mc : Machine W) (size : W → ℕ) (limit : ℕ) (grows : TableGrows mc size limit)
    (small : limit < 2 ^ 32) (ret : Option ArgType) (types : List ArgType) where
  grown_lem :
      (g : Group) (r : W × (ℕ ⊎ List ℕ)) (n : ℕ)
      → r.1 ≡ inl n
      → Call.grow_table g r ≡ (record { group = g; world = r.0 }, n)
  unfolding Call.grow_table
  grown_lem g (w, inl k) n h = ground (arith, h)
  grown_lem g (w, inr e) n h = absurd (ground (arith, h))

  register-AppendsTo :
      AppendsTo (register mc ret types) (λ st. not (has_error st.group)) (λ st. size st.world) limit
  unfolding Call.register_host register_host_generic
  register-AppendsTo st ok room =
      let (index, more) = grows st.world (make_wasmtime_func_type ret types) room in
      let sound : has_error st.group ≡ false = ground (arith, ok) in
      let sound_still : not (has_error st.group) ≡ true = ok in
      let small_index : size st.world % 2 ^ 32 ≡ size st.world = omega (arith, room, small) in
      let grown =
        grown_lem st.group (mc.table_grow st.world (make_wasmtime_func_type ret types))
          (size st.world) index in
      rw (sound, grown) (sound_still, more, small_index)

  -- Two instances of a group without an error, whose tables have room for one or more host functions,
  -- below a maximum of fewer than 2^32 entries, and of which the first is not empty. The registration
  -- in the first, of members that are zero, succeeds and gives the members consecutive indices from
  -- the size of its table. The one in the second then either finds a table of the same size, succeeds
  -- and leaves the members as they are, or a table of another size, and fails with an error.
  pub registered_everywhere :
      (is64 : Bool) (s : ErrorState) (st₁ st₂ : State W) (n : ℕ)
      → has_error st₁.group ≡ false
      → has_error st₂.group ≡ false
      → 0 < size st₁.world
      → size st₁.world + suc n ≤ limit
      → size st₂.world + suc n ≤ limit
      → let first = add_host_functions (register mc ret types) is64 s st₁ (zeros (suc n)) in
        let second = add_host_functions (register mc ret types) is64 s st₂ first.2 in
        (first.0 ≡ s)
        × (first.2 ≡ from (suc n) (size st₁.world))
        × (first.3 ≡ true)
        × ((size st₁.world ≡ size st₂.world)
              × (second.0 ≡ s)
              × (second.2 ≡ first.2)
              × (second.3 ≡ true)
            ⊎ (size st₁.world ≢ size st₂.world) × (second.0.has_error ≡ true) × (second.3 ≡ false))
  registered_everywhere is64 s st₁ st₂ n ok₁ ok₂ some_entries room₁ room₂ =
      let sound : State W → Bool = λ st. not (has_error st.group) in
      let size_of : State W → ℕ = λ st. size st.world in
      let (same, indices, done) =
        first_of (register mc ret types) sound size_of limit register-AppendsTo small is64 s st₁
          (suc n) (ap not ok₁) room₁ in
      (
        same,
        indices,
        done,
        rw (indices) (
            second_of (register mc ret types) sound size_of limit register-AppendsTo small is64 s
              st₁ st₂ n (ap not ok₂) some_entries room₂),
      )

-- A registration that fails, so that `registerHostFunction` has -1 in 64 bits, and `registerHost64` like
-- `registerHost32` returns 2^32 - 1. In the main instance, where the members are still 0, the module of a
-- 64-bit WCLAP goes on without an error, with 2^32 - 1 as the index. In an instance for a thread, for a
-- member with the index of another function, and for a 32-bit WCLAP, it stops with an error.
pub register64_unnoticed :
    {W : Type 0} (mc : Machine W) (functype_made : Bool) (st : State W) (ret : Option ArgType)
    (types : List ArgType) (s : ErrorState) (prev : ℕ)
    → (register_host_generic mc functype_made st ret types).1 ≡ 2 ^ 64 - 1
    → prev ≢ 0
    → prev ≢ 2 ^ 32 - 1
    → let index = (Call.register_host mc functype_made st ret types).1 in
      (register_host true s 0 index ≡ (s, 2 ^ 32 - 1, true))
      × ((register_host true s prev index).0.has_error ≡ true)
      × ((register_host true s prev index).2 ≡ false)
      × ((register_host false s 0 index).0.has_error ≡ true)
      × ((register_host false s 0 index).2 ≡ false)
unfolding Call.register_host register_host is_minus_one set_error
register64_unnoticed mc functype_made st ret types s prev minus_one some_index other =
    ground (arith, minus_one, some_index, other)
