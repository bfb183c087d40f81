-- ===== src/Plugin/Process/Frame.antt =====
-- What allocating and writing leave alone, for the memory of `pluginProcess` of wclap-plugin.h.
use wclap_bridge.Base.{
  ℕ, suc, ◌+◌, ◌≤◌, ◌<◌, ◌≡◌, ◌≢◌, ◌⊎◌, inl, inr, refl, sym, ap, ◌∙◌, Bool, true, false, List, [],
  ◌∷◌, arith, length,
}
use wclap_bridge.Plugin.Process.{Memory, Value, set_array, get_array}

-- What the arena and the instance promise, of places: a new array has none of those in use, and as many as
-- were asked for; what is written to a place in use is read there, and changes no other place in use.
-- Nothing is said of a place that is not in use.
pub record IsArena {W S D : Type 0} (m : Memory W S D) (used : W → ℕ → ℕ → Bool) : Type 0 where
  pub array_fresh : (w : W) (n i : ℕ) → used w (m.array w n).1 i ≡ false
  pub array_used : (w : W) (n i : ℕ) → i < n → used (m.array w n).0 (m.array w n).1 i ≡ true
  pub array_keeps_used : (w : W) (n q i : ℕ) → used w q i ≡ true → used (m.array w n).0 q i ≡ true
  pub array_keeps :
      (w : W) (n q i : ℕ) → used w q i ≡ true → m.get (m.array w n).0 q i ≡ m.get w q i
  pub put_used :
      (w : W) (p i q j : ℕ) (v : Value S D)
      → used w p i ≡ true
      → used (m.put w p i v) q j ≡ used w q j
  pub put_same :
      (w : W) (p i : ℕ) (v : Value S D) → used w p i ≡ true → m.get (m.put w p i v) p i ≡ v
  pub put_other :
      (w : W) (p i q j : ℕ) (v : Value S D)
      → used w p i ≡ true
      → used w q j ≡ true
      → (p ≢ q) ⊎ (i ≢ j)
      → m.get (m.put w p i v) q j ≡ m.get w q j

pub differ :
    {W : Type 0} (used : W → ℕ → ℕ → Bool) (w : W) (p q j : ℕ)
    → ((i : ℕ) → used w p i ≡ false)
    → used w q j ≡ true
    → p ≢ q
differ used w p q j free taken e = let t = ap (λ x. used w x j) e in let f = free j in cc

-- So many places from an index on are in use.
abbrev pub Room : {W : Type 0} → (W → ℕ → ℕ → Bool) → W → ℕ → ℕ → ℕ → Type 0
Room used w p i n = (j : ℕ) → i ≤ j → j < i + n → used w p j ≡ true

pub Room-tail :
    {W : Type 0} (used : W → ℕ → ℕ → Bool) (w : W) (p i n : ℕ)
    → Room used w p i (suc n)
    → Room used w p (suc i) n
Room-tail used w p i n room j le lt = room j (omega (arith, le)) (omega (arith, lt))

pub Room-head :
    {W : Type 0} (used : W → ℕ → ℕ → Bool) (w : W) (p i n : ℕ)
    → Room used w p i (suc n)
    → used w p i ≡ true
Room-head used w p i n room = room i (omega arith) (omega arith)

module _ {W S D : Type 0} (m : Memory W S D) (used : W → ℕ → ℕ → Bool) (laws : IsArena m used) where
  -- Every place in use is as it was, but in the array `d` from the index `c` on.
  abbrev pub Frame : ℕ → ℕ → W → W → Type 0
  Frame d c w w' =
      (q i : ℕ)
      → used w q i ≡ true
      → (q ≢ d) ⊎ (i < c)
      → (used w' q i ≡ true) × (m.get w' q i ≡ m.get w q i)

  pub Frame-trans : (d c : ℕ) (w w₁ w₂ : W) → Frame d c w w₁ → Frame d c w₁ w₂ → Frame d c w w₂
  Frame-trans d c w w₁ w₂ f g q i u o =
      let (u₁, e₁) = f q i u o in let (u₂, e₂) = g q i u₁ o in (u₂, e₂ ∙ e₁)

  pub Frame-array : (d c : ℕ) (w : W) (n : ℕ) → Frame d c w (m.array w n).0
  Frame-array d c w n q i u o = (laws.array_keeps_used w n q i u, laws.array_keeps w n q i u)

  pub Frame-weaken : (d c : ℕ) (w w' : W) → Frame d (suc c) w w' → Frame d c w w'
  Frame-weaken d c w w' f q i u (inl ne) = f q i u (inl ne)
  Frame-weaken d c w w' f q i u (inr lt) = f q i u (inr (omega (arith, lt)))

  -- A write at `c`.
  pub Frame-put :
      (d c : ℕ) (w w₁ : W) (v : Value S D)
      → used w₁ d c ≡ true
      → Frame d c w w₁
      → Frame d c w (m.put w₁ d c v)
  Frame-put d c w w₁ v at f q i u o =
      let (u₁, e) = f q i u o in
      (
        laws.put_used w₁ d c q i v at ∙ u₁,
        laws.put_other w₁ d c q i v at u₁ (elim o [
          | inl ne ↦ inl (λ s. ne (sym s))
          | inr lt ↦ inr (λ s. absurd (omega (arith, lt, s)))
        ])
            ∙ e,
      )

  -- A write to an array that was not in use.
  pub Frame-fresh :
      (d c : ℕ) (w w₁ : W) (p i : ℕ) (v : Value S D)
      → ((j : ℕ) → used w p j ≡ false)
      → used w₁ p i ≡ true
      → Frame d c w w₁
      → Frame d c w (m.put w₁ p i v)
  Frame-fresh d c w w₁ p i v free at f q j u o =
      let (u₁, e) = f q j u o in
      (
        laws.put_used w₁ p i q j v at ∙ u₁,
        laws.put_other w₁ p i q j v at u₁ (inl (differ used w p q j free u)) ∙ e,
      )

  pub Room-put :
      (w : W) (p i n : ℕ) (v : Value S D)
      → Room used w p i (suc n)
      → Room used (m.put w p i v) p (suc i) n
  Room-put w p i n v room j le lt =
      laws.put_used w p i p j v (Room-head used w p i n room) ∙ Room-tail used w p i n room j le lt

  pub Frame-set_array :
      {X : Type 0} (wrap : X → Value S D) (d c : ℕ) (w w₁ : W) (p i : ℕ) (xs : List X)
      → ((j : ℕ) → used w p j ≡ false)
      → Room used w₁ p i (length xs)
      → Frame d c w w₁
      → Frame d c w (set_array m wrap w₁ p i xs)
  unfolding set_array
  Frame-set_array wrap d c w w₁ p i [] free room f = f
  Frame-set_array wrap d c w w₁ p i (x ∷ xs) free room f =
      Frame-set_array wrap d c w (m.put w₁ p i (wrap x)) p (suc i) xs free
        (Room-put w₁ p i (length xs) (wrap x) room)
        (Frame-fresh d c w w₁ p i (wrap x) free (Room-head used w₁ p i (length xs) room) f)

  -- Changes inside an array that was not in use.
  pub Frame-inner :
      (d c e : ℕ) (w w₁ w₂ : W)
      → ((j : ℕ) → used w e j ≡ false)
      → Frame d c w w₁
      → Frame e 0 w₁ w₂
      → Frame d c w w₂
  Frame-inner d c e w w₁ w₂ free f g q i u o =
      let (u₁, e₁) = f q i u o in
      let (u₂, e₂) = g q i u₁ (inl (λ s. differ used w e q i free u (sym s))) in (u₂, e₂ ∙ e₁)

  pub set_array_used :
      {X : Type 0} (wrap : X → Value S D) (w : W) (p i q j : ℕ) (xs : List X)
      → Room used w p i (length xs)
      → used (set_array m wrap w p i xs) q j ≡ used w q j
  unfolding set_array
  set_array_used wrap w p i q j [] room = refl
  set_array_used wrap w p i q j (x ∷ xs) room =
      set_array_used wrap (m.put w p i (wrap x)) p (suc i) q j xs
        (Room-put w p i (length xs) (wrap x) room)
      ∙ laws.put_used w p i q j (wrap x) (Room-head used w p i (length xs) room)

  set_array_before :
      {X : Type 0} (wrap : X → Value S D) (w : W) (p i j : ℕ) (xs : List X)
      → used w p j ≡ true
      → Room used w p i (length xs)
      → j < i
      → m.get (set_array m wrap w p i xs) p j ≡ m.get w p j
  unfolding set_array
  set_array_before wrap w p i j [] u room lt = refl
  set_array_before wrap w p i j (x ∷ xs) u room lt =
      let at = Room-head used w p i (length xs) room in
      set_array_before wrap (m.put w p i (wrap x)) p (suc i) j xs
        (laws.put_used w p i p j (wrap x) at ∙ u) (Room-put w p i (length xs) (wrap x) room)
        (omega (arith, lt))
      ∙ laws.put_other w p i p j (wrap x) at u (inr (λ s. absurd (omega (arith, lt, s))))

  -- What `setArray` writes, `getArray` reads.
  pub get_array-set_array :
      {X : Type 0} (wrap : X → Value S D) (read : Value S D → X)
      → ((x : X) → read (wrap x) ≡ x)
      → (w : W) (p i : ℕ) (xs : List X) → Room used w p i (length xs)
      → get_array m read (set_array m wrap w p i xs) p i (length xs) ≡ xs
  unfolding get_array set_array
  get_array-set_array wrap read back w p i [] room = refl
  get_array-set_array wrap read back w p i (x ∷ xs) room =
      let w₁ = m.put w p i (wrap x) in
      let at = Room-head used w p i (length xs) room in
      let room₁ = Room-put w p i (length xs) (wrap x) room in
      let at₁ = laws.put_used w p i p i (wrap x) at ∙ at in
      ap (λ v. read v ∷ get_array m read (set_array m wrap w₁ p (suc i) xs) p (suc i) (length xs))
        (set_array_before wrap w₁ p (suc i) i xs at₁ room₁ (omega arith)
          ∙ laws.put_same w p i (wrap x) at)
      ∙ (ap (λ y. y ∷ get_array m read (set_array m wrap w₁ p (suc i) xs) p (suc i) (length xs))
            (back x)
          ∙ ap (λ ys. x ∷ ys) (get_array-set_array wrap read back w₁ p (suc i) xs room₁))
