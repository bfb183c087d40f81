-- ===== src/Module/Routing/Same.antt =====
-- The routing of source/wclap-module.h against the module that it routes to.
use wclap_bridge.Base.{
  ◌≡◌, refl, ap, ◌∙◌, Bool, true, false, List, [], ◌∷◌, Option, none, some, if◌then◌else◌,
}
use wclap_bridge.Module.Routing.{
  Methods, WclapModule, open_wclap, Call, asks_error, asks_version, asks_factory, Answer,
  error_answer, version_answer, factory_answer, one_call, route, answered, kept32, kept64,
  get_error, module_clap_version, get_factory,
}

-- The answers of a module to a history of calls.
one_answer : {G A : Type 0} → Methods G A → A → Call → A × Answer
one_answer m a (asks_error buffer n) = let (a', r) = m.get_error a buffer n in (a', error_answer r)
one_answer m a asks_version = (a, version_answer (m.version a))
one_answer m a (asks_factory id) = let (a', p) = m.factory a id in (a', factory_answer p)

unfoldable pub answers : {G A : Type 0} → Methods G A → A → List Call → List Answer
unfolding one_answer
answers m a [] = []
answers m a (c ∷ cs) = let (a', r) = one_answer m a c in r ∷ answers m a' cs

and_then : {M : Type 0} → (M → Option (List Answer)) → Option (M × Answer) → Option (List Answer)
and_then f none = none
and_then f (some (s, r)) = elim (f s) [ none ↦ none | some rs ↦ some (r ∷ rs) ]

module _ {G A B : Type 0} (m32 : Methods G A) (m64 : Methods G B) where
  -- The answers through the handle's module.
  unfoldable pub routed : WclapModule A B → List Call → Option (List Answer)
  unfolding and_then
  routed s [] = some []
  routed s (c ∷ cs) = and_then (λ s'. routed s' cs) (one_call m32 m64 s c)

  with32 : A → WclapModule A B
  with32 a = record { wclap32 = some a; wclap64 = none }

  with64 : B → WclapModule A B
  with64 b = record { wclap32 = none; wclap64 = some b }

  one_call32 :
      (a : A) (c : Call)
      → one_call m32 m64 (with32 a) c ≡ (let (a', r) = one_answer m32 a c in some (with32 a', r))
  unfolding one_call answered get_error module_clap_version get_factory route kept32 with32
      one_answer
  one_call32 a (asks_error buffer n) = refl
  one_call32 a asks_version = refl
  one_call32 a (asks_factory id) = refl

  one_call64 :
      (b : B) (c : Call)
      → one_call m32 m64 (with64 b) c ≡ (let (b', r) = one_answer m64 b c in some (with64 b', r))
  unfolding one_call answered get_error module_clap_version get_factory route kept64 with64
      one_answer
  one_call64 b (asks_error buffer n) = refl
  one_call64 b asks_version = refl
  one_call64 b (asks_factory id) = refl

  routed32 : (a : A) (cs : List Call) → routed (with32 a) cs ≡ some (answers m32 a cs)
  unfolding routed answers
  routed32 a [] = refl
  routed32 a (c ∷ cs) =
      ap (and_then (λ s'. routed s' cs)) (one_call32 a c)
      ∙ ap (λ o. elim o [ none ↦ none | some rs ↦ some ((one_answer m32 a c).1 ∷ rs) ])
          (routed32 (one_answer m32 a c).0 cs)

  routed64 : (b : B) (cs : List Call) → routed (with64 b) cs ≡ some (answers m64 b cs)
  unfolding routed answers
  routed64 b [] = refl
  routed64 b (c ∷ cs) =
      ap (and_then (λ s'. routed s' cs)) (one_call64 b c)
      ∙ ap (λ o. elim o [ none ↦ none | some rs ↦ some ((one_answer m64 b c).1 ∷ rs) ])
          (routed64 (one_answer m64 b c).0 cs)

  -- A history of calls on an opened handle gets the answers that the same history gets from the module
  -- of the group's width alone, and never meets a null pointer.
  pub routed_same :
      (is64 : Bool) (g : G) (cs : List Call)
      → routed (open_wclap m32 m64 is64 g) cs
        ≡ some (if is64 then answers m64 (m64.construct g) cs else answers m32 (m32.construct g) cs)
  unfolding open_wclap with32 with64
  routed_same true g cs = routed64 (m64.construct g) cs
  routed_same false g cs = routed32 (m32.construct g) cs
