-- ===== src/Module/HostCalls/Routed.antt =====
-- To which plugin's host the host methods of wclap-module.h go.
use wclap_bridge.Base.{
  ℕ, zero, suc, ◌≡◌, ◌≢◌, ap, ◌∙◌, Bool, true, false, List, [], ◌∷◌, Option, none, some, arith,
  get_elem?, set, get_elem?-set_ne, get_elem?-set_self, length, ◌^◌, ◌<◌,
}
use wclap_bridge.Module.HostMethods.{HostCall, default_result, Reads}
use wclap_bridge.Module.HostCalls.{
  Native, Ports, Write, nothing, Plugin, Module, call_plugin, set_plugin, get_plugin, call_host,
  listed, after_plugin,
}

inside : {A : Type 0} (xs : List A) (i : ℕ) (x : A) → get_elem? xs i ≡ some x → i < length xs
inside [] i x h = absurd (cc)
inside (y ∷ ys) zero x h = omega arith
inside (y ∷ ys) (suc i) x h = omega (arith, inside ys i x h)

module _ {H : Type 0} (native : Native H) (m : Reads) (ports : Ports) where
  context_set :
      (is64 : Bool) (s : Module H) (struct i : ℕ)
      → i < 2 ^ 32
      → (set_plugin is64 s struct i).contexts struct ≡ i
  unfolding set_plugin
  context_set true s struct i small = ground arith
  context_set false s struct i small = ground arith

  call_found :
      (s : Module H) (w_host : ℕ) (c : HostCall ℕ) (p : Plugin H)
      → get_plugin s w_host ≡ some p
      → call_host native m ports s w_host c
        ≡ after_plugin s (s.contexts w_host) p (call_plugin native m ports p c)
  unfolding call_host
  call_found s w_host c p found = rw (found, call_host)

  get-set_plugin :
      (is64 : Bool) (s : Module H) (struct i : ℕ) (p : Plugin H)
      → i < 2 ^ 32
      → get_elem? s.plugin_list i ≡ some (some p)
      → get_plugin (set_plugin is64 s struct i) struct ≡ some p
  unfolding get_plugin set_plugin listed
  get-set_plugin is64 s struct i p small at =
      ap (λ k. listed (get_elem? s.plugin_list k)) (context_set is64 s struct i small)
      ∙ ap listed at

  -- A call through a struct for which `setPlugin` set the index of a plugin, less than 2^32, and that
  -- goes through no null member: it is that plugin's host that gets the call and changes by it, and its
  -- result and what it writes come back; the entry of any other index `j`, and so every other plugin's
  -- host, stays as it was.
  pub call_host_routed :
      (is64 : Bool) (s : Module H) (struct i j : ℕ) (p : Plugin H) (c : HostCall ℕ) (h' : H)
      (result : ℕ) (write : Write)
      → i < 2 ^ 32
      → get_elem? s.plugin_list i ≡ some (some p)
      → call_plugin native m ports p c ≡ some (h', result, write)
      → i ≢ j
      → (s' : Module H) × (call_host native m ports (set_plugin is64 s struct i) struct c
          ≡ some (s', result, write))
        × (get_elem? s'.plugin_list i ≡ some (some (record p { host = h' })))
        × (get_elem? s'.plugin_list j ≡ get_elem? s.plugin_list j)
  unfolding after_plugin set_plugin
  call_host_routed is64 s struct i j p c h' result write small at called ne =
      let s₁ = set_plugin is64 s struct i in
      let index = context_set is64 s struct i small in
      let new : Option (Plugin H) = some (record p { host = h' }) in
      (
        record s₁ { plugin_list = set s₁.plugin_list (s₁.contexts struct) new },
        call_found s₁ struct c p (get-set_plugin is64 s struct i p small at)
            ∙ ap (λ o. after_plugin s₁ (s₁.contexts struct) p o) called,
        ap (λ k. get_elem? (set s.plugin_list k new) i) index
            ∙ get_elem?-set_self s.plugin_list i new (inside s.plugin_list i (some p) at),
        ap (λ k. get_elem? (set s.plugin_list k new) j) index
            ∙ get_elem?-set_ne s.plugin_list i j new ne,
      )

  -- Where no plugin is found, nothing changes and nothing is written; `is_main_thread` and
  -- `is_audio_thread` say true, and all other methods false or 0.
  call_host_unlisted :
      (s : Module H) (w_host : ℕ) (c : HostCall ℕ)
      → get_plugin s w_host ≡ none
      → call_host native m ports s w_host c ≡ some (s, default_result c, nothing)
  unfolding call_host
  call_host_unlisted s w_host c absent = rw (absent, call_host)
