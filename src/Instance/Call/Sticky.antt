-- ===== src/Instance/Call/Sticky.antt =====
-- Histories of calls into a WCLAP, of wclap-instance-wasmtime.h, over an error.
use wclap_bridge.Base.{ℕ, ◌≡◌, refl, ap, ◌∙◌, true, List, [], ◌∷◌, ◌++◌, map, Option, none, some}
use wclap_bridge.Instance.Values.{ArgType, encode_args, wasm_val_to_arg}
use wclap_bridge.Instance.Group.{has_error}
use wclap_bridge.Instance.Call.{Machine, State, call, slot0}
use wclap_bridge.Instance.Call.Guarded.{wt_call_refused, slot0_cleared, decode_zero}
use wclap_bridge.Instance.Call.Variants.{
  Invocation, calls, calls_void, calls_nullary, calls_at, call_void, call_nullary, call_at, invoke,
  invoke_all,
}

module _ {W : Type 0} (limit : ℕ) (mc : Machine W) (get_function : W → ℕ → Option ℕ) where
  call_refused :
      (s : State W) (fn_p : ℕ) (ret : ArgType) (types : List ArgType) (args : List ℕ)
      → has_error s.group ≡ true
      → call limit mc s fn_p ret types args ≡ (s, 0)
  unfolding call
  call_refused s fn_p ret types args bad =
      ap (λ r. (r.0, wasm_val_to_arg ret (slot0 r.1)))
        (wt_call_refused limit mc s fn_p (encode_args types args) bad)
      ∙ ap (λ v. (s, v))
          (ap (wasm_val_to_arg ret) (slot0_cleared (encode_args types args)) ∙ decode_zero ret)

  call_at_refused :
      (s : State W) (found : Option ℕ) (ret : ArgType) (types : List ArgType) (args : List ℕ)
      → has_error s.group ≡ true
      → ◌≡◌ {A = State W × ℕ}
          (elim found [ none ↦ (s, 0) | some fn_p ↦ call limit mc s fn_p ret types args ])
          (s, 0)
  call_at_refused s none ret types args bad = refl
  call_at_refused s (some fn_p) ret types args bad = call_refused s fn_p ret types args bad

  invoke_refused :
      (s : State W) (c : Invocation)
      → has_error s.group ≡ true
      → invoke limit mc get_function s c ≡ (s, 0)
  unfolding invoke call_void call_nullary call_at
  invoke_refused s (calls fn_p ret types args) bad = call_refused s fn_p ret types args bad
  invoke_refused s (calls_void fn_p types args) bad =
      ap (λ r. (r.0, 0)) (wt_call_refused limit mc s fn_p (encode_args types args) bad)
  invoke_refused s (calls_nullary fn_p ret slot) bad =
      ap (λ r. (r.0, wasm_val_to_arg ret (slot0 r.1)))
        (wt_call_refused limit mc s fn_p (slot ∷ []) bad)
      ∙ ap (λ v. (s, v)) (decode_zero ret)
  invoke_refused s (calls_at p ret types args) bad =
      call_at_refused s (get_function s.world p) ret types args bad

  zeros : List Invocation → List ℕ
  zeros cs = map (λ c. 0) cs

  all_refused :
      (s : State W) (cs : List Invocation)
      → has_error s.group ≡ true
      → invoke_all limit mc get_function s cs ≡ (s, zeros cs)
  unfolding invoke_all zeros
  all_refused s [] bad = refl
  all_refused s (c ∷ cs) bad =
      ap (λ r. let (s₂, rs) = invoke_all limit mc get_function r.0 cs in (s₂, r.1 ∷ rs))
        (invoke_refused s c bad)
      ∙ ap (λ r. (r.0, 0 ∷ r.1)) (all_refused s cs bad)

  -- In a history of calls through `wtCall`, once the group has an error: the calls that follow run nothing,
  -- neither the store nor the group's error changes any more, and each of their results is 0.
  pub stops_at_error :
      (s : State W) (before after : List Invocation)
      → let (s', results) = invoke_all limit mc get_function s before in
        has_error s'.group ≡ true
        → invoke_all limit mc get_function s (before ++ after) ≡ (s', results ++ map (λ c. 0) after)
  unfolding invoke_all zeros
  stops_at_error s [] after bad = all_refused s after bad
  stops_at_error s (c ∷ before) after bad =
      ap (λ r. (r.0, (invoke limit mc get_function s c).1 ∷ r.1))
        (stops_at_error (invoke limit mc get_function s c).0 before after bad)
