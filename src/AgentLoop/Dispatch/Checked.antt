-- ===== src/AgentLoop/Dispatch/Checked.antt =====
-- src/agent/agent_loop/step.rs: what is known of the calls that a step executes.
use bonsai_agent.Prelude.{
  ℕ, Bool, true, false, not, ◌&&◌, ◌||◌, ◌≡◌, refl, ◌∙◌, String, ◌<>◌, Option, none, some, List, [],
  ◌∷◌, ◌++◌, arith, Bool-cases, inl, inr, if◌then◌else◌,
}
use mathlib.Core.Path.{subst}
use bonsai_agent.Recovery.Breaker as Breaker
use bonsai_agent.Recovery.LoopDetector as LoopDetector
use bonsai_agent.ToolExec.Gate.{Tool, ValidatedCall}
use bonsai_agent.ToolExec.Apply.{Trace, write}
use bonsai_agent.Panel.{evaluate_tool_safety}
use bonsai_agent.Parsing.{ToolCall}
use bonsai_agent.AgentLoop.State.{StepState}
use bonsai_agent.AgentLoop.Dispatch.{
  StepContext, is_tool_allowed, is_halt, CallCheck, refused, accepted, Gathered, check_call, judged,
  validated_call, sorted_out, told, gather,
}

module _ {W V : Type 0} (c : StepContext W V) where
  -- The call comes from a call of the model with the same name, whose arguments it has, as they were
  -- and coerced. Its tool is available, allowed and registered, the call is valid, and if it may
  -- write, no judge blocks it.
  pub record IsChecked (b : Breaker.CircuitBreaker) (w : W) (v : ValidatedCall W V) : Type 0 where
    pub call : ToolCall V
    pub from_call : v ≡ validated_call c call v.tool v.is_read_only
    pub available : Breaker.is_available b (c.now w) call.name ≡ true
    pub allowed : is_tool_allowed c.allowed_tools call.name ≡ true
    pub valid : (c.validate call).0 ≡ true
    pub registered : c.find_tool call.name ≡ some (v.tool, v.is_read_only)
    pub unblocked :
        (v.is_read_only
          || not
              (is_halt (evaluate_tool_safety c.judges call.name (c.json.to_text call.arguments))))
        ≡ true

  abbrev pub AllChecked : Breaker.CircuitBreaker → W → List (ValidatedCall W V) → Type 0
  AllChecked b w [] = Unit
  AllChecked b w (v ∷ vs) = IsChecked b w v × AllChecked b w vs

  abbrev CheckedIfAccepted : Breaker.CircuitBreaker → W → CallCheck W V → Type 0
  CheckedIfAccepted b w (refused writes text) = Unit
  CheckedIfAccepted b w (accepted v) = IsChecked b w v

  judged-checked :
      (call : ToolCall V) (b : Breaker.CircuitBreaker) (w : W) (found : Option (Tool W V × Bool))
      → c.find_tool call.name ≡ found
      → Breaker.is_available b (c.now w) call.name ≡ true
      → is_tool_allowed c.allowed_tools call.name ≡ true
      → (c.validate call).0 ≡ true
      → CheckedIfAccepted b w (judged c call found)
  unfolding judged
  judged-checked call b w none at available allowed valid = tt
  judged-checked call b w (some (tool, is_read_only)) at available allowed valid =
      let stops =
        is_halt (evaluate_tool_safety c.judges call.name (c.json.to_text call.arguments)) in
      elim (Bool-cases (not is_read_only && stops)) [
        | inl e ↦ rw (e, CheckedIfAccepted) tt
        | inr e ↦
            rw (e, CheckedIfAccepted)
              (record {
                call = call;
                from_call = refl;
                available = available;
                allowed = allowed;
                valid = valid;
                registered = at;
                unblocked = ground (arith, e);
              })
      ]

  check_call-checked :
      (call : ToolCall V) (s : StepState W)
      → CheckedIfAccepted s.trace.circuit_breaker s.world (check_call c call s)
  unfolding check_call
  check_call-checked call s =
      let available = Breaker.is_available s.trace.circuit_breaker (c.now s.world) call.name in
      elim (Bool-cases available) [
        | inr e ↦ rw (check_call, e, CheckedIfAccepted) tt
        | inl free ↦ elim (Bool-cases (is_tool_allowed c.allowed_tools call.name)) [
          | inr e ↦ rw (check_call, free, e, CheckedIfAccepted) tt
          | inl allowed ↦ elim (Bool-cases (c.validate call).0) [
            | inr e ↦ rw (check_call, free, allowed, e, CheckedIfAccepted) tt
            | inl valid ↦
                rw (check_call, free, allowed, valid)
                  (judged-checked call s.trace.circuit_breaker s.world (c.find_tool call.name) refl
                    free allowed valid)
          ]
        ]
      ]

  snoc-AllChecked :
      (b : Breaker.CircuitBreaker) (w : W) (vs : List (ValidatedCall W V)) (v : ValidatedCall W V)
      → AllChecked b w vs
      → IsChecked b w v
      → AllChecked b w (vs ++ v ∷ [])
  snoc-AllChecked b w [] v all one = (one, tt)
  snoc-AllChecked b w (u ∷ us) v (first, all) one = (first, snoc-AllChecked b w us v all one)

  told-breaker :
      (name : String) (text : Option String) (t : Trace)
      → (told c name text t).circuit_breaker ≡ t.circuit_breaker
  unfolding told
  told-breaker name none t = refl
  told-breaker name (some text) t = refl

  -- The rest of the gathering yields checked calls, from the same breaker and world.
  Yields :
      Breaker.CircuitBreaker → W → (List (ValidatedCall W V) → StepState W → Gathered W V) → Type 0
  Yields b w later =
      (done : List (ValidatedCall W V)) (t : StepState W)
      → t.trace.circuit_breaker ≡ b
      → t.world ≡ w
      → AllChecked b w done
      → AllChecked b w (later done t).validated

  sorted_out-checked :
      (b : Breaker.CircuitBreaker) (w : W)
      (later : List (ValidatedCall W V) → StepState W → Gathered W V) (name : String)
      (check : CallCheck W V) (done : List (ValidatedCall W V)) (s : StepState W)
      → Yields b w later
      → s.trace.circuit_breaker ≡ b
      → s.world ≡ w
      → CheckedIfAccepted b w check
      → AllChecked b w done
      → AllChecked b w (sorted_out c later name check done s).validated
  unfolding sorted_out Yields
  sorted_out-checked b w later name (refused writes text) done s yields same_b same_w one all =
      yields done _ (told-breaker name text (write writes s.trace) ∙ same_b) same_w all
  sorted_out-checked b w later name (accepted call) done s yields same_b same_w one all =
      yields (done ++ call ∷ []) s same_b same_w (snoc-AllChecked b w done call all one)

  either-checked :
      (b : Breaker.CircuitBreaker) (w : W) (test : Bool) (g h : Gathered W V)
      → AllChecked b w g.validated
      → AllChecked b w h.validated
      → AllChecked b w (if test then g else h).validated
  either-checked b w true g h one other = one
  either-checked b w false g h one other = other

  gather-checked :
      (attempt : ℕ) (calls : List (ToolCall V)) (b : Breaker.CircuitBreaker) (w : W)
      (done : List (ValidatedCall W V)) (s : StepState W)
      → s.trace.circuit_breaker ≡ b
      → s.world ≡ w
      → AllChecked b w done
      → AllChecked b w (gather c attempt calls done s).validated
  unfolding gather Yields
  gather-checked attempt [] b w done s same_b same_w all = all
  gather-checked attempt (call ∷ calls) b w done s same_b same_w all =
      let key = call.name <> (":" <> c.json.to_text call.arguments) in
      let (detector, looping) =
        LoopDetector.record_and_check c.json_keys c.hash s.loop_detector key in
      let s₁ = record s { loop_detector = detector } in
      let check = check_call c call s₁ in
      let checked =
        subst (λ v. CheckedIfAccepted b v check) same_w
          (subst (λ a. CheckedIfAccepted a s.world check) same_b (check_call-checked call s₁)) in
      either-checked b w looping _ _ all (
        sorted_out-checked b w (λ d t. gather c attempt calls d t) call.name check done s₁
          (λ d t b_same w_same d_all. gather-checked attempt calls b w d t b_same w_same d_all)
          same_b same_w checked all)

  -- The calls that a step executes have each passed every test at the breaker and in the world that
  -- the step began with: the tool is available, allowed and registered, the call is valid, and no
  -- judge blocks it if it may write.
  pub gather-AllChecked :
      (attempt : ℕ) (calls : List (ToolCall V)) (s : StepState W)
      → AllChecked s.trace.circuit_breaker s.world (gather c attempt calls [] s).validated
  gather-AllChecked attempt calls s =
      gather-checked attempt calls s.trace.circuit_breaker s.world [] s refl refl tt
