-- ===== src/AgentLoop/Dispatch/Guarded.antt =====
-- src/agent/agent_loop/step.rs with src/agent/validate.rs and src/safety/path_guard.rs: the calls that
-- a step executes when they are validated with the path guard.
use bonsai_agent.Prelude.{
  ℕ, Bool, true, ◌≡◌, sym, ◌∙◌, String, List, [], ◌∷◌, all, arith, if◌then◌else◌,
}
use bonsai_agent.Recovery.Breaker as Breaker
use bonsai_agent.ToolExec.Gate.{ValidatedCall}
use bonsai_agent.Parsing.{ToolCall}
use bonsai_agent.PathGuard.{PathGuard, Files, is_denied}
use bonsai_agent.Validate.{
  Value, ValidationIssue, is_block, is_known, shell_command, validate_tool_call,
}
use bonsai_agent.Validate.Strings.{
  strings_of, path_ok, command_ok, no_match, validate_tool_call-valid,
}
use bonsai_agent.AgentLoop.State.{StepState}
use bonsai_agent.AgentLoop.Dispatch.{StepContext, validated_call, gather}
use bonsai_agent.AgentLoop.Dispatch.Checked.{IsChecked, AllChecked, gather-AllChecked}

-- The messages of the issues that block a call.
abbrev pub block_issues : List ValidationIssue → List String
block_issues [] = []
block_issues (i ∷ issues) =
    let rest = block_issues issues in if is_block i then i.message ∷ rest else rest

module _ {W : Type 0} (f : Files) (known : List String) (g : PathGuard)
    (patterns : List (String → Bool)) (c : StepContext W Value) where
  -- The call of validate_tool_call in the step.
  unfoldable pub validate : ToolCall Value → Bool × List String
  validate call =
      let validation = validate_tool_call f known g patterns call in
      (validation.is_valid, block_issues validation.issues)

  -- The context of a step with the guard.
  abbrev pub guarded : StepContext W Value
  guarded = record c { validate = validate }

  -- Where the call comes from, its name is known, no text in its arguments that begins at the root
  -- or at home is denied, no word of its command is, and no text matches a pattern.
  pub record IsGuarded (v : ValidatedCall W Value) : Type 0 where
    pub call : ToolCall Value
    pub from_call : v ≡ validated_call c call v.tool v.is_read_only
    pub known_tool : is_known f known g patterns call.name ≡ true
    pub paths_allowed : all (path_ok (is_denied f g)) (strings_of call.arguments) ≡ true
    pub command_allowed : command_ok f g (shell_command f known g patterns call) ≡ true
    pub harmless : all (no_match patterns) (strings_of call.arguments) ≡ true

  abbrev pub AllGuarded : List (ValidatedCall W Value) → Type 0
  AllGuarded [] = Unit
  AllGuarded (v ∷ vs) = IsGuarded v × AllGuarded vs

  Checked-IsGuarded :
      (b : Breaker.CircuitBreaker) (w : W) (v : ValidatedCall W Value)
      → IsChecked guarded b w v
      → IsGuarded v
  unfolding validate validated_call
  Checked-IsGuarded b w v k =
      let call = k.call in
      let four = sym (validate_tool_call-valid f known g patterns call) ∙ k.valid in
      record {
        call = call;
        from_call = k.from_call;
        known_tool = ground (arith, four);
        paths_allowed = ground (arith, four);
        command_allowed = ground (arith, four);
        harmless = ground (arith, four);
      }

  Checked-AllGuarded :
      (b : Breaker.CircuitBreaker) (w : W) (vs : List (ValidatedCall W Value))
      → AllChecked guarded b w vs
      → AllGuarded vs
  Checked-AllGuarded b w [] checked = tt
  Checked-AllGuarded b w (v ∷ vs) (one, checked) =
      (Checked-IsGuarded b w v one, Checked-AllGuarded b w vs checked)

  -- When calls are validated with the path guard, every call that a step executes names a known tool,
  -- none of the texts in its arguments, however deep, that begin at the root or at home is a denied
  -- path, no word of a command of the shell is one, and no text matches a dangerous pattern.
  pub gather-AllGuarded :
      (attempt : ℕ) (calls : List (ToolCall Value)) (s : StepState W)
      → AllGuarded (gather guarded attempt calls [] s).validated
  gather-AllGuarded attempt calls s =
      Checked-AllGuarded s.trace.circuit_breaker s.world _
        (gather-AllChecked guarded attempt calls s)
