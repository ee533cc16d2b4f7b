-- ===== src/Subagent/Rights.antt =====
-- src/agent/subagent.rs: the rights of the agents below an agent.
use bonsai_agent.Prelude.{
  ℕ, ◌≤◌, max, true, ◌≡◌, refl, ◌∙◌, String, Option, none, some, List, [], ◌∷◌, str_eq, any, arith,
  Bool-cases, inl, inr,
}
use bonsai_agent.AgentLoop.Dispatch.{is_tool_allowed}
use bonsai_agent.Subagent.{
  AgentConfig, SubAgentConfig, SubAgentRole, from_parent, with_role, narrowed, intersection,
  default_tools, build_sub_config,
}

-- One delegation: the depth, the roles that are chosen in turn, and the goal.
pub record Delegation : Type 0 where
  pub depth : ℕ
  pub roles : List SubAgentRole
  pub goal : String

unfoldable pub with_roles : List SubAgentRole → SubAgentConfig → SubAgentConfig
with_roles [] s = s
with_roles (role ∷ roles) s = with_roles roles (with_role role s)

unfoldable pub child_of : AgentConfig → Delegation → AgentConfig
child_of parent d = build_sub_config (with_roles d.roles (from_parent parent d.depth)) d.goal

unfoldable pub descendant_of : AgentConfig → List Delegation → AgentConfig
descendant_of root [] = root
descendant_of root (d ∷ ds) = descendant_of (child_of root d) ds

intersection-allowed :
    (ts role_default : List String) (name : String)
    → any (λ t. str_eq t name) (intersection ts role_default) ≡ true
    → any (λ t. str_eq t name) ts ≡ true
intersection-allowed [] role_default name h = h
intersection-allowed (t ∷ ts) role_default name h =
    ground (arith, intersection-allowed ts role_default name)

narrowed-allowed :
    (parent role_default : Option (List String)) (name : String)
    → is_tool_allowed (narrowed parent role_default) name ≡ true
    → is_tool_allowed parent name ≡ true
unfolding narrowed is_tool_allowed
narrowed-allowed none role_default name h = refl
narrowed-allowed (some ts) none name h = h
narrowed-allowed (some ts) (some ds) name h = intersection-allowed ts ds name h

-- The second configuration has no right that the first has not.
pub record Narrows (a b : AgentConfig) : Type 0 where
  pub fewer_tools :
      (name : String)
      → is_tool_allowed b.allowed_tools name ≡ true
      → is_tool_allowed a.allowed_tools name ≡ true
  pub same_policy : b.policy ≡ a.policy
  pub same_timeout : b.task_timeout ≡ a.task_timeout
  pub same_budget : b.n_ctx_budget ≡ a.n_ctx_budget
  pub fewer_iterations : b.max_iterations ≤ max a.max_iterations 3

-- What a choice of roles keeps.
record KeepsRights (s t : SubAgentConfig) : Type 0 where
  fewer :
      (name : String)
      → is_tool_allowed t.allowed_tools name ≡ true
      → is_tool_allowed s.allowed_tools name ≡ true
  policy : t.policy ≡ s.policy
  timeout : t.task_timeout ≡ s.task_timeout
  budget : t.n_ctx_budget ≡ s.n_ctx_budget
  iterations : t.max_iterations ≡ s.max_iterations

with_role-KeepsRights :
    (role : SubAgentRole) (s : SubAgentConfig) → KeepsRights s (with_role role s)
unfolding with_role
with_role-KeepsRights role s = elim (Bool-cases s.tools_explicit) [
  | inl explicit ↦ rw explicit (record {
    fewer = λ name h. h;
    policy = refl;
    timeout = refl;
    budget = refl;
    iterations = refl;
  })
  | inr inherited ↦ rw inherited (record {
    fewer = narrowed-allowed s.allowed_tools (default_tools role);
    policy = refl;
    timeout = refl;
    budget = refl;
    iterations = refl;
  })
]

with_roles-KeepsRights :
    (roles : List SubAgentRole) (s : SubAgentConfig) → KeepsRights s (with_roles roles s)
unfolding with_roles
with_roles-KeepsRights [] s = record {
  fewer = λ name h. h;
  policy = refl;
  timeout = refl;
  budget = refl;
  iterations = refl;
}
with_roles-KeepsRights (role ∷ roles) s =
    let first = with_role-KeepsRights role s in
    let rest = with_roles-KeepsRights roles (with_role role s) in
    record {
      fewer = λ name h. first.fewer name (rest.fewer name h);
      policy = rest.policy ∙ first.policy;
      timeout = rest.timeout ∙ first.timeout;
      budget = rest.budget ∙ first.budget;
      iterations = rest.iterations ∙ first.iterations;
    }

child_of-Narrows : (parent : AgentConfig) (d : Delegation) → Narrows parent (child_of parent d)
unfolding child_of build_sub_config from_parent
child_of-Narrows parent d =
    let kept = with_roles-KeepsRights d.roles (from_parent parent d.depth) in
    record {
      fewer_tools = kept.fewer;
      same_policy = kept.policy;
      same_timeout = kept.timeout;
      same_budget = kept.budget;
      fewer_iterations = rw kept.iterations (ground arith);
    }

-- However often tasks are delegated, with whatever roles, an agent may use no tool that the first one
-- may not use. It has the same level of autonomy, the same policies, the same confirmation of the
-- user, the same timeout and the same budget of the context, and at most as many iterations, or 3.
pub descendant_of-Narrows :
    (root : AgentConfig) (ds : List Delegation) → Narrows root (descendant_of root ds)
unfolding descendant_of
descendant_of-Narrows root [] = record {
  fewer_tools = λ name h. h;
  same_policy = refl;
  same_timeout = refl;
  same_budget = refl;
  fewer_iterations = omega arith;
}
descendant_of-Narrows root (d ∷ ds) =
    let first = child_of-Narrows root d in
    let rest = descendant_of-Narrows (child_of root d) ds in
    record {
      fewer_tools = λ name h. first.fewer_tools name (rest.fewer_tools name h);
      same_policy = rest.same_policy ∙ first.same_policy;
      same_timeout = rest.same_timeout ∙ first.same_timeout;
      same_budget = rest.same_budget ∙ first.same_budget;
      fewer_iterations = omega (arith, first.fewer_iterations, rest.fewer_iterations);
    }
