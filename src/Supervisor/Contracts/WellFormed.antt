-- ===== src/Supervisor/Contracts/WellFormed.antt =====
-- What every decision that `parse_decision` returns satisfies.
use hex_agent.Base.{
  Bool-cases, inl, inr, ◌≡◌, subst, true, List, [], ◌∷◌, arith, All, if◌then◌else◌, contains,
  not_blank, strip,
}
use hex_agent.Base.Result.{ok, err, json_gate_error, >>=-eq-ok, ok_inj}
use hex_agent.Value.{Value, str, obj, Fields, end, get_or, str_of, Python}
use hex_agent.Supervisor.Contracts.{
  AgentAssignment, OrchestratorDecision, valid_target_kinds, as_mapping, parse_call, parse_calls,
  parse_tool, parse_tools, parse_commands, parse_decision, kind_or_raise, decision_kind,
  require_list,
}

pub record IsCall (a : AgentAssignment) : Type 0 where
  pub named : not_blank a.agent_id ≡ true
  pub aimed : not_blank a.objective ≡ true
  pub known_kind : contains valid_target_kinds a.target_kind ≡ true

-- A tool request names a tool, and its arguments, if given, are a mapping.
abbrev pub IsTool : Python → Fields → Type 0
IsTool py t =
    (not_blank (strip (str_of py (get_or "tool" (str "") t))) ≡ true)
    × ((args : Fields) × (as_mapping (get_or "args" (obj end) t) ≡ ok args))

abbrev pub IsCommand : Python → Fields → Type 0
IsCommand py c = not_blank (strip (str_of py (get_or "command_type" (str "") c))) ≡ true

absurd_err {ℓ} : {A : Type ℓ} {t : Fields} → err json_gate_error ≡ ok t → A
absurd_err e = cc

module _ (py : Python) where
  parse_call-IsCall : (c : Fields) {a : AgentAssignment} → parse_call py c ≡ ok a → IsCall a
  unfolding parse_call
  parse_call-IsCall c e = ground arith

  parse_calls-IsCall :
      (rows : List Value) {calls : List AgentAssignment}
      → parse_calls py rows ≡ ok calls
      → All IsCall calls
  unfolding parse_calls
  parse_calls-IsCall [] e = subst (All IsCall) (ok_inj e) tt
  parse_calls-IsCall (v ∷ rest) e =
      let (c, _, e₁) = >>=-eq-ok (as_mapping v) _ e in
      let (call, h, e₂) = >>=-eq-ok (parse_call py c) _ e₁ in
      let (calls, k, e₃) = >>=-eq-ok (parse_calls py rest) _ e₂ in
      subst (All IsCall) (ok_inj e₃) (parse_call-IsCall c h, parse_calls-IsCall rest k)

  parse_tool-IsTool : (t : Fields) {u : Fields} → parse_tool py t ≡ ok u → IsTool py u
  unfolding parse_tool
  parse_tool-IsTool t e =
      elim (Bool-cases (not_blank (strip (str_of py (get_or "tool" (str "") t))))) [
        | inl named ↦
            let (args, h, k) =
              >>=-eq-ok (as_mapping (get_or "args" (obj end) t)) _ (rw named at e) in
            subst (IsTool py) (ok_inj k) (named, (args, h))
        | inr blank ↦ absurd_err (rw blank at e)
      ]

  parse_tools-IsTool :
      (rows : List Value) {tools : List Fields}
      → parse_tools py rows ≡ ok tools
      → All (IsTool py) tools
  unfolding parse_tools
  parse_tools-IsTool [] e = subst (All (IsTool py)) (ok_inj e) tt
  parse_tools-IsTool (v ∷ rest) e =
      let (t, _, e₁) = >>=-eq-ok (as_mapping v) _ e in
      let (tool, h, e₂) = >>=-eq-ok (parse_tool py t) _ e₁ in
      let (tools, k, e₃) = >>=-eq-ok (parse_tools py rest) _ e₂ in
      subst (All (IsTool py)) (ok_inj e₃) (parse_tool-IsTool t h, parse_tools-IsTool rest k)

  parse_commands-IsCommand :
      (rows : List Value) {cmds : List Fields}
      → parse_commands py rows ≡ ok cmds
      → All (IsCommand py) cmds
  unfolding parse_commands
  parse_commands-IsCommand [] e = subst (All (IsCommand py)) (ok_inj e) tt
  parse_commands-IsCommand (v ∷ rest) e =
      let (c, _, e₁) = >>=-eq-ok (as_mapping v) _ e in
      let (named, h, e₂) =
        >>=-eq-ok
          (if not_blank (strip (str_of py (get_or "command_type" (str "") c)))
            then ok c
            else err json_gate_error)
          _ e₁ in
      let (cmds, k, e₃) = >>=-eq-ok (parse_commands py rest) _ e₂ in
      subst (All (IsCommand py)) (ok_inj e₃) (ground arith, parse_commands-IsCommand rest k)

  -- Every agent call of a parsed decision names an agent, has an objective and one of the two
  -- target kinds; every tool request names a tool, and its arguments are a mapping or missing;
  -- every command names its type.
  pub parse_decision_well_formed :
      (answer : Fields) {d : OrchestratorDecision}
      → parse_decision py answer ≡ ok d
      → All IsCall d.next_agent_calls
        × All (IsTool py) d.tool_requests
        × All (IsCommand py) d.commands
  unfolding parse_decision
  parse_decision_well_formed answer e =
      let (kind, _, e₁) =
        >>=-eq-ok (kind_or_raise (decision_kind (str_of py (get_or "decision" (str "") answer)))) _
          e in
      let (rows₁, _, e₂) = >>=-eq-ok (require_list answer "next_agent_calls") _ e₁ in
      let (calls, h, e₃) = >>=-eq-ok (parse_calls py rows₁) _ e₂ in
      let (rows₂, _, e₄) = >>=-eq-ok (require_list answer "tool_requests") _ e₃ in
      let (tools, k, e₅) = >>=-eq-ok (parse_tools py rows₂) _ e₄ in
      let (_, _, e₆) = >>=-eq-ok (require_list answer "acceptance_status") _ e₅ in
      let (rows₃, _, e₇) = >>=-eq-ok (require_list answer "commands") _ e₆ in
      let (cmds, l, e₈) = >>=-eq-ok (parse_commands py rows₃) _ e₇ in
      let same = ok_inj e₈ in
      (
        subst (λ d. All IsCall d.next_agent_calls) same (parse_calls-IsCall rows₁ h),
        subst (λ d. All (IsTool py) d.tool_requests) same (parse_tools-IsTool rows₂ k),
        subst (λ d. All (IsCommand py) d.commands) same (parse_commands-IsCommand rows₃ l),
      )
