-- ===== src/Supervisor/Decide.antt =====
-- `o_decide` of supervisor/graph.py: one decision of agent O, asked again while it does not parse.
pub mod Asking
use hex_agent.Base.{
  ℕ, zero, suc, ◌-◌, String, drop, Bool, true, false, Option, none, some, List, [], ◌∷◌, map,
}
use hex_agent.Base.{if◌then◌else◌, length, leb}
use hex_agent.Base.Dict
use hex_agent.Base.Dict.{Dict}
use hex_agent.Base.Result.{Result, Error, ok, err, json_gate_error, ◌>>=◌}
use hex_agent.Value.{null, get_or, Fields}
use hex_agent.Supervisor.State.{TaskLoopState}
use hex_agent.Supervisor.Contracts.{OrchestratorDecision, parse_decision}
use hex_agent.Supervisor.Ports.{Ports, Run, StateView, parse_error, decision_made}
use hex_agent.Supervisor.Run.{Effect, emit}

-- `xs[-n:]` for a positive n
abbrev pub last_of : {A : Type 0} → ℕ → List A → List A
last_of n xs = drop (length xs - n) xs

-- `len(state.selected_agents or [1])`
abbrev window : List String → ℕ
window [] = 1
window (a ∷ rest) = length (a ∷ rest)

module _ (p : Ports) where
  abbrev departments_view : Dict (List String)
  departments_view = elim p.agent_registry [ none ↦ [] | some registry ↦ registry.departments ]

  unfoldable pub state_view : TaskLoopState → StateView
  state_view s = record {
    round_no = s.round_no;
    selected_agents = s.selected_agents;
    acceptance = s.acceptance_checks;
    recent_turns = last_of (window s.selected_agents) s.turns;
    artifact_ids = Dict.keys s.artifacts;
    pending_commands =
        map (λ c. (c.command_type, get_or "agent_id" null c.payload)) s.pending_commands;
    departments = departments_view;
  }

  -- The raw text, through the JSON gate and the checks of `parse_decision`.
  abbrev pub read_decision : String → Result OrchestratorDecision
  read_decision raw = elim (p.parse_json_object raw) [
    | none ↦ err json_gate_error
    | some d ↦ parse_decision p.python d
  ]

  -- `record_parse_error`, and its event
  unfoldable pub record_parse_error : Run p.World → Run p.World
  unfolding emit
  record_parse_error r =
      let r' = record r { parse_errors = suc r.parse_errors } in
      emit (parse_error r'.state.round_no r'.parse_errors) r'

  -- `parse_exceeded`
  abbrev pub parse_exceeded : ℕ → Run p.World → Bool
  parse_exceeded limit r = leb limit r.parse_errors

  -- What is asked of agent O, and the run once it has answered.
  unfoldable pub ask : Run p.World → Result OrchestratorDecision × Run p.World
  unfolding state_view
  ask r =
      let (raw, w) = p.decide (state_view r.state) r.world in
      (read_decision raw, record r { world = w })

  -- What an answer leads to; `again` is what asking once more gives.
  unfoldable pub settle :
      ℕ
      → Result OrchestratorDecision
      → Run p.World
      → Option (Effect p.World (Option OrchestratorDecision))
      → Option (Effect p.World (Option OrchestratorDecision))
  settle limit (ok d) r again =
      some (ok (some d), emit (decision_made r.state.round_no d.decision) r)
  settle limit (err json_gate_error) r again =
      if parse_exceeded limit (record_parse_error r)
      then some (ok none, record_parse_error r)
      else again
  settle limit (err e) r again = some (err e, r)

  -- The result: none when the fuel is out; an exception; the decision, or none when the budget of
  -- parse errors is exhausted.
  unfoldable pub o_decide :
      ℕ → ℕ → Run p.World → Option (Effect p.World (Option OrchestratorDecision))
  unfolding ask settle
  o_decide limit zero r = none
  o_decide limit (suc n) r =
      let (answer, r₁) = ask r in settle limit answer r₁ (o_decide limit n (record_parse_error r₁))
