-- ===== src/Supervisor/Decide/Asking.antt =====
-- `o_decide` ends, and does not touch the Blackboard.
use hex_agent.Base.{ℕ, zero, suc, ◌-◌, ◌≡◌, refl, true, false, Option, some, arith}
use hex_agent.Base.{ltb, leb, if_rule, List}
use hex_agent.Base.Result.{Result, ok, err}
use hex_agent.Base.Result.{
  contract_error, json_gate_error, value_error, type_error, attribute_error, permission_error,
  runtime_error, lookup_error, file_not_found_error,
}
use hex_agent.Supervisor.State.{TaskLoopState}
use hex_agent.Supervisor.Contracts.{OrchestratorDecision}
use hex_agent.Supervisor.Ports.{Ports, Run}
use hex_agent.Supervisor.Run.{Effect, emit}
use hex_agent.Supervisor.Decide.{o_decide, ask, settle, record_parse_error}

module _ (p : Ports) where
  -- A result that leaves the Blackboard and the checkpoints as they were.
  abbrev Answered :
      TaskLoopState
      → List TaskLoopState
      → Option (Effect p.World (Option OrchestratorDecision))
      → Type 0
  Answered s v o =
      (m : Effect p.World (Option OrchestratorDecision)) × (o ≡ some m)
      × (m.1.state ≡ s)
      × (m.1.saved ≡ v)

  -- What a question leads to, if asking again leads to it as well.
  settle_rule :
      (limit : ℕ) (s : TaskLoopState) (v : List TaskLoopState)
      (answer : Result OrchestratorDecision) (r : Run p.World)
      (again : Option (Effect p.World (Option OrchestratorDecision)))
      → r.state ≡ s
      → r.saved ≡ v
      → (leb limit (suc r.parse_errors) ≡ false → Answered s v again)
      → Answered s v (settle p limit answer r again)
  unfolding settle record_parse_error emit
  settle_rule limit s v (ok d) r again e u k = (_, refl, e, u)
  settle_rule limit s v (err json_gate_error) r again e u k =
      if_rule (Answered s v) (leb limit (suc r.parse_errors)) _ _ (λ _. (_, refl, e, u)) k
  settle_rule limit s v (err contract_error) r again e u k = (_, refl, e, u)
  settle_rule limit s v (err value_error) r again e u k = (_, refl, e, u)
  settle_rule limit s v (err type_error) r again e u k = (_, refl, e, u)
  settle_rule limit s v (err attribute_error) r again e u k = (_, refl, e, u)
  settle_rule limit s v (err permission_error) r again e u k = (_, refl, e, u)
  settle_rule limit s v (err runtime_error) r again e u k = (_, refl, e, u)
  settle_rule limit s v (err lookup_error) r again e u k = (_, refl, e, u)
  settle_rule limit s v (err file_not_found_error) r again e u k = (_, refl, e, u)

  -- It ends: with more fuel than there are parse errors left in the budget (and one question at
  -- least), `o_decide` gives a result. It leaves the Blackboard and the checkpoints as they are.
  pub o_decide_enough :
      (limit n : ℕ) (r : Run p.World)
      → ltb (limit - suc r.parse_errors) n ≡ true
      → (m : Effect p.World (Option OrchestratorDecision)) × (o_decide p limit n r ≡ some m)
        × (m.1.state ≡ r.state)
        × (m.1.saved ≡ r.saved)
  unfolding o_decide ask record_parse_error emit
  o_decide_enough limit zero r h = ground arith
  o_decide_enough limit (suc n) r h =
      let (answer, r₁) = ask p r in
      settle_rule limit r.state r.saved answer r₁ (o_decide p limit n (record_parse_error p r₁))
        refl refl (λ more. o_decide_enough limit n (record_parse_error p r₁) (ground arith))
