-- ===== src/Supervisor/Tools.antt =====
-- `run_tool` of supervisor/graph.py: the tool requests of a decision.
use hex_agent.Base.{String, List, [], ◌∷◌}
use hex_agent.Base.{if◌then◌else◌}
use hex_agent.Base.Dict
use hex_agent.Base.Result.{ok}
use hex_agent.Value.{null, str, Fields, end, field, get_or, truthy, str_of}
use hex_agent.Value.{dict_or_empty, Python}
use hex_agent.Supervisor.State.{TaskLoopStatus, add_artifact}
use hex_agent.Supervisor.Contracts.{OrchestratorDecision}
use hex_agent.Supervisor.Ports.{Ports, Run, tool_done}
use hex_agent.Supervisor.Run.{Effect, emit, after, lift, next_id}

-- `str(req.get("tool") or req.get("name") or "")`
unfoldable pub tool_name : Python → Fields → String
tool_name py req =
    let tool = get_or "tool" null req in
    let name = get_or "name" null req in
    if truthy tool then str_of py tool else if truthy name then str_of py name else ""

unfoldable pub tool_artifact : String → Fields → Fields
tool_artifact tool envelope = field "kind" (str "tool_result") (
    field "tool" (str tool)
      (field "ok" (get_or "ok" null envelope) (field "data" (get_or "data" null envelope) end)))

module _ (p : Ports) where
  unfoldable pub run_tools : List Fields → Run p.World → Effect p.World Unit
  unfolding tool_name tool_artifact add_artifact emit
  run_tools [] r = (ok tt, r)
  run_tools (req ∷ rest) r =
      after (lift (dict_or_empty p.python (get_or "args" null req)) r) (λ args r₁.
        let tool = tool_name p.python req in
        let (envelope, w) = p.execute_tool tool args r₁.world in
        let art_id = next_id "tool_result" r₁.state in
        let s = record (r₁.state) {
          tool_results = Dict.insert art_id envelope r₁.state.tool_results;
        } in
        run_tools rest (
          emit (tool_done tool (get_or "ok" null envelope))
            (record r₁ { state = add_artifact art_id (tool_artifact tool envelope) s; world = w })))

  unfoldable pub run_tool : OrchestratorDecision → Run p.World → Effect p.World Unit
  unfolding run_tools
  run_tool d r = after (run_tools d.tool_requests r) (λ _ r₁.
      (ok tt, record r₁ { state = record (r₁.state) { status = TaskLoopStatus.waiting_tool } }))
