-- ===== src/Supervisor/Signature.antt =====
-- `_decision_signature` of supervisor/loop.py: what tells a repeated decision.
use hex_agent.Base.Sorting.{sorted}
use hex_agent.Base.{String, ◌<>◌, List, [], ◌∷◌, map}
use hex_agent.Base.Result.{Result, ok, err, attribute_error, ◌>>=◌}
use hex_agent.Value.{Value, str, obj, Fields, end, get_or, str_of, Python}
use hex_agent.Supervisor.Contracts.{DecisionKind, OrchestratorDecision}
use hex_agent.Supervisor.Tools.{tool_name}

-- `",".join(...)`
unfoldable pub join_commas : List String → String
join_commas [] = ""
join_commas (a ∷ []) = a
join_commas (a ∷ b ∷ rest) = a <> "," <> join_commas (b ∷ rest)

-- `.get` of a value that is not a mapping raises.
abbrev pub agent_of : Python → Value → Result String
agent_of py (obj d) = ok (str_of py (get_or "agent_id" (str "") d))
agent_of py _ = err attribute_error

unfoldable pub command_part : Python → Fields → Result String
command_part py c = agent_of py (get_or "payload" (obj end) c) >>= λ agent.
    ok (str_of py (get_or "command_type" (str "") c) <> ":" <> agent)

unfoldable pub command_parts : Python → List Fields → Result (List String)
unfolding command_part
command_parts py [] = ok []
command_parts py (c ∷ rest) =
    command_part py c >>= λ part. command_parts py rest >>= λ parts. ok (part ∷ parts)

abbrev pub decision_text : DecisionKind → String
decision_text DecisionKind.continue = "continue"
decision_text DecisionKind.need_tool = "need_tool"
decision_text DecisionKind.finished = "finished"
decision_text DecisionKind.blocked = "blocked"
decision_text DecisionKind.failed = "failed"

unfoldable pub decision_signature : Python → OrchestratorDecision → Result String
unfolding sorted join_commas command_parts tool_name
decision_signature py d = command_parts py d.commands >>= λ commands. ok (
    decision_text d.decision
    <> "|"
    <> join_commas (sorted (map (λ a. a.target_kind <> ":" <> a.agent_id) d.next_agent_calls))
    <> "|"
    <> join_commas (sorted (map (λ t. tool_name py t) d.tool_requests))
    <> "|"
    <> join_commas (sorted commands))
