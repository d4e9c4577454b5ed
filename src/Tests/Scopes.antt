-- ===== src/Tests/Scopes.antt =====
-- The theorems on the tools of a role, the approval gate and the terminal, on concrete inputs.
use hex_agent.Base.{◌≡◌, refl, true, false, some, none, [], ◌∷◌, contains, String-discrete}
use hex_agent.Base.Dict.{Dict}
use hex_agent.Base.Result.{err, contract_error}
use hex_agent.Base.{String, ℕ, suc}
use hex_agent.Base.Texts.{includes, last_segment, single_backslashes}
use hex_agent.Value.{end, field, str, arr, texts}
use hex_agent.Core.Envelope.{ToolRequest}
use hex_agent.Core.Registry.{Executor, returned}
use hex_agent.Base.{if◌then◌else◌, ◌==◌}
use hex_agent.Safety.Paths.{find_paths}
use hex_agent.Safety.{Host, safe_tool_port}
use hex_agent.Safety.Blocked.{dangerous_never_runs}
use hex_agent.Tests.Scenario.{py}
use hex_agent.Roles.{SkillSpec, RoleSpec, allowed_tools}
use hex_agent.Roles.Scope.{forbidden_wins}
use hex_agent.Control.Checkpoint.{RuntimeCheckpoint, is_waiting, with_status}
use hex_agent.Control.Checkpoint.{with_status_once}

abbrev reader : SkillSpec
reader = record {
  name = "reader";
  description = "reads";
  triggers = [];
  allowed_tools = "read_file" ∷ [];
  forbidden_tools = "terminal" ∷ [];
  steps_md = "";
  report_md = "";
}

abbrev skills : Dict SkillSpec
skills = ("reader", reader) ∷ []

abbrev analyst : RoleSpec
analyst = record {
  name = "analyst";
  role = "Analyst";
  department = "research";
  system_prompt = "Read.";
  explicit_tools = "terminal" ∷ "search" ∷ [];
  allowed_skills = "reader" ∷ [];
  may_route_to = [];
  test_ownership = record { owns_validation = true; must_handoff_to = none };
  lenses = [];
}

forbidden_wins_example : contains ("search" ∷ "read_file" ∷ []) "terminal" ≡ false
unfolding String-discrete allowed_tools
forbidden_wins_example =
    forbidden_wins analyst skills ("terminal" ∷ []) {tools = "search" ∷ "read_file" ∷ []} "reader"
      "terminal" {s = reader} refl refl refl refl

abbrev gate : RuntimeCheckpoint
gate = record {
  checkpoint_type = "tool_call";
  session_id = "s1";
  risk_level = "high";
  status = "waiting";
  payload = end;
  checkpoint_id = "c1";
  created_at = "t0";
  resolved_at = none;
}

abbrev approved : RuntimeCheckpoint
approved = record gate { status = "approved"; resolved_at = some "t1" }

with_status_once_example :
    (is_waiting gate ≡ true)
    × (approved.status ≡ "approved")
    × (with_status "rejected" (some "t2") "t3" approved ≡ err contract_error)
unfolding String-discrete with_status
with_status_once_example =
    with_status_once "approved" "rejected" none (some "t2") "t1" "t3" gate {d = approved} refl

-- A host that resolves one path.
abbrev host : Host
host = record {
  getenv = λ name. none;
  lower = λ s. s;
  resolve = λ s. if s == "/../etc/passwd" then some "/etc/passwd" else none;
  in_workspace = λ s. s == "/work";
}

abbrev request : ToolRequest
request = record {
  name = "terminal_run";
  args = field "argv" (arr (texts ("cat" ∷ "../../etc/passwd" ∷ []))) end;
  context = none;
  request_id = "r1";
}

drive_and_quotes : find_paths "C:\\\\x y open('/etc/passwd') a/" ≡ "C:\\\\x" ∷ "/etc/passwd" ∷ []
unfolding find_paths
drive_and_quotes = refl

-- The state is the number of calls of the tool.
abbrev counting : String → Executor ℕ
counting text = record { name = text; execute = λ request n. (returned (str text), suc n) }

dangerous_never_runs_example :
    ((safe_tool_port py host false "terminal_run" (counting "a")).execute request 0
      ≡ (safe_tool_port py host false "terminal_run" (counting "b")).execute request 0)
    × (((safe_tool_port py host false "terminal_run" (counting "a")).execute request 0).1 ≡ 0)
unfolding String-discrete includes last_segment find_paths single_backslashes
dangerous_never_runs_example =
    dangerous_never_runs py host false "terminal_run" (counting "a") (counting "b") request 0 refl
      refl
