-- ===== src/Safety.antt =====
-- safety/policy.py: the check that every tool of the toolbox passes before it runs. The environment,
-- `str.lower` and the paths of the host are parameters; Safety/Paths has the pattern of paths.
pub mod Paths
pub mod Blocked
use hex_agent.Base.{
  String, ◌==◌, Bool, true, false, not, ◌&&◌, ◌||◌, Option, none, some, List, [], ◌∷◌, map,
  contains, strip,
}
use hex_agent.Base.{if◌then◌else◌, ◌<>◌}
use hex_agent.Base.Texts.{includes, last_segment, single_backslashes}
use hex_agent.Safety.Paths.{find_paths}
use hex_agent.Value.{
  Value, null, bool, str, arr, obj, Fields, end, field, get_or, str_of, to_list, strs_of, Python,
}
use hex_agent.Core.Envelope.{ToolRequest}
use hex_agent.Core.Registry.{Attempt, returned, Executor}

-- What the policy asks of the host.
pub record Host : Type 0 where
  -- `os.getenv(name)`
  pub getenv : String → Option String
  -- `str.lower`
  pub lower : String → String
  -- `Path(s).resolve()`; none stands for an OSError or a ValueError
  pub resolve : String → Option String
  -- the workspace itself, or a path below it
  pub in_workspace : String → Bool

pub record PolicyDecision : Type 0 where
  pub allowed : Bool
  pub reason : String
  pub code : String
  pub risk : String

abbrev pub shell_exes : List String
shell_exes =
    "bash" ∷ "sh" ∷ "zsh" ∷ "cmd" ∷ "cmd.exe" ∷ "powershell" ∷ "powershell.exe" ∷ "pwsh" ∷ []

abbrev pub shell_tokens : List String
shell_tokens = "|" ∷ "&" ∷ ";" ∷ ">" ∷ "<" ∷ "`" ∷ "$(" ∷ "&&" ∷ "||" ∷ []

abbrev pub destructive_exes : List String
destructive_exes = "rm" ∷ "del" ∷ "rmdir" ∷ "format" ∷ "mkfs" ∷ "dd" ∷ []

abbrev git_mutations : List String
git_mutations =
    "add" ∷ "commit" ∷ "reset" ∷ "checkout" ∷ "rebase" ∷ "push" ∷ "merge" ∷ "branch" ∷ "stash" ∷ []

abbrev permitted : PolicyDecision
permitted = record { allowed = true; reason = ""; code = ""; risk = "low" }

abbrev blocked : String → String → PolicyDecision
blocked reason code = record { allowed = false; reason = reason; code = code; risk = "blocked" }

-- `_truthy`
abbrev flag_set : Host → String → Bool
flag_set h name = elim (h.getenv name) [
  | none ↦ false
  | some v ↦ contains ("1" ∷ "true" ∷ "yes" ∷ "on" ∷ []) (h.lower (strip v))
]

-- Whether one of some texts is part of a text.
abbrev pub has_any : List String → String → Bool
has_any [] s = false
has_any (t ∷ ts) s = includes t s || has_any ts s

abbrev pub any_has : List String → List String → Bool
any_has ts [] = false
any_has ts (s ∷ rest) = has_any ts s || any_has ts rest

-- A match whose path is outside the workspace.
abbrev path_escapes : Host → String → Bool
path_escapes h candidate = elim (h.resolve (single_backslashes candidate)) [
  | none ↦ false
  | some resolved ↦ not (h.in_workspace resolved)
]

abbrev pub any_path_escapes : Host → List String → Bool
any_path_escapes h [] = false
any_path_escapes h (c ∷ rest) = path_escapes h c || any_path_escapes h rest

-- `_argv_escapes_workspace`, of the arguments after the program
abbrev pub arguments_escape : Host → List String → Bool
arguments_escape h [] = false
arguments_escape h (part ∷ rest) = any_path_escapes h (find_paths part) || arguments_escape h rest

-- The program that argv names: the last segment of its path, in lower case.
abbrev pub program : Host → String → String
program h s = h.lower (last_segment s)

abbrev is_git_mutation : Host → String → List String → Bool
is_git_mutation h exe [] = false
is_git_mutation h exe (sub ∷ rest) =
    contains ("git" ∷ "git.exe" ∷ []) exe && contains git_mutations (h.lower sub)

abbrev pub git_blocked : Host → String → List String → Bool
git_blocked h exe arguments =
    is_git_mutation h exe arguments && not (flag_set h "AGENT_ALLOW_GIT_MUTATIONS")

abbrev first_of : List String → String
first_of [] = ""
first_of (s ∷ rest) = s

-- `classify_terminal`, of a list that is not empty
unfoldable pub classify_argv : Host → String → List String → PolicyDecision
unfolding includes last_segment single_backslashes
classify_argv h first arguments =
    if contains shell_exes (program h first)
    then blocked "shell executables are not allowed; pass argv directly" "shell_exe"
    else if any_has shell_tokens (first ∷ arguments)
    then blocked "shell control/redirection tokens are not allowed" "shell_token"
    else if contains destructive_exes (program h first)
    then blocked "destructive command blocked" "destructive"
    else if git_blocked h (program h first) arguments
    then blocked ("git " <> first_of arguments <> " blocked (set AGENT_ALLOW_GIT_MUTATIONS=1)")
        "git_mutation"
    else if arguments_escape h arguments
    then blocked "argv references an absolute path outside the workspace" "path_escape"
    else permitted

abbrev pub classify_texts : Host → List String → PolicyDecision
classify_texts h [] = blocked "terminal requires a non-empty argv list" "bad_argv"
classify_texts h (first ∷ arguments) = classify_argv h first arguments

unfoldable pub classify_terminal : Python → Host → Value → PolicyDecision
classify_terminal py h (arr items) = classify_texts h (strs_of py (to_list items))
classify_terminal py h _ = blocked "terminal requires a non-empty argv list" "bad_argv"

abbrev whole_file_writes : List String
whole_file_writes = "fs_write" ∷ "fs.write" ∷ "file_write" ∷ []

abbrev git_tools : List String
git_tools = "git_commit" ∷ "git_add" ∷ "git_reset" ∷ "git_checkout" ∷ "git_push" ∷ []

-- The names under which the terminal is called.
abbrev pub terminal_names : List String
terminal_names = "terminal_run" ∷ "terminal.run" ∷ "terminal" ∷ []

-- `ToolPolicy.check`; the first argument is `repair_mode`.
unfoldable pub check_tool : Python → Host → Bool → String → Fields → PolicyDecision
unfolding classify_terminal includes
check_tool py h repair_mode tool_name args =
    if contains terminal_names tool_name
    then classify_terminal py h (get_or "argv" null args)
    else if has_any git_tools tool_name && not (flag_set h "AGENT_ALLOW_GIT_MUTATIONS")
    then blocked ("git mutation tool '" <> tool_name <> "' blocked") "git_mutation"
    else if repair_mode && contains whole_file_writes tool_name
    then blocked "in repair mode a whole-file rewrite is blocked; use a patch tool"
        "repair_requires_patch_tool"
    else permitted

-- The envelope of a call that the policy blocks.
abbrev pub policy_envelope : String → PolicyDecision → Fields
policy_envelope name d = field "ok" (bool false) (
    field "tool" (str name) (
      field "policy_blocked" (bool true) (
        field "policy_code" (str d.code) (
          field "error" (str d.reason)
            (field "metadata" (obj (field "risk" (str d.risk) end)) end)))))

-- `SafeToolPort`
unfoldable pub safe_tool_port :
    {S : Type 0} → Python → Host → Bool → String → Executor S → Executor S
unfolding check_tool
safe_tool_port py h repair_mode name inner = record {
  name = name;
  execute = λ request s.
      let decision = check_tool py h repair_mode request.name request.args in
      if not decision.allowed
      then (returned (obj (policy_envelope request.name decision)), s)
      else inner.execute request s;
}
