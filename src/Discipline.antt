-- ===== src/Discipline.antt =====
-- discipline/budget.py: the counts of a loop's steps, parse errors and repeated tool calls.
pub mod Condense
pub mod FinishGate
use hex_agent.Base.{ℕ, suc, ◌+◌, ◌≡◌, refl, String, ◌==◌, Bool, none, some, List, [], ◌∷◌, arith}
use hex_agent.Base.{if◌then◌else◌, ltb}
use hex_agent.Base.Dict
use hex_agent.Base.Dict.{Dict, lookup-insert}

pub record Budget : Type 0 where
  pub max_steps : ℕ
  pub max_parse_errors : ℕ
  pub max_same_tool_calls : ℕ
  pub steps : ℕ
  pub parse_errors : ℕ
  pub tool_calls : Dict ℕ

unfoldable pub record_step : Budget → Budget
record_step b = record b { steps = suc b.steps }

unfoldable pub step_exceeded : Budget → Bool
step_exceeded b = ltb b.max_steps b.steps

-- `self._tool_calls.get(key, 0)`
unfoldable pub tool_count : String → Budget → ℕ
tool_count key b = elim (Dict.lookup key b.tool_calls) [ none ↦ 0 | some n ↦ n ]

unfoldable pub record_tool_call : String → Budget → Budget
record_tool_call key b = record b {
  tool_calls = Dict.insert key (tool_count key b + 1) b.tool_calls;
}

unfoldable pub same_tool_exceeded : String → Budget → Bool
same_tool_exceeded key b = ltb b.max_same_tool_calls (tool_count key b)

-- A run of tool calls, by their keys.
unfoldable pub record_calls : List String → Budget → Budget
record_calls [] b = b
record_calls (key ∷ keys) b = record_calls keys (record_tool_call key b)

-- How often a key occurs.
abbrev pub occurrences : String → List String → ℕ
occurrences k [] = 0
occurrences k (key ∷ keys) = (if k == key then 1 else 0) + occurrences k keys

tool_count-record_tool_call :
    (k key : String) (b : Budget)
    → tool_count k (record_tool_call key b) ≡ tool_count k b + (if k == key then 1 else 0)
unfolding tool_count record_tool_call
tool_count-record_tool_call k key b =
    ground (arith, lookup-insert k key (tool_count key b + 1) b.tool_calls)

tool_count-record_calls :
    (k : String) (keys : List String) (b : Budget)
    → tool_count k (record_calls keys b) ≡ tool_count k b + occurrences k keys
unfolding record_calls
tool_count-record_calls k [] b = omega arith
tool_count-record_calls k (key ∷ keys) b =
    let step = tool_count-record_tool_call k key b in
    let rest = tool_count-record_calls k keys (record_tool_call key b) in omega (arith, step, rest)

record_calls-limit :
    (keys : List String) (b : Budget)
    → (record_calls keys b).max_same_tool_calls ≡ b.max_same_tool_calls
unfolding record_calls record_tool_call
record_calls-limit [] b = refl
record_calls-limit (key ∷ keys) b = record_calls-limit keys (record_tool_call key b)

-- After any run of tool calls, a key is over its limit exactly when its earlier count and its
-- occurrences in the run are together more than the limit: other keys do not matter.
pub same_tool_exceeded_after :
    (k : String) (keys : List String) (b : Budget)
    → same_tool_exceeded k (record_calls keys b)
      ≡ ltb b.max_same_tool_calls (tool_count k b + occurrences k keys)
unfolding same_tool_exceeded
same_tool_exceeded_after k keys b =
    rw (tool_count-record_calls k keys b, record_calls-limit keys b) refl
