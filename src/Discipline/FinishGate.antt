-- ===== src/Discipline/FinishGate.antt =====
-- discipline/finish_gate.py: a final answer waits for a validation once code has changed.
use hex_agent.Base.{String, ◌==◌, Bool, true, false, not, ◌&&◌, Option, none, some}
use hex_agent.Value.{null, bool, str, Fields, end, field, get_or, truthy}

unfoldable pub requires_validation : Fields → Bool
requires_validation state = truthy (get_or "code_changed" null state)

unfoldable pub has_passing_validation : Fields → Bool
has_passing_validation state = truthy (get_or "validation_passed" null state)

-- `finish_reason != "blocker"`
abbrev not_blocker : Option String → Bool
not_blocker none = true
not_blocker (some reason) = not (reason == "blocker")

unfoldable pub check_finish : Fields → Option String → Fields
unfolding requires_validation has_passing_validation
check_finish state finish_reason =
    elim (requires_validation state
      && not (has_passing_validation state)
      && not_blocker finish_reason) [
        | true ↦ field "allowed" (bool false) (
            field "reason"
              (str
                "Code changed but no passing validation. Validate or finish with finish_reason='blocker'.")
              end)
        | false ↦ field "allowed" (bool true) (field "reason" (str "") end)
      ]
