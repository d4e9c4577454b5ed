-- ===== src/Supervisor/Bridge/Checkpoint.antt =====
-- What the safe checkpoint guarantees (`apply_pending_commands` on the whole Blackboard).
use hex_agent.Base.{◌≡◌, refl, sym, String, true, List, []}
use hex_agent.Base.{◌++◌, arith, length, All, Distinct, contains}
use mathlib.Core.List.{append-nil}
use hex_agent.Value.{Python}
use hex_agent.Control.CommandRegistry.{Registry}
use hex_agent.Supervisor.State.{TaskLoopState}
use hex_agent.Supervisor.Bridge.{notify, apply_all, apply_pending_commands, roster_of}
use hex_agent.Supervisor.Bridge.Applying.{
  Grown, admit-Grown, admit-Distinct, apply_all_rule, apply_all-Same, apply_all-Settled,
}

module _ (py : Python) (registry : Registry) (catalog : List String) where
  -- Applying the pending commands empties the queue and only appends to the roster: the new
  -- members are in the catalog, their number is the growth that is returned, and a roster with no
  -- repetition stays one.
  pub apply_pending_grows :
      (s : TaskLoopState)
      → Distinct s.selected_agents
      → let (s', growth, _) = apply_pending_commands py registry catalog s in
        (s'.pending_commands ≡ [])
        × Distinct s'.selected_agents
        × ((new : List String) × (s'.selected_agents ≡ s.selected_agents ++ new)
            × (length new ≡ growth)
            × All (λ a. contains catalog a ≡ true) new)
  unfolding apply_pending_commands notify
  apply_pending_grows s distinct = (
    refl,
    apply_all_rule py registry catalog (λ r. Distinct r.selected) s.pending_commands (roster_of s)
        (λ n r h. h) (λ k a r _ h. admit-Distinct py registry catalog k a r h) distinct,
    apply_all_rule py registry catalog (Grown py registry catalog s.selected_agents)
        s.pending_commands (roster_of s) (λ n r h. h)
        (λ k a r known h. admit-Grown py registry catalog s.selected_agents k a r known h)
        ([], sym (append-nil s.selected_agents), refl, tt),
  )

  -- Replaying the same queue after it has been applied, as a resumed run would, changes nothing:
  -- the roster, the applied keys and the rest of the Blackboard stay, and the growth is 0.
  pub apply_pending_twice :
      (s : TaskLoopState)
      → let s₁ = (apply_pending_commands py registry catalog s).0 in
        let (s₂, growth, _) =
          apply_pending_commands py registry catalog
            (record s₁ { pending_commands = s.pending_commands }) in
        (s₂ ≡ s₁) × (growth ≡ 0)
  unfolding apply_pending_commands
  apply_pending_twice s =
      let r = apply_all py registry catalog s.pending_commands (roster_of s) in
      let same =
        apply_all-Same py registry catalog s.pending_commands
          (record {
            applied_keys = r.applied_keys;
            selected = r.selected;
            growth = 0;
            notices = [];
          })
          (apply_all-Settled py registry catalog s.pending_commands (roster_of s)) in
      (ground (arith, same.0, same.1), same.2)
