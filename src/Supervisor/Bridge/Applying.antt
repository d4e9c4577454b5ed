-- ===== src/Supervisor/Bridge/Applying.antt =====
-- Applying the queued commands at a checkpoint (`apply_pending_commands`): what it does to the
-- roster and to the applied keys.
use hex_agent.Base.{◌≡◌, refl, ◌∙◌, inl, inr, String, ◌==◌, true, false}
use hex_agent.Base.{not, ◌&&◌, Option, none, some, List, [], ◌∷◌, ◌++◌, arith, length, All}
use hex_agent.Base.{Distinct, if◌then◌else◌, contains, if_rule, Option-cases}
use hex_agent.Base.Lists.{length-append, All-append, All-map, contains-concat, concat-Distinct}
use hex_agent.Base.Dict
use hex_agent.Value.{Python}
use hex_agent.Control.Command.{RuntimeCommand}
use hex_agent.Control.CommandRegistry.{CommandTypeSpec, Registry}
use hex_agent.Supervisor.Bridge.{
  Roster, Notice, notify, admit, apply_known, apply_command, apply_all, target_agent,
}
use mathlib.Core.List.{append_assoc}

module _ (py : Python) (registry : Registry) (catalog : List String) where
  -- The agent that a command asks for, if the command passes every test that does not look at the
  -- roster: it is of a declared type, issued by an agent, due at a checkpoint and of the one
  -- supported type, and its agent is in the catalog.
  abbrev pub requested_of : RuntimeCommand → CommandTypeSpec → Option String
  requested_of cmd spec =
      if (cmd.issued_by.type == "agent")
        && (spec.apply_at == "next_checkpoint")
        && (cmd.command_type == "AddAgentToLoop")
        && contains catalog (target_agent py cmd.payload)
      then some (target_agent py cmd.payload)
      else none

  abbrev pub requested : RuntimeCommand → Option String
  requested cmd = elim (Dict.lookup cmd.command_type registry) [
    | none ↦ none
    | some spec ↦ requested_of cmd spec
  ]

  requested-known :
      (cmd : RuntimeCommand) (spec : CommandTypeSpec)
      → Dict.lookup cmd.command_type registry ≡ some spec
      → requested cmd ≡ requested_of cmd spec
  requested-known cmd spec e = rw (e, requested)

  module _ {ℓ} (P : Roster → Type ℓ) (cmd : RuntimeCommand) (r : Roster) where
    -- A command leaves the roster alone, publishes, or admits the agent that it asks for.
    pub apply_command_rule :
        (contains r.applied_keys cmd.idempotency_key ≡ true → P r)
        → ((n : Notice) → requested cmd ≡ none → P (notify n r))
        → ((a : String)
            → requested cmd ≡ some a
            → contains catalog a ≡ true
            → contains r.applied_keys cmd.idempotency_key ≡ false
            → P (admit cmd.idempotency_key a r))
        → P (apply_command py registry catalog cmd r)
    unfolding apply_command apply_known
    apply_command_rule same say grow =
        if_rule P (contains r.applied_keys cmd.idempotency_key) _ _ same λ fresh.
          elim (Option-cases (Dict.lookup cmd.command_type registry)) [
            | inl unknown ↦ rw unknown (say _ (rw (unknown, requested)))
            | inr (spec, e) ↦ rw e (
                if_rule P (not (cmd.issued_by.type == "agent")) _ _
                  (λ h. say _ (requested-known cmd spec e ∙ ground arith))
                  λ h₁.
                    if_rule P (not (spec.apply_at == "next_checkpoint")) _ _
                      (λ h. say _ (requested-known cmd spec e ∙ ground arith))
                      λ h₂.
                        if_rule P (not (cmd.command_type == "AddAgentToLoop")) _ _
                          (λ h. say _ (requested-known cmd spec e ∙ ground arith))
                          λ h₃.
                            if_rule P (not (contains catalog (target_agent py cmd.payload))) _ _
                              (λ h. say _ (requested-known cmd spec e ∙ ground arith))
                              λ h₄.
                                grow _ (requested-known cmd spec e ∙ ground arith) (ground arith)
                                  fresh)
          ]

  module _ {ℓ} (P : Roster → Type ℓ) where
    pub apply_all_rule :
        (cmds : List RuntimeCommand) (r : Roster)
        → ((n : Notice) (r : Roster) → P r → P (notify n r))
        → ((k a : String) (r : Roster) → contains catalog a ≡ true → P r → P (admit k a r))
        → P r
        → P (apply_all py registry catalog cmds r)
    unfolding apply_all
    apply_all_rule [] r say grow h = h
    apply_all_rule (cmd ∷ rest) r say grow h =
        apply_all_rule rest (apply_command py registry catalog cmd r) say grow (
          apply_command_rule P cmd r (λ _. h) (λ n _. say n r h)
            (λ a _ known _. grow _ a r known h))

  -- The roster is `base`, then new members that are in the catalog and are counted.
  abbrev pub Grown : List String → Roster → Type 0
  Grown base r =
      (new : List String) × (r.selected ≡ base ++ new)
      × (length new ≡ r.growth)
      × All (λ a. contains catalog a ≡ true) new

  pub admit-Grown :
      (base : List String) (k a : String) (r : Roster)
      → contains catalog a ≡ true
      → Grown base r
      → Grown base (admit k a r)
  unfolding admit
  admit-Grown base k a r known (new, grown, counted, listed) =
      if_rule (Grown base) (contains r.selected a) _ _ (λ _. (new, grown, counted, listed))
        λ _. (
          new ++ a ∷ [],
          rw grown (append_assoc base new (a ∷ [])),
          omega (arith, length-append new (a ∷ [])),
          All-append _ new (a ∷ []) listed (known, tt),
        )

  pub admit-Distinct :
      (k a : String) (r : Roster) → Distinct r.selected → Distinct (admit k a r).selected
  unfolding admit
  admit-Distinct k a r h = ground (arith, concat-Distinct r.selected a h)

  -- Nothing is left to do for this command: its key is applied, or it asks for no agent.
  abbrev pub Settled : Roster → RuntimeCommand → Type 0
  Settled r cmd =
      (a : String) → requested cmd ≡ some a → contains r.applied_keys cmd.idempotency_key ≡ true

  pub admit-applied : (k a : String) (r : Roster) → contains (admit k a r).applied_keys k ≡ true
  unfolding admit
  admit-applied k a r = ground (arith, contains-concat r.applied_keys k k)

  apply_command-Settled :
      (cmd : RuntimeCommand) (r : Roster) → Settled (apply_command py registry catalog cmd r) cmd
  apply_command-Settled cmd r =
      apply_command_rule (λ r'. Settled r' cmd) cmd r (λ old _ _. old) (λ n e a h. cc)
        (λ a _ _ _ b _. admit-applied cmd.idempotency_key a r)

  pub apply_all-applied :
      (cmds : List RuntimeCommand) (r : Roster) (k : String)
      → contains r.applied_keys k ≡ true
      → contains (apply_all py registry catalog cmds r).applied_keys k ≡ true
  unfolding notify admit
  apply_all-applied cmds r k =
      apply_all_rule (λ r'. contains r'.applied_keys k ≡ true) cmds r (λ n r' h. h)
        (λ j a r' _ h. ground (arith, contains-concat r'.applied_keys j k))

  -- The same applied keys, members and growth.
  abbrev pub Same : Roster → Roster → Type 0
  Same r r' =
      (r'.applied_keys ≡ r.applied_keys) × (r'.selected ≡ r.selected) × (r'.growth ≡ r.growth)

  apply_command-Same :
      (cmd : RuntimeCommand) (r : Roster)
      → Settled r cmd
      → Same r (apply_command py registry catalog cmd r)
  unfolding notify
  apply_command-Same cmd r settled =
      apply_command_rule (Same r) cmd r (λ _. (refl, refl, refl)) (λ n _. (refl, refl, refl))
        (λ a e _ fresh. cc (settled a e))

  pub apply_all-Same :
      (cmds : List RuntimeCommand) (r : Roster)
      → All (Settled r) cmds
      → Same r (apply_all py registry catalog cmds r)
  unfolding apply_all
  apply_all-Same [] r h = (refl, refl, refl)
  apply_all-Same (cmd ∷ rest) r h =
      let one = apply_command-Same cmd r h.0 in
      let more =
        apply_all-Same rest (apply_command py registry catalog cmd r)
          (All-map rest (λ c settled a e. rw (one.0) (settled a e)) h.1) in
      (more.0 ∙ one.0, more.1 ∙ one.1, more.2 ∙ one.2)

  pub apply_all-Settled :
      (cmds : List RuntimeCommand) (r : Roster)
      → All (Settled (apply_all py registry catalog cmds r)) cmds
  unfolding apply_all
  apply_all-Settled [] r = tt
  apply_all-Settled (cmd ∷ rest) r = (
    λ a e.
        apply_all-applied rest (apply_command py registry catalog cmd r) cmd.idempotency_key
          (apply_command-Settled cmd r a e),
    apply_all-Settled rest (apply_command py registry catalog cmd r),
  )
