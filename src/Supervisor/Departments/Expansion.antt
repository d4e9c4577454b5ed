-- ===== src/Supervisor/Departments/Expansion.antt =====
-- What the expansion of department calls may give a worker, and whom it may admit.
use hex_agent.Base.{◌≡◌, String, ◌==◌, true, false, List, [], ◌∷◌, All}
use hex_agent.Base.{contains, ◌⊎◌}
use hex_agent.Supervisor.Contracts.{AgentAssignment}
use hex_agent.Supervisor.Departments.{Expanded, member_call}

-- `a` stands in the list.
abbrev pub In : AgentAssignment → List AgentAssignment → Type 0
In a [] = ⊥
In a (b ∷ bs) = (a ≡ b) ⊎ In a bs

module _ (members_of : String → List String) (selected : List String)
    (calls : List AgentAssignment) where
  -- An expanded call is an agent call of the decision, or the call of a selected member of a
  -- department that the decision calls: its work and its capabilities are those of that call.
  abbrev pub Derived : AgentAssignment → Type 0
  Derived b =
      (a : AgentAssignment) × In a calls
      × ((b ≡ a) × ((a.target_kind == "department") ≡ false)
          ⊎ (b ≡ member_call a b.agent_id)
            × ((a.target_kind == "department") ≡ true)
            × (contains (members_of a.agent_id) b.agent_id ≡ true)
            × (contains selected b.agent_id ≡ true))

  -- A member to admit belongs to a department that the decision calls, and is not selected.
  abbrev pub Deferred : String → Type 0
  Deferred m =
      (a : AgentAssignment) × In a calls
      × ((a.target_kind == "department") ≡ true)
      × (contains (members_of a.agent_id) m ≡ true)
      × (contains selected m ≡ false)

  -- A rejected department is called by the decision and has no members.
  abbrev pub Unresolved : String → Type 0
  Unresolved d =
      (a : AgentAssignment) × In a calls
      × (a.agent_id ≡ d)
      × ((a.target_kind == "department") ≡ true)
      × (members_of d ≡ [])

  pub record IsExpansion (e : Expanded) : Type 0 where
    pub derived : All Derived e.expanded
    pub deferred : All Deferred e.to_admit
    pub unresolved : All Unresolved e.rejected
