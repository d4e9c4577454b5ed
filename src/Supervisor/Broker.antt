-- ===== src/Supervisor/Broker.antt =====
-- supervisor/broker.py: `DeterministicBroker`, which fills the port `write_packet`.
use hex_agent.Base.Texts.{take_chars, count_chars}
use hex_agent.Base.{ℕ, zero, suc, ◌≡◌, refl, String, ◌<>◌, true, List, [], ◌∷◌, ◌++◌, arith}
use hex_agent.Base.{if◌then◌else◌, if_rule, leb, not_blank, contains, All, map}
use hex_agent.Base.Lists.{All-map}
use hex_agent.Value.{end}
use hex_agent.Supervisor.Contracts.{AgentAssignment, ContextPacket}
use hex_agent.Supervisor.Ports.{SliceItem}

-- `"\n".join(...)`
unfoldable pub join_lines : List String → String
join_lines [] = ""
join_lines (a ∷ []) = a
join_lines (a ∷ b ∷ rest) = a <> "\n" <> join_lines (b ∷ rest)

-- The items with an id.
unfoldable pub cited : List SliceItem → List SliceItem
cited [] = []
cited (item ∷ rest) = if not_blank item.id then item ∷ cited rest else cited rest

unfoldable pub briefing_lines : AgentAssignment → List SliceItem → List String
unfolding cited
briefing_lines a items =
    ("Objective: " <> a.objective)
      ∷ (if not_blank a.scope_of_work then ("Scope of work: " <> a.scope_of_work) ∷ [] else [])
    ++ map (λ item. "[" <> item.id <> "] " <> item.text) (cited items)

unfoldable pub write_packet : ℕ → AgentAssignment → List SliceItem → ContextPacket
unfolding briefing_lines join_lines take_chars cited
write_packet char_budget a items = record {
  target_agent_id = a.agent_id;
  objective = a.objective;
  briefing = take_chars char_budget (join_lines (briefing_lines a items));
  source_ids = map (λ item. item.id) (cited items);
  expected_output_schema = end;
}

take_chars-bound : (n : ℕ) (s : String) → leb (count_chars (take_chars n s)) n ≡ true
unfolding take_chars count_chars
take_chars-bound zero s = refl
take_chars-bound (suc n) String.[] = ground arith
take_chars-bound (suc n) (String.◌∷◌ c s) = ground (arith, take_chars-bound n s)

abbrev IsSource : List SliceItem → String → Type 0
IsSource items i = (not_blank i ≡ true) × (contains (map (λ item. item.id) items) i ≡ true)

cited-IsSource :
    (items : List SliceItem) → All (IsSource items) (map (λ item. item.id) (cited items))
unfolding cited
cited-IsSource [] = tt
cited-IsSource (item ∷ rest) =
    let more = All-map (map (λ i. i.id) (cited rest)) (λ i h. weaken i h) (cited-IsSource rest) in
    if_rule (λ (l : List SliceItem). All (IsSource (item ∷ rest)) (map (λ i. i.id) l))
      (not_blank item.id) _ _ (λ named. ((named, ground arith), more)) (λ _. more)
  where
    weaken : (i : String) → IsSource rest i → IsSource (item ∷ rest) i
    weaken i h = ground arith

-- The packet is for the assigned agent and its objective; its briefing is within the budget of
-- characters; its sources are ids of the slice, none of them empty.
pub write_packet_grounded :
    (char_budget : ℕ) (a : AgentAssignment) (items : List SliceItem)
    → let packet = write_packet char_budget a items in
      (packet.target_agent_id ≡ a.agent_id)
      × (packet.objective ≡ a.objective)
      × (leb (count_chars packet.briefing) char_budget ≡ true)
      × All
          (λ i. (not_blank i ≡ true) × (contains (map (λ item. item.id) items) i ≡ true))
          packet.source_ids
unfolding write_packet
write_packet_grounded char_budget a items = (
  refl,
  refl,
  take_chars-bound char_budget (join_lines (briefing_lines a items)),
  cited-IsSource items,
)
