-- ===== src/Control/Event.antt =====
-- control/events.py: the envelope of the events of the control plane. `Stamp` is one draw of
-- `uuid.uuid4().hex` and of the clock.
pub mod Codec
use hex_agent.Base.{
  ℕ, zero, ◌+◌, String, not, Bool, true, false, ◌&&◌, Option, none, some, List, [], ◌∷◌, contains,
  not_blank,
}
use hex_agent.Base.{if◌then◌else◌}
use hex_agent.Base.Dict
use hex_agent.Base.Dict.{Dict}
use hex_agent.Base.Int.{ℤ, pos, negsuc}
use hex_agent.Base.Result.{Result, ok, err, contract_error, attribute_error, ◌>>=◌}
use hex_agent.Value.{
  Value, null, bool, num, str, arr, obj, Fields, end, field, get, get_or, truthy, str_of, texts,
  texts_of, int_of, dict_of, dict_or_empty, optional_text, Python,
}
use hex_agent.Control.Command.{positive, mapping_or_empty}
use hex_agent.Control.Command

abbrev pub actor_types : List String
actor_types = "human" ∷ "agent" ∷ "tool" ∷ "system" ∷ "runtime" ∷ []

abbrev pub visibility_levels : List String
visibility_levels = "public" ∷ "ui_safe" ∷ "internal" ∷ "secret" ∷ "restricted" ∷ []

pub record Actor : Type 0 where
  pub type : String
  pub id : String

-- `Actor.__post_init__`
unfoldable pub actor_check : Actor → Result Actor
actor_check a = if contains actor_types a.type && not_blank a.id then ok a else err contract_error

unfoldable pub actor_as_dict : Actor → Fields
actor_as_dict a = field "type" (str a.type) (field "id" (str a.id) end)

unfoldable pub actor_from_dict : Python → Fields → Result Actor
unfolding actor_check
actor_from_dict py d = actor_check (record {
  type = str_of py (get_or "type" (str "") d);
  id = str_of py (get_or "id" (str "") d);
})

pub record TraceContext : Type 0 where
  pub trace_id : String
  pub span_id : String
  pub parent_span_id : Option String

-- `TraceContext.__post_init__`
unfoldable pub trace_check : TraceContext → Result TraceContext
trace_check t = if not_blank t.trace_id && not_blank t.span_id then ok t else err contract_error

unfoldable pub trace_as_dict : TraceContext → Fields
trace_as_dict t =
    field "trace_id" (str t.trace_id) (
      field "span_id" (str t.span_id) (field "parent_span_id" (optional_text t.parent_span_id) end))

unfoldable pub trace_from_dict : Python → Fields → Result TraceContext
unfolding trace_check
trace_from_dict py d = trace_check (record {
  trace_id = str_of py (get_or "trace_id" (str "") d);
  span_id = str_of py (get_or "span_id" (str "") d);
  parent_span_id = Command.optional_text py (get "parent_span_id" d);
})

-- `TraceContext.child`, with the span that is drawn.
unfoldable pub trace_child : String → TraceContext → Result TraceContext
unfolding trace_check
trace_child span t =
    trace_check (record { trace_id = t.trace_id; span_id = span; parent_span_id = some t.span_id })

pub record RedactionInfo : Type 0 where
  pub level : String
  pub has_secret : Bool
  pub redacted_fields : List String

-- `RedactionInfo.__post_init__`
unfoldable pub redaction_check : RedactionInfo → Result RedactionInfo
redaction_check r = if contains visibility_levels r.level then ok r else err contract_error

unfoldable pub redaction_as_dict : RedactionInfo → Fields
redaction_as_dict r = field "level" (str r.level) (
    field "has_secret" (bool r.has_secret)
      (field "redacted_fields" (arr (texts r.redacted_fields)) end))

unfoldable pub redaction_from_dict : Python → Fields → Result RedactionInfo
unfolding redaction_check
redaction_from_dict py d = texts_of py (get_or "redacted_fields" null d) >>= λ names.
    redaction_check (record {
      level = str_of py (get_or "level" (str "ui_safe") d);
      has_secret = truthy (get_or "has_secret" (bool false) d);
      redacted_fields = names;
    })

pub record RuntimeEvent : Type 0 where
  pub event_type : String
  pub session_id : String
  pub actor : Actor
  pub trace : TraceContext
  pub redaction : RedactionInfo
  pub event_id : String
  pub created_at : String
  pub schema_version : ℤ
  pub seq : ℤ
  pub round_no : Option ℤ
  pub workflow_id : Option String
  pub task_id : Option String
  pub source : String
  pub payload : Fields
  pub ui_payload : Option Fields

-- `n >= 0`
abbrev pub not_negative : ℤ → Bool
not_negative (pos n) = true
not_negative (negsuc n) = false

-- What `RuntimeEvent.__post_init__` tests; the types of the record give the rest.
abbrev pub is_valid_event : RuntimeEvent → Bool
is_valid_event e =
    not_blank e.event_id
    && not_blank e.event_type
    && not_blank e.session_id
    && not_blank e.created_at
    && not_blank e.source
    && positive e.schema_version
    && not_negative e.seq

unfoldable pub event_check : RuntimeEvent → Result RuntimeEvent
event_check e = if is_valid_event e then ok e else err contract_error

abbrev optional_number : Option ℤ → Value
optional_number none = null
optional_number (some n) = num n

abbrev optional_mapping : Option Fields → Value
optional_mapping none = null
optional_mapping (some d) = obj d

unfoldable pub event_as_dict : RuntimeEvent → Fields
unfolding actor_as_dict trace_as_dict redaction_as_dict
event_as_dict e = field "event_id" (str e.event_id) (
    field "event_type" (str e.event_type) (
      field "schema_version" (num e.schema_version) (
        field "session_id" (str e.session_id) (
          field "seq" (num e.seq) (
            field "round_no" (optional_number e.round_no) (
              field "workflow_id" (optional_text e.workflow_id) (
                field "task_id" (optional_text e.task_id) (
                  field "source" (str e.source) (
                    field "actor" (obj (actor_as_dict e.actor)) (
                      field "trace" (obj (trace_as_dict e.trace)) (
                        field "payload" (obj e.payload) (
                          field "ui_payload" (optional_mapping e.ui_payload) (
                            field "redaction" (obj (redaction_as_dict e.redaction))
                              (field "created_at" (str e.created_at) end))))))))))))))

-- `int(v) if v is not None else None`
abbrev int_if_given : Python → Value → Result (Option ℤ)
int_if_given py null = ok none
int_if_given py v = int_of py v >>= λ n. ok (some n)

-- `dict(v) if v is not None else None`
abbrev dict_if_given : Python → Value → Result (Option Fields)
dict_if_given py null = ok none
dict_if_given py v = dict_of py v >>= λ d. ok (some d)

unfoldable pub event_from_dict : Python → Fields → Result RuntimeEvent
unfolding actor_from_dict trace_from_dict redaction_from_dict event_check
event_from_dict py d = mapping_or_empty (get_or "actor" null d) >>= actor_from_dict py >>= λ actor.
    mapping_or_empty (get_or "trace" null d) >>= trace_from_dict py >>= λ trace.
    mapping_or_empty (get_or "redaction" null d) >>= redaction_from_dict py >>= λ redaction.
    int_of py (get_or "schema_version" (num (pos 1)) d) >>= λ schema_version.
    int_of py (get_or "seq" (num (pos 0)) d) >>= λ seq.
    int_if_given py (get_or "round_no" null d) >>= λ round_no.
    dict_or_empty py (get_or "payload" null d) >>= λ payload.
    dict_if_given py (get_or "ui_payload" null d) >>= λ ui_payload. event_check (record {
      event_type = str_of py (get_or "event_type" (str "") d);
      session_id = str_of py (get_or "session_id" (str "") d);
      actor = actor;
      trace = trace;
      redaction = redaction;
      event_id = str_of py (get_or "event_id" (str "") d);
      created_at = str_of py (get_or "created_at" (str "") d);
      schema_version = schema_version;
      seq = seq;
      round_no = round_no;
      workflow_id = Command.optional_text py (get "workflow_id" d);
      task_id = Command.optional_text py (get "task_id" d);
      source = str_of py (get_or "source" (str "runtime") d);
      payload = payload;
      ui_payload = ui_payload;
    })

-- `SessionSeq.peek`
unfoldable pub peek : String → Dict ℕ → ℕ
peek session_id counters = elim (Dict.lookup session_id counters) [ none ↦ zero | some n ↦ n ]

-- `SessionSeq.next`
unfoldable pub next_seq : String → Dict ℕ → ℕ × Dict ℕ
unfolding peek
next_seq session_id counters =
    let n = peek session_id counters + 1 in (n, Dict.insert session_id n counters)
