-- ===== src/Core/Kernel.antt =====
-- core/kernel.py: the chokepoint that every tool call crosses. Tools and middleware act on the run
-- of the kernel: what has been published, and the world behind them.
use hex_agent.Base.{String, ◌<>◌, Bool, true, false, Option, none, some, List, [], ◌∷◌, ◌++◌}
use hex_agent.Base.{if◌then◌else◌, contains}
use hex_agent.Base.Result.{Result, Error, ok, err, runtime_error, attribute_error}
use hex_agent.Value.{
  Value, null, bool, str, obj, Fields, end, field, get_or, truthy, set, merge, optional_text,
  Python,
}
use hex_agent.Core.Envelope.{
  ToolRequest, ToolCallContext, event_fields, CapabilityResult, result_as_dict, set_default,
  from_raw,
}
use hex_agent.Core.Registry.{
  Attempt, returned, raised, CapabilityRegistry, ToolResolution, freeze_registry, resolve_tool,
}

-- What the kernel does not define: what `str` gives for an exception, the name of a value's type,
-- and the language.
pub record Runtime : Type 0 where
  pub python : Python
  pub message : Error → String
  pub type_name : Value → String

pub record KernelRun (W : Type 0) : Type 0 where
  pub published : List (String × Fields)
  pub world : W

abbrev pub Handler : Type 0 → Type 0
Handler W = ToolRequest → KernelRun W → Attempt × KernelRun W

-- `ToolMiddleware`: a handler around the next one.
abbrev pub Middleware : Type 0 → Type 0
Middleware W = Handler W → Handler W

pub record AgentKernel (W : Type 0) : Type 0 where
  pub registry : CapabilityRegistry (KernelRun W)
  pub middlewares : List (Middleware W)
  pub frozen : Bool

abbrev pub no_lineage : Fields
no_lineage = field "run_id" null (
    field "task_id" null (
      field "session_id" null
        (field "parent_session_id" null (field "delegation_id" null (field "actor_id" null end)))))

unfoldable pub lineage_of : Option ToolCallContext → Fields
unfolding event_fields
lineage_of none = no_lineage
lineage_of (some c) = event_fields c

-- The name is in the scope of the context, or there is none.
unfoldable pub in_scope : Option ToolCallContext → String → Bool
in_scope none name = true
in_scope (some c) name = elim c.allowed_capabilities [
  | none ↦ true
  | some scope ↦ contains scope name
]

-- The fields of the event that ends a call.
unfoldable pub outcome_event : ToolRequest → Value → Value → Fields
outcome_event request ok_value error = merge (lineage_of request.context) (
    field "tool" (str request.name)
      (field "request_id" (str request.request_id) (field "ok" ok_value (field "error" error end))))

unfoldable pub requested_event : ToolRequest → Fields
requested_event request = merge (lineage_of request.context) (
    field "tool" (str request.name)
      (field "request_id" (str request.request_id) (field "args" (obj request.args) end)))

-- The envelope of a call that the kernel answers itself.
unfoldable pub refusal : ToolRequest → String → String → CapabilityResult
refusal request error flag = record {
  ok = false;
  capability = request.name;
  feature = null;
  data_fields = end;
  error = str error;
  metadata =
      merge (lineage_of request.context)
        (field "request_id" (str request.request_id) (field flag (bool true) end));
}

abbrev pub outside_scope : ToolRequest → CapabilityResult
outside_scope request =
    refusal request ("Capability outside session scope: " <> request.name) "scope_block"

abbrev pub set_defaults : Fields → Fields → Fields
set_defaults end meta = meta
set_defaults (field k v rest) meta = set_defaults rest (set_default k v meta)

-- `envelope.setdefault("metadata", {})`, on which `.setdefault` is then called.
unfoldable pub with_lineage : ToolRequest → Fields → Result Fields
with_lineage request envelope = elim (get_or "metadata" (obj end) envelope) [
  | obj meta ↦ ok (
      set "metadata"
        (obj (
          set_default "request_id" (str request.request_id)
            (set_defaults (lineage_of request.context) meta)))
        envelope)
  | _ ↦ err attribute_error
]

abbrev pub completed_or_failed : Fields → String
completed_or_failed envelope =
    if truthy (get_or "ok" null envelope) then "tool.completed" else "tool.failed"

module _ {W : Type 0} where
  unfoldable pub publish : String → Fields → KernelRun W → KernelRun W
  publish topic payload r = record r { published = r.published ++ (topic, payload) ∷ [] }

  unfoldable pub freeze_kernel : AgentKernel W → AgentKernel W
  freeze_kernel k =
      if k.frozen then k else record k { registry = freeze_registry k.registry; frozen = true }

  unfoldable pub use_middleware : Middleware W → AgentKernel W → Result (AgentKernel W)
  use_middleware m k =
      if k.frozen
      then err runtime_error
      else ok (record k { middlewares = k.middlewares ++ m ∷ [] })

  -- Registration order is from the outside in.
  unfoldable pub wrap_all : List (Middleware W) → Handler W → Handler W
  wrap_all [] handler = handler
  wrap_all (m ∷ rest) handler = m (wrap_all rest handler)

  -- The end of a call that was let through.
  unfoldable pub close_call :
      ToolRequest → Result Fields → KernelRun W → Result Fields × KernelRun W
  unfolding outcome_event publish
  close_call request (err e) r = (err e, r)
  close_call request (ok envelope) r = (
    ok envelope,
    publish (completed_or_failed envelope)
        (outcome_event request (bool (truthy (get_or "ok" null envelope)))
          (get_or "error" null envelope))
        r,
  )

-- What the kernel adds to the metadata of a call.
unfoldable pub call_metadata : {S : Type 0} → ToolRequest → Fields → ToolResolution S → Fields
call_metadata req lineage found = merge lineage (
    field "request_id" (str req.request_id) (
      field "executor" (str found.executor.name) (
        field "kind" (str found.descriptor.kind) (
          field "idempotent" (bool found.descriptor.idempotent)
            (field "risk" (str found.descriptor.risk) end)))))

module _ (t : Runtime) where
  -- An exception of the tool, or a result that is not a mapping, becomes a result of its own.
  unfoldable pub tool_result : ToolRequest → Attempt → Fields
  tool_result req (returned (obj d)) = d
  tool_result req (returned v) = field "ok" (bool false) (
      field "tool" (str req.name) (
        field "error" (str ("Tool returned " <> t.type_name v <> ", expected dict."))
          (field "kernel_error" (bool true) end)))
  tool_result req (raised text) = field "ok" (bool false) (
      field "tool" (str req.name) (field "error" (str text) (field "kernel_error" (bool true) end)))

  abbrev pub enveloped : Result CapabilityResult → Attempt
  enveloped (ok r) = returned (obj (result_as_dict r))
  enveloped (err e) = raised (t.message e)

  -- `core`, the innermost handler
  unfoldable pub core_handler : {W : Type 0} → CapabilityRegistry (KernelRun W) → Fields → Handler W
  unfolding resolve_tool tool_result from_raw call_metadata
  core_handler registry lineage req r =
      let found = resolve_tool registry req.name in
      let (attempt, r') = found.executor.execute req r in
      (
        enveloped (
            from_raw t.python req.name (optional_text found.feature) (tool_result req attempt)
              (call_metadata req lineage found)),
        r',
      )

  -- The envelope of what the outermost handler leaves.
  unfoldable pub envelope_of : ToolRequest → Attempt → Fields
  unfolding refusal result_as_dict
  envelope_of request (returned (obj d)) = d
  envelope_of request (returned v) = field "ok" (bool false) (
      field "capability" (str request.name) (
        field "feature" null (
          field "data" (obj end) (
            field "error" (str ("Middleware returned " <> t.type_name v <> ", expected dict."))
              (field "metadata" (obj end) end)))))
  envelope_of request (raised text) = result_as_dict (refusal request text "kernel_error")

  -- `execute_tool`; `request_id` is what the request draws.
  unfoldable pub execute_tool :
      {W : Type 0}
      → AgentKernel W
      → String
      → Fields
      → Option ToolCallContext
      → String
      → KernelRun W
      → Result Fields × KernelRun W
  unfolding requested_event outcome_event publish in_scope lineage_of refusal result_as_dict
      wrap_all core_handler envelope_of with_lineage close_call
  execute_tool k tool_name args context request_id r =
      let request : ToolRequest = record {
        name = tool_name;
        args = args;
        context = context;
        request_id = request_id;
      } in
      let r₁ = publish "tool.requested" (requested_event request) r in
      elim (in_scope context tool_name) [
        | false ↦
            let blocked = outside_scope request in
            (
              ok (result_as_dict blocked),
              publish "tool.failed" (outcome_event request (bool false) blocked.error) r₁,
            )
        | true ↦
            let (attempt, r₂) =
              wrap_all k.middlewares (core_handler k.registry (lineage_of context)) request r₁ in
            close_call request (with_lineage request (envelope_of request attempt)) r₂
      ]
