-- ===== src/Core/Codecs.antt =====
-- core/schemas.py: the mappings of the data of a delegation.
use hex_agent.Base.{List, [], ◌∷◌}
use hex_agent.Base.Int.{pos}
use hex_agent.Base.Sorting.{sorted}
use hex_agent.Base.Result.{Result, ok, ◌>>=◌}
use hex_agent.Value.{
  null, bool, num, str, arr, obj, Items, nil, cons, Fields, end, field, get_or, str_of, texts,
  texts_of, dict_or_empty, optional_text, Python,
}
use hex_agent.Core.Registry.{FeatureDescriptor}
use hex_agent.Core.Schemas.{
  DelegationSpec, DelegationPolicy, ArtifactEnvelope, DelegationResult, outcome_text,
}

-- `FeatureDescriptor.as_dict`
unfoldable pub feature_as_dict : FeatureDescriptor → Fields
feature_as_dict f = field "name" (str f.name) (
    field "version" (str f.version) (
      field "capabilities" (arr (texts f.capabilities))
        (field "enabled" (bool f.enabled) (field "description" (str f.description) end))))

-- `DelegationSpec.from_dict`
unfoldable pub spec_from_dict : Python → Fields → Result DelegationSpec
spec_from_dict py d = dict_or_empty py (get_or "input_context" null d) >>= λ input_context.
    dict_or_empty py (get_or "expected_output_schema" null d) >>= λ schema.
    texts_of py (get_or "constraints" null d) >>= λ constraints. ok (record {
      objective = str_of py (get_or "objective" (str "") d);
      input_context = input_context;
      expected_output_schema = schema;
      constraints = constraints;
    })

-- `DelegationSpec.as_dict`
unfoldable pub spec_as_dict : DelegationSpec → Fields
spec_as_dict s = field "objective" (str s.objective) (
    field "input_context" (obj s.input_context) (
      field "expected_output_schema" (obj s.expected_output_schema)
        (field "constraints" (arr (texts s.constraints)) end)))

-- `DelegationPolicy.as_dict`
unfoldable pub policy_as_dict : DelegationPolicy → Fields
unfolding sorted
policy_as_dict p = field "max_steps" (num (pos p.max_steps)) (
    field "max_depth" (num (pos p.max_depth))
      (field "allowed_capabilities" (arr (texts (sorted p.allowed_capabilities))) end))

-- `ArtifactEnvelope.as_dict`
unfoldable pub artifact_as_dict : ArtifactEnvelope → Fields
artifact_as_dict a = field "artifact_id" (str a.artifact_id) (
    field "kind" (str a.kind)
      (field "schema_version" (num (pos a.schema_version)) (field "payload" (obj a.payload) end)))

abbrev artifact_items : List ArtifactEnvelope → Items
artifact_items [] = nil
artifact_items (a ∷ rest) = cons (obj (artifact_as_dict a)) (artifact_items rest)

-- `DelegationResult.as_dict`
unfoldable pub delegation_result_as_dict : DelegationResult → Fields
unfolding artifact_as_dict
delegation_result_as_dict r = field "delegation_id" (str r.delegation_id) (
    field "parent_task_id" (str r.parent_task_id) (
      field "outcome" (str (outcome_text r.outcome)) (
        field "artifacts" (arr (artifact_items r.artifacts))
          (field "summary" (obj r.summary) (field "error" (optional_text r.error) end)))))
