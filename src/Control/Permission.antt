-- ===== src/Control/Permission.antt =====
-- control/permission.py: the capability profile of an agent, and how a patch changes it.
use hex_agent.Base.{
  ◌≡◌, refl, String, ◌==◌, String-discrete, Bool, true, false, Option, none, some, List, [], ◌∷◌,
  arith, subst, ◌∙◌,
}
use hex_agent.Base.{if◌then◌else◌, contains, if_rule}
use hex_agent.Base.Result.{Result, ok, err, contract_error, ◌>>=◌, >>=-eq-ok, ok_inj}
use hex_agent.Value.{
  Value, null, bool, str, arr, Fields, end, field, get, get_or, truthy, str_of, texts, texts_of,
  iterate, strs_of, texts_of-texts, Python,
}

-- `EFFECTIVE_FROM`
abbrev pub effective_times : List String
effective_times = "immediately" ∷ "next_turn" ∷ "next_checkpoint" ∷ []

pub record Permission : Type 0 where
  pub allowed_tools : List String
  pub can_write_artifacts : Bool
  pub can_call_other_agents : Bool
  pub can_execute_shell : Bool
  pub can_modify_workflow : Bool
  pub can_modify_permissions : Bool
  pub effective_from : String

-- `Permission.__post_init__`
unfoldable pub permission_check : Permission → Result Permission
permission_check p = if contains effective_times p.effective_from then ok p else err contract_error

unfoldable pub permission_as_dict : Permission → Fields
permission_as_dict p = field "allowed_tools" (arr (texts p.allowed_tools)) (
    field "can_write_artifacts" (bool p.can_write_artifacts) (
      field "can_call_other_agents" (bool p.can_call_other_agents) (
        field "can_execute_shell" (bool p.can_execute_shell) (
          field "can_modify_workflow" (bool p.can_modify_workflow) (
            field "can_modify_permissions" (bool p.can_modify_permissions)
              (field "effective_from" (str p.effective_from) end))))))

unfoldable pub permission_from_dict : Python → Fields → Result Permission
unfolding permission_check
permission_from_dict py d = texts_of py (get_or "allowed_tools" null d) >>= λ tools.
    permission_check (record {
      allowed_tools = tools;
      can_write_artifacts = truthy (get_or "can_write_artifacts" (bool false) d);
      can_call_other_agents = truthy (get_or "can_call_other_agents" (bool false) d);
      can_execute_shell = truthy (get_or "can_execute_shell" (bool false) d);
      can_modify_workflow = truthy (get_or "can_modify_workflow" (bool false) d);
      can_modify_permissions = truthy (get_or "can_modify_permissions" (bool false) d);
      effective_from = str_of py (get_or "effective_from" (str "next_checkpoint") d);
    })

-- One key of a patch; `_FIELDS` are the keys that it may have.
unfoldable pub patch_field : Python → String → Value → Permission → Result Permission
patch_field py key value p =
    if key == "allowed_tools"
    then (iterate value >>= λ items. ok (record p { allowed_tools = strs_of py items }))
    else if key == "can_write_artifacts"
    then ok (record p { can_write_artifacts = truthy value })
    else if key == "can_call_other_agents"
    then ok (record p { can_call_other_agents = truthy value })
    else if key == "can_execute_shell"
    then ok (record p { can_execute_shell = truthy value })
    else if key == "can_modify_workflow"
    then ok (record p { can_modify_workflow = truthy value })
    else if key == "can_modify_permissions"
    then ok (record p { can_modify_permissions = truthy value })
    else err contract_error

unfoldable pub patch_fields : Python → Fields → Permission → Result Permission
unfolding patch_field
patch_fields py end p = ok p
patch_fields py (field key value rest) p =
    patch_field py key value p >>= λ p'. patch_fields py rest p'

abbrev moved : Option String → Permission → Permission
moved none p = p
moved (some time) p = record p { effective_from = time }

unfoldable pub patched : Python → Fields → Option String → Permission → Result Permission
unfolding patch_fields permission_check
patched py patch time p = patch_fields py patch p >>= λ p'. permission_check (moved time p')

-- A permission with a valid time is read back from its mapping as it is.
pub permission_round_trip :
    (py : Python) (p : Permission)
    → permission_check p ≡ ok p
    → permission_from_dict py (permission_as_dict p) ≡ ok p
unfolding permission_from_dict permission_as_dict String-discrete
permission_round_trip py p h = rw (texts_of-texts py p.allowed_tools) h

moved-authority :
    (time : Option String) (p : Permission)
    → (moved time p).can_modify_permissions ≡ p.can_modify_permissions
moved-authority none p = refl
moved-authority (some t) p = refl

patch_field-authority :
    (py : Python) (key : String) (value : Value) (p : Permission) {p' : Permission}
    → (key == "can_modify_permissions") ≡ false
    → patch_field py key value p ≡ ok p'
    → p'.can_modify_permissions ≡ p.can_modify_permissions
unfolding patch_field
patch_field-authority py key value p {p'} other =
    if_rule Kept (key == "allowed_tools") _ _
      (λ _ e.
        let (items, _, e₁) = >>=-eq-ok (iterate value) _ e in
        subst (λ q. q.can_modify_permissions ≡ p.can_modify_permissions) (ok_inj e₁) refl)
      (λ _. if_rule Kept (key == "can_write_artifacts") _ _ (kept refl) (λ _.
        if_rule Kept (key == "can_call_other_agents") _ _ (kept refl) (λ _.
          if_rule Kept (key == "can_execute_shell") _ _ (kept refl) (λ _.
            if_rule Kept (key == "can_modify_workflow") _ _ (kept refl) (λ _.
              if_rule Kept (key == "can_modify_permissions") _ _ (λ same. ground arith)
                (λ _ e. cc))))))
  where
    Kept : Result Permission → Type 0
    Kept m = m ≡ ok p' → p'.can_modify_permissions ≡ p.can_modify_permissions

    kept :
        {b : Bool} {q : Permission}
        → q.can_modify_permissions ≡ p.can_modify_permissions
        → b ≡ true
        → Kept (ok q)
    kept same _ e = subst (λ q. q.can_modify_permissions ≡ p.can_modify_permissions) (ok_inj e) same

patch_fields-authority :
    (py : Python) (patch : Fields) (p : Permission) {p' : Permission}
    → get "can_modify_permissions" patch ≡ none
    → patch_fields py patch p ≡ ok p'
    → p'.can_modify_permissions ≡ p.can_modify_permissions
unfolding patch_fields
patch_fields-authority py end p absent e =
    subst (λ q. q.can_modify_permissions ≡ p.can_modify_permissions) (ok_inj e) refl
patch_fields-authority py (field key value rest) p absent e =
    let (p₁, e₁, e₂) = >>=-eq-ok (patch_field py key value p) _ e in
    patch_fields-authority py rest p₁ (ground arith) e₂
    ∙ patch_field-authority py key value p (ground arith) e₁

-- A patch that does not name the right to modify permissions leaves it as it was, and what it
-- gives takes effect at a valid time.
pub patched_authority :
    (py : Python) (patch : Fields) (time : Option String) (p : Permission) {p' : Permission}
    → get "can_modify_permissions" patch ≡ none
    → patched py patch time p ≡ ok p'
    → (p'.can_modify_permissions ≡ p.can_modify_permissions)
      × (contains effective_times p'.effective_from ≡ true)
unfolding patched permission_check
patched_authority py patch time p {p'} absent e =
    let (p₁, e₁, e₂) = >>=-eq-ok (patch_fields py patch p) _ e in
    if_rule
      (λ (m : Result Permission).
        m ≡ ok p'
        → (p'.can_modify_permissions ≡ p.can_modify_permissions)
          × (contains effective_times p'.effective_from ≡ true))
      (contains effective_times (moved time p₁).effective_from) _ _
      (λ valid k.
        subst
          (λ q.
            (q.can_modify_permissions ≡ p.can_modify_permissions)
            × (contains effective_times q.effective_from ≡ true))
          (ok_inj k) (moved-authority time p₁ ∙ patch_fields-authority py patch p absent e₁, valid))
      (λ _ k. cc) e₂
