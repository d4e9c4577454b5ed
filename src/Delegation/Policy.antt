-- ===== src/Delegation/Policy.antt =====
-- delegation/policy.py: `DelegationPolicyEngine.validate`.
use hex_agent.Base.{
  ℕ, ◌+◌, ◌≡◌, refl, String, true, not, ◌||◌, Option, none, some, List, [], ◌∷◌, arith,
}
use hex_agent.Base.{if◌then◌else◌, if_rule, subst, ltb, leb}
use hex_agent.Base.Result.{Result, ok, err, value_error, permission_error, ok_inj}
use hex_agent.Core.Schemas.{DelegationPolicy, is_subset}

pub record DelegationPolicyEngine : Type 0 where
  pub max_steps : ℕ
  pub max_depth : ℕ

-- What is read of the parent's session.
pub record ParentSession : Type 0 where
  pub depth : ℕ
  pub allowed_capabilities : List String

-- `DelegationPolicy()`
abbrev pub default_policy : DelegationPolicy
default_policy = record { max_steps = 20; max_depth = 3; allowed_capabilities = [] }

-- `requested or DelegationPolicy()`
abbrev pub policy_or_default : Option DelegationPolicy → DelegationPolicy
policy_or_default none = default_policy
policy_or_default (some policy) = policy

-- `policy.allowed_capabilities or parent.allowed_capabilities`
abbrev pub scope_or_inherited : List String → List String → List String
scope_or_inherited [] inherited = inherited
scope_or_inherited (c ∷ cs) inherited = c ∷ cs

unfoldable pub validate :
    DelegationPolicyEngine → ParentSession → Option DelegationPolicy → Result DelegationPolicy
validate engine parent requested =
    let policy = policy_or_default requested in
    let scope = scope_or_inherited policy.allowed_capabilities parent.allowed_capabilities in
    if ltb policy.max_steps 1 || ltb engine.max_steps policy.max_steps
    then err value_error
    else if ltb policy.max_depth 1 || ltb engine.max_depth policy.max_depth
    then err value_error
    else if ltb policy.max_depth (parent.depth + 1)
    then err permission_error
    else if not (is_subset scope parent.allowed_capabilities)
    then err permission_error
    else ok (record policy { allowed_capabilities = scope })

-- What is granted: steps and depth within the engine's limits, a child within the depth, and
-- capabilities that the parent has, as requested or, if none were, all of the parent's.
pub record IsGrant (engine : DelegationPolicyEngine) (parent : ParentSession)
    (policy granted : DelegationPolicy) : Type 0 where
  pub steps : leb 1 granted.max_steps ≡ true
  pub steps_bound : leb granted.max_steps engine.max_steps ≡ true
  pub depth_bound : leb granted.max_depth engine.max_depth ≡ true
  pub child_depth : leb (parent.depth + 1) granted.max_depth ≡ true
  pub within_parent : is_subset granted.allowed_capabilities parent.allowed_capabilities ≡ true
  pub scope :
      granted.allowed_capabilities
      ≡ scope_or_inherited policy.allowed_capabilities parent.allowed_capabilities
  pub same_limits : (granted.max_steps ≡ policy.max_steps) × (granted.max_depth ≡ policy.max_depth)

-- A policy that is granted stays within the engine's limits and the parent's scope; the requested
-- steps and depth are kept, and a request with no capabilities is granted all of the parent's.
pub validate_grants :
    (engine : DelegationPolicyEngine) (parent : ParentSession) (requested : Option DelegationPolicy)
    {granted : DelegationPolicy}
    → validate engine parent requested ≡ ok granted
    → IsGrant engine parent (policy_or_default requested) granted
unfolding validate
validate_grants engine parent requested {granted} h =
    if_rule Grants (ltb policy.max_steps 1 || ltb engine.max_steps policy.max_steps) _ _ (λ _ e. cc)
      (λ steps.
        if_rule Grants (ltb policy.max_depth 1 || ltb engine.max_depth policy.max_depth) _ _
          (λ _ e. cc)
          (λ depth.
            if_rule Grants (ltb policy.max_depth (parent.depth + 1)) _ _ (λ _ e. cc)
              (λ child.
                if_rule Grants (not (is_subset scope parent.allowed_capabilities)) _ _ (λ _ e. cc)
                  (λ within e. subst (IsGrant engine parent policy) (ok_inj e) (record {
                    steps = ground arith;
                    steps_bound = ground arith;
                    depth_bound = ground arith;
                    child_depth = ground arith;
                    within_parent = ground arith;
                    scope = refl;
                    same_limits = (refl, refl);
                  })))))
      h
  where
    policy : DelegationPolicy
    policy = policy_or_default requested

    scope : List String
    scope = scope_or_inherited policy.allowed_capabilities parent.allowed_capabilities

    Grants : Result DelegationPolicy → Type 0
    Grants m = m ≡ ok granted → IsGrant engine parent policy granted
