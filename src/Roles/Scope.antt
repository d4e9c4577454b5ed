-- ===== src/Roles/Scope.antt =====
-- roles/spec.py and roles/agent.py: forbidden tools win.
use hex_agent.Base.{
  ◌≡◌, refl, subst, sym, ap, String, ◌==◌, true, false, not, ◌&&◌, List, [], ◌∷◌, ◌++◌, contains,
  arith,
}
use hex_agent.Base.Lists.{contains-append}
use hex_agent.Base.Dict.{Dict}
use hex_agent.Base.Result.{ok, ok_inj, >>=-eq-ok}
use hex_agent.Base.{Bool-cases, inl, inr, ◌∙◌}
use hex_agent.Roles.{SkillSpec, RoleSpec, get_skill, skill_tools, without, allowed_tools}

contains-without :
    (xs ys : List String) (t : String)
    → contains (without xs ys) t ≡ (contains xs t && not (contains ys t))
contains-without [] ys t = refl
contains-without (x ∷ xs) ys t = ground (arith, contains-without xs ys t)

-- What is forbidden stays forbidden along the rest of the skills.
skill_tools-forbidden :
    (skills : Dict SkillSpec) (names : List String) (start : List String × List String)
    {out : List String × List String} (t : String)
    → skill_tools skills names start ≡ ok out
    → contains start.1 t ≡ true
    → contains out.1 t ≡ true
unfolding skill_tools
skill_tools-forbidden skills [] (union, forbidden) t e h =
    subst (λ x. contains x.1 t ≡ true) (ok_inj e) h
skill_tools-forbidden skills (name ∷ names) (union, forbidden) t e h =
    let (s, m, n) = >>=-eq-ok (get_skill name skills) _ e in
    skill_tools-forbidden skills names (union ++ s.allowed_tools, forbidden ++ s.forbidden_tools) t
      n (ground (arith, contains-append forbidden s.forbidden_tools t, h))

-- A tool that a skill of the list forbids is forbidden in the end.
skill_tools-forbids :
    (skills : Dict SkillSpec) (names : List String) (start : List String × List String)
    {out : List String × List String} (name t : String) {s : SkillSpec}
    → skill_tools skills names start ≡ ok out
    → contains names name ≡ true
    → get_skill name skills ≡ ok s
    → contains s.forbidden_tools t ≡ true
    → contains out.1 t ≡ true
unfolding skill_tools
skill_tools-forbids skills [] (union, forbidden) name t e inside found h = cc
skill_tools-forbids skills (n ∷ names) (union, forbidden) name t {s} e inside found h =
    let (u, m, k) = >>=-eq-ok (get_skill n skills) _ e in
    elim (Bool-cases (n == name)) [
      | inl p ↦
          (let q : n ≡ name = ground (arith, p) in
            let v = ok_inj (sym m ∙ ap (λ k. get_skill k skills) q ∙ found) in
            skill_tools-forbidden skills names
              (union ++ u.allowed_tools, forbidden ++ u.forbidden_tools) t k
              (ground (arith, contains-append forbidden u.forbidden_tools t, v, h)))
      | inr p ↦
          skill_tools-forbids skills names
            (union ++ u.allowed_tools, forbidden ++ u.forbidden_tools) name t k
            (ground (arith, inside, p)) found h
    ]

-- Forbidden wins: a tool that one of the skills of a role forbids is not among its tools, though the
-- role names it itself, another skill allows it, or it is a core tool.
pub forbidden_wins :
    (r : RoleSpec) (skills : Dict SkillSpec) (core_tools : List String) {tools : List String}
    (name t : String) {s : SkillSpec}
    → allowed_tools r skills core_tools ≡ ok tools
    → contains r.allowed_skills name ≡ true
    → get_skill name skills ≡ ok s
    → contains s.forbidden_tools t ≡ true
    → contains tools t ≡ false
unfolding allowed_tools
forbidden_wins r skills core_tools name t e inside found h =
    let (x, m, n) =
      >>=-eq-ok (skill_tools skills r.allowed_skills (r.explicit_tools ++ core_tools, [])) _ e in
    let gone =
      skill_tools-forbids skills r.allowed_skills (r.explicit_tools ++ core_tools, []) name t m
        inside found h in
    subst (λ ts. contains ts t ≡ false) (ok_inj n)
      (ground (arith, contains-without x.0 x.1 t, gone))
