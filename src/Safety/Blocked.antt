-- ===== src/Safety/Blocked.antt =====
-- safety/policy.py: what a command that is let through may say, and what a blocked one does.
use hex_agent.Base.{◌≡◌, refl, String, Bool, true, false, ◌||◌, List, [], ◌∷◌, contains, arith}
use hex_agent.Base.{if_rule, Bool-cases, inl, inr, ap, sym, ◌∙◌}
use hex_agent.Value.{
  Value, null, bool, num, str, arr, obj, Fields, get_or, to_list, strs_of, Python,
}
use hex_agent.Core.Envelope.{ToolRequest}
use hex_agent.Core.Registry.{Executor}
use hex_agent.Safety.{
  Host, PolicyDecision, check_tool, classify_argv, classify_terminal, safe_tool_port, any_has,
  shell_exes, shell_tokens, destructive_exes, arguments_escape, program, git_blocked,
  classify_texts, terminal_names,
}

-- What must not be in a command.
abbrev pub is_dangerous : Host → String → List String → Bool
is_dangerous h first arguments =
    contains shell_exes (program h first)
    || any_has shell_tokens (first ∷ arguments)
    || contains destructive_exes (program h first)
    || arguments_escape h arguments

Harmless : Bool → PolicyDecision → Type 0
Harmless danger d = d.allowed ≡ true → danger ≡ false

none_of :
    (a b c d : Bool) → a ≡ false → b ≡ false → c ≡ false → d ≡ false → (a || b || c || d) ≡ false
none_of a b c d e f g h = ground arith

false-absurd {ℓ} : {P : Type ℓ} → false ≡ true → P
false-absurd e = cc

-- A command that is let through is no shell and no destructive program, no text of it has a shell
-- token, and no argument names a path outside the workspace.
pub classify_argv-permits :
    (h : Host) (first : String) (arguments : List String)
    → (classify_argv h first arguments).allowed ≡ true
    → is_dangerous h first arguments ≡ false
unfolding classify_argv Harmless
classify_argv-permits h first arguments e =
    let danger = is_dangerous h first arguments in
    if_rule (Harmless danger) (contains shell_exes (program h first)) _ _ (λ _ n. false-absurd n)
      (λ a.
        if_rule (Harmless danger) (any_has shell_tokens (first ∷ arguments)) _ _
          (λ _ n. false-absurd n)
          (λ b.
            if_rule (Harmless danger) (contains destructive_exes (program h first)) _ _
              (λ _ n. false-absurd n)
              (λ c.
                if_rule (Harmless danger) (git_blocked h (program h first) arguments) _ _
                  (λ _ n. false-absurd n)
                  (λ _.
                    if_rule (Harmless danger) (arguments_escape h arguments) _ _
                      (λ _ n. false-absurd n) (λ d _. none_of _ _ _ _ a b c d)))))
      e

dangerous_refused :
    (h : Host) (first : String) (arguments : List String)
    → is_dangerous h first arguments ≡ true
    → (classify_argv h first arguments).allowed ≡ false
dangerous_refused h first arguments d =
    elim (Bool-cases (classify_argv h first arguments).allowed) [
      | inl e ↦ false-absurd (sym (classify_argv-permits h first arguments e) ∙ d)
      | inr e ↦ e
    ]

-- An argv that must not run: it is no list, it is empty, or its command is dangerous.
abbrev pub is_refused : Python → Host → Value → Bool
is_refused py h (arr items) = elim (strs_of py (to_list items)) [
  | [] ↦ true
  | first ∷ arguments ↦ is_dangerous h first arguments
]
is_refused py h _ = true

texts_refused :
    (h : Host) (argv : List String)
    → (elim argv [ [] ↦ true | first ∷ arguments ↦ is_dangerous h first arguments ]) ≡ true
    → (classify_texts h argv).allowed ≡ false
texts_refused h [] d = refl
texts_refused h (first ∷ arguments) d = dangerous_refused h first arguments d

terminal_refused :
    (py : Python) (h : Host) (argv : Value)
    → is_refused py h argv ≡ true
    → (classify_terminal py h argv).allowed ≡ false
unfolding classify_terminal
terminal_refused py h null d = refl
terminal_refused py h (bool b) d = refl
terminal_refused py h (num n) d = refl
terminal_refused py h (str s) d = refl
terminal_refused py h (arr items) d = texts_refused h (strs_of py (to_list items)) d
terminal_refused py h (obj fields) d = refl

check_terminal :
    (py : Python) (h : Host) (repair_mode : Bool) (name : String) (args : Fields)
    → contains terminal_names name ≡ true
    → check_tool py h repair_mode name args ≡ classify_terminal py h (get_or "argv" null args)
unfolding check_tool
check_terminal py h repair_mode name args known = rw known refl

-- A call of the terminal, under any of its three names, behind the safety port never reaches the tool
-- if its argv is no list, is empty, names a shell or a destructive program, has a shell token in one
-- of its texts, or has an argument in which the pattern of absolute paths finds one that resolves to
-- a path outside the workspace: the answer is the same for any two tools, and the state is as it was.
pub dangerous_never_runs :
    {S : Type 0} (py : Python) (h : Host) (repair_mode : Bool) (name : String)
    (inner other : Executor S) (request : ToolRequest) (s : S)
    → contains terminal_names request.name ≡ true
    → is_refused py h (get_or "argv" null request.args) ≡ true
    → ((safe_tool_port py h repair_mode name inner).execute request s
        ≡ (safe_tool_port py h repair_mode name other).execute request s)
      × (((safe_tool_port py h repair_mode name inner).execute request s).1 ≡ s)
unfolding safe_tool_port
dangerous_never_runs py h repair_mode name inner other request s known d =
    (rw refused refl, rw refused refl)
  where
    refused : (check_tool py h repair_mode request.name request.args).allowed ≡ false
    refused =
        ap (λ x. x.allowed) (check_terminal py h repair_mode request.name request.args known)
        ∙ terminal_refused py h (get_or "argv" null request.args) d
