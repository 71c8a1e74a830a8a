-- ===== src/Toolcalls/Agreement.antt =====
-- app/detectors/tool_calls.py against app/decision.py, which test a call each on their own.
use real_guard_v.Prelude.{
  ℕ, ◌≡◌, refl, ◌∙◌, ap, arith, String, false, ◌||◌, Option, none, some, List, [], ◌++◌, map,
}
use real_guard_v.Json.{Json, ℤ, get}
use real_guard_v.Text.{Casing, codes, upper}
use real_guard_v.Detectors.{
  Finding, Category, tool_not_allowlisted, sensitive_action, destructive_action,
}
use real_guard_v.Policy.{Policy}
use real_guard_v.Decision.Commands.{has_sql_verb, is_unbounded_mutation, matches_shell_pattern}
use real_guard_v.Decision.Conditions.{eval_condition}
use real_guard_v.Toolcalls.{detector_of}
use real_guard_v.Toolcalls.Scans.{
  scan_tool_call, scan_arguments, as_text, is_destructive_sql, has_shell_pattern,
}
use real_guard_v.Toolcalls.Rules.{
  unlisted, transfer, destructive, deletion, asked, has, from_rules, Shipped, detector_of-Shipped,
}
use real_guard_v.Toolcalls.Texts.{PlainQuery, PlainCommand, sql-agrees, shell-agrees}
use real_guard_v.Toolcalls.Evaluated.{
  is_flag, unlisted-agrees, transfer-agrees, destructive-eval, deletion-eval,
}
use real_guard_v.Toolcalls.Found.{scan-has}

-- A text argument that is there satisfies `P`.
abbrev pub OnText : (List ℕ → Type 0) → Option (List ℕ) → Type 0
OnText P none = Unit
OnText P (some s) = P s

sql-agree :
    (u : Casing) (verbs : List String) (o : Option (List ℕ))
    → OnText (PlainQuery u) o
    → elim o [
      | none ↦ false
      | some q ↦ is_destructive_sql u (map (λ (v : String). upper u (codes v)) verbs ++ []) q
    ]
      ≡ elim o [ none ↦ false | some q ↦ has_sql_verb u verbs q || is_unbounded_mutation u q ]
sql-agree u verbs none h = refl
sql-agree u verbs (some q) h = sql-agrees u verbs q h

shell-agree :
    (u : Casing) (patterns : List String) (o : Option (List ℕ))
    → OnText (PlainCommand u) o
    → elim o [ none ↦ false | some c ↦ has_shell_pattern u (patterns ++ []) c ]
      ≡ elim o [ none ↦ false | some c ↦ matches_shell_pattern u c patterns ]
shell-agree u patterns none h = refl
shell-agree u patterns (some c) h = shell-agrees u patterns c h

module _ (u : Casing) {policy : Policy} {names tools verbs patterns : List String} {b : ℤ}
    (shipped : Shipped policy names tools verbs patterns b) (loads : String → Option Json)
    (salted : String → String) (fs : List Finding) (n : ℕ) (t : String) (args : Json) where
  scanned :
      (c : Category)
      → has c (scan_tool_call loads salted u (detector_of u policy) t (some args) none)
        ≡ has c (scan_arguments u (from_rules u names tools verbs patterns b) t args)
  unfolding scan_tool_call
  scanned c =
      ap (λ d. has c (scan_arguments u d t args))
        (detector_of-Shipped u policy names tools verbs patterns b shipped)

  -- For the four rules that the shipped policy has on calls, and arguments in which `amount` is no
  -- bool, `query` and `command` have no comment and no white space that one side strips and the other
  -- does not: the detector reports a tool outside the list, an amount that needs an approval, and a
  -- destructive query or command, exactly when the condition of the rule, or of one of the two rules,
  -- holds of the call.
  pub scan-same_rules :
      is_flag (get "amount" args) ≡ false
      → OnText (PlainQuery u) (as_text (get "query" args))
      → OnText (PlainCommand u) (as_text (get "command" args))
      → (has tool_not_allowlisted
            (scan_tool_call loads salted u (detector_of u policy) t (some args) none)
          ≡ eval_condition u (unlisted names) (asked fs n t args))
        × (has sensitive_action
              (scan_tool_call loads salted u (detector_of u policy) t (some args) none)
            ≡ eval_condition u (transfer tools b) (asked fs n t args))
        × (has destructive_action
              (scan_tool_call loads salted u (detector_of u policy) t (some args) none)
            ≡ (eval_condition u (destructive verbs) (asked fs n t args)
                || eval_condition u (deletion patterns) (asked fs n t args)))
  scan-same_rules amount query command =
      let d = from_rules u names tools verbs patterns b in
      (
        scanned tool_not_allowlisted
            ∙ scan-has u d t tool_not_allowlisted args
            ∙ ground (arith, unlisted-agrees u names fs n t args),
        scanned sensitive_action
            ∙ scan-has u d t sensitive_action args
            ∙ ground (arith, transfer-agrees u tools b fs n t args amount),
        scanned destructive_action
            ∙ scan-has u d t destructive_action args
            ∙ ground (
              arith,
              destructive-eval u names tools verbs patterns b fs n t args,
              deletion-eval u names tools verbs patterns b fs n t args,
              sql-agree u verbs (as_text (get "query" args)) query,
              shell-agree u patterns (as_text (get "command" args)) command,
            ),
      )
