-- ===== src/Toolcalls/Found.antt =====
-- Which findings `scan_tool_call` of app/detectors/tool_calls.py reports.
use real_guard_v.Prelude.{
  ℕ, ◌≡◌, refl, arith, String, Bool, false, ◌&&◌, ◌||◌, Option, none, some, List, [], ◌∷◌, ◌++◌,
  any, mem, str_eq,
}
use real_guard_v.Json.{Json, get}
use real_guard_v.Text.{Casing}
use real_guard_v.Detectors.{
  Finding, Category, value, tool_not_allowlisted, sensitive_action, destructive_action,
  high_confidence,
}
use real_guard_v.Toolcalls.{ToolCallsDetector}
use real_guard_v.Toolcalls.Scans.{
  scan_arguments, sql_finding, shell_finding, amount_metadata, tool_metadata, reported, outside,
  reaches, only_if, as_text, is_destructive_sql, has_shell_pattern,
}
use real_guard_v.Toolcalls.Rules.{has}

module _ {ℓ} {A : Type ℓ} where
  any-append : (p : A → Bool) (xs ys : List A) → any p (xs ++ ys) ≡ (any p xs || any p ys)
  any-append p [] ys = refl
  any-append p (x ∷ xs) ys = ground (arith, any-append p xs ys)

has-parts :
    (c : Category) (a b : Bool) (f g : Finding) (xs ys : List Finding)
    → has c (only_if a f ++ only_if b g ++ xs ++ ys)
      ≡ ((a && has c (f ∷ [])) || (b && has c (g ∷ [])) || has c xs || has c ys)
has-parts c a b f g xs ys = ground (
  arith,
  any-append (λ (h : Finding). str_eq (value h.category) (value c))
      (only_if a f ++ only_if b g ++ xs) ys,
  any-append (λ (h : Finding). str_eq (value h.category) (value c)) (only_if a f ++ only_if b g) xs,
)

module _ (u : Casing) (d : ToolCallsDetector) (t : String) where
  sql_finding-has :
      (c : Category) (o : Option (List ℕ))
      → has c (sql_finding u d t o) ≡ (
          str_eq (value destructive_action) (value c)
          && elim o [ none ↦ false | some q ↦ is_destructive_sql u d.sql_verbs q ])
  unfolding reported
  sql_finding-has c none = ground arith
  sql_finding-has c (some q) = ground arith

  shell_finding-has :
      (c : Category) (o : Option (List ℕ))
      → has c (shell_finding u d t o) ≡ (
          str_eq (value destructive_action) (value c)
          && elim o [ none ↦ false | some q ↦ has_shell_pattern u d.shell_pattern_names q ])
  unfolding reported
  shell_finding-has c none = ground arith
  shell_finding-has c (some q) = ground arith

  pub scan-has :
      (c : Category) (args : Json)
      → has c (scan_arguments u d t args) ≡ (
          (outside d.allowlist t && str_eq (value tool_not_allowlisted) (value c))
          || ((mem t d.high_value_tools && reaches (get "amount" args) d.high_value_threshold)
              && str_eq (value sensitive_action) (value c))
          || (str_eq (value destructive_action) (value c) && elim (as_text (get "query" args)) [
            | none ↦ false
            | some q ↦ is_destructive_sql u d.sql_verbs q
          ])
          || (str_eq (value destructive_action) (value c) && elim (as_text (get "command" args)) [
            | none ↦ false
            | some q ↦ has_shell_pattern u d.shell_pattern_names q
          ]))
  unfolding scan_arguments reported
  scan-has c args = ground (
    arith,
    has-parts c (outside d.allowlist t)
        (mem t d.high_value_tools && reaches (get "amount" args) d.high_value_threshold)
        (reported tool_not_allowlisted 9000 high_confidence [] (tool_metadata t))
        (reported sensitive_action 8500 high_confidence [] (amount_metadata t (get "amount" args)))
        (sql_finding u d t (as_text (get "query" args)))
        (shell_finding u d t (as_text (get "command" args))),
    sql_finding-has c (as_text (get "query" args)),
    shell_finding-has c (as_text (get "command" args)),
  )
