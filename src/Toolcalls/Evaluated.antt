-- ===== src/Toolcalls/Evaluated.antt =====
-- The conditions of the four rules under `_eval_condition` of app/decision.py.
use real_guard_v.Prelude.{
  ℕ, ◌≡◌, refl, ◌∙◌, ap, arith, String, Bool, true, false, ◌&&◌, ◌||◌, Option, none, some, List,
  mem,
}
use real_guard_v.Json.{Json, ℤ, bool, get, str, num, null, arr, obj}
use real_guard_v.Text.{Casing}
use real_guard_v.Detectors.{Finding}
use real_guard_v.Policy.{Keys}
use real_guard_v.Decision.Commands.{has_sql_verb, is_unbounded_mutation, matches_shell_pattern}
use real_guard_v.Decision.Conditions.{
  not_null, eval_value, eval_condition, eval_keys, resolve_json_path,
}
use real_guard_v.Toolcalls.Scans.{outside, reaches, as_text}
use real_guard_v.Toolcalls.Rules.{blank, unlisted, transfer, destructive, deletion, asked}

not_null-walk : (o : Option Json) → not_null (elim o [ none ↦ none | some v ↦ some v ]) ≡ not_null o
not_null-walk none = refl
not_null-walk (some v) = refl

pub unlisted-agrees :
    (u : Casing) (names : List String) (fs : List Finding) (n : ℕ) (t : String) (args : Json)
    → outside (some names) t ≡ eval_condition u (unlisted names) (asked fs n t args)
unfolding eval_condition eval_keys
unlisted-agrees u names fs n t args = refl

-- Whether an argument is a `bool`, which `isinstance` takes for an `int`.
abbrev pub is_flag : Option Json → Bool
is_flag (some (bool b)) = true
is_flag _ = false

abbrev amount_keys : ℤ → Keys
amount_keys b = record blank { argument_path = some "$.amount"; numeric_gte = some b }

reaches-eval :
    (u : Casing) (b : ℤ) (o : Option Json)
    → is_flag o ≡ false
    → eval_value u (amount_keys b) (not_null o) ≡ reaches o (some b)
reaches-eval u b none e = refl
reaches-eval u b (some null) e = refl
reaches-eval u b (some (bool x)) e = absurd (ground arith)
reaches-eval u b (some (num z)) e = refl
reaches-eval u b (some (str s)) e = refl
reaches-eval u b (some (arr s)) e = refl
reaches-eval u b (some (obj s)) e = refl

amount-agrees :
    (u : Casing) (b : ℤ) (args : Json)
    → is_flag (get "amount" args) ≡ false
    → eval_value u (amount_keys b) (resolve_json_path args "$.amount")
      ≡ reaches (get "amount" args) (some b)
unfolding resolve_json_path
amount-agrees u b args e =
    ap (λ o. eval_value u (amount_keys b) o) (not_null-walk (get "amount" args))
    ∙ reaches-eval u b (get "amount" args) e

pub transfer-agrees :
    (u : Casing) (tools : List String) (b : ℤ) (fs : List Finding) (n : ℕ) (t : String)
    (args : Json)
    → is_flag (get "amount" args) ≡ false
    → eval_condition u (transfer tools b) (asked fs n t args)
      ≡ (mem t tools && reaches (get "amount" args) (some b))
unfolding eval_condition eval_keys
transfer-agrees u tools b fs n t args e = ground (arith, amount-agrees u b args e)

abbrev verb_keys : List String → Keys
verb_keys verbs = record blank { argument_path = some "$.query"; sql_verb_in = some verbs }

abbrev mutation_keys : Keys
mutation_keys = record blank { argument_path = some "$.query"; sql_unbounded_mutation = some true }

abbrev pattern_keys : List String → Keys
pattern_keys names = record blank {
  argument_path = some "$.command";
  shell_pattern_in = some names;
}

query-eval :
    (u : Casing) (verbs : List String) (o : Option Json)
    → (eval_value u (verb_keys verbs) (not_null o) || eval_value u mutation_keys (not_null o))
      ≡ elim (as_text o) [
        | none ↦ false
        | some q ↦ has_sql_verb u verbs q || is_unbounded_mutation u q
      ]
query-eval u verbs none = refl
query-eval u verbs (some null) = refl
query-eval u verbs (some (bool x)) = refl
query-eval u verbs (some (num z)) = refl
query-eval u verbs (some (str s)) = refl
query-eval u verbs (some (arr s)) = refl
query-eval u verbs (some (obj s)) = refl

command-eval :
    (u : Casing) (patterns : List String) (o : Option Json)
    → eval_value u (pattern_keys patterns) (not_null o)
      ≡ elim (as_text o) [ none ↦ false | some c ↦ matches_shell_pattern u c patterns ]
command-eval u patterns none = refl
command-eval u patterns (some null) = refl
command-eval u patterns (some (bool x)) = refl
command-eval u patterns (some (num z)) = refl
command-eval u patterns (some (str s)) = refl
command-eval u patterns (some (arr s)) = refl
command-eval u patterns (some (obj s)) = refl

module _ (u : Casing) (names tools verbs patterns : List String) (b : ℤ) (fs : List Finding) (n : ℕ)
    (t : String) (args : Json) where
  query-agrees :
      (eval_value u (verb_keys verbs) (resolve_json_path args "$.query")
        || eval_value u mutation_keys (resolve_json_path args "$.query"))
      ≡ elim (as_text (get "query" args)) [
        | none ↦ false
        | some q ↦ has_sql_verb u verbs q || is_unbounded_mutation u q
      ]
  unfolding resolve_json_path
  query-agrees =
      ap (λ o. eval_value u (verb_keys verbs) o || eval_value u mutation_keys o)
        (not_null-walk (get "query" args))
      ∙ query-eval u verbs (get "query" args)

  pub destructive-eval :
      eval_condition u (destructive verbs) (asked fs n t args) ≡ elim (as_text (get "query" args)) [
        | none ↦ false
        | some q ↦ has_sql_verb u verbs q || is_unbounded_mutation u q
      ]
  unfolding eval_condition eval_keys
  destructive-eval = ground (arith, query-agrees)

  pub deletion-eval :
      eval_condition u (deletion patterns) (asked fs n t args)
      ≡ elim (as_text (get "command" args)) [
        | none ↦ false
        | some c ↦ matches_shell_pattern u c patterns
      ]
  unfolding eval_condition eval_keys resolve_json_path
  deletion-eval =
      ap (λ o. eval_value u (pattern_keys patterns) o) (not_null-walk (get "command" args))
      ∙ command-eval u patterns (get "command" args)
