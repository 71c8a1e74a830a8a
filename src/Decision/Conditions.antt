-- ===== src/Decision/Conditions.antt =====
-- `_category_scores`, `_resolve_json_path`, `_eval_condition` and `_rule_categories` of
-- app/decision.py.
use real_guard_v.Prelude.{
  ℕ, String, Bool, true, false, not, ◌||◌, ◌&&◌, Option, none, some, List, [], ◌∷◌, ◌++◌, ltb,
  if◌then◌else◌, str_eq, lookup, put, mem,
}
use real_guard_v.Json.{Json, ℤ, pos, negsuc, null, bool, num, str, get}
use real_guard_v.Text.{Casing, codes}
use real_guard_v.Detectors.{Finding, Category, value, detector_timeout}
use real_guard_v.Policy.{
  Keys, Condition, condition, Nested, absent, present, Conditions, no_more, more,
}
use real_guard_v.Decision.Commands.{has_sql_verb, is_unbounded_mutation, matches_shell_pattern}

pub record DecisionContext : Type 0 where
  pub findings : List Finding
  pub byte_count : ℕ
  pub tool_name : Option String
  pub tool_arguments : Json

abbrev pub is_timeout : Category → Bool
is_timeout detector_timeout = true
is_timeout _ = false

abbrev pub max : ℕ → ℕ → ℕ
max a b = if ltb a b then b else a

abbrev pub score_or_zero : Option ℕ → ℕ
score_or_zero none = 0
score_or_zero (some s) = s

unfoldable pub add_scores : List (String × ℕ) → List Finding → List (String × ℕ)
add_scores scores [] = scores
add_scores scores (f ∷ findings) =
    if is_timeout f.category
    then add_scores scores findings
    else add_scores
        (put (value f.category) (max (score_or_zero (lookup (value f.category) scores)) f.score)
          scores)
        findings

unfoldable pub category_scores : List Finding → List (String × ℕ)
unfolding add_scores
category_scores findings = add_scores [] findings

-- `path[2:].split(".")`, and nothing if the path does not start with "$."
abbrev split_dots : String → List String
split_dots String.[] = String.[] ∷ []
split_dots (String.◌∷◌ c s) = elim (split_dots s) [
  | [] ↦ []
  | part ∷ parts ↦
      if str_eq (String.◌∷◌ c String.[]) "."
      then String.[] ∷ part ∷ parts
      else String.◌∷◌ c part ∷ parts
]

abbrev path_parts : String → Option (List String)
path_parts (String.◌∷◌ c (String.◌∷◌ d s)) =
    if str_eq (String.◌∷◌ c (String.◌∷◌ d String.[])) "$." then some (split_dots s) else none
path_parts _ = none

abbrev pub walk : Json → List String → Option Json
walk node [] = some node
walk node (part ∷ parts) = elim (get part node) [ none ↦ none | some v ↦ walk v parts ]

-- A JSON null is Python's `None`, the same as no value.
abbrev pub not_null : Option Json → Option Json
not_null (some null) = none
not_null o = o

unfoldable pub resolve_json_path : Json → String → Option Json
resolve_json_path arguments path = elim (path_parts path) [
  | none ↦ none
  | some parts ↦ not_null (walk arguments parts)
]

-- `value >= n` and `value < n` for a value that is an int (a bool is one).
abbrev pub number_of : Json → Option ℤ
number_of (num z) = some z
number_of (bool true) = some (pos 1)
number_of (bool false) = some (pos 0)
number_of _ = none

abbrev pub ltz : ℤ → ℤ → Bool
ltz (pos m) (pos n) = ltb m n
ltz (pos m) (negsuc n) = false
ltz (negsuc m) (pos n) = true
ltz (negsuc m) (negsuc n) = ltb n m

abbrev pub text_of : Json → Option (List ℕ)
text_of (str s) = some (codes s)
text_of _ = none

-- The score keys of a condition with a category.
abbrev pub in_band : Keys → Option ℕ → Bool
in_band k none = false
in_band k (some score) =
    elim (k.score_gte) [ none ↦ true | some low ↦ not (ltb score low) ]
    && elim (k.score_lt) [ none ↦ true | some high ↦ ltb score high ]

-- The keys that test text, the first of them that is there.
abbrev pub eval_text : Casing → Keys → Option (List ℕ) → Bool
eval_text u k none = false
eval_text u k (some text) = elim (k.sql_verb_in) [
  | some verbs ↦ has_sql_verb u verbs text
  | none ↦ elim (k.sql_unbounded_mutation) [
    | some _ ↦ is_unbounded_mutation u text
    | none ↦ elim (k.shell_pattern_in) [
      | some names ↦ matches_shell_pattern u text names
      | none ↦ false
    ]
  ]
]

abbrev pub eval_value : Casing → Keys → Option Json → Bool
eval_value u k none = false
eval_value u k (some v) = elim (k.numeric_gte) [
  | some n ↦ elim (number_of v) [ none ↦ false | some z ↦ not (ltz z n) ]
  | none ↦ elim (k.numeric_lt) [
    | some n ↦ elim (number_of v) [ none ↦ false | some z ↦ ltz z n ]
    | none ↦ eval_text u k (text_of v)
  ]
]

-- The keys but `all` and `any`: the first of them that is there decides.
unfoldable pub eval_keys : Casing → Keys → DecisionContext → Bool
unfolding category_scores resolve_json_path
eval_keys u k ctx = elim (k.category) [
  | some c ↦ in_band k (lookup c (category_scores ctx.findings))
  | none ↦ elim (k.bytes_gt) [
    | some n ↦ ltb n ctx.byte_count
    | none ↦ elim (k.tool_name_in) [
      | some names ↦ elim (ctx.tool_name) [ none ↦ false | some t ↦ mem t names ]
      | none ↦ elim (k.tool_not_in) [
        | some names ↦ elim (ctx.tool_name) [ none ↦ false | some t ↦ not (mem t names) ]
        | none ↦ elim (k.argument_path) [
          | some path ↦ eval_value u k (resolve_json_path ctx.tool_arguments path)
          | none ↦ false
        ]
      ]
    ]
  ]
]

unfoldable mutual
  unfolding eval_keys

  pub eval_condition : Casing → Condition → DecisionContext → Bool
  eval_condition u (condition (present cs) anys k) ctx = eval_all u cs ctx
  eval_condition u (condition absent (present cs) k) ctx = eval_any u cs ctx
  eval_condition u (condition absent absent k) ctx = eval_keys u k ctx

  pub eval_all : Casing → Conditions → DecisionContext → Bool
  eval_all u no_more ctx = true
  eval_all u (more c cs) ctx = eval_condition u c ctx && eval_all u cs ctx

  pub eval_any : Casing → Conditions → DecisionContext → Bool
  eval_any u no_more ctx = false
  eval_any u (more c cs) ctx = eval_condition u c ctx || eval_any u cs ctx

unfoldable mutual
  pub rule_categories : Condition → List String
  rule_categories (condition alls anys k) =
      elim (k.category) [ none ↦ [] | some c ↦ c ∷ [] ]
      ++ nested_categories alls
      ++ nested_categories anys

  pub nested_categories : Nested → List String
  nested_categories absent = []
  nested_categories (present cs) = all_categories cs

  pub all_categories : Conditions → List String
  all_categories no_more = []
  all_categories (more c cs) = rule_categories c ++ all_categories cs
