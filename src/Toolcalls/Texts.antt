-- ===== src/Toolcalls/Texts.antt =====
-- The tests on text of app/detectors/tool_calls.py and of app/decision.py.
use real_guard_v.Prelude.{
  ℕ, ◌≡◌, ◌≢◌, refl, sym, ◌∙◌, ap, arith, String, Bool, false, not, ◌&&◌, ◌||◌, List, [], ◌∷◌, ◌++◌,
  map, any, any-map,
}
use real_guard_v.Text.{
  Casing, codes, strip, starts_with, upper, lower, first_word, same_codes, contains,
}
use real_guard_v.Decision.Commands.{
  shell_needles, strip_sql_comments, collapse, has_sql_verb, is_unbounded_mutation,
  matches_shell_pattern,
}
use real_guard_v.Toolcalls.Scans.{
  is_destructive_sql, has_shell_pattern, is_unbounded, verb_of, is_blank,
}

-- A text that both take as it is: no comment, no run of white space, no white space at its ends, and
-- none that its upper case would have there.
abbrev pub PlainQuery : Casing → List ℕ → Type 0
PlainQuery u q =
    (q ≢ []) × (strip_sql_comments q ≡ q) × (strip q ≡ q) × (strip (upper u q) ≡ upper u q)

abbrev pub PlainCommand : Casing → List ℕ → Type 0
PlainCommand u c = collapse false (lower u c) ≡ lower u c

abbrev unbounded : List ℕ → List ℕ → Bool
unbounded start text =
    (starts_with (codes "DELETE") start || starts_with (codes "UPDATE") start)
    && not (contains (codes "WHERE") text)

as_it_is : (u : Casing) (q : List ℕ) → PlainQuery u q → strip (strip_sql_comments q) ≡ q
as_it_is u q (some_text, plain, ends, high) = ap (λ s. strip s) plain ∙ ends

unbounded-agrees :
    (u : Casing) (q : List ℕ) → PlainQuery u q → is_unbounded u q ≡ is_unbounded_mutation u q
unfolding is_unbounded is_unbounded_mutation
unbounded-agrees u q h =
    ap (λ a. unbounded a (upper u q)) (h.3)
    ∙ ap (λ s. unbounded (upper u s) (upper u s)) (sym (as_it_is u q h))

verb_of-agrees :
    (u : Casing) (q : List ℕ)
    → PlainQuery u q
    → verb_of u q ≡ upper u (first_word (strip (strip_sql_comments q)))
unfolding verb_of
verb_of-agrees u q h = ap (λ s. upper u (first_word (strip s))) (sym (h.1))

is_blank-plain : (u : Casing) (q : List ℕ) → PlainQuery u q → is_blank (strip q) ≡ false
is_blank-plain u q h = ap (λ (s : List ℕ). is_blank s) (h.2) ∙ nonempty q (h.0)
  where
    nonempty : (s : List ℕ) → s ≢ [] → is_blank s ≡ false
    nonempty [] other = absurd (other refl)
    nonempty (c ∷ s) other = refl

any-nil {ℓ} : {A : Type ℓ} (p : A → Bool) (xs : List A) → any p (xs ++ []) ≡ any p xs
any-nil p [] = refl
any-nil p (x ∷ xs) = ground (arith, any-nil p xs)

verbs-agree :
    (u : Casing) (verbs : List String) (q : List ℕ)
    → PlainQuery u q
    → any (same_codes (verb_of u q)) (map (λ (v : String). upper u (codes v)) verbs ++ [])
      ≡ has_sql_verb u verbs q
unfolding has_sql_verb
verbs-agree u verbs q h =
    any-nil (same_codes (verb_of u q)) (map (λ (v : String). upper u (codes v)) verbs)
    ∙ any-map (same_codes (verb_of u q)) (λ (v : String). upper u (codes v)) verbs
    ∙ ap (λ first. any (λ (v : String). same_codes first (upper u (codes v))) verbs)
        (verb_of-agrees u q h)

pub sql-agrees :
    (u : Casing) (verbs : List String) (q : List ℕ)
    → PlainQuery u q
    → is_destructive_sql u (map (λ (v : String). upper u (codes v)) verbs ++ []) q
      ≡ (has_sql_verb u verbs q || is_unbounded_mutation u q)
unfolding is_destructive_sql
sql-agrees u verbs q h =
    rw (is_blank-plain u q h, verbs-agree u verbs q h, unbounded-agrees u q h) refl

pub shell-agrees :
    (u : Casing) (patterns : List String) (c : List ℕ)
    → PlainCommand u c
    → has_shell_pattern u (patterns ++ []) c ≡ matches_shell_pattern u c patterns
unfolding has_shell_pattern matches_shell_pattern
shell-agrees u patterns c plain =
    any-nil
      (λ name.
        any (λ (needle : String). contains (lower u (codes needle)) (lower u c))
          (shell_needles name))
      patterns
    ∙ ap
        (λ lowered.
          any
            (λ name.
              any (λ (needle : String). contains (lower u (codes needle)) lowered)
                (shell_needles name))
            patterns)
        (sym plain)
