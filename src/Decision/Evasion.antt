-- ===== src/Decision/Evasion.antt =====
-- Rewordings of a command that do not change what app/decision.py sees in it: a longer run of white
-- space in a shell command, and a line comment before a SQL statement.
use real_guard_v.Prelude.{
  ℕ, ◌≡◌, refl, ◌∙◌, sym, ap, arith, String, Bool, true, false, not, ◌||◌, ◌&&◌, List, [], ◌∷◌,
  ◌++◌, ◌==◌, ltb, leb, All, any,
}
use mathlib.Core.List.{append_assoc}
use real_guard_v.Text.{
  Casing, codes, is_space, upper, lower, starts_with, contains, strip, lstrip, first_word,
  same_codes,
}
use real_guard_v.Decision.Commands.{
  strip_line_comments, strip_block_comments, strip_sql_comments, has_sql_verb,
  is_unbounded_mutation, collapse, matches_shell_pattern,
}

-- White space of ASCII, which has no case.
abbrev pub is_blank : ℕ → Bool
is_blank c = (leb 9 c && leb c 13) || (leb 28 c && leb c 32)

abbrev pub Blanks : List ℕ → Type 0
Blanks s = All (λ c. is_blank c ≡ true) s

blank_space : (c : ℕ) → is_blank c ≡ true → is_space c ≡ true
unfolding is_space
blank_space c h = ground arith

blank_code : (c : ℕ) → is_blank c ≡ true → (leb 65 c && leb c 90 ≡ false) × (ltb c 128 ≡ true)
blank_code c h = (ground arith, ground arith)

lower-Blanks : (u : Casing) (ws s : List ℕ) → Blanks ws → lower u (ws ++ s) ≡ ws ++ lower u s
unfolding lower
lower-Blanks u [] s h = refl
lower-Blanks u (c ∷ ws) s h =
    let (low, ascii) = blank_code c h.0 in
    rw (low, ascii) (ap (λ t. c ∷ t) (lower-Blanks u ws s h.1))

lower-append : (u : Casing) (a b : List ℕ) → lower u (a ++ b) ≡ lower u a ++ lower u b
unfolding lower
lower-append u [] b = refl
lower-append u (c ∷ a) b = rw (lower-append u a b) (sym (append_assoc _ (lower u a) (lower u b)))

collapse-append :
    (started : Bool) (a s t : List ℕ)
    → ((b : Bool) → collapse b s ≡ collapse b t)
    → collapse started (a ++ s) ≡ collapse started (a ++ t)
unfolding collapse
collapse-append started [] s t h = h started
collapse-append started (c ∷ a) s t h =
    ground (arith, collapse-append true a s t h, collapse-append false a s t h)

collapse-Blanks : (ws s : List ℕ) → Blanks ws → collapse true (ws ++ s) ≡ collapse true s
unfolding collapse
collapse-Blanks [] s h = refl
collapse-Blanks (c ∷ ws) s h = rw (blank_space c h.0, collapse) (collapse-Blanks ws s h.1)

-- A run of blanks is one space.
collapse-run :
    (started : Bool) (c : ℕ) (ws s : List ℕ)
    → Blanks (c ∷ ws)
    → collapse started (c ∷ (ws ++ s)) ≡ collapse started (32 ∷ s)
unfolding collapse
collapse-run true c ws s h =
    ground (arith, blank_space c h.0, blank_space 32 refl, collapse-Blanks ws s h.1)
collapse-run false c ws s h =
    ground (arith, blank_space c h.0, blank_space 32 refl, collapse-Blanks ws s h.1)

collapse_lowered :
    (u : Casing) (a b : List ℕ) (c : ℕ) (ws : List ℕ)
    → Blanks (c ∷ ws)
    → collapse false (lower u (a ++ (c ∷ (ws ++ b)))) ≡ collapse false (lower u (a ++ 32 ∷ b))
collapse_lowered u a b c ws h =
    ap (collapse false)
      (lower-append u a (c ∷ (ws ++ b)) ∙ ap (λ t. lower u a ++ t) (lower-Blanks u (c ∷ ws) b h))
    ∙ collapse-append false (lower u a) (c ∷ (ws ++ lower u b)) (32 ∷ lower u b)
        (λ started. collapse-run started c ws (lower u b) h)
    ∙ sym (
        ap (collapse false) (
          lower-append u a (32 ∷ b)
          ∙ ap (λ t. lower u a ++ t) (lower-Blanks u (32 ∷ []) b (refl, tt))))

-- A shell command matches the same patterns when a run of ASCII white space in it is written as one
-- space.
pub matches-Blanks :
    (u : Casing) (a b : List ℕ) (c : ℕ) (ws : List ℕ) (pattern_names : List String)
    → Blanks (c ∷ ws)
    → matches_shell_pattern u (a ++ (c ∷ (ws ++ b))) pattern_names
      ≡ matches_shell_pattern u (a ++ 32 ∷ b) pattern_names
unfolding matches_shell_pattern
matches-Blanks u a b c ws names h = rw (collapse_lowered u a b c ws h) refl

-- The text of a line comment: it holds no line feed.
abbrev pub OneLine : List ℕ → Type 0
OneLine s = All (λ c. (c == 10) ≡ false) s

skip_comment :
    (body s : List ℕ)
    → OneLine body
    → strip_line_comments true (body ++ (10 ∷ s)) ≡ 10 ∷ strip_line_comments false s
unfolding strip_line_comments
skip_comment [] s h = refl
skip_comment (c ∷ body) s h = rw (h.0, strip_line_comments) (skip_comment body s h.1)

commented : List ℕ → List ℕ → List ℕ
commented body sql = 45 ∷ 45 ∷ (body ++ (10 ∷ sql))

strip-commented :
    (body sql : List ℕ)
    → OneLine body
    → strip (strip_sql_comments (commented body sql)) ≡ strip (strip_sql_comments sql)
unfolding strip_sql_comments strip_line_comments strip_block_comments commented strip lstrip
    is_space
strip-commented body sql h = rw (skip_comment body sql h) refl

-- A SQL statement passes the same verb test and the same test for an unbounded mutation when a line
-- comment, of any text on one line, is put before it.
pub commented-same :
    (u : Casing) (verbs : List String) (body sql : List ℕ)
    → OneLine body
    → (has_sql_verb u verbs (codes "--" ++ (body ++ (10 ∷ sql))) ≡ has_sql_verb u verbs sql)
      × (is_unbounded_mutation u (codes "--" ++ (body ++ (10 ∷ sql))) ≡ is_unbounded_mutation u sql)
unfolding has_sql_verb is_unbounded_mutation commented
commented-same u verbs body sql h =
    let same = strip-commented body sql h in
    let text = λ (t : List ℕ). upper u t in
    (
      ap (λ t. any (λ v. same_codes (text (first_word t)) (text (codes v))) verbs) same,
      ap
          (λ t.
            (starts_with (codes "DELETE") (text t) || starts_with (codes "UPDATE") (text t))
            && not (contains (codes "WHERE") (text t)))
          same,
    )
