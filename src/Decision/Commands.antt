-- ===== src/Decision/Commands.antt =====
-- The text tests of app/decision.py on SQL statements and shell commands.
use real_guard_v.Prelude.{
  ℕ, String, Bool, true, false, not, ◌||◌, ◌&&◌, List, [], ◌∷◌, ◌==◌, any, if◌then◌else◌, str_eq,
}
use real_guard_v.Text.{
  Casing, codes, is_space, upper, lower, starts_with, contains, same_codes, strip, first_word,
}

-- `_SQL_LINE_COMMENT_RE.sub(" ", sql)`; the flag tells that a comment is open.
unfoldable pub strip_line_comments : Bool → List ℕ → List ℕ
strip_line_comments started [] = []
strip_line_comments false (c ∷ s) = elim (starts_with (codes "--") (c ∷ s)) [
  | true ↦ 32 ∷ strip_line_comments true s
  | false ↦ c ∷ strip_line_comments false s
]
strip_line_comments true (c ∷ s) = elim (c == 10) [
  | true ↦ c ∷ strip_line_comments false s
  | false ↦ strip_line_comments true s
]

-- Where the walk stands in a block comment: before it, at the second character of its opening,
-- in its body, or at the second character of its closing.
pub data Block : Type 0 where
  outside opening body closing : Block

-- `_SQL_BLOCK_COMMENT_RE.sub(" ", sql)`: a comment that is never closed is not one.
unfoldable pub strip_block_comments : Block → List ℕ → List ℕ
strip_block_comments at [] = []
strip_block_comments outside (c ∷ s) = elim (starts_with (codes "/*") (c ∷ s) && closes s) [
  | true ↦ 32 ∷ strip_block_comments opening s
  | false ↦ c ∷ strip_block_comments outside s
]
  where
    closes : List ℕ → Bool
    closes [] = false
    closes (_ ∷ after) = contains (codes "*/") after
strip_block_comments opening (c ∷ s) = strip_block_comments body s
strip_block_comments body (c ∷ s) = elim (starts_with (codes "*/") (c ∷ s)) [
  | true ↦ strip_block_comments closing s
  | false ↦ strip_block_comments body s
]
strip_block_comments closing (c ∷ s) = strip_block_comments outside s

unfoldable pub strip_sql_comments : List ℕ → List ℕ
unfolding strip_line_comments strip_block_comments
strip_sql_comments sql = strip_block_comments outside (strip_line_comments false sql)

-- The test of `sql_verb_in`
unfoldable pub has_sql_verb : Casing → List String → List ℕ → Bool
unfolding upper strip_sql_comments strip first_word
has_sql_verb u verbs sql =
    let first = upper u (first_word (strip (strip_sql_comments sql))) in
    any (λ v. same_codes first (upper u (codes v))) verbs

-- The test of `sql_unbounded_mutation`
unfoldable pub is_unbounded_mutation : Casing → List ℕ → Bool
unfolding upper strip_sql_comments strip
is_unbounded_mutation u sql =
    let text = upper u (strip (strip_sql_comments sql)) in
    (starts_with (codes "DELETE") text || starts_with (codes "UPDATE") text)
    && not (contains (codes "WHERE") text)

-- `_SHELL_PATTERNS`
abbrev pub shell_needles : String → List String
shell_needles name =
    if str_eq name "recursive_force_remove"
    then "rm -rf" ∷ "rm -fr" ∷ "rmdir /s" ∷ []
    else if str_eq name "device_write"
    then "of=/dev/" ∷ "> /dev/sd" ∷ []
    else if str_eq name "fork_bomb"
    then ":(){:|:&};:" ∷ []
    else if str_eq name "piped_download_execute"
    then "curl " ∷ "| sh" ∷ "| bash" ∷ "wget " ∷ []
    else if str_eq name "privilege_escalation"
    then "sudo " ∷ "chmod +s" ∷ "setuid" ∷ []
    else []

-- `_WHITESPACE_RUN_RE.sub(" ", command)`; the flag tells that a run is open.
unfoldable pub collapse : Bool → List ℕ → List ℕ
unfolding is_space
collapse started [] = []
collapse started (c ∷ s) = elim (is_space c) [
  | true ↦ elim started [ true ↦ collapse true s | false ↦ 32 ∷ collapse true s ]
  | false ↦ c ∷ collapse false s
]

unfoldable pub matches_shell_pattern : Casing → List ℕ → List String → Bool
unfolding collapse lower
matches_shell_pattern u command pattern_names =
    let lowered = collapse false (lower u command) in
    any (λ name. any (λ needle. contains (lower u (codes needle)) lowered) (shell_needles name))
      pattern_names
