-- ===== src/Ratelimit/Replay.antt =====
-- A sequence of calls of `check_rate_limit` of app/ratelimit.py, of any identities, and what the
-- next call is told after it.
use native.Mathlib.Nat.{div-mul-le_self, mul-le-mul_right, le-div_iff_mul-le}
use real_guard_v.Prelude.{
  ℕ, ◌+◌, ◌-◌, ◌*◌, ◌/◌, ◌≤◌, ◌<◌, ◌≡◌, refl, ◌∙◌, arith, String, false, not, ◌&&◌, List, [], ◌∷◌,
  filter, str_eq, eq_iff, leb, ◌==◌, if◌then◌else◌, All, All-imp, ap,
}
use real_guard_v.Ratelimit.{
  RateLimitConfig, RateLimitStateRow, second, window_start_of, is_row_of, count_up, is_stale,
  check_rate_limit,
}

-- One call: the id drawn for a new row, the identity, and the time.
pub record Arrival : Type 0 where
  pub row_id : String
  pub identity : String
  pub now : ℕ

-- The table after the calls, the last of them first.
pub table_after : RateLimitConfig → List Arrival → List RateLimitStateRow
table_after config [] = []
table_after config (a ∷ past) =
    (check_rate_limit a.row_id a.identity config a.now (table_after config past)).1

-- The calls of an identity in the window that starts at `start`.
abbrev pub seen : ℕ → String → ℕ → List Arrival → ℕ
seen w i start [] = 0
seen w i start (a ∷ past) =
    let rest = seen w i start past in
    if str_eq a.identity i && window_start_of a.now w == start then rest + 1 else rest

abbrev count_of : String → ℕ → List RateLimitStateRow → ℕ
count_of i start [] = 0
count_of i start (r ∷ rows) =
    let rest = count_of i start rows in if is_row_of i start r then r.request_count else rest

count_of-count_up :
    (k j : String) (s now : ℕ) (i : String) (x : ℕ) (rows : List RateLimitStateRow)
    → count_of i x (count_up k j s now rows).1
      ≡ (if str_eq j i && s == x then count_of i x rows + 1 else count_of i x rows)
unfolding count_up
count_of-count_up k j s now i x [] = ground arith
count_of-count_up k j s now i x (r ∷ rows) = ground (
  arith,
  count_of-count_up k j s now i x rows,
  eq_iff j i,
  eq_iff r.identity_id i,
  eq_iff r.identity_id j,
)

count_up-0 :
    (k j : String) (s now : ℕ) (rows : List RateLimitStateRow)
    → (count_up k j s now rows).0 ≡ count_of j s rows + 1
unfolding count_up
count_up-0 k j s now [] = refl
count_up-0 k j s now (r ∷ rows) = ground (arith, count_up-0 k j s now rows)

count_of-fresh :
    (start w : ℕ) (i : String) (x : ℕ) (rows : List RateLimitStateRow)
    → start ≤ x
    → count_of i x (filter (λ r. not (is_stale start w r)) rows) ≡ count_of i x rows
count_of-fresh start w i x [] h = refl
count_of-fresh start w i x (r ∷ rows) h = ground (arith, count_of-fresh start w i x rows h)

window_start_of-le : (now w : ℕ) → window_start_of now w ≤ now
unfolding window_start_of
window_start_of-le now w = omega (arith, div-mul-le_self (now / second) w)

window_start_of_mono : (a b w : ℕ) → 0 < w → a ≤ b → window_start_of a w ≤ window_start_of b w
unfolding window_start_of
window_start_of_mono a b w pos le =
    let low : a / second / w * w ≤ b / second = omega (arith, div-mul-le_self (a / second) w) in
    let quotients : a / second / w ≤ b / second / w = (le-div_iff_mul-le pos).1 low in
    omega (arith, mul-le-mul_right w quotients)

module _ (config : RateLimitConfig) where
  -- In the current window and later ones, the table counts the calls.
  counted :
      (past : List Arrival) (i : String) (x : ℕ)
      → All (λ (b : Arrival). window_start_of b.now config.window_seconds ≤ x) past
      → count_of i x (table_after config past) ≡ seen config.window_seconds i x past
  unfolding table_after check_rate_limit
  counted [] i x late = refl
  counted (a ∷ past) i x late =
      let start = window_start_of a.now config.window_seconds in
      let kept =
        filter (λ r. not (is_stale start config.window_seconds r)) (table_after config past) in
      let before : count_of i x kept ≡ seen config.window_seconds i x past =
        count_of-fresh start config.window_seconds i x (table_after config past) late.0
        ∙ counted past i x late.1 in
      count_of-count_up a.row_id a.identity start a.now i x kept ∙ rw before refl

  -- After calls of any identities, none of them later, the next call is allowed exactly when
  -- it and the calls of its identity in the same window before it are no more than the limit;
  -- what remains is the limit less these calls.
  pub check-seen :
      (past : List Arrival) (row_id identity : String) (now : ℕ)
      → 0 < config.window_seconds
      → All (λ (b : Arrival). b.now ≤ now) past
      → let n =
          seen config.window_seconds identity (window_start_of now config.window_seconds) past
          + 1 in
        let answer = (check_rate_limit row_id identity config now (table_after config past)).0 in
        (answer.allowed ≡ leb n config.requests) × (answer.remaining ≡ config.requests - n)
  unfolding check_rate_limit
  check-seen past row_id identity now pos late =
      let w = config.window_seconds in
      let start = window_start_of now w in
      let kept = filter (λ r. not (is_stale start w r)) (table_after config past) in
      let windows : All (λ (b : Arrival). window_start_of b.now w ≤ start) past =
        All-imp (λ (b : Arrival). b.now ≤ now) _ past
          (λ b le. window_start_of_mono b.now now w pos le) late in
      let count : (count_up row_id identity start now kept).0 ≡ seen w identity start past + 1 =
        count_up-0 row_id identity start now kept
        ∙ ap (λ n. n + 1)
            (count_of-fresh start w identity start (table_after config past) (omega arith)
              ∙ counted past identity start windows) in
      rw count (refl, refl)

  -- A refused call is told to wait for at least a second and at most a window, and after that wait
  -- the window of the call is over.
  pub retry-bounds :
      (row_id identity : String) (now : ℕ) (rows : List RateLimitStateRow)
      → 0 < config.window_seconds
      → (check_rate_limit row_id identity config now rows).0.allowed ≡ false
      → let wait = (check_rate_limit row_id identity config now rows).0.retry_after_seconds in
        (1 ≤ wait)
        × (wait ≤ config.window_seconds)
        × (window_start_of now config.window_seconds + config.window_seconds * second
            ≤ now + wait * second)
  unfolding check_rate_limit
  retry-bounds row_id identity now rows pos refused =
      ground (arith, window_start_of-le now config.window_seconds)
