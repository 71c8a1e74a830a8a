-- ===== src/Ratelimit.antt =====
-- app/ratelimit.py: the fixed-window counter of requests of an identity, and the table
-- `rate_limit_state` of app/db.py. Times are microseconds since 1970. The table is unique in
-- `(identity_id, window_start)`.
pub mod Replay
pub mod Tests
use real_guard_v.Prelude.{
  ℕ, ◌+◌, ◌-◌, ◌*◌, ◌/◌, ◌≤◌, ◌<◌, zero, ◌≡◌, refl, arith, String, Bool, true, false, not, ◌&&◌,
  ◌||◌, Option, none, some, List, [], ◌∷◌, filter, str_eq, leb, ltb, ◌==◌, if◌then◌else◌,
}
use real_guard_v.Policy.{Rule, Policy, RateLimit}

pub record RateLimitConfig : Type 0 where
  pub requests : ℕ
  pub window_seconds : ℕ
  pub scope : String

pub record RateLimitResult : Type 0 where
  pub allowed : Bool
  pub remaining : ℕ
  pub retry_after_seconds : ℕ
  pub limit : ℕ
  pub window_seconds : ℕ

pub record RateLimitStateRow : Type 0 where
  pub id : String
  pub identity_id : String
  pub window_start : ℕ
  pub request_count : ℕ
  pub updated_at : ℕ

abbrev config_from_rules : List Rule → RateLimitConfig → RateLimitConfig
config_from_rules [] default = default
config_from_rules (r ∷ rules) default =
    let rest = config_from_rules rules default in
    elim (r.rate_limit) [
      | none ↦ rest
      | some rl ↦ record {
        requests = rl.requests;
        window_seconds = rl.window_seconds;
        scope = rl.scope;
      }
    ]

unfoldable pub rate_limit_config_from_policy : Option Policy → ℕ → ℕ → RateLimitConfig
rate_limit_config_from_policy policy default_requests default_window_seconds =
    let default : RateLimitConfig = record {
      requests = default_requests;
      window_seconds = default_window_seconds;
      scope = "identity";
    } in
    elim policy [ none ↦ default | some p ↦ config_from_rules p.rules default ]

abbrev pub second : ℕ
second = 1000000

-- `_window_start`
unfoldable pub window_start_of : ℕ → ℕ → ℕ
window_start_of now window_seconds = now / second / window_seconds * window_seconds * second

abbrev pub is_row_of : String → ℕ → RateLimitStateRow → Bool
is_row_of identity start r = str_eq r.identity_id identity && r.window_start == start

-- The row that the select finds is counted up, or a new row is added.
unfoldable pub count_up :
    String → String → ℕ → ℕ → List RateLimitStateRow → ℕ × List RateLimitStateRow
count_up row_id identity start now [] = (
  1,
  (record {
    id = row_id;
    identity_id = identity;
    window_start = start;
    request_count = 1;
    updated_at = now;
  })
      ∷ [],
)
count_up row_id identity start now (r ∷ rows) =
    let (count, rest) = count_up row_id identity start now rows in
    if is_row_of identity start r
    then (
      r.request_count + 1,
      (record r { request_count = r.request_count + 1; updated_at = now }) ∷ rows,
    )
    else (count, r ∷ rest)

-- The retention: rows of windows that ended more than a window ago are deleted.
abbrev pub is_stale : ℕ → ℕ → RateLimitStateRow → Bool
is_stale start window_seconds r = ltb r.window_start (start - 2 * window_seconds * second)

abbrev pub ceil_seconds : ℕ → ℕ
ceil_seconds t = (t + 999999) / second

abbrev pub at_least_one : ℕ → ℕ
at_least_one n = if ltb n 1 then 1 else n

unfoldable pub check_rate_limit :
    String
    → String
    → RateLimitConfig
    → ℕ
    → List RateLimitStateRow
    → RateLimitResult × List RateLimitStateRow
unfolding window_start_of count_up
check_rate_limit row_id identity config now rows =
    let start = window_start_of now config.window_seconds in
    let kept = filter (λ r. not (is_stale start config.window_seconds r)) rows in
    let (count, rows') = count_up row_id identity start now kept in
    let allowed = leb count config.requests in
    (
      record {
        allowed = allowed;
        remaining = config.requests - count;
        retry_after_seconds =
            if allowed
            then 0
            else at_least_one (ceil_seconds (start + config.window_seconds * second - now));
        limit = config.requests;
        window_seconds = config.window_seconds;
      },
      rows',
    )
