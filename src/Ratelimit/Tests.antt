-- ===== src/Ratelimit/Tests.antt =====
-- Tests of app/ratelimit.py: two calls in a minute, of which one is allowed.
use real_guard_v.Prelude.{◌+◌, ◌-◌, ◌*◌, ◌≤◌, ◌≡◌, refl, [], ◌∷◌, arith, leb, List}
use real_guard_v.Ratelimit.{
  RateLimitConfig, RateLimitStateRow, check_rate_limit, window_start_of, second, count_up,
}
use real_guard_v.Ratelimit.Replay.{Arrival, table_after, seen, check-seen, retry-bounds}

abbrev config : RateLimitConfig
config = record { requests = 1; window_seconds = 60; scope = "identity" }

abbrev first : Arrival
first = record { row_id = "rlm_1"; identity = "alice"; now = 121000000 }

check-seen_example :
    let n = seen 60 "alice" (window_start_of 130000000 60) (first ∷ []) + 1 in
    let answer =
      (check_rate_limit "rlm_2" "alice" config 130000000 (table_after config (first ∷ []))).0 in
    (answer.allowed ≡ leb n 1) × (answer.remaining ≡ 1 - n)
check-seen_example =
    check-seen config (first ∷ []) "rlm_2" "alice" 130000000 (omega arith) (omega arith, tt)

abbrev used_up : List RateLimitStateRow
used_up =
    record {
      id = "rlm_1";
      identity_id = "alice";
      window_start = 120000000;
      request_count = 1;
      updated_at = 121000000;
    }
    ∷ []

retry-bounds_example :
    let wait = (check_rate_limit "rlm_2" "alice" config 130000000 used_up).0.retry_after_seconds in
    (1 ≤ wait)
    × (wait ≤ 60)
    × (window_start_of 130000000 60 + 60 * second ≤ 130000000 + wait * second)
unfolding check_rate_limit window_start_of count_up
retry-bounds_example = retry-bounds config "rlm_2" "alice" 130000000 used_up (omega arith) refl
