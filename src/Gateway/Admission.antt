-- ===== src/Gateway/Admission.antt =====
-- The part of `create_chat_completion` of app/main.py before detection: the shape of the body, the
-- identity, the rate limit, and the presence of a policy.
use real_guard_v.Prelude.{Bool, true, false, Option, none, some, List, ◌∷◌, if◌then◌else◌}
use real_guard_v.Json.{Json, bool, null, arr, nil, cons, get_or, is_dict, elements}
use real_guard_v.Errors.{
  Result, ok, err, and_then, firewall_error, unsupported_field, invalid_request, rate_limited,
  policy_unavailable, database_error, type_error, value_error,
}
use real_guard_v.Policy.{Policy}
use real_guard_v.Ratelimit.{RateLimitConfig, rate_limit_config_from_policy, check_rate_limit}
use real_guard_v.Auth.{Identity, resolve_identity}
use real_guard_v.Gateway.{Gateway, Request}
use real_guard_v.Gateway.Effects.{Act, pure, raise, lift, ◌>>=◌, ◌>>◌}

-- What the verdict is reached on.
pub record Admitted : Type 0 where
  pub body : Json
  pub messages : List Json
  -- `body.get("tools")`, with null for none
  pub tools : Json
  pub identity : Identity
  pub policy : Policy

-- `request.json()`, and `body.get` of what is no dict
abbrev body_of : Option Json → Result Json
body_of none = err value_error
body_of (some body) = if is_dict body then ok body else err type_error

abbrev is_true : Json → Bool
is_true (bool true) = true
is_true _ = false

-- The messages of a body that does not ask for a stream.
unfoldable pub messages_of : Json → Result (List Json)
messages_of body =
    if is_true (get_or "stream" body null)
    then err (firewall_error unsupported_field none)
    else elim (get_or "messages" body null) [
      | arr xs ↦ elim xs [
        | nil ↦ err (firewall_error invalid_request none)
        | cons m rest ↦ ok (m ∷ elements rest)
      ]
      | _ ↦ err (firewall_error invalid_request none)
    ]

module _ (g : Gateway) (q : Request) where
  unfoldable pub limit_config : RateLimitConfig
  limit_config =
      rate_limit_config_from_policy g.policy g.rate_limit_requests g.rate_limit_window_seconds

  -- A failing limiter lets a request pass, but in production.
  unfoldable pub limit : Identity → Act (Unit {0})
  unfolding limit_config
  limit i w =
      if g.limiter_fails
      then if g.is_production then raise (firewall_error database_error none) w else pure tt w
      else let (result, limits') =
          check_rate_limit q.limiter_row_id i.identity_id limit_config q.now w.limits in
        let w' = record w { limits = limits' } in
        if result.allowed then pure tt w' else raise (firewall_error rate_limited none) w'

  abbrev policy_of : Option Policy → Result Policy
  policy_of none = err (firewall_error policy_unavailable none)
  policy_of (some p) = ok p

  -- The steps before the limiter: the body, its messages, and who asks.
  unfoldable pub presented : Result (Json × List Json × Identity)
  unfolding messages_of
  presented = and_then (body_of q.body) λ body. and_then (messages_of body) λ messages.
      and_then (resolve_identity g.casing g.credentials q.authorization)
        λ identity. ok (body, messages, identity)

  -- The steps after it.
  unfoldable pub admitted : Json × List Json × Identity → Result Admitted
  admitted (body, messages, identity) = and_then (policy_of g.policy) λ policy. ok (record {
    body = body;
    messages = messages;
    tools = get_or "tools" body null;
    identity = identity;
    policy = policy;
  })

  unfoldable pub admit : Act Admitted
  admit = do p ← lift presented; limit p.2; lift (admitted p)
