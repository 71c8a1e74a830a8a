-- ===== src/Gateway/Tests.antt =====
-- Tests of the gateway of app/main.py: a chat request, a request with a tool that a rule holds, and a
-- provider that fails.
use real_guard_v.Gateway.Limits
use real_guard_v.Gateway.Limits.{dispatch, call_next}
use real_guard_v.Numerals.{parse_int, scan}
use real_guard_v.Unicode.{text_of_codes}
use real_guard_v.Audit.Apart.{decisions}
use real_guard_v.Gateway.Failures.{upstream_error-unaudited, provider_raises, once_asked}
use real_guard_v.Gateway.Grounds.{Grounds, answer-Grounds}
use real_guard_v.Gateway.Evidence.{IsLogged, answer-IsLogged}
use real_guard_v.Risk.{aggregate_risk}
use real_guard_v.Schemas.{unchanged, no_risk, allow}
use real_guard_v.Store.Tx.{immediate_transaction}
use real_guard_v.Audit.{record_decision_event}
use real_guard_v.Gateway.Verdicts.{forward, conclude, release, audit_decision}
use real_guard_v.Gateway.Guarding.{guard}
use real_guard_v.Approvals.Payloads.{first_choice, sanitized_response}
use real_guard_v.Outputguard.{run_output_guard}
use real_guard_v.Decision.Combine.{combine_decisions}
use real_guard_v.Decision.Evaluate.{evaluate_policy}
use real_guard_v.Ratelimit.{check_rate_limit, rate_limit_config_from_policy}
use real_guard_v.Auth.{resolve_identity, service, constant_time_member}
use real_guard_v.Pipeline.{
  PipelineResult, run_input_pipeline, scan_messages, message_plane, scan_candidates, iterated,
}
use real_guard_v.Prelude.{◌≡◌, ◌++◌, refl, true, false, none, some, [], ◌∷◌}
use real_guard_v.Json.{Json, str, arr, obj, num, pos, cons, nil, field, end, null}
use real_guard_v.Errors.{ok, err, value_error}
use real_guard_v.Text.{lower, codes, strip, lstrip, rstrip, is_space}
use real_guard_v.Decision.Tests.{casing}
use real_guard_v.Transform.Tests.{patterns}
use real_guard_v.Outputguard.Tests.{policy, guards}
use real_guard_v.Pipeline.Tests.{inspection}
use real_guard_v.Auth.Tests.{credentials}
use real_guard_v.Approvals.Decide.Tests.{hashing, draws}
use real_guard_v.Approvals.Lifecycle.{empty_db}
use real_guard_v.Gateway.{Gateway, Request, Answer, completed}
use real_guard_v.Gateway.Effects.{World}
use real_guard_v.Gateway.Admission.{Admitted, admit, presented, admitted, limit}
use real_guard_v.Gateway.Handler.{create_chat_completion, status_of}
use real_guard_v.Gateway.Mediation.{asked_after, handler-asks}

abbrev completion : Json
completion = obj (
    field "id" (str "chatcmpl-1") (
      field "object" (str "chat.completion") (
        field "created" (num (pos 1)) (
          field "model" (str "m") (
            field "choices"
              (arr (cons (obj (field "message" (obj (field "content" (str "hello") end)) end)) nil))
              (field "usage" (obj end) end))))))

abbrev gateway : Gateway
gateway = record {
  casing = casing;
  patterns = patterns;
  hashing = hashing;
  inspection = inspection;
  guards = guards;
  guards_other = λ content. record {
    findings = [];
    tool = record {
      tool_findings = [];
      tool_name = none;
      tool_arguments = obj end;
      failed = false;
    };
    is_degraded = true;
  };
  credentials = credentials;
  policy = some policy;
  complete = λ body. ok completion;
  is_completion = λ response choices. true;
  is_production = true;
  mock_mode = false;
  rate_limit_requests = 10;
  rate_limit_window_seconds = 60;
  approval_ttl_seconds = 60;
  retains_content = false;
  limiter_fails = false;
  audit_fails = false;
}

abbrev chat : Request
chat = record {
  body = some (
      obj (
        field "messages"
          (arr (cons (obj (field "role" (str "user") (field "content" (str "hi") end))) nil)) end));
  authorization = some "Bearer svc";
  correlation_id = "cor_1";
  transaction_id = "txn_1";
  request_id = "req_1";
  limiter_row_id = "row_1";
  now = 5000000;
  approval_draws = draws 0;
  audit_draws = draws 1;
}

abbrev fresh : World
fresh = record { db = empty_db; limits = []; sent = [] }

chat_answered : status_of (create_chat_completion gateway chat fresh).0 ≡ 200
unfolding create_chat_completion admit presented admitted resolve_identity constant_time_member
    limit check_rate_limit rate_limit_config_from_policy run_input_pipeline scan_messages
    message_plane scan_candidates iterated evaluate_policy forward first_choice guard
    combine_decisions conclude run_output_guard release sanitized_response audit_decision
    record_decision_event immediate_transaction lower
chat_answered = refl

handler-asks_example :
    (create_chat_completion gateway chat fresh).1.sent
    ≡ fresh.sent ++ asked_after gateway chat (admit gateway chat fresh).0
handler-asks_example = handler-asks gateway chat fresh

answer-IsLogged_example :
    IsLogged chat.transaction_id fresh.db (create_chat_completion gateway chat fresh)
answer-IsLogged_example = answer-IsLogged gateway chat refl fresh

abbrev completed_chat : Answer
completed_chat = completed (record {
  upstream = completion;
  choices = obj (field "message" (obj (field "content" (str "hello") end)) end) ∷ [];
  transformation = unchanged;
  transaction_id = "txn_1";
  risk_level = no_risk;
  reason_codes = [];
  policy_hits = [];
  policy_version = "v";
  degraded = false;
  mode = "live";
})

answer-Grounds_example : Grounds gateway chat fresh completed_chat
unfolding create_chat_completion admit presented admitted resolve_identity constant_time_member
    limit check_rate_limit rate_limit_config_from_policy run_input_pipeline scan_messages
    message_plane scan_candidates iterated evaluate_policy forward first_choice guard
    combine_decisions conclude run_output_guard release sanitized_response audit_decision
    record_decision_event immediate_transaction lower text_of_codes aggregate_risk
answer-Grounds_example = answer-Grounds gateway chat fresh {answer = completed_chat} refl

abbrev silent : Gateway
silent = record gateway { complete = λ body. err value_error }

abbrev inspected_chat : PipelineResult
inspected_chat = record {
  decision = record {
    verdict = allow;
    transformation = unchanged;
    reason_codes = [];
    policy_hits = [];
    policy_version = "v";
    degraded = false;
  };
  risk = record { category_scores_of = []; risk_level = no_risk };
  findings = [];
  degraded = false;
}

abbrev chat_body : Json
chat_body = obj (
    field "messages"
      (arr (cons (obj (field "role" (str "user") (field "content" (str "hi") end))) nil)) end)

abbrev admitted_chat : Admitted
admitted_chat = record {
  body = chat_body;
  messages = obj (field "role" (str "user") (field "content" (str "hi") end)) ∷ [];
  tools = null;
  identity = record { identity_class = service; identity_id = "svc" };
  policy = policy;
}

upstream_error-unaudited_example :
    (create_chat_completion silent chat fresh ≡ (
      err value_error,
      once_asked silent chat admitted_chat inspected_chat.decision (admit silent chat fresh).1,
    ))
    × ((create_chat_completion silent chat fresh).1.db ≡ fresh.db)
    × (decisions chat.transaction_id (create_chat_completion silent chat fresh).1.db
        ≡ decisions chat.transaction_id fresh.db)
unfolding admit presented admitted resolve_identity constant_time_member limit check_rate_limit
    rate_limit_config_from_policy run_input_pipeline scan_messages message_plane scan_candidates
    iterated evaluate_policy aggregate_risk lower
upstream_error-unaudited_example =
    upstream_error-unaudited silent chat fresh admitted_chat inspected_chat {e = value_error} refl
      refl refl (provider_raises refl)

abbrev unreadable : Limits.Request
unreadable = record { method = "POST"; content_length = some (codes "1e9"); body = 1 ∷ 2 ∷ 3 ∷ [] }

-- A length that is no number is passed on, whatever the body.
unreadable_length : dispatch (λ c. none) 2 unreadable ≡ call_next unreadable
unfolding dispatch parse_int scan strip lstrip rstrip is_space
unreadable_length = refl
