-- ===== src/Lib.antt =====
-- real-guard-v1, a gateway in front of language models that detects, decides, redacts, and asks a
-- human before a risky request goes on. This library models the core of its Python package `app`.
--
-- The parts and how they interact. A request is counted by the rate limiter (app/ratelimit.py); the
-- detectors (app/detectors) turn it into findings on planes (app/planes.py); app/risk.py reduces
-- findings to a risk level; app/decision.py evaluates the policy on them and reaches a verdict;
-- app/transform.py redacts an allowed text; a verdict NEED_APPROVAL becomes a row of
-- app/approvals.py, on which a reviewer (app/auth.py) decides, and which a worker then resumes
-- through the provider and the output guard (app/outputguard.py). app/pipeline.py puts the first
-- steps together, and the handler of app/main.py all of them; it records each verdict by app/audit.py.
--
-- Modules:
--   Errors, Schemas, Materialargs: app/errors.py, app/schemas.py, app/materialargs.py.
--   Store: the tables of app/db.py as lists of records. Store.Tx is `immediate_transaction` as a
--     state monad with errors: a raised error leaves the tables as they were before it.
--   Approvals: app/approvals.py. Approvals.Create is `create_approval`, Approvals.Decide
--     `decide_approval`, Approvals.Expiry `sweep_expired`, Approvals.Resume `resume_approved`,
--     Approvals.Recovery `reconcile_resuming_on_startup`; Approvals.Payloads reads stored payloads
--     and responses. Approvals.Rows and Approvals.Evolution are about how each operation changes a
--     row, and Approvals.Lifecycle runs the operations in any order: a resume is two steps, the
--     claim and the work after it, between which all other operations may run. Approvals.Deliveries
--     is about that work.
--   Normalizer: app/normalizer.py. Normalizer.Candidates are its regular expressions,
--     Normalizer.Decoders its decoders, Normalizer.Variants `normalize`.
--   Detectors, Policy: the findings of app/detectors/base.py and the rules of app/policy.py.
--   Decision: app/decision.py. Decision.Commands are the tests on SQL and shell text,
--     Decision.Conditions `_eval_condition`, Decision.Evaluate `evaluate_policy`, Decision.Combine
--     `combine_decisions`; Decision.Hits, Precedence, Bands and Evasion are about them.
--   Toolcalls: app/detectors/tool_calls.py. Toolcalls.Scans is `scan_tool_call`, Toolcalls.Rules are the rules that it reads,
--     Toolcalls.Texts, Evaluated, Found and Agreement compare it with app/decision.py.
--   Pii: app/detectors/pii.py; Pii.Luhn and Typos are about the check of card numbers.
--   Ratelimit: app/ratelimit.py, and Ratelimit.Replay sequences of its calls.
--   Risk: app/risk.py. Transform: the redaction of app/transform.py.
--   Orchestrator, Pipeline, Outputguard: app/orchestrator.py, app/pipeline.py, app/outputguard.py.
--     Orchestrator.Marks is about detectors that fail, Pipeline.Reading and Outcome about the pipeline's verdict.
--   Auth: app/auth.py; Auth.Keys and Shown are about the keys and what a reviewer has shown. Session: app/session.py; Base64, Numerals and Unicode.Utf8 are the parts of
--     Python that it uses. Audit: app/audit.py.
--   Gateway: the chat completion handler of app/main.py. Gateway.Effects are its state and its calls,
--     Gateway.Admission the steps before detection, Gateway.Guarding the guard on a response,
--     Gateway.Verdicts the branches of the verdict,
--     Gateway.Handler all of it. Gateway.Mediation, Grounds, Evidence and Failures are about what it
--     asks of the provider, what its answers rest on, the events that it leaves, and a provider that
--     fails; Gateway.Outcome is about the combined verdict.
--     Gateway.Limits is its `RequestSizeLimitMiddleware`.
--   Config: app/config.py. Config.Checks is `load_settings`, Config.Keys and Rules are about its checks, Config.Valid says what they
--     are to ensure, Config.Start and Anonymous are about the settings that it accepts.
--   Text, Unicode, Json, Prelude: Python's text, JSON values, and what all modules share.
--
-- Conventions. An operation takes what the clock and `new_id` return as inputs (`Draws`). SHA-256,
-- the provider, what the detectors find, the guard that a resume calls, the verification of
-- cookies in Auth, HMAC-SHA256, json.loads, the regular expressions of the redaction and of Pii, NFKC,
-- and the printable characters, the decimal digits and the case tables of Unicode outside ASCII are
-- parameters. Times are microseconds; scores are ten-thousandths; numbers in JSON are integers.
-- Loops are structural recursion; the only
-- bound on rounds is that on the digits that `str` prints of a number, which is the number itself.
--
-- Not modelled: metrics and logs, which do not bear on decisions; the other HTTP handlers of
-- app/main.py, app/console_api.py and app/dashboard.py; the
-- other detectors, which are tables of regular expressions; loading and validation of the policy; how
-- pydantic reads the environment; the providers.
pub mod Prelude
pub mod Text
pub mod Unicode
pub mod Base64
pub mod Numerals
pub mod Json
pub mod Errors
pub mod Schemas
pub mod Materialargs
pub mod Store
pub mod Approvals
pub mod Audit
pub mod Detectors
pub mod Policy
pub mod Config
pub mod Decision
pub mod Ratelimit
pub mod Risk
pub mod Transform
pub mod Orchestrator
pub mod Pipeline
pub mod Outputguard
pub mod Auth
pub mod Session
pub mod Normalizer
pub mod Pii
pub mod Toolcalls
pub mod Gateway
