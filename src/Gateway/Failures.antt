-- ===== src/Gateway/Failures.antt =====
-- A provider that fails under `create_chat_completion` of app/main.py.
use real_guard_v.Prelude.{◌≡◌, refl, ◌∙◌, ap, Option, [], ◌∷◌, ◌++◌}
use real_guard_v.Errors.{Error, ok, err}
use real_guard_v.Schemas.{allow}
use real_guard_v.Json.{Json}
use real_guard_v.Approvals.Payloads.{first_choice, content_of}
use real_guard_v.Audit.Apart.{decisions}
use real_guard_v.Decision.Evaluate.{Decision}
use real_guard_v.Gateway.Guarding.{guard}
use real_guard_v.Pipeline.{PipelineResult}
use real_guard_v.Gateway.{Gateway, Request}
use real_guard_v.Gateway.Effects.{World}
use real_guard_v.Gateway.Admission.{Admitted, admit}
use real_guard_v.Gateway.Mediation.{inspected, admit-db}
use real_guard_v.Gateway.Verdicts.{forward, forward_body, act_on}
use real_guard_v.Gateway.Handler.{create_chat_completion}

-- How an allowed request ends in an error before the output guard has decided on a response.
pub data Unguarded (g : Gateway) (q : Request) (a : Admitted) (d : Decision) (e : Error)
    : Type 0 where
  provider_raises : g.complete (forward_body g q a d) ≡ err e → Unguarded g q a d e
  no_choices :
      (response : Json)
      → g.complete (forward_body g q a d) ≡ ok response
      → first_choice response ≡ err e
      → Unguarded g q a d e
  guard_raises :
      (response : Json) (choice : Option Json)
      → g.complete (forward_body g q a d) ≡ ok response
      → first_choice response ≡ ok choice
      → guard g q a d response (content_of choice) ≡ err e
      → Unguarded g q a d e

-- The world once the provider was asked.
abbrev pub once_asked : Gateway → Request → Admitted → Decision → World → World
once_asked g q a d w = record w { sent = w.sent ++ forward_body g q a d ∷ [] }

module _ (g : Gateway) (q : Request) (w : World) (a : Admitted) (r : PipelineResult)
    {e : Error} where
  forward-Unguarded :
      (w' : World)
      → Unguarded g q a r.decision e
      → forward g q a r w' ≡ (err e, once_asked g q a r.decision w')
  unfolding forward
  forward-Unguarded w' (provider_raises raised) = rw raised refl
  forward-Unguarded w' (no_choices response told none_there) = rw (told, none_there) refl
  forward-Unguarded w' (guard_raises response choice told chosen raised) =
      rw (told, chosen, raised) refl

  ended_with :
      (admit g q w).0 ≡ ok a
      → inspected g a ≡ ok r
      → r.decision.verdict ≡ allow
      → Unguarded g q a r.decision e
      → create_chat_completion g q w ≡ (err e, once_asked g q a r.decision (admit g q w).1)
  unfolding create_chat_completion
  ended_with let_in seen allowed ended =
      rw (let_in, seen)
        (ap (λ v. act_on g q a v r (admit g q w).1) allowed
          ∙ forward-Unguarded (admit g q w).1 ended)

  -- When an allowed request ends before the output guard has decided (the provider raises, its choices
  -- are not a list, or the guard raises), the handler raises that error, and after the
  -- admission it has done nothing but ask the provider: no table but the rate limiter's has changed,
  -- so that the decision ALLOW, on which the provider was asked, leaves no event of type "decision".
  pub upstream_error-unaudited :
      (admit g q w).0 ≡ ok a
      → inspected g a ≡ ok r
      → r.decision.verdict ≡ allow
      → Unguarded g q a r.decision e
      → (create_chat_completion g q w ≡ (err e, once_asked g q a r.decision (admit g q w).1))
        × ((create_chat_completion g q w).1.db ≡ w.db)
        × (decisions q.transaction_id (create_chat_completion g q w).1.db
            ≡ decisions q.transaction_id w.db)
  upstream_error-unaudited let_in seen allowed ended =
      let whole = ended_with let_in seen allowed ended in
      let kept = ap (λ x. x.1.db) whole ∙ admit-db g q w in
      (whole, kept, ap (decisions q.transaction_id) kept)
