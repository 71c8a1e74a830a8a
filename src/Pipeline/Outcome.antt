-- ===== src/Pipeline/Outcome.antt =====
-- The verdict of the pipeline of app/pipeline.py, told from the rules that fire.
use real_guard_v.Prelude.{
  ℕ, ◌≡◌, refl, ◌∙◌, arith, String, Bool, false, ◌||◌, Option, none, some, List, [], ◌∷◌, map, any,
  any-map, All, sym, ap, ◌↔◌,
}
use real_guard_v.Json.{Json}
use real_guard_v.Errors.{Result, ok, err, and_then-eq-ok}
use real_guard_v.Text.{Casing}
use real_guard_v.Schemas.{Verdict, is_deny}
use real_guard_v.Policy.{Policy}
use real_guard_v.Decision.Evaluate.{Decision, evaluate_policy}
use real_guard_v.Decision.Combine.{combine-strongest, any_verdict}
use real_guard_v.Decision.Precedence.{strongest, is_need, fires_with, verdict-strongest}
use real_guard_v.Pipeline.{
  Inspection, PipelineResult, Seen, facts_of, subjects, decide_candidates,
  tool_candidates_from_declared_tools, run_input_pipeline, iterated, scan_messages, scan_candidates,
  result_of,
}
use real_guard_v.Pipeline.Reading.{
  HasRole, Iterable, scan_messages-HasRole, HasRole-scanned, iterated-Iterable, Iterable-iterated,
}

lone : (a b : Bool) → strongest a b ≡ strongest (a || false) (b || false)
lone a b = ground arith

-- The strongest of several verdicts, each the strongest of a pair of signs.
module _ {K : Type 0} (v : K → Verdict) (is_d is_n : K → Bool) where
  any-deny :
      ((k : K) → v k ≡ strongest (is_d k) (is_n k))
      → (ks : List K) → any (λ k. is_deny (v k)) ks ≡ any is_d ks
  any-deny h [] = refl
  any-deny h (k ∷ ks) = ground (arith, h k, any-deny h ks)

  any-need :
      ((k : K) → v k ≡ strongest (is_d k) (is_n k))
      → (ks : List K) → any is_d ks ≡ false
      → any (λ k. is_need (v k)) ks ≡ any is_n ks
  any-need h [] e = refl
  any-need h (k ∷ ks) e = ground (arith, h k, any-need h ks)

  strongest-any :
      ((k : K) → v k ≡ strongest (is_d k) (is_n k))
      → (ks : List K)
      → strongest (any (λ k. is_deny (v k)) ks) (any (λ k. is_need (v k)) ks)
        ≡ strongest (any is_d ks) (any is_n ks)
  strongest-any h ks = ground (arith, any-deny h ks, any-need h ks)

-- What holds of a result, if there is one.
abbrev pub Told : (PipelineResult → Type 0) → Result PipelineResult → Type 0
Told P (ok r) = P r
Told P (err e) = Unit

told :
    (P : PipelineResult → Type 0) (o : Result PipelineResult)
    → ((r : PipelineResult) → o ≡ ok r → P r)
    → Told P o
told P (ok r) h = h r refl
told P (err e) h = tt

the_result : {r r' : PipelineResult} → ok r ≡ ok r' → r ≡ r'
the_result h = ground arith

module _ (u : Casing) (policy : Policy) where
  abbrev pub fires_on : (Verdict → Bool) → ℕ → Seen → List (Option (String × Json)) → Bool
  fires_on p n s ks = any (λ k. fires_with u policy (facts_of n s k) p policy.rules) ks

  evaluated : ℕ → Seen → String × Json → Decision
  evaluated n s k = evaluate_policy u policy (facts_of n s (some k)) s.is_degraded

  gathered :
      (n : ℕ) (s : Seen) (ks : List (String × Json))
      → strongest
          (any_verdict is_deny (map (evaluated n s) ks))
          (any_verdict is_need (map (evaluated n s) ks))
        ≡ strongest (fires_on is_deny n s (map some ks)) (fires_on is_need n s (map some ks))
  unfolding evaluated
  gathered n s ks =
      rw
        (
          any-map (λ (d : Decision). is_deny d.verdict) (evaluated n s) ks,
          any-map (λ (d : Decision). is_need d.verdict) (evaluated n s) ks,
          any-map (λ k. fires_with u policy (facts_of n s k) is_deny policy.rules) some ks,
          any-map (λ k. fires_with u policy (facts_of n s k) is_need policy.rules) some ks,
        )
        (strongest-any (λ k. (evaluated n s k).verdict)
          (λ k. fires_with u policy (facts_of n s (some k)) is_deny policy.rules)
          (λ k. fires_with u policy (facts_of n s (some k)) is_need policy.rules)
          (λ k. verdict-strongest u policy (facts_of n s (some k)) s.is_degraded) ks)

  decide_candidates-strongest :
      (n : ℕ) (s : Seen) (candidates : List (String × Json))
      → (d : Decision) × (decide_candidates u policy n s candidates ≡ ok d)
        × (d.verdict
            ≡ strongest
                (fires_on is_deny n s (subjects candidates))
                (fires_on is_need n s (subjects candidates)))
  unfolding decide_candidates evaluated
  decide_candidates-strongest n s [] = (
    evaluate_policy u policy (facts_of n s none) s.is_degraded,
    refl,
    verdict-strongest u policy (facts_of n s none) s.is_degraded
        ∙ lone (fires_with u policy (facts_of n s none) is_deny policy.rules)
            (fires_with u policy (facts_of n s none) is_need policy.rules),
  )
  decide_candidates-strongest n s (c ∷ candidates) =
      let (d, same, verdict, failed) =
        combine-strongest (evaluated n s c) (map (evaluated n s) candidates) in
      (d, same, verdict ∙ gathered n s (c ∷ candidates))

  decided :
      (i : Inspection) (messages : List Json) (tools : Json) {entries : List Json} {n : ℕ}
      {read : Seen}
      → scan_messages i messages ≡ ok read
      → iterated tools ≡ ok entries
      → i.byte_count messages ≡ ok n
      → let candidates = tool_candidates_from_declared_tools entries in
        (r : PipelineResult) × (run_input_pipeline u policy i messages tools ≡ ok r)
        × (r.decision.verdict
            ≡ strongest
                (fires_on is_deny n (scan_candidates i candidates read) (subjects candidates))
                (fires_on is_need n (scan_candidates i candidates read) (subjects candidates)))
  unfolding run_input_pipeline
  decided i messages tools {entries} {n} {read} scanned listed measured =
      let candidates = tool_candidates_from_declared_tools entries in
      let s = scan_candidates i candidates read in
      let (d, same, verdict) = decide_candidates-strongest n s candidates in
      (
        result_of u policy s d,
        rw (run_input_pipeline, scanned, listed, measured, same) refl,
        verdict,
      )

  -- What the verdict of a result is.
  abbrev pub HasVerdict : Inspection → List Json → Json → PipelineResult → Type 0
  HasVerdict i messages tools r =
      (entries : List Json) × (n : ℕ) × (read : Seen) × (scan_messages i messages ≡ ok read)
      × (iterated tools ≡ ok entries)
      × (i.byte_count messages ≡ ok n)
      × (r.decision.verdict
          ≡ strongest
              (fires_on is_deny n
                (scan_candidates i (tool_candidates_from_declared_tools entries) read)
                (subjects (tool_candidates_from_declared_tools entries)))
              (fires_on is_need n
                (scan_candidates i (tool_candidates_from_declared_tools entries) read)
                (subjects (tool_candidates_from_declared_tools entries))))

  -- The messages and the tools that the pipeline returns on.
  abbrev pub Readable : Inspection → List Json → Json → Type 0
  Readable i messages tools =
      All HasRole messages × Iterable tools × ((n : ℕ) × (i.byte_count messages ≡ ok n))

  returns :
      (i : Inspection) (messages : List Json) (tools : Json)
      → Readable i messages tools
      → (r : PipelineResult) × (run_input_pipeline u policy i messages tools ≡ ok r)
  returns i messages tools (roles, iterable, size) =
      let (n, measured) = size in
      let (read, scanned) = scan_messages-HasRole i messages roles in
      let (entries, listed) = iterated-Iterable tools iterable in
      let (r, ran, _) = decided i messages tools scanned listed measured in (r, ran)

  inverted :
      (i : Inspection) (messages : List Json) (tools : Json) {r : PipelineResult}
      → run_input_pipeline u policy i messages tools ≡ ok r
      → (entries : List Json) × (n : ℕ) × (read : Seen) × (scan_messages i messages ≡ ok read)
        × (iterated tools ≡ ok entries)
        × (i.byte_count messages ≡ ok n)
  unfolding run_input_pipeline
  inverted i messages tools h =
      let (read, scanned, h1) = and_then-eq-ok (scan_messages i messages) _ h in
      let (entries, listed, h2) = and_then-eq-ok (iterated tools) _ h1 in
      let (n, measured, h3) = and_then-eq-ok (i.byte_count messages) _ h2 in
      (entries, n, read, scanned, listed, measured)

  readable :
      (i : Inspection) (messages : List Json) (tools : Json) {r : PipelineResult}
      → run_input_pipeline u policy i messages tools ≡ ok r
      → Readable i messages tools
  readable i messages tools h =
      let (entries, n, read, scanned, listed, measured) = inverted i messages tools h in
      (HasRole-scanned i messages scanned, Iterable-iterated tools listed, (n, measured))

  told_same :
      {r r' : PipelineResult} {v : Verdict}
      → r'.decision.verdict ≡ v
      → r' ≡ r
      → r.decision.verdict ≡ v
  told_same h same = ap (λ (x : PipelineResult). x.decision.verdict) (sym same) ∙ h

  result-HasVerdict :
      (i : Inspection) (messages : List Json) (tools : Json) {r : PipelineResult}
      → run_input_pipeline u policy i messages tools ≡ ok r
      → HasVerdict i messages tools r
  result-HasVerdict i messages tools {r} h =
      let (entries, n, read, scanned, listed, measured) = inverted i messages tools h in
      let (r', ran, verdict) = decided i messages tools scanned listed measured in
      let same : ok r' ≡ ok r = sym ran ∙ h in
      (entries, n, read, scanned, listed, measured, told_same verdict (the_result same))

  -- The input pipeline returns exactly on messages that are dicts with a role that is neither a list
  -- nor a dict and that have a size, with tools that are a list, a dict, a text, or falsy; elsewhere it
  -- raises. The verdict of what it returns is DENY if, for the request without a declared function or
  -- for one of the functions that it declares, a rule that fires has the verdict DENY; else
  -- NEED_APPROVAL if such a rule has that verdict; else ALLOW.
  pub pipeline-strongest :
      (i : Inspection) (messages : List Json) (tools : Json)
      → (((r : PipelineResult) × (run_input_pipeline u policy i messages tools ≡ ok r))
          ↔ Readable i messages tools)
        × Told (HasVerdict i messages tools) (run_input_pipeline u policy i messages tools)
  pipeline-strongest i messages tools = (
    (λ (r, ran). readable i messages tools ran, returns i messages tools),
    told (HasVerdict i messages tools) (run_input_pipeline u policy i messages tools)
        (λ r. result-HasVerdict i messages tools {r = r}),
  )
