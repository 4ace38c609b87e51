-- ===== src/Incident/Lifecycle/Stages.antt =====
-- The phases that each stage of the pipeline starts from and ends in.
use junando.Common.{ℕ, String, Bool, true, false, List, [], ◌∷◌, ◌≡◌, eq_refl, Bool-cases, inl, inr}
use junando.Common.Results.{Result, ok, err}
use junando.Domain.Cluster.{AlertCluster}
use junando.Logger.Json.{Fields}
use junando.Logger.Builder.{WideEventBuilder, Outcome}
use junando.Logger.Sampling.{should_sample}
use junando.Incident.Calls.{Thrown, Call, History, Ports}
use junando.Incident.Exec.{
  ask, tell, Triple, Triple-pure, Triple-tell, Triple-ask, Triple-if, Triple-try, Triple-bind,
}
use junando.Incident.Process.{
  Settings, read_now, emit, emit_sampled, write_event, release_dedup_claim, warn_failure,
}
use junando.Incident.Pipeline.{gather_traces, triage, diagnose}
use junando.Incident.Lifecycle.{
  Phase, is_gathering, is_judged, is_ready, is_sending, is_aborted, next, phase_of, is_released,
  step_query, step_classify, step_analyze, step_reset, step_warning, gathering-judged, judged-ready,
}

-- The history is in a phase that passes a test.
abbrev pub In : (Phase → Bool) → History → Type 0
In test h = test (phase_of h) ≡ true

module _ (settings : Settings) (ports : Ports) where
  module _ (test : Phase → Bool) (bad : Thrown → History → Type 0) where
    pub read_now-keeps : Triple (In test) (read_now settings ports) (λ _. In test) bad
    unfolding read_now phase_of next
    read_now-keeps = Triple-tell (In test) Call.read_clock (ports.now) _ bad (λ h s _. s)

  emit_sampled_lem :
      (start good : Phase → Bool) (bad : Thrown → History → Type 0) (event : Fields)
      → ((p : Phase) → start p ≡ true → good p ≡ true)
      → ((event : Fields) (p : Phase) → start p ≡ true → good (next p (Call.log_info event)) ≡ true)
      → Triple (In start) (emit_sampled settings ports event) (λ _. In good) bad
  unfolding emit_sampled write_event phase_of Triple tell
  emit_sampled_lem start good bad event keeps steps h s =
      elim (Bool-cases (should_sample (ports.is_drawn h) event)) [
        | inl drawn ↦ rw drawn (steps _ _ s)
        | inr dropped ↦ rw dropped (keeps _ s)
      ]

  pub emit_lem :
      (start good : Phase → Bool) (bad : Thrown → History → Type 0) (builder : WideEventBuilder)
      (outcome : Outcome) (start_ms : ℕ)
      → ((p : Phase) → start p ≡ true → good p ≡ true)
      → ((event : Fields) (p : Phase) → start p ≡ true → good (next p (Call.log_info event)) ≡ true)
      → Triple (In start) (emit settings ports builder outcome start_ms) (λ _. In good) bad
  unfolding emit Triple
  emit_lem start good bad builder outcome start_ms keeps steps =
      Triple-if (In start) settings.wide_events_enabled _ _ _ bad
        (λ _.
          Triple-bind (In start) (read_now settings ports) (λ _. In start) _ _ bad
            (read_now-keeps start bad)
            (λ now h s. emit_sampled_lem start good bad _ keeps steps h s))
        (λ _. Triple-pure (In start) tt (λ _. In good) bad (λ h s. keeps _ s))

  warn_failure-phases :
      (fp : String) (r : Result {0, 0} Thrown Unit) (bad : Thrown → History → Type 0)
      → Triple (In is_released) (warn_failure settings ports fp r) (λ _. In is_released) bad
  unfolding warn_failure phase_of
  warn_failure-phases fp (ok _) bad =
      Triple-pure (In is_released) tt (λ _. In is_released) bad (λ h s. s)
  warn_failure-phases fp (err _) bad =
      Triple-tell (In is_released) (Call.log_warn fp) (λ _. tt) (λ _. In is_released) bad
        (λ h s _. step_warning fp _ s)

  pub release_dedup_claim-phases :
      (fp : String) (bad : Thrown → History → Type 0)
      → Triple
          (In (is_sending fp))
          (release_dedup_claim settings ports fp)
          (λ _. In is_released)
          bad
  unfolding release_dedup_claim phase_of
  release_dedup_claim-phases fp bad =
      let reset_it : Triple (In (is_sending fp)) (ask (Call.reset fp) (λ h. ports.reset h fp))
          (λ _. In is_released) (λ _. In is_released) =
        Triple-ask (In (is_sending fp)) (Call.reset fp) (λ h. ports.reset h fp) _ _
          (λ h s _. rw (step_reset fp _ s)) (λ h s _. rw (step_reset fp _ s)) in
      Triple-bind (In (is_sending fp)) _ (λ _. In is_released) _ _ bad
        (Triple-try (In (is_sending fp)) _ (In is_released) bad reset_it)
        (λ r. warn_failure-phases fp r bad)

  pub gather_traces-phases :
      (fp : String) (ids : List String) (bad : Thrown → History → Type 0)
      → Triple
          (In (is_gathering fp))
          (gather_traces settings ports ids)
          (λ _. In (is_gathering fp))
          bad
  unfolding gather_traces phase_of
  gather_traces-phases fp [] bad =
      Triple-pure (In (is_gathering fp)) _ (λ _. In (is_gathering fp)) bad (λ h s. s)
  gather_traces-phases fp (id ∷ rest) bad =
      let start = In (is_gathering fp) in
      let query : Triple start (ask (Call.find_by_trace_id id) (λ h. ports.find_by_trace_id h id))
          (λ _. start) (λ _. start) =
        Triple-ask start (Call.find_by_trace_id id) (λ h. ports.find_by_trace_id h id) _ _
          (λ h s _. step_query fp id _ s) (λ h s _. step_query fp id _ s) in
      Triple-bind start _ (λ _. start) _ (λ _. start) bad (Triple-try start _ start bad query)
        (λ r.
          Triple-bind start _ (λ _. start) _ (λ _. start) bad (gather_traces-phases fp rest bad)
            (λ others. Triple-pure start _ (λ _. start) bad (λ h s. s)))

  pub triage-phases :
      (c : AlertCluster) (b : WideEventBuilder)
      → Triple
          (In (is_gathering c.fingerprint))
          (triage settings ports c b)
          (λ _. In (is_judged c.fingerprint))
          (λ _. In (is_aborted c.fingerprint))
  unfolding triage phase_of
  triage-phases c b =
      let start = In (is_gathering c.fingerprint) in
      let judged = In (is_judged c.fingerprint) in
      let bad : Thrown → History → Type 0 = λ _. In (is_aborted c.fingerprint) in
      Triple-if start settings.has_triage _ _ (λ _. judged) bad
        (λ _.
          Triple-bind start _ (λ _. judged) _ (λ _. judged) bad
            (Triple-ask start (Call.classify c) (λ h. ports.classify h c) (λ _. judged) bad
              (λ h s _. rw (step_classify c _ s) (eq_refl c.fingerprint))
              (λ h s _. rw (step_classify c _ s) (eq_refl c.fingerprint)))
            (λ severity. Triple-pure judged _ (λ _. judged) bad (λ h s. s)))
        (λ _. Triple-pure start _ (λ _. judged) bad (λ h s. gathering-judged c.fingerprint _ s))

  pub diagnose-phases :
      (skip : Bool) (c : AlertCluster) (spans : List Fields) (b : WideEventBuilder)
      (bad : Thrown → History → Type 0)
      → Triple
          (In (is_judged c.fingerprint))
          (diagnose settings ports skip c spans b)
          (λ _. In (is_ready c.fingerprint))
          bad
  unfolding diagnose phase_of
  diagnose-phases true c spans b bad =
      Triple-pure (In (is_judged c.fingerprint)) _ (λ _. In (is_ready c.fingerprint)) bad
        (λ h s. judged-ready c.fingerprint _ s)
  diagnose-phases false c spans b bad =
      let start = In (is_judged c.fingerprint) in
      let ready = In (is_ready c.fingerprint) in
      let call : Triple start (ask (Call.analyze c spans) (λ h. ports.analyze h c spans))
          (λ _. In (is_ready c.fingerprint)) (λ _. In (is_ready c.fingerprint)) =
        Triple-ask start (Call.analyze c spans) (λ h. ports.analyze h c spans) _ _
          (λ h s _. rw (step_analyze c spans _ s) (eq_refl c.fingerprint))
          (λ h s _. rw (step_analyze c spans _ s) (eq_refl c.fingerprint)) in
      Triple-bind start _ (λ _. ready) _ (λ _. ready) bad (Triple-try start _ ready bad call)
        (λ r. Triple-pure ready _ (λ _. ready) bad (λ h s. s))
