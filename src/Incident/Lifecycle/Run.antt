-- ===== src/Incident/Lifecycle/Run.antt =====
-- The phases of the whole run: a cluster from its check to its end, and the loop over the clusters.
use junando.Common.{ℕ, String, true, not, Option, none, some, List, [], ◌∷◌, ◌≡◌, refl, inl, inr}
use junando.Common.Text.{is_empty}
use junando.Domain.Cluster.{AlertCluster, LlmAnalysis}
use junando.Rules.Actions.{RuleActionResult}
use junando.Rules.Engine.{RuleEngine}
use junando.Logger.Builder.{WideEventBuilder}
use junando.Incident.Calls.{Thrown, Call, History, Ports}
use junando.Incident.Exec.{
  Ends, Triple, Triple-pure, Triple-tell, Triple-ask, Triple-weaken, Triple-from, Triple-if,
  Triple-bind,
}
use junando.Incident.Process.{Settings, apply_tags}
use junando.Incident.Pipeline.{
  investigate, silence, apply_engine, apply_result, process_cluster, process_clusters, post_rules,
  count_rule,
}
use junando.Incident.Lifecycle.{
  rests, is_gathering, is_judged, is_ready, is_aborted, phase_of, can_log, is_claimed, is_checked,
  step_check, step_count, step_duplicate, step_suppressed, step_event, can_log-rests,
  claimed-gathering, claimed-can_log, checked-aborted,
}
use junando.Common.Lists.{Any}
use junando.Incident.Lifecycle.Stages.{
  In, read_now-keeps, emit_lem, gather_traces-phases, triage-phases, diagnose-phases,
}
use junando.Incident.Lifecycle.Notifying.{notify-phases_at}

apply_tags-fingerprint :
    (tags : List (String × String)) (c : AlertCluster)
    → (apply_tags tags c).fingerprint ≡ c.fingerprint
unfolding apply_tags
apply_tags-fingerprint [] c = refl
apply_tags-fingerprint (t ∷ ts) c = refl

post_rules-fingerprint :
    (engine : Option RuleEngine) (c : AlertCluster) (analysis : Option LlmAnalysis)
    → (post_rules engine c analysis).1.fingerprint ≡ c.fingerprint
unfolding post_rules
post_rules-fingerprint none c analysis = refl
post_rules-fingerprint (some engine) c none = refl
post_rules-fingerprint (some engine) c (some analysis) = apply_tags-fingerprint _ c

module _ (settings : Settings) (ports : Ports) where
  investigate-phases :
      (c : AlertCluster) (routes escalations : List String) (start_ms : ℕ) (b : WideEventBuilder)
      → Triple
          (In (is_gathering c.fingerprint))
          (investigate settings ports c routes escalations start_ms b)
          (λ _. In rests)
          (λ _. In (is_aborted c.fingerprint))
  unfolding investigate
  investigate-phases c routes escalations start_ms b =
      let gathering = In (is_gathering c.fingerprint) in
      let judged = In (is_judged c.fingerprint) in
      let ready = In (is_ready c.fingerprint) in
      let aborted = In (is_aborted c.fingerprint) in
      Triple-bind gathering _ (λ _. gathering) _ (λ _. In rests) (λ _. aborted)
        (gather_traces-phases settings ports c.fingerprint c.representative_trace_ids
          (λ _. aborted))
        (λ found.
          Triple-bind gathering _ (λ _. judged) _ (λ _. In rests) (λ _. aborted)
            (triage-phases settings ports c _)
            (λ judgement.
              Triple-bind judged _ (λ _. ready) _ (λ _. In rests) (λ _. aborted)
                (diagnose-phases settings ports judgement.0 c found.0 judgement.1 (λ _. aborted))
                (λ (d, b').
                  notify-phases_at settings ports c.fingerprint _ d.analysis routes _ start_ms b' d
                    (post_rules-fingerprint settings.rule_engine c d.analysis))))

  count-phases :
      (fp : String) (matched : Option String) (bad : Thrown → History → Type 0)
      → Triple (In (is_claimed fp)) (count_rule settings ports matched) (λ _. In can_log) bad
  unfolding count_rule phase_of
  count-phases fp none bad =
      Triple-pure (In (is_claimed fp)) tt (λ _. In can_log) bad (λ h s. claimed-can_log fp _ s)
  count-phases fp (some id) bad =
      Triple-if (In (is_claimed fp)) (is_empty id) _ _ (λ _. In can_log) bad
        (λ _.
          Triple-pure (In (is_claimed fp)) tt (λ _. In can_log) bad (λ h s. claimed-can_log fp _ s))
        (λ _.
          Triple-tell (In (is_claimed fp)) (Call.count_suppressed id) (λ _. tt) (λ _. In can_log)
            bad (λ h s _. step_suppressed fp id _ s))

  investigate-claimed :
      (c : AlertCluster) (routes escalations : List String) (start_ms : ℕ) (b : WideEventBuilder)
      → Triple
          (In (is_claimed c.fingerprint))
          (investigate settings ports c routes escalations start_ms b)
          (λ _. In rests)
          (λ _. In (is_aborted c.fingerprint))
  investigate-claimed c routes escalations start_ms b =
      Triple-from (In (is_claimed c.fingerprint)) (In (is_gathering c.fingerprint)) _
        (λ _. In rests) (λ _. In (is_aborted c.fingerprint))
        (λ h s. claimed-gathering c.fingerprint _ s)
        (investigate-phases c routes escalations start_ms b)

  silence-phases :
      (fp : String) (pre : RuleActionResult) (start_ms : ℕ) (b : WideEventBuilder)
      (bad : Thrown → History → Type 0)
      → Triple (In (is_claimed fp)) (silence settings ports pre start_ms b) (λ _. In rests) bad
  unfolding silence
  silence-phases fp pre start_ms b bad =
      Triple-bind (In (is_claimed fp)) _ (λ _. In can_log) _ (λ _. In rests) bad
        (count-phases fp pre.matched_rule_id bad)
        (λ _.
          emit_lem settings ports can_log rests bad _ _ start_ms can_log-rests
            (λ event p s. step_event event p s))

  apply_result-phases :
      (pre : RuleActionResult) (c : AlertCluster) (start_ms : ℕ) (b : WideEventBuilder)
      → Triple
          (In (is_claimed c.fingerprint))
          (apply_result settings ports pre c start_ms b)
          (λ _. In rests)
          (λ _. In (is_aborted c.fingerprint))
  unfolding apply_result
  apply_result-phases pre c start_ms b =
      Triple-if (In (is_claimed c.fingerprint)) pre.suppressed _ _ (λ _. In rests)
        (λ _. In (is_aborted c.fingerprint))
        (λ _. silence-phases c.fingerprint pre start_ms b (λ _. In (is_aborted c.fingerprint)))
        (λ _. investigate-claimed c _ _ start_ms b)

  apply_engine-phases :
      (engine : Option RuleEngine) (c : AlertCluster) (start_ms : ℕ) (b : WideEventBuilder)
      → Triple
          (In (is_claimed c.fingerprint))
          (apply_engine settings ports engine c start_ms b)
          (λ _. In rests)
          (λ _. In (is_aborted c.fingerprint))
  unfolding apply_engine
  apply_engine-phases none c start_ms b = investigate-claimed c [] [] start_ms b
  apply_engine-phases (some engine) c start_ms b = apply_result-phases _ c start_ms _

  pub process_cluster-phases :
      (correlation_id : String) (c : AlertCluster)
      → Triple
          (In rests)
          (process_cluster settings ports correlation_id c)
          (λ _. In rests)
          (λ _. In (is_aborted c.fingerprint))
  unfolding process_cluster phase_of
  process_cluster-phases correlation_id c =
      let checked = In (is_checked c.fingerprint) in
      let claimed = In (is_claimed c.fingerprint) in
      let aborted = In (is_aborted c.fingerprint) in
      Triple-bind (In rests) _ (λ _. In rests) _ (λ _. In rests) (λ _. aborted)
        (read_now-keeps settings ports rests (λ _. aborted))
        (λ start_ms.
          Triple-bind (In rests) _ (λ _. checked) _ (λ _. In rests) (λ _. aborted)
            (Triple-ask (In rests) (Call.is_new c.fingerprint settings.dedup_ttl_seconds) _
              (λ _. checked) (λ _. aborted)
              (λ h s _. step_check c.fingerprint settings.dedup_ttl_seconds _ s)
              (λ h s _.
                checked-aborted c.fingerprint _
                  (step_check c.fingerprint settings.dedup_ttl_seconds _ s)))
            (λ r.
              Triple-if checked (not r.is_new) _ _ (λ _. In rests) (λ _. aborted)
                (λ _.
                  Triple-tell checked Call.count_duplicate (λ _. tt) (λ _. In rests) (λ _. aborted)
                    (λ h s _. step_duplicate c.fingerprint _ s))
                (λ _.
                  Triple-bind checked _ (λ _. claimed) _ (λ _. In rests) (λ _. aborted)
                    (Triple-tell checked Call.count_new (λ _. tt) (λ _. claimed) (λ _. aborted)
                      (λ h s _. step_count c.fingerprint _ s))
                    (λ _. apply_engine-phases settings.rule_engine c start_ms _))))

-- A throw left the pipeline at one of the clusters.
abbrev pub AbortedAt : List AlertCluster → History → Type 0
AbortedAt clusters h =
    Any (λ (c : AlertCluster). is_aborted c.fingerprint (phase_of h) ≡ true) clusters

module _ (settings : Settings) (ports : Ports) where
  pub process_clusters-phases :
      (correlation_id : String) (clusters : List AlertCluster)
      → Triple
          (In rests)
          (process_clusters settings ports correlation_id clusters)
          (λ _. In rests)
          (λ _. AbortedAt clusters)
  unfolding process_clusters
  process_clusters-phases correlation_id [] =
      Triple-pure (In rests) tt (λ _. In rests) (λ _ _. ⊥) (λ h s. s)
  process_clusters-phases correlation_id (c ∷ rest) =
      Triple-bind (In rests) _ (λ _. In rests) _ (λ _. In rests) (λ _. AbortedAt (c ∷ rest))
        (Triple-weaken (In rests) _ (λ _. In rests) (λ _. In rests)
          (λ _. In (is_aborted c.fingerprint)) (λ _. AbortedAt (c ∷ rest)) (λ _ _ x. x)
          (λ _ _ x. inl x) (process_cluster-phases settings ports correlation_id c))
        (λ _.
          Triple-weaken (In rests) _ (λ _. In rests) (λ _. In rests) (λ _. AbortedAt rest)
            (λ _. AbortedAt (c ∷ rest)) (λ _ _ x. x) (λ _ _ x. inr x)
            (process_clusters-phases correlation_id rest))

  -- From an empty history, and however the ports answer: a run that ends without a throw leaves the
  -- automaton at rest, so that every call came in an order that it allows. A run that throws leaves it,
  -- for a cluster of the list, right behind this cluster's check or its triage, or behind the release of
  -- a claim with at most the event written since.
  pub process_clusters-order :
      (correlation_id : String) (clusters : List AlertCluster)
      → Ends
          (λ _ h. rests (phase_of h) ≡ true)
          (λ _. AbortedAt clusters)
          (process_clusters settings ports correlation_id clusters []).0
          (process_clusters settings ports correlation_id clusters []).1
  unfolding Triple phase_of
  process_clusters-order correlation_id clusters =
      process_clusters-phases correlation_id clusters [] refl
