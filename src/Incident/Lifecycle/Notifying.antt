-- ===== src/Incident/Lifecycle/Notifying.antt =====
-- The phases of the notification: the sends, and the end of a cluster by how they went.
use junando.Common.{ℕ, String, Option, some, List, [], ◌∷◌, ◌++◌, map, ◌≡◌, sym, eq_refl}
use junando.Common.Lists.{get_elem?}
use junando.Common.Results.{Result, ok, err}
use junando.Domain.Cluster.{AlertCluster, LlmAnalysis}
use junando.Logger.Builder.{WideEventBuilder}
use junando.Incident.Calls.{Thrown, Call, Ports}
use junando.Incident.Exec.{
  Triple, Triple-pure, Triple-throw, Triple-ask, Triple-weaken, Triple-from, Triple-try,
  Triple-bind,
}
use junando.Incident.Process.{Settings, Diagnosis}
use junando.Incident.Pipeline.{send_all, fail, notify, settle}
use junando.Incident.Lifecycle.{
  rests, is_ready, is_sending, is_notifying, is_aborted, phase_of, is_released, step_send,
  step_event, step_last_event, can_log-rests, sending-can_log, sending-notifying, ready-notifying,
  released-aborted,
}
use junando.Incident.Lifecycle.Stages.{In, read_now-keeps, emit_lem, release_dedup_claim-phases}

module _ (settings : Settings) (ports : Ports) where
  send_all-step :
      (c : AlertCluster) (analysis : Option LlmAnalysis) (channel : Option String)
      (rest : List (Option String))
      → Triple
          (In (is_sending c.fingerprint))
          (send_all settings ports c analysis rest)
          (λ _. In (is_sending c.fingerprint))
          (λ _. In (is_sending c.fingerprint))
      → Triple
          (In (is_notifying c.fingerprint))
          (send_all settings ports c analysis (channel ∷ rest))
          (λ _. In (is_sending c.fingerprint))
          (λ _. In (is_sending c.fingerprint))
  unfolding send_all phase_of
  send_all-step c analysis channel rest t =
      let sending = In (is_sending c.fingerprint) in
      let start = In (is_notifying c.fingerprint) in
      Triple-bind start _ (λ _. sending) _ (λ _. sending) (λ _. sending)
        (Triple-ask start (Call.send c analysis channel) _ (λ _. sending) (λ _. sending)
          (λ h s _. rw (step_send c analysis channel _ s) (eq_refl c.fingerprint))
          (λ h s _. rw (step_send c analysis channel _ s) (eq_refl c.fingerprint)))
        (λ r.
          Triple-bind sending _ (λ _. sending) _ (λ _. sending) (λ _. sending) t
            (λ others. Triple-pure sending _ (λ _. sending) (λ _. sending) (λ h s. s)))

  send_all-keeps :
      (c : AlertCluster) (analysis : Option LlmAnalysis) (channels : List (Option String))
      → Triple
          (In (is_sending c.fingerprint))
          (send_all settings ports c analysis channels)
          (λ _. In (is_sending c.fingerprint))
          (λ _. In (is_sending c.fingerprint))
  unfolding send_all
  send_all-keeps c analysis [] =
      let sending = In (is_sending c.fingerprint) in
      Triple-pure sending [] (λ _. sending) (λ _. sending) (λ h s. s)
  send_all-keeps c analysis (channel ∷ rest) =
      let sending = In (is_sending c.fingerprint) in
      Triple-from sending (In (is_notifying c.fingerprint)) _ (λ _. sending) (λ _. sending)
        (λ h s. sending-notifying c.fingerprint _ s)
        (send_all-step c analysis channel rest (send_all-keeps c analysis rest))

  fail-phases :
      (c : AlertCluster) (channels : List String) (start_ms notify_start_ms : ℕ)
      (b : WideEventBuilder) (e : Thrown)
      → Triple
          (In (is_sending c.fingerprint))
          (fail settings ports c channels start_ms notify_start_ms b e)
          (λ _ _. ⊥)
          (λ _. In (is_aborted c.fingerprint))
  unfolding fail
  fail-phases c channels start_ms notify_start_ms b e =
      let sending = In (is_sending c.fingerprint) in
      let aborted = In (is_aborted c.fingerprint) in
      let released = In is_released in
      Triple-bind sending _ (λ _. sending) _ (λ _ _. ⊥) (λ _. aborted)
        (read_now-keeps settings ports (is_sending c.fingerprint) (λ _. aborted))
        (λ now.
          Triple-bind sending _ (λ _. released) _ (λ _ _. ⊥) (λ _. aborted)
            (release_dedup_claim-phases settings ports c.fingerprint (λ _. aborted))
            (λ _.
              Triple-bind released _ (λ _. aborted) _ (λ _ _. ⊥) (λ _. aborted)
                (emit_lem settings ports is_released (is_aborted c.fingerprint) (λ _. aborted) _ _
                  start_ms (λ p s. released-aborted c.fingerprint p s)
                  (λ event p s. step_last_event event c.fingerprint p s))
                (λ _. Triple-throw aborted e (λ _ _. ⊥) (λ _. aborted) (λ h s. s))))

  settle-phases :
      (c : AlertCluster) (routes escalations : List String) (start_ms notify_start_ms : ℕ)
      (b : WideEventBuilder) (d : Diagnosis) (r : Result Thrown (List String))
      → Triple
          (In (is_sending c.fingerprint))
          (settle settings ports c routes escalations start_ms notify_start_ms b d r)
          (λ _. In rests)
          (λ _. In (is_aborted c.fingerprint))
  unfolding settle
  settle-phases c routes escalations start_ms notify_start_ms b d (ok channels) =
      let sending = In (is_sending c.fingerprint) in
      let aborted = In (is_aborted c.fingerprint) in
      Triple-bind sending _ (λ _. sending) _ (λ _. In rests) (λ _. aborted)
        (read_now-keeps settings ports (is_sending c.fingerprint) (λ _. aborted))
        (λ now.
          emit_lem settings ports (is_sending c.fingerprint) rests (λ _. aborted) _ _ start_ms
            (λ p s. can_log-rests p (sending-can_log c.fingerprint p s))
            (λ event p s. step_event event p (sending-can_log c.fingerprint p s)))
  settle-phases c routes escalations start_ms notify_start_ms b d (err e) =
      let aborted = In (is_aborted c.fingerprint) in
      Triple-weaken (In (is_sending c.fingerprint)) _ (λ _ _. ⊥) (λ _. In rests) (λ _. aborted)
        (λ _. aborted) (λ _ _ x. absurd x) (λ _ _ x. x)
        (fail-phases c (routes ++ escalations) start_ms notify_start_ms b e)

  notify-phases :
      (c : AlertCluster) (analysis : Option LlmAnalysis) (routes escalations : List String)
      (start_ms : ℕ) (b : WideEventBuilder) (d : Diagnosis)
      → Triple
          (In (is_ready c.fingerprint))
          (notify settings ports c analysis routes escalations start_ms b d)
          (λ _. In rests)
          (λ _. In (is_aborted c.fingerprint))
  unfolding notify
  notify-phases c analysis routes escalations start_ms b d =
      let ready = In (is_ready c.fingerprint) in
      let sending = In (is_sending c.fingerprint) in
      let aborted = In (is_aborted c.fingerprint) in
      Triple-bind ready _ (λ _. ready) _ (λ _. In rests) (λ _. aborted)
        (read_now-keeps settings ports (is_ready c.fingerprint) (λ _. aborted))
        (λ notify_start_ms.
          Triple-bind ready _ (λ _. sending) _ (λ _. In rests) (λ _. aborted)
            (Triple-try ready _ sending (λ _. aborted)
              (Triple-from ready (In (is_notifying c.fingerprint)) _ (λ _. sending) (λ _. sending)
                (λ h s. ready-notifying c.fingerprint _ s)
                (send_all-step c analysis (get_elem? routes 0) (map some escalations)
                  (send_all-keeps c analysis (map some escalations)))))
            (λ r. settle-phases c routes escalations start_ms notify_start_ms b d r))

  pub notify-phases_at :
      (fp : String) (c : AlertCluster) (analysis : Option LlmAnalysis)
      (routes escalations : List String) (start_ms : ℕ) (b : WideEventBuilder) (d : Diagnosis)
      → c.fingerprint ≡ fp
      → Triple
          (In (is_ready fp))
          (notify settings ports c analysis routes escalations start_ms b d)
          (λ _. In rests)
          (λ _. In (is_aborted fp))
  notify-phases_at fp c analysis routes escalations start_ms b d same =
      rw (sym same) (notify-phases c analysis routes escalations start_ms b d)
