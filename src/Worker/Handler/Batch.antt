-- ===== src/Worker/Handler/Batch.antt =====
-- The order of the calls over a whole batch, and what becomes of its records.
use junando.Common.{String, true, false, List, [], ◌∷◌, ◌≡◌, refl, inl, inr}
use junando.Common.Results.{Result, ok, err}
use junando.Domain.Alert.{NormalizedAlert}
use junando.Domain.Cluster.{AlertCluster}
use junando.Clustering.Build.{build_clusters_total}
use junando.Incident.Calls.{Thrown, Call, History, Ports}
use junando.Incident.Exec.{
  Ends, Triple, Triple-pure, Triple-throw, Triple-tell, Triple-bind, Triple-weaken, Triple-caught,
}
use junando.Incident.Process.{Settings}
use junando.Incident.Pipeline.{execute}
use junando.Incident.Lifecycle.{rests, is_aborted, phase_of, next}
use junando.Incident.Lifecycle.Stages.{In}
use junando.Incident.Lifecycle.Run.{AbortedAt, process_clusters-phases}
use junando.Worker.Handler.{
  SqsMessage, SqsRecord, Platform, parse_record, count_outcome, run_message, handle_parsed,
  handle_record, handle_records,
}

-- The pipeline stopped at some cluster.
abbrev pub Aborted : History → Type 0
Aborted h = (fp : String) × (is_aborted fp (phase_of h) ≡ true)

Aborted-at : (clusters : List AlertCluster) (h : History) → AbortedAt clusters h → Aborted h
Aborted-at [] h a = absurd a
Aborted-at (c ∷ rest) h (inl a) = (c.fingerprint, a)
Aborted-at (c ∷ rest) h (inr a) = Aborted-at rest h a

module _ (settings : Settings) (ports : Ports) (platform : Platform) where
  execute-phases :
      (alerts : List NormalizedAlert) (correlation_id : String)
      → Triple
          (In rests)
          (execute settings ports platform.sha256_hex alerts correlation_id)
          (λ _. In rests)
          (λ _. Aborted)
  unfolding execute
  execute-phases alerts correlation_id =
      let (clusters, built, _, _, _) = build_clusters_total platform.sha256_hex alerts in
      rw built (
        Triple-weaken (In rests) _ (λ _. In rests) (λ _. In rests) (λ _. AbortedAt clusters)
          (λ _. Aborted) (λ _ _ x. x) (λ _ h x. Aborted-at clusters h x)
          (process_clusters-phases settings ports correlation_id clusters))

  count_outcome-phases :
      (r : Result {0, 0} Thrown Unit)
      → Triple
          (Ends (λ _. In rests) (λ _. Aborted) r)
          (count_outcome settings ports platform r)
          (λ _. In rests)
          (λ _. Aborted)
  unfolding count_outcome phase_of next
  count_outcome-phases (ok a) =
      Triple-tell (In rests) (Call.count_processed true) (λ _. tt) (λ _. In rests) (λ _. Aborted)
        (λ h s _. s)
  count_outcome-phases (err e) =
      Triple-bind Aborted _ (λ _. Aborted) _ (λ _. In rests) (λ _. Aborted)
        (Triple-tell Aborted (Call.count_processed false) (λ _. tt) (λ _. Aborted) (λ _. Aborted)
          (λ h s _. s))
        (λ _. Triple-throw Aborted e (λ _. In rests) (λ _. Aborted) (λ h s. s))

  run_message-phases :
      (message : SqsMessage)
      → Triple
          (In rests)
          (run_message settings ports platform message)
          (λ _. In rests)
          (λ _. Aborted)
  unfolding run_message
  run_message-phases message =
      Triple-bind (In rests) _ (λ r. Ends (λ _. In rests) (λ _. Aborted) r) _ (λ _. In rests)
        (λ _. Aborted)
        (Triple-caught (In rests) _ (λ _. In rests) (λ _. Aborted) (λ _. Aborted)
          (execute-phases message.alerts message.correlation_id))
        (λ r. count_outcome-phases r)

  handle_parsed-phases :
      (r : Result String SqsMessage)
      → Triple (In rests) (handle_parsed settings ports platform r) (λ _. In rests) (λ _. Aborted)
  unfolding handle_parsed phase_of next
  handle_parsed-phases (err why) =
      Triple-tell (In rests) (Call.log_error why) (λ _. tt) (λ _. In rests) (λ _. Aborted)
        (λ h s _. s)
  handle_parsed-phases (ok message) = run_message-phases message

  handle_records-phases :
      (records : List SqsRecord)
      → Triple
          (In rests)
          (handle_records settings ports platform records)
          (λ _. In rests)
          (λ _. Aborted)
  unfolding handle_records handle_record Triple
  handle_records-phases [] = Triple-pure (In rests) tt (λ _. In rests) (λ _. Aborted) (λ h s. s)
  handle_records-phases (record_ ∷ rest) =
      Triple-bind (In rests) _ (λ _. In rests) _ (λ _. In rests) (λ _. Aborted)
        (λ h s. handle_parsed-phases (parse_record platform h record_) h s)
        (λ _. handle_records-phases rest)

  -- A batch of records, handled from an empty history, makes its calls in the order of the automaton of the
  -- pipeline, however the ports and the platform answer. A batch that ends leaves the automaton at rest;
  -- one that throws stopped at some cluster, right behind its check, its triage, or the release of a claim.
  pub handle_records-order :
      (records : List SqsRecord)
      → Ends
          (λ _ h. rests (phase_of h) ≡ true)
          (λ _. Aborted)
          (handle_records settings ports platform records []).0
          (handle_records settings ports platform records []).1
  unfolding Triple phase_of
  handle_records-order records = handle_records-phases records [] refl
