-- ===== src/Triage/Tests.antt =====
-- A reply of the gateway in capitals, with white space around it.
use junando.Common.{some, none, []}
use junando.Common.Results.{ok}
use junando.Domain.Alert.{error}
use junando.Domain.Cluster.{AlertCluster}
use junando.Triage.{Reply, answered, vercel_gateway, run_triage}
use junando.Triage.Lenient.{IsLenient, normalization, run_triage-IsLenient}

abbrev triaged_cluster : AlertCluster
triaged_cluster = record {
  fingerprint = "fp";
  service_name = "api";
  alert_type = error;
  endpoint_path = "/orders";
  alert_count = 2;
  representative_trace_ids = [];
  first_seen_at = "";
  latency_p99_ms = none;
  severity = none;
  labels = none;
}

abbrev loud_reply : Reply
loud_reply = answered 200 (ok (some " LOW\n"))

run_triage-IsLenient_example :
    IsLenient
      (normalization (vercel_gateway "m"))
      loud_reply
      (run_triage (vercel_gateway "m") loud_reply triaged_cluster)
run_triage-IsLenient_example = run_triage-IsLenient (vercel_gateway "m") loud_reply triaged_cluster
