-- ===== src/Notifier/MessageTests.antt =====
-- A cluster that is sent to Slack and to Teams.
use junando.Common.{String, none, some, [], ◌≡◌, ◌≤◌, ◌+◌, false}
use junando.Common.Text.{text_length}
use junando.Common.Results.{ok}
use junando.Domain.Alert.{error}
use junando.Domain.Cluster.{AlertCluster}
use junando.Notifier.Post.{answered, Exchange}
use junando.Notifier.Slack.{SlackBody, SlackNotifier, send_slack}
use junando.Notifier.Sanitize.{sanitize_text}
use junando.Notifier.Sanitize.Tags.{has_tag, sanitize_text-bounds}
use junando.Notifier.Counted.{Reports, IsAccepted, send_slack-Reports}

abbrev tagged : String
tagged = "a <b>bold</b> *claim* < 5"

sanitize_text-bounds_example :
    (text_length (sanitize_text tagged 10) ≤ 10 + 1) × (has_tag (sanitize_text tagged 10) ≡ false)
sanitize_text-bounds_example = sanitize_text-bounds tagged 10

abbrev sent_cluster : AlertCluster
sent_cluster = record {
  fingerprint = "fp";
  service_name = "api";
  alert_type = error;
  endpoint_path = "/orders";
  alert_count = 2;
  representative_trace_ids = [];
  first_seen_at = "";
  latency_p99_ms = none;
  severity = none;
  labels = none;
}

abbrev refusing : Exchange SlackBody
refusing = record {
  answer = answered 200 (ok (record { accepted = false; error = some "channel_not_found" }));
  latency_ms = 12;
}

abbrev a_notifier : SlackNotifier
a_notifier = record { bot_token = "xoxb-1"; channel = "#ops" }

send_slack-Reports_example :
    Reports "slack"
      (IsAccepted refusing.answer)
      (send_slack (λ fields. "{}") a_notifier refusing sent_cluster none none)
send_slack-Reports_example =
    send_slack-Reports (λ fields. "{}") a_notifier refusing sent_cluster none none

abbrev accepting : Exchange Unit
accepting = record { answer = answered 202 (ok tt); latency_ms = 30 }
