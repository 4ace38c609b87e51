-- ===== src/Notifier/Counted.antt =====
-- How a send of Slack's or Teams' notifier ends, and what it counts.
use junando.Common.{
  ℕ, String, true, false, ◌&&◌, Option, List, [], ◌∷◌, ◌≡◌, ◌≤◌, ◌<◌, ◌⊎◌, refl, arith, leb, ltb,
  leb→le, ltb→lt, Bool-cases, inl, inr,
}
use junando.Common.Results.{Result, ok, err}
use junando.Domain.Cluster.{AlertCluster, LlmAnalysis}
use junando.Incident.Calls.{Thrown, NotifyResult}
use junando.Logger.Json.{Fields}
use junando.Notifier.Post.{
  Effect, post, count_notification, log_info, Answer, rejected, answered, Exchange, Sent,
  report_outcome,
}
use junando.Notifier.Slack.{SlackBody, SlackNotifier, send_slack}

-- The notifications that are counted, with their labels.
abbrev pub notifications : List Effect → List (String × String)
notifications [] = []
notifications (count_notification channel outcome ∷ rest) = (channel, outcome) ∷ notifications rest
notifications (post url body ∷ rest) = notifications rest
notifications (log_info line ∷ rest) = notifications rest

-- A send that ends well exactly if its answer is good, and that counts this once.
abbrev pub Reports : String → Type 0 → Sent → Type 0
Reports label Good sent =
    ((r : NotifyResult) × (sent.0 ≡ ok r) × (notifications sent.1 ≡ (label, "success") ∷ []) × Good)
    ⊎ ((e : Thrown) × (sent.0 ≡ err e) × (notifications sent.1 ≡ (label, "failure") ∷ []) × ¬ Good)

-- Slack takes a message with a status of success and a body that says so.
abbrev pub IsAccepted : Answer SlackBody → Type 0
IsAccepted (rejected e) = ⊥
IsAccepted (answered status (err e)) = ⊥
IsAccepted (answered status (ok body)) = (200 ≤ status) × (status < 300) × (body.accepted ≡ true)

abbrev pub IsDelivered : Answer Unit → Type 0
IsDelivered (rejected e) = ⊥
IsDelivered (answered status body) = (200 ≤ status) × (status < 300)

-- The check of an answer, against what is good.
abbrev Decides : Result {0, 0} Thrown Unit → Type 0 → Type 0
Decides (ok _) Good = Good
Decides (err e) Good = ¬ Good

report_outcome-Reports :
    (label : String) (channels : List String) (latency_ms : ℕ) (url : String) (body : Fields)
    (r : Result {0, 0} Thrown Unit) (Good : Type 0)
    → Decides r Good
    → Reports label Good (report_outcome label channels latency_ms (post url body ∷ []) r)
unfolding report_outcome
report_outcome-Reports label channels latency_ms url body (ok _) Good good =
    inl (_, refl, refl, good)
report_outcome-Reports label channels latency_ms url body (err e) Good bad =
    inr (_, refl, refl, bad)

within : (status : ℕ) → (leb 200 status && ltb status 300) ≡ true → (200 ≤ status) × (status < 300)
within status h = (leb→le 200 status (ground arith), ltb→lt status 300 (ground arith))

beyond :
    (status : ℕ) → (leb 200 status && ltb status 300) ≡ false → ¬ ((200 ≤ status) × (status < 300))
beyond status h (l, u) = ground arith

check_slack :
    (a : Answer SlackBody) → Decides (junando.Notifier.Slack.check_answer a) (IsAccepted a)
unfolding junando.Notifier.Slack.check_answer
check_slack (rejected e) = λ h. h
check_slack (answered status (err e)) = elim (Bool-cases (leb 200 status && ltb status 300)) [
  | inl fine ↦ rw fine (λ h. h)
  | inr bad ↦ rw bad (λ h. h)
]
check_slack (answered status (ok body)) = elim (Bool-cases (leb 200 status && ltb status 300)) [
  | inl fine ↦ elim (Bool-cases body.accepted) [
    | inl said ↦ rw (fine, said) (let (l, u) = within status fine in (l, u, refl))
    | inr denied ↦ rw (fine, denied) (λ h. let (l, u, said) = h in absurd (cc said))
  ]
  | inr bad ↦ rw bad (λ h. let (l, u, said) = h in beyond status bad (l, u))
]

-- Slack's notifier returns exactly if the answer has a status of success and a body that says so, and throws
-- otherwise; either way it counts one notification, as a success or as a failure.
pub send_slack-Reports :
    (stringify : Fields → String) (notifier : SlackNotifier) (exchange : Exchange SlackBody)
    (cluster : AlertCluster) (analysis : Option LlmAnalysis) (channel : Option String)
    → Reports "slack"
        (IsAccepted exchange.answer)
        (send_slack stringify notifier exchange cluster analysis channel)
unfolding send_slack
send_slack-Reports stringify notifier exchange cluster analysis channel =
    report_outcome-Reports "slack" _ exchange.latency_ms _ _ _ _ (check_slack exchange.answer)
