-- ===== src/Notifier/Post.antt =====
-- What the notifiers of infrastructure/notifier/ have in common: the request they make, the answer to it, the
-- metric they count, and the parts of their messages.
use Prim.Native.String
use junando.Common.{ℕ, ◌+◌, String, List, [], ◌∷◌, ◌++◌}
use junando.Common.Split.{decimal}
use junando.Common.Results.{Result, ok, err}
use junando.Domain.Cluster.{Level, critical, high, medium, low}
use junando.Incident.Calls.{Thrown, NotifyResult}
use junando.Logger.Json.{Fields}

-- What a notifier does to the outside.
pub data Effect : Type 0 where
  post : String → Fields → Effect
  count_notification : String → String → Effect
  log_info : Fields → Effect

-- The answer to a request whose body has the type `B`, and how long it took.
pub data Answer (B : Type 0) : Type 0 where
  rejected : Thrown → Answer B
  answered : ℕ → Result Thrown B → Answer B

pub record Exchange (B : Type 0) : Type 0 where
  pub answer : Answer B
  pub latency_ms : ℕ

-- The end of a send, and what it did.
abbrev pub Sent : Type 0
Sent = Result Thrown NotifyResult × List Effect

unfoldable pub urgency_emoji : Level → String
urgency_emoji critical = "🔴"
urgency_emoji high = "🟠"
urgency_emoji medium = "🟡"
urgency_emoji low = "🟢"

-- `steps.map((s, i) => `${i + 1}. ${s}`)`
number_from : ℕ → List String → List String
number_from i [] = []
number_from i (s ∷ rest) =
    String.◌++◌ (decimal (i + 1)) (String.◌++◌ ". " s) ∷ number_from (i + 1) rest

unfoldable pub numbered : List String → List String
unfolding number_from
numbered steps = number_from 0 steps

-- The metric behind the end of a request: a throw goes on once it is report_outcome.
unfoldable pub report_outcome :
    String → List String → ℕ → List Effect → Result {0, 0} Thrown (Unit {0}) → Sent
report_outcome label channels latency_ms effects (ok _) = (
  ok (record { latency_ms = latency_ms; channels = channels }),
  effects ++ count_notification label "success" ∷ [],
)
report_outcome label channels latency_ms effects (err e) =
    (err e, effects ++ count_notification label "failure" ∷ [])
