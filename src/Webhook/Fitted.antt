-- ===== src/Webhook/Fitted.antt =====
-- What of the alerts is cut to fit the queue's message.
use junando.Common.{◌≤◌, String, List, []}
use junando.Common.Lists.{All}
use junando.Common.Text.{text_length}
use junando.Domain.Alert.{NormalizedAlert}

-- An alert without its annotations.
abbrev pub bare : NormalizedAlert → NormalizedAlert
bare alert = record alert { annotations = [] }

abbrev AreShort : List (String × String) → Type 0
AreShort entries = All (λ (entry : String × String). text_length entry.1 ≤ 1000) entries

-- The text of each annotation is short.
abbrev pub HasShortAnnotations : NormalizedAlert → Type 0
HasShortAnnotations alert = AreShort alert.annotations
