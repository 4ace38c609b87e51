-- ===== src/Webhook/Permission.antt =====
-- Who may press the rollback button, and when a press rolls back.
use junando.Common.{
  String, Bool, true, false, Option, none, some, List, [], ◌∷◌, ◌==◌, ◌≡◌, refl, arith, eq_iff,
  or_else,
}
use junando.Common.Lists.{any_of, Any}
use junando.Common.Members.{Any-any_of}
use junando.Common.Results.{Result, ok, err}
use junando.Webhook.Effects.{
  SlackAction, SlackPayload, WebhookConfig, Effect, handle_rollback, Platform,
}
use junando.Webhook.Rollback.{
  is_rollback_authorized, is_listed, send_slack_ephemeral, when_authorized, handle_rollback_action,
}

abbrev pub rolls_back : Effect → Bool
rolls_back (handle_rollback request) = true
rolls_back _ = false

-- The user is on the list, where there is one with an entry.
abbrev pub IsListed : Option (List String) → String → Type 0
IsListed none user = Unit
IsListed (some []) user = Unit
IsListed (some (u ∷ us)) user = Any (λ x. x ≡ user) (u ∷ us)

is_listed-IsListed :
    (allowed : Option (List String)) (user : String)
    → is_listed allowed user ≡ true
    → IsListed allowed user
unfolding is_listed
is_listed-IsListed none user h = tt
is_listed-IsListed (some []) user h = tt
is_listed-IsListed (some (u ∷ us)) user h = Any-any_of user (u ∷ us) h

-- What the configuration asks of a press of the button.
pub record MayRollBack (payload : SlackPayload) (config : WebhookConfig) : Type 0 where
  pub slack : config.notifier_type ≡ "slack"
  pub enabled : config.rollback_action_enabled ≡ true
  pub listed : IsListed config.rollback_action_allowed_slack_user_ids (or_else payload.user_id "")

is_rollback_authorized-MayRollBack :
    (payload : SlackPayload) (config : WebhookConfig)
    → is_rollback_authorized payload config ≡ ok tt
    → MayRollBack payload config
unfolding is_rollback_authorized
is_rollback_authorized-MayRollBack payload config h =
    let slack : (config.notifier_type == "slack") ≡ true = ground arith in
    let listed : is_listed config.rollback_action_allowed_slack_user_ids
          (or_else payload.user_id "")
        ≡ true =
      ground arith in
    record {
      slack = (eq_iff _ _).0 slack;
      enabled = ground arith;
      listed = is_listed-IsListed _ _ listed;
    }

pub send_slack_ephemeral-rolls_back :
    (url : Option String) (text : String)
    → any_of rolls_back (send_slack_ephemeral url text) ≡ false
unfolding send_slack_ephemeral any_of
send_slack_ephemeral-rolls_back none text = refl
send_slack_ephemeral-rolls_back (some url) text = ground arith

when_authorized-ok :
    (platform : Platform) (r : Result {0, 0} String Unit) (action : SlackAction)
    (payload : SlackPayload) (correlation_id : String)
    → any_of rolls_back (when_authorized platform r action payload correlation_id) ≡ true
    → r ≡ ok tt
unfolding when_authorized any_of
when_authorized-ok platform (err reason) action payload correlation_id h =
    absurd (cc (send_slack_ephemeral-rolls_back payload.response_url _, h))
when_authorized-ok platform (ok tt) action payload correlation_id h = refl

pub handle_rollback_action-MayRollBack :
    (platform : Platform) (action : SlackAction) (payload : SlackPayload) (correlation_id : String)
    (config : WebhookConfig)
    → any_of rolls_back (handle_rollback_action platform action payload correlation_id config)
      ≡ true
    → MayRollBack payload config
unfolding handle_rollback_action
handle_rollback_action-MayRollBack platform action payload correlation_id config h =
    is_rollback_authorized-MayRollBack payload config (
      when_authorized-ok platform (is_rollback_authorized payload config) action payload
        correlation_id h)
