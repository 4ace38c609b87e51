-- ===== src/Webhook/Authorized.antt =====
-- When the webhook's handler runs a rollback.
use junando.Common.{
  String, true, false, Option, none, some, List, [], ◌∷◌, ◌++◌, ◌==◌, ◌≡◌, ◌∙◌, refl, arith, eq_iff,
  or_else, Bool-cases, inl, inr,
}
use junando.Common.Lists.{any_of, any_of-append, get_elem?, length}
use junando.Common.Text.{is_empty}
use junando.Common.Assoc.{lookup}
use junando.Common.Results.{Result, ok, err}
use junando.Domain.Alert.{NormalizedAlert, AlertmanagerPayload}
use junando.Webhook.Effects.{
  WebhookEvent, SlackAction, SlackPayload, WebhookConfig, Decoded, not_json, refused, decoded,
  count_request, publish, Platform,
}
use junando.Webhook.Signature.{verify_slack_signature, verify_slack_signature_iff, IsSigned}
use junando.Webhook.Handler.{
  handle_webhook, handle_interactivity, correlation_id_of, fitted, accepted_response, truthy,
  answer, refuse, act_on, on_payload, on_secret, on_config, on_form, body_text_of, on_slack_body,
  on_alerts, pass_on, after_publish, behind, on_alert_payload, on_alert_body, size_warning,
}
use junando.Webhook.Permission.{rolls_back, MayRollBack, handle_rollback_action-MayRollBack}

pub truthy-some : (o : Option String) (s : String) → truthy o ≡ some s → o ≡ some s
truthy-some none s h = h
truthy-some (some x) s h = elim (Bool-cases (is_empty x)) [
  | inl nothing ↦ let gone : none ≡ some s = rw nothing at h in absurd (cc gone)
  | inr something ↦ rw something at h
]

module _ (platform : Platform) where
  act_on-MayRollBack :
      (o : Option SlackAction) (payload : SlackPayload) (correlation_id : String)
      (config : WebhookConfig)
      → any_of rolls_back (act_on platform o payload correlation_id config) ≡ true
      → MayRollBack payload config
  unfolding act_on any_of
  act_on-MayRollBack none payload correlation_id config h = absurd (cc h)
  act_on-MayRollBack (some action) payload correlation_id config h =
      elim (Bool-cases (or_else action.action_id "" == "trigger_rollback")) [
        | inl button ↦
            handle_rollback_action-MayRollBack platform action payload correlation_id config
              (rw button at h)
        | inr other ↦ let gone : false ≡ true = rw other at h in absurd (cc gone)
      ]

  on_payload-MayRollBack :
      (d : Decoded SlackPayload) (correlation_id : String) (config : WebhookConfig)
      → any_of rolls_back (on_payload platform d correlation_id config).effects ≡ true
      → (payload : SlackPayload) × (d ≡ decoded payload) × MayRollBack payload config
  unfolding on_payload answer any_of
  on_payload-MayRollBack not_json correlation_id config h = absurd (cc h)
  on_payload-MayRollBack (refused issues) correlation_id config h = absurd (cc h)
  on_payload-MayRollBack (decoded payload) correlation_id config h =
      let acts = act_on platform (get_elem? payload.actions 0) payload correlation_id config in
      let split_it =
        any_of-append rolls_back acts (count_request "/webhook/slack-interactivity" "200" ∷ []) in
      let acted : any_of rolls_back acts ≡ true = ground (arith, split_it) in
      (
        payload,
        refl,
        act_on-MayRollBack (get_elem? payload.actions 0) payload correlation_id config acted,
      )

  -- What lies behind a rollback, from the body of the request on.
  pub record IsGenuine (event : WebhookEvent) (body : String) : Type 0 where
    pub config : WebhookConfig
    pub loaded : platform.load_config ≡ ok config
    pub secret : String
    pub configured : config.slack_signing_secret ≡ some secret
    pub signed :
        IsSigned platform
          (lookup "x-slack-signature" event.headers)
          (lookup "x-slack-request-timestamp" event.headers)
          body
          secret
    pub payload_text : String
    pub posted : platform.form_field body ≡ some payload_text
    pub payload : SlackPayload
    pub parsed : platform.slack_payload payload_text ≡ decoded payload
    pub allowed : MayRollBack payload config

  on_secret-IsSigned :
      (o : Option String) (event : WebhookEvent) (body payload_text correlation_id : String)
      (config : WebhookConfig)
      → any_of rolls_back
          (on_secret platform o event body payload_text correlation_id config).effects
        ≡ true
      → (secret : String) × (o ≡ some secret)
        × IsSigned platform
            (lookup "x-slack-signature" event.headers)
            (lookup "x-slack-request-timestamp" event.headers)
            body
            secret
        × ((payload : SlackPayload) × (platform.slack_payload payload_text ≡ decoded payload)
            × MayRollBack payload config)
  unfolding on_secret refuse any_of
  on_secret-IsSigned none event body payload_text correlation_id config h = absurd (cc h)
  on_secret-IsSigned (some secret) event body payload_text correlation_id config h =
      let verified =
        verify_slack_signature platform (lookup "x-slack-signature" event.headers)
          (lookup "x-slack-request-timestamp" event.headers) body secret in
      elim (Bool-cases verified) [
        | inl genuine ↦ (
          secret,
          refl,
          (verify_slack_signature_iff platform _ _ body secret).0 genuine,
          on_payload-MayRollBack (platform.slack_payload payload_text) correlation_id config
              (rw genuine at h),
        )
        | inr forged ↦ let gone : false ≡ true = rw forged at h in absurd (cc gone)
      ]

  on_config-IsGenuine :
      (r : Result {0, 0} String WebhookConfig) (event : WebhookEvent)
      (body payload_text correlation_id : String)
      → platform.load_config ≡ r
      → platform.form_field body ≡ some payload_text
      → any_of rolls_back (on_config platform r event body payload_text correlation_id).effects
        ≡ true
      → IsGenuine event body
  unfolding on_config refuse any_of
  on_config-IsGenuine (err e) event body payload_text correlation_id loaded posted h = absurd (cc h)
  on_config-IsGenuine (ok config) event body payload_text correlation_id loaded posted h =
      elim (Bool-cases (config.notifier_type == "slack")) [
        | inl slack ↦
            let (secret, kept, signed, (payload, parsed, allowed)) =
              on_secret-IsSigned (truthy config.slack_signing_secret) event body payload_text
                correlation_id config (rw slack at h) in
            record {
              config = config;
              loaded = loaded;
              secret = secret;
              configured = truthy-some config.slack_signing_secret secret kept;
              signed = signed;
              payload_text = payload_text;
              posted = posted;
              payload = payload;
              parsed = parsed;
              allowed = allowed;
            }
        | inr other ↦ let gone : false ≡ true = rw other at h in absurd (cc gone)
      ]

  on_form-IsGenuine :
      (o : Option String) (event : WebhookEvent) (body correlation_id : String)
      → ((t : String) → o ≡ some t → platform.form_field body ≡ some t)
      → any_of rolls_back (on_form platform o event body correlation_id).effects ≡ true
      → IsGenuine event body
  unfolding on_form answer any_of
  on_form-IsGenuine none event body correlation_id posted h = absurd (cc h)
  on_form-IsGenuine (some t) event body correlation_id posted h =
      on_config-IsGenuine platform.load_config event body t correlation_id refl (posted t refl) h

  on_slack_body-IsGenuine :
      (o : Option String) (event : WebhookEvent) (correlation_id : String)
      → any_of rolls_back (on_slack_body platform o event correlation_id).effects ≡ true
      → (raw : String) × (o ≡ some raw) × IsGenuine event (body_text_of platform event raw)
  unfolding on_slack_body answer any_of
  on_slack_body-IsGenuine none event correlation_id h = absurd (cc h)
  on_slack_body-IsGenuine (some raw) event correlation_id h = (
    raw,
    refl,
    on_form-IsGenuine _ event (body_text_of platform event raw) correlation_id
        (λ t e. truthy-some (platform.form_field (body_text_of platform event raw)) t e) h,
  )

  pass_on-rolls_back :
      (group_key : String) (alerts : List NormalizedAlert) (correlation_id : String)
      → any_of rolls_back (pass_on platform group_key alerts correlation_id).effects ≡ false
  unfolding pass_on after_publish size_warning any_of
  pass_on-rolls_back group_key alerts correlation_id =
      elim (Bool-cases (is_empty platform.queue_url)) [
        | inl here ↦ rw here
        | inr queue ↦ rw queue (published (platform.send_message correlation_id))
      ]
    where
      warned : any_of rolls_back (size_warning platform correlation_id alerts) ≡ false
      warned = ground arith

      published :
          (r : Result {0, 0} String Unit)
          → any_of rolls_back
              (after_publish platform r
                (size_warning platform correlation_id alerts
                  ++ publish group_key correlation_id (fitted platform correlation_id alerts) ∷ [])
                (accepted_response platform (length alerts) correlation_id)).effects
            ≡ false
      published (ok _) =
          any_of-append rolls_back
            (size_warning platform correlation_id alerts
              ++ publish group_key correlation_id (fitted platform correlation_id alerts) ∷ [])
            _
          ∙ rw (any_of-append rolls_back (size_warning platform correlation_id alerts), warned)
      published (err e) =
          rw (any_of-append rolls_back (size_warning platform correlation_id alerts), warned)

  on_alerts-rolls_back :
      (group_key : String) (alerts : List NormalizedAlert) (correlation_id : String)
      → any_of rolls_back (on_alerts platform group_key alerts correlation_id).effects ≡ false
  unfolding on_alerts answer behind any_of
  on_alerts-rolls_back group_key [] correlation_id = refl
  on_alerts-rolls_back group_key (a ∷ rest) correlation_id =
      pass_on-rolls_back group_key (a ∷ rest) correlation_id

  on_alert_body-rolls_back :
      (o : Option String) (correlation_id : String)
      → any_of rolls_back (on_alert_body platform o correlation_id).effects ≡ false
  unfolding on_alert_body answer any_of
  on_alert_body-rolls_back none correlation_id = refl
  on_alert_body-rolls_back (some body) correlation_id = of_decoded (platform.alert_payload body)
    where
      of_decoded :
          (d : Decoded AlertmanagerPayload)
          → any_of rolls_back (on_alert_payload platform d correlation_id).effects ≡ false
      of_decoded not_json = unfold on_alert_payload in refl
      of_decoded (refused issues) = unfold on_alert_payload in refl
      of_decoded (decoded payload) =
          unfold on_alert_payload in on_alerts-rolls_back payload.group_key _ correlation_id

  -- The webhook runs a rollback only for a request on Slack's path whose body is signed with the configured
  -- secret, at most five minutes away, and whose sender the configuration lets roll back: the notifier
  -- is Slack's, rollbacks are enabled, and the user is on the list of the allowed, where there is one.
  pub handle_webhook-IsGenuine :
      (event : WebhookEvent)
      → any_of rolls_back (handle_webhook platform event).effects ≡ true
      → (event.raw_path ≡ "/webhook/slack-interactivity")
        × ((raw : String) × (event.body ≡ some raw)
            × IsGenuine event (body_text_of platform event raw))
  unfolding handle_webhook handle_interactivity answer any_of
  handle_webhook-IsGenuine event h = elim (Bool-cases (event.raw_path == "/health")) [
    | inl health ↦ let gone : false ≡ true = rw health at h in absurd (cc gone)
    | inr not_health ↦ elim (Bool-cases (event.raw_path == "/metrics")) [
      | inl metrics ↦ let gone : false ≡ true = rw (not_health, metrics) at h in absurd (cc gone)
      | inr not_metrics ↦ elim (Bool-cases (event.raw_path == "/webhook/slack-interactivity")) [
        | inl slack ↦
            let (raw, found, genuine) =
              on_slack_body-IsGenuine (truthy event.body) event (correlation_id_of platform event)
                (rw (not_health, not_metrics, slack) at h) in
            ((eq_iff _ _).0 slack, (raw, truthy-some event.body raw found, genuine))
        | inr other ↦
            let alert =
              on_alert_body-rolls_back (truthy event.body) (correlation_id_of platform event) in
            let it : any_of rolls_back
                  (on_alert_body platform (truthy event.body)
                    (correlation_id_of platform event)).effects
                ≡ true =
              rw (not_health, not_metrics, other) at h in
            absurd (cc (alert, it))
      ]
    ]
  ]
