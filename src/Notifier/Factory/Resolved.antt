-- ===== src/Notifier/Factory/Resolved.antt =====
-- The channels that rules name, and those that a notifier created over them knows.
use mathlib.Core.Path.{subst}
use junando.Common.{
  String, Bool, true, false, not, ◌||◌, some, some_inj, List, [], ◌∷◌, ◌==◌, ◌≡◌, ◌∙◌, refl, sym,
  ap, arith, eq_iff, if◌then◌else◌, Bool-cases, Option-cases, inl, inr, ◌⊎◌,
}
use junando.Common.Lists.{any_of, keep, Any}
use junando.Common.Assoc.{lookup, lookup-insert}
use junando.Common.Results.{ok, bind-ok, ok_inj}
use junando.Domain.Rule.{
  RuleAction, suppress, route, escalate, tag, Rule, RuleConfiguration, ChannelConfig,
}
use junando.Notifier.Registry.{ChannelRegistry, register, set_default, new_registry, has_channel}
use junando.Notifier.Routing.{add}
use junando.Notifier.Routing.Deliveries.{contains, contains-add, routes_to, escalates_to}
use junando.Notifier.Factory.{
  Backend, routing, NotifierConfig, Environment, build_channel_notifier, register_channels,
  reference_actions, reference_rules, collect_unresolved_channels, checked_registry,
  routing_notifier, with_rules, create_notifier, resolve_factory, build_notifier_registry,
}

-- An action of the rule names the channel.
abbrev pub names : String → Rule → Bool
names c rule = any_of (routes_to c) rule.actions || any_of (escalates_to c) rule.actions

module _ (c : String) where
  contains-reference_actions :
      (referenced : List String) (actions : List RuleAction)
      → contains c (reference_actions referenced actions) ≡ (
          contains c referenced
          || (any_of (routes_to c) actions || any_of (escalates_to c) actions))
  unfolding reference_actions any_of
  contains-reference_actions referenced [] = ground arith
  contains-reference_actions referenced (route x ∷ rest) =
      ground
        (arith, contains-reference_actions (add x referenced) rest, contains-add c x referenced)
  contains-reference_actions referenced (escalate x ∷ rest) =
      ground
        (arith, contains-reference_actions (add x referenced) rest, contains-add c x referenced)
  contains-reference_actions referenced (suppress ∷ rest) =
      ground (arith, contains-reference_actions referenced rest)
  contains-reference_actions referenced (tag k v ∷ rest) =
      ground (arith, contains-reference_actions referenced rest)

  contains-reference_rules :
      (referenced : List String) (rules : List Rule)
      → contains c (reference_rules referenced rules)
        ≡ (contains c referenced || any_of (names c) rules)
  unfolding reference_rules any_of
  contains-reference_rules referenced [] = ground arith
  contains-reference_rules referenced (rule ∷ rest) = ground (
    arith,
    contains-reference_rules (reference_actions referenced rule.actions) rest,
    contains-reference_actions referenced rule.actions,
  )

  -- What a filter keeps nothing of fails its test everywhere.
  keep-empty :
      (p : String → Bool) (xs : List String) → keep p xs ≡ [] → contains c xs ≡ true → p c ≡ false
  unfolding keep
  keep-empty p [] none_kept h = absurd (cc h)
  keep-empty p (x ∷ xs) none_kept h = elim (Bool-cases (p x)) [
    | inl kept ↦ let gone : x ∷ keep p xs ≡ [] = rw kept at none_kept in absurd (cc gone)
    | inr dropped ↦
        let rest : keep p xs ≡ [] = rw dropped at none_kept in
        elim (Bool-cases (x == c)) [
          | inl same ↦ rw (← (eq_iff x c).0 same) dropped
          | inr other ↦ keep-empty p xs rest (rw other at h)
        ]
  ]

lookup-register :
    (name c : String) (built : Backend) (registry : ChannelRegistry Backend)
    → lookup c (register name built registry).channels
      ≡ (if name == c then some built else lookup c registry.channels)
unfolding register
lookup-register name c built registry = lookup-insert name c built registry.channels

module _ (env : Environment) (config : NotifierConfig) where
  -- The entry of a channel, from which its notifier was built.
  abbrev pub BuiltFrom : List (String × ChannelConfig) → String → Backend → Type 0
  BuiltFrom entries c n =
      Any (λ e. (e.0 ≡ c) × (build_channel_notifier env config e.0 e.1 ≡ ok n)) entries

  register_channels-BuiltFrom :
      (entries : List (String × ChannelConfig)) (registry filled : ChannelRegistry Backend)
      (c : String) (n : Backend)
      → register_channels env config entries registry ≡ ok filled
      → lookup c filled.channels ≡ some n
      → (lookup c registry.channels ≡ some n) ⊎ BuiltFrom entries c n
  unfolding register_channels
  register_channels-BuiltFrom [] registry filled c n h found =
      let same : ok registry ≡ ok filled = h in
      inl (subst (λ r. lookup c r.channels ≡ some n) (sym (ok_inj same)) found)
  register_channels-BuiltFrom ((name, entry) ∷ rest) registry filled c n h found =
      let (built, was, later) = bind-ok (build_channel_notifier env config name entry) _ h in
      elim (register_channels-BuiltFrom rest (register name built registry) filled c n later
        found) [ inl before ↦ inserted before was | inr from_rest ↦ inr (inr from_rest) ]
    where
      inserted :
          {built : Backend}
          → lookup c (register name built registry).channels ≡ some n
          → build_channel_notifier env config name entry ≡ ok built
          → (lookup c registry.channels ≡ some n) ⊎ BuiltFrom ((name, entry) ∷ rest) c n
      inserted {built} before was = elim (Bool-cases (name == c)) [
        | inl same ↦
            let it : some built ≡ some n =
              sym (lookup-register name c built registry ∙ rw same) ∙ before in
            inr (inl ((eq_iff name c).0 same, was ∙ ap ok (some_inj it)))
        | inr other ↦
            let it : lookup c registry.channels ≡ some n =
              sym (lookup-register name c built registry ∙ rw other) ∙ before in
            inl it
      ]

  checked_registry-routing :
      (unresolved : List String) (filled registry : ChannelRegistry Backend)
      (default_notifier d : Backend)
      → checked_registry unresolved filled default_notifier ≡ ok (routing registry d)
      → (unresolved ≡ []) × (filled ≡ registry)
  unfolding checked_registry
  checked_registry-routing [] filled registry default_notifier d h = (refl, cc h)
  checked_registry-routing (x ∷ xs) filled registry default_notifier d h = absurd (cc h)

  has_channel-lookup :
      (registry : ChannelRegistry Backend) (c : String)
      → not (has_channel c registry) ≡ false
      → (n : Backend) × (lookup c registry.channels ≡ some n)
  unfolding has_channel
  has_channel-lookup registry c h = elim (Option-cases (lookup c registry.channels)) [
    | inl missing ↦ let gone : true ≡ false = rw missing at h in absurd (cc gone)
    | inr found ↦ found
  ]

  routing_notifier-BuiltFrom :
      (rules : RuleConfiguration) (registry : ChannelRegistry Backend)
      (default_notifier d : Backend) (c : String)
      → routing_notifier env config default_notifier rules ≡ ok (routing registry d)
      → (any_of (names c) rules.pre_llm || any_of (names c) rules.post_llm) ≡ true
      → (n : Backend) × (lookup c registry.channels ≡ some n) × BuiltFrom rules.channels c n
  unfolding routing_notifier collect_unresolved_channels set_default
  routing_notifier-BuiltFrom rules registry default_notifier d c h named =
      let start = set_default default_notifier new_registry in
      let (filled, registered, checked) =
        bind-ok (register_channels env config rules.channels start) _ h in
      let (all_known, same) =
        checked_registry-routing (collect_unresolved_channels rules filled) filled registry
          default_notifier d checked in
      let listed : contains c (reference_rules (reference_rules [] rules.pre_llm) rules.post_llm)
          ≡ true =
        contains-reference_rules c (reference_rules [] rules.pre_llm) rules.post_llm
        ∙ ap (λ b. b || any_of (names c) rules.post_llm)
            (contains-reference_rules c [] rules.pre_llm)
        ∙ named in
      let (n, found) =
        has_channel-lookup filled c
          (keep-empty c (λ x. not (has_channel x filled)) _ all_known listed) in
      let origin = register_channels-BuiltFrom rules.channels start filled c n registered found in
      (n, subst (λ r. lookup c r.channels ≡ some n) same found, not_before origin)
    where
      not_before :
          {n : Backend}
          → (lookup c (set_default default_notifier new_registry).channels ≡ some n)
            ⊎ BuiltFrom rules.channels c n
          → BuiltFrom rules.channels c n
      not_before (inl h') = absurd (unfold lookup in cc h')
      not_before (inr b) = b

  -- If a routing notifier is created, every channel that a route or an escalation of the rules names has a
  -- notifier, which was built from an entry of this name under `channels:`, so that no message to it
  -- falls back to the default.
  pub create_notifier-BuiltFrom :
      (rules : RuleConfiguration) (registry : ChannelRegistry Backend) (d : Backend) (c : String)
      → config.rules ≡ some (ok rules)
      → create_notifier env config ≡ ok (routing registry d)
      → (any_of (names c) rules.pre_llm || any_of (names c) rules.post_llm) ≡ true
      → (n : Backend) × (lookup c registry.channels ≡ some n) × BuiltFrom rules.channels c n
  unfolding create_notifier with_rules
  create_notifier-BuiltFrom rules registry d c parsed created named =
      let (default_notifier, _, rest) =
        bind-ok (resolve_factory config.notifier_type (build_notifier_registry config)) _ created in
      let over_rules : routing_notifier env config default_notifier rules
          ≡ ok (routing registry d) =
        sym (ap (with_rules env config default_notifier) parsed) ∙ rest in
      routing_notifier-BuiltFrom rules registry default_notifier d c over_rules named
