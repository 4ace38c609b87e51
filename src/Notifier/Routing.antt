-- ===== src/Notifier/Routing.antt =====
-- `RoutingNotifier`: the deliveries of a message, by the channel or by the actions of the rules.
pub mod Deliveries
use junando.Common.{
  String, Bool, true, false, ◌||◌, Option, none, some, List, [], ◌∷◌, ◌++◌, map, ◌==◌,
  if◌then◌else◌,
}
use mathlib.Core.List.{foldl}
use junando.Common.Lists.{any_of}
use junando.Common.Results.{Result, ok, err, ◌>>=◌}
use junando.Domain.Rule.{RuleAction, suppress, route, escalate, tag}
use junando.Notifier.Registry.{ChannelRegistry, resolve, has_channel}

-- `Set<string>`, in the order of insertion.
unfoldable pub add : String → List String → List String
add channel channels =
    if any_of (λ c. c == channel) channels then channels else channels ++ channel ∷ []

-- `ActionDispatchContext`, less what does not change.
pub record ActionDispatchContext : Type 0 where
  pub route_channels : List String
  pub escalation_channels : List String
  pub suppressed : Bool

abbrev pub new_context : ActionDispatchContext
new_context = record { route_channels = []; escalation_channels = []; suppressed = false }

-- `ACTION_DISPATCH`
unfoldable pub dispatch : ActionDispatchContext → RuleAction → ActionDispatchContext
unfolding add
dispatch ctx suppress = record ctx { suppressed = true }
dispatch ctx (route channel) = record ctx { route_channels = add channel ctx.route_channels }
dispatch ctx (escalate channel) = record ctx {
  escalation_channels = add channel ctx.escalation_channels;
}
dispatch ctx (tag key value) = ctx

-- A message to a channel, or to the default, and the notifier that takes it.
pub record Delivery (N : Type 0) : Type 0 where
  pub channel : Option String
  pub notifier : N

module _ {N : Type 0} where
  module _ (registry : ChannelRegistry N) (default_notifier : N) where
    -- An unknown channel is a warning, and the default notifier.
    unfoldable pub resolve_or_default : String → Result String N
    resolve_or_default channel =
        if has_channel channel registry then resolve channel registry else ok default_notifier

    unfoldable pub deliver : String → Result String (Delivery N)
    unfolding resolve_or_default
    deliver channel =
        resolve_or_default channel >>= λ n. ok (record { channel = some channel; notifier = n })

    abbrev pub deliver_default : Delivery N
    deliver_default = record { channel = none; notifier = default_notifier }

    -- `send`
    unfoldable pub send : Option String → Result String (Delivery N)
    unfolding deliver
    send none = ok deliver_default
    send (some channel) = deliver channel

    unfoldable pub deliver_each : List String → Result String (List (Delivery N))
    unfolding deliver
    deliver_each [] = ok []
    deliver_each (channel ∷ rest) = deliver channel >>= λ d. deliver_each rest >>= λ ds. ok (d ∷ ds)

    -- Where no action routes, the default notifier takes the message.
    unfoldable pub route_deliveries : List String → Result String (List (Delivery N))
    unfolding deliver_each
    route_deliveries [] = ok (deliver_default ∷ [])
    route_deliveries (channel ∷ rest) = deliver_each (channel ∷ rest)

    unfoldable pub deliveries : ActionDispatchContext → Result String (List (Delivery N))
    unfolding route_deliveries deliver_each
    deliveries ctx =
        if ctx.suppressed
        then ok []
        else route_deliveries ctx.route_channels >>= λ routed.
            deliver_each ctx.escalation_channels >>= λ escalated. ok (routed ++ escalated)

    -- `sendWithActions`: the deliveries that are started together.
    unfoldable pub send_with_actions : List RuleAction → Result String (List (Delivery N))
    unfolding deliveries dispatch
    send_with_actions actions = deliveries (foldl dispatch new_context actions)
