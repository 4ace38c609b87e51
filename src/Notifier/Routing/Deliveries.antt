-- ===== src/Notifier/Routing/Deliveries.antt =====
-- Which deliveries the actions of the rules make.
use mathlib.Core.Option
use junando.Common.{
  String, Bool, false, ◌||◌, Option, none, some, List, [], ◌∷◌, ◌++◌, map, ◌==◌, ◌≡◌, refl, ap,
  arith, eq_iff, or_else, Option-cases, inl, inr,
}
use junando.Common.Lists.{any_of}
use junando.Common.Assoc.{lookup}
use junando.Common.Results.{ok}
use junando.Domain.Rule.{RuleAction, route, escalate}
use junando.Notifier.Registry.{ChannelRegistry, resolve, has_channel, or_throw}
use junando.Notifier.Routing.{add, Delivery, resolve_or_default, deliver, send}

abbrev pub contains : String → List String → Bool
contains c [] = false
contains c (x ∷ xs) = x == c || contains c xs

-- The action names the channel, as a route or as an escalation.
abbrev pub routes_to : String → RuleAction → Bool
routes_to c (route channel) = channel == c
routes_to c _ = false

abbrev pub escalates_to : String → RuleAction → Bool
escalates_to c (escalate channel) = channel == c
escalates_to c _ = false

contains-append :
    (c x : String) (xs : List String) → contains c (xs ++ x ∷ []) ≡ (contains c xs || x == c)
contains-append c x [] = ground arith
contains-append c x (y ∷ ys) = ground (arith, contains-append c x ys)

contains-any_of : (c : String) (xs : List String) → any_of (λ x. x == c) xs ≡ contains c xs
unfolding any_of
contains-any_of c [] = refl
contains-any_of c (x ∷ xs) = ap (λ b. x == c || b) (contains-any_of c xs)

contains-eq : (c x : String) (xs : List String) → x ≡ c → contains x xs ≡ contains c xs
contains-eq c x xs e = ap (λ s. contains s xs) e

pub contains-add :
    (c x : String) (xs : List String) → contains c (add x xs) ≡ (contains c xs || x == c)
unfolding add
contains-add c x xs =
    ground (arith, contains-any_of x xs, contains-append c x xs, eq_iff x c, contains-eq c x xs)

module _ {N : Type 0} (registry : ChannelRegistry N) (default_notifier : N) where
  -- The notifier that a channel stands for: the registered one, or the default.
  abbrev pub target : Option String → N
  target none = default_notifier
  target (some channel) = or_else (lookup channel registry.channels) default_notifier

  abbrev addressed : Option String → Delivery N
  addressed channel = record { channel = channel; notifier = target channel }

  deliver-addressed :
      (channel : String) → deliver registry default_notifier channel ≡ ok (addressed (some channel))
  unfolding deliver resolve_or_default has_channel resolve or_throw
  deliver-addressed channel = elim (Option-cases (lookup channel registry.channels)) [
    | inl missing ↦ rw missing
    | inr (n, found) ↦ rw found
  ]

  -- A message to a channel never fails to find a notifier: it goes to the one that is registered for the
  -- channel, and without one, or without a channel, to the default.
  pub send-target :
      (channel : Option String)
      → send registry default_notifier channel
        ≡ ok (record { channel = channel; notifier = target channel })
  unfolding send
  send-target none = refl
  send-target (some channel) = deliver-addressed channel

  abbrev routed : List String → List (Delivery N)
  routed [] = addressed none ∷ []
  routed (channel ∷ rest) = map (λ c. addressed (some c)) (channel ∷ rest)

  abbrev pub goes_to : String → Delivery N → Bool
  goes_to c d = or_else (Option.map (λ x. x == c) d.channel) false
