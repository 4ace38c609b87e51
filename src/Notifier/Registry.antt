-- ===== src/Notifier/Registry.antt =====
-- `ChannelRegistry`: notifiers by the names of their channels, with a default.
use junando.Common.{String, Bool, Option, none, some, List, []}
use junando.Common.Assoc.{lookup, insert, has}
use junando.Common.Results.{Result, ok, err}

pub record ChannelRegistry (N : Type 0) : Type 0 where
  pub channels : List (String × N)
  pub fallback : Option N

module _ {N : Type 0} where
  abbrev pub new_registry : ChannelRegistry N
  new_registry = record { channels = []; fallback = none }

  unfoldable pub register : String → N → ChannelRegistry N → ChannelRegistry N
  register channel notifier registry = record registry {
    channels = insert channel notifier registry.channels;
  }

  unfoldable pub set_default : N → ChannelRegistry N → ChannelRegistry N
  set_default notifier registry = record registry { fallback = some notifier }

  unfoldable pub or_throw : Option N → Option N → String → Result String N
  or_throw (some instance_) fallback channel = ok instance_
  or_throw none (some notifier) channel = ok notifier
  or_throw none none channel = err channel

  -- The error names the unknown channel.
  unfoldable pub resolve : String → ChannelRegistry N → Result String N
  unfolding or_throw
  resolve channel registry = or_throw (lookup channel registry.channels) registry.fallback channel

  unfoldable pub has_channel : String → ChannelRegistry N → Bool
  has_channel channel registry = has channel registry.channels
