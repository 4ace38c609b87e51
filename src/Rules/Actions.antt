-- ===== src/Rules/Actions.antt =====
-- action-dispatcher.ts: the actions of a rule, gathered into one result.
use mathlib.Core.List.{foldl, append_assoc, append-nil}
use junando.Common.{
  String, Bool, true, false, ◌||◌, List, [], ◌∷◌, ◌++◌, ◌≡◌, ◌∙◌, refl, sym, ap, Option, none, some,
  arith, ◌==◌, if◌then◌else◌, or_option,
}
use junando.Common.Lists.{any_of, keep}
use junando.Common.Assoc.{lookup, insert, lookup-insert}
use junando.Domain.Rule.{RuleAction, suppress, route, escalate, tag}

-- `RuleActionResult`
pub record RuleActionResult : Type 0 where
  pub suppressed : Bool
  pub actions : List RuleAction
  pub matched_rule_id : Option String
  pub tags : List (String × String)

abbrev pub empty_result : RuleActionResult
empty_result = record { suppressed = false; actions = []; matched_rule_id = none; tags = [] }

-- `HANDLER_MAP`
handle_action : RuleActionResult → RuleAction → RuleActionResult
handle_action r suppress = record r { suppressed = true }
handle_action r (route channel) = record r { actions = r.actions ++ route channel ∷ [] }
handle_action r (escalate channel) = record r { actions = r.actions ++ escalate channel ∷ [] }
handle_action r (tag key value) = record r { tags = insert key value r.tags }

unfoldable pub dispatch_actions : List RuleAction → RuleActionResult
unfolding handle_action
dispatch_actions actions = foldl handle_action empty_result actions

abbrev pub is_suppress : RuleAction → Bool
is_suppress suppress = true
is_suppress _ = false

-- The actions that name a channel.
abbrev pub has_channel : RuleAction → Bool
has_channel (route _) = true
has_channel (escalate _) = true
has_channel _ = false

-- The value that the last tag action for a key writes.
abbrev pub last_tag : String → List RuleAction → Option String
last_tag k [] = none
last_tag k (tag key value ∷ rest) =
    or_option (last_tag k rest) (if key == k then some value else none)
last_tag k (_ ∷ rest) = last_tag k rest

or_option_if :
    (o : Option String) (b : Bool) (v : String) (p : Option String)
    → or_option o (if b then some v else p) ≡ or_option (or_option o (if b then some v else none)) p
or_option_if none true v p = refl
or_option_if none false v p = refl
or_option_if (some w) b v p = refl

or_option-none : (o : Option String) → or_option o none ≡ o
or_option-none none = refl
or_option-none (some v) = refl

module _ (k : String) where
  dispatch-from :
      (r : RuleActionResult) (actions : List RuleAction)
      → ((foldl handle_action r actions).suppressed ≡ (r.suppressed || any_of is_suppress actions))
        × ((foldl handle_action r actions).actions ≡ r.actions ++ keep has_channel actions)
        × (lookup k (foldl handle_action r actions).tags
            ≡ or_option (last_tag k actions) (lookup k r.tags))
        × ((foldl handle_action r actions).matched_rule_id ≡ r.matched_rule_id)
  unfolding handle_action any_of keep
  dispatch-from r [] = (ground arith, sym (append-nil r.actions), refl, refl)
  dispatch-from r (suppress ∷ rest) =
      let (s, a, t, i) = dispatch-from (record r { suppressed = true }) rest in
      let e : true ≡ (r.suppressed || true) = ground arith in (s ∙ e, a, t, i)
  dispatch-from r (route channel ∷ rest) =
      let (s, a, t, i) =
        dispatch-from (record r { actions = r.actions ++ route channel ∷ [] }) rest in
      (s, a ∙ append_assoc r.actions (route channel ∷ []) _, t, i)
  dispatch-from r (escalate channel ∷ rest) =
      let (s, a, t, i) =
        dispatch-from (record r { actions = r.actions ++ escalate channel ∷ [] }) rest in
      (s, a ∙ append_assoc r.actions (escalate channel ∷ []) _, t, i)
  dispatch-from r (tag key value ∷ rest) =
      let (s, a, t, i) = dispatch-from (record r { tags = insert key value r.tags }) rest in
      (
        s,
        a,
        t
            ∙ ap (or_option (last_tag k rest)) (lookup-insert key k value r.tags)
            ∙ or_option_if (last_tag k rest) (key == k) value (lookup k r.tags),
        i,
      )

  -- The result of the actions of a rule, whatever their order: it is suppressed exactly when one of them
  -- suppresses; its actions are those that name a channel, in their order; each tag has the value that
  -- the last tag action for its key gives; and no rule id is set.
  pub dispatch_actions_lem :
      (actions : List RuleAction)
      → ((dispatch_actions actions).suppressed ≡ any_of is_suppress actions)
        × ((dispatch_actions actions).actions ≡ keep has_channel actions)
        × (lookup k (dispatch_actions actions).tags ≡ last_tag k actions)
        × ((dispatch_actions actions).matched_rule_id ≡ none)
  unfolding dispatch_actions lookup
  dispatch_actions_lem actions =
      let (s, a, t, i) = dispatch-from empty_result actions in (s, a, t ∙ or_option-none _, i)
