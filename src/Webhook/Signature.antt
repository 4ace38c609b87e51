-- ===== src/Webhook/Signature.antt =====
-- `verifySlackSignature`, and what it accepts.
use Prim.Native.String.{len}
use text.Mathlib.TextLemmas.{cons-append}
use Prim.Native.String
use junando.Common.{
  ℕ, ◌+◌, ◌-◌, ◌/◌, ◌≤◌, String, Bool, true, false, not, ◌||◌, Option, none, some, ◌≡◌, ◌↔◌, ◌∙◌,
  refl, sym, ap, some_inj, arith, ◌==◌, eq_iff, eq_refl, ltb, eqb, eqb_iff, if◌then◌else◌,
  Bool-cases, inl, inr,
}
use junando.Common.Text.{is_empty}
use junando.Webhook.Effects.{Platform}

-- `Math.abs(a - b)`
abbrev pub distance : ℕ → ℕ → ℕ
distance a b = (a - b) + (b - a)

-- The bytes of both texts are compared only where they are as many.
timing_safe_equal : String → String → Bool
timing_safe_equal s t = if not (eqb (len s) (len t)) then false else s == t

unfoldable pub computed_signature : Platform → String → String → String → String
computed_signature platform timestamp body signing_secret = String.◌++◌ "v0=" (
    platform.hmac_hex signing_secret
      (String.◌++◌ "v0:" (String.◌++◌ timestamp (String.◌++◌ ":" body))))

is_recent : ℕ → Option ℕ → Bool
is_recent current none = false
is_recent current (some request_time) = not (ltb 300 (distance current request_time))

-- Both headers are there, and neither is empty.
check_signature : Platform → String → String → String → String → Bool
unfolding is_recent timing_safe_equal computed_signature
check_signature platform signature timestamp body signing_secret =
    if is_empty signature || is_empty timestamp
    then false
    else if not (is_recent (platform.now_ms / 1000) (platform.parse_int timestamp))
    then false
    else timing_safe_equal signature (computed_signature platform timestamp body signing_secret)

unfoldable pub verify_slack_signature :
    Platform → Option String → Option String → String → String → Bool
unfolding check_signature
verify_slack_signature platform (some signature) (some timestamp) body signing_secret =
    check_signature platform signature timestamp body signing_secret
verify_slack_signature platform _ _ body signing_secret = false

-- A request that Slack signed with the secret, at most five minutes away.
pub record IsSigned (platform : Platform) (signature timestamp : Option String)
    (body signing_secret : String) : Type 0 where
  pub stamp : String
  pub request_time : ℕ
  pub stamped : timestamp ≡ some stamp
  pub has_stamp : is_empty stamp ≡ false
  pub timed : platform.parse_int stamp ≡ some request_time
  pub recent : distance (platform.now_ms / 1000) request_time ≤ 300
  pub signed : signature ≡ some (computed_signature platform stamp body signing_secret)

timing_safe_equal_iff : (s t : String) → (timing_safe_equal s t ≡ true) ↔ (s ≡ t)
unfolding timing_safe_equal
timing_safe_equal_iff s t = (
  (λ h. elim (Bool-cases (eqb (len s) (len t))) [
    | inl same ↦ let e : (s == t) ≡ true = rw same at h in (eq_iff s t).0 e
    | inr other ↦ let gone : false ≡ true = rw other at h in absurd (cc gone)
  ]),
  λ e. rw (← e) (rw ((eqb_iff (len s) (len s)).1 refl) (eq_refl s)),
)

computed_signature-is_empty :
    (platform : Platform) (timestamp body signing_secret : String)
    → is_empty (computed_signature platform timestamp body signing_secret) ≡ false
unfolding computed_signature
computed_signature-is_empty platform timestamp body signing_secret =
    rw (cons-append "v" "0=" (platform.hmac_hex signing_secret _))

-- A check of the parts, taken apart.
check_signature-true :
    (platform : Platform) (signature timestamp body signing_secret : String)
    → check_signature platform signature timestamp body signing_secret ≡ true
    → (is_empty timestamp ≡ false)
      × (is_recent (platform.now_ms / 1000) (platform.parse_int timestamp) ≡ true)
      × (timing_safe_equal signature (computed_signature platform timestamp body signing_secret)
          ≡ true)
unfolding check_signature
check_signature-true platform signature timestamp body signing_secret h =
    (ground arith, ground arith, ground arith)

is_recent-true :
    (current : ℕ) (o : Option ℕ)
    → is_recent current o ≡ true
    → (t : ℕ) × (o ≡ some t) × (distance current t ≤ 300)
unfolding is_recent
is_recent-true current none h = absurd (cc h)
is_recent-true current (some t) h = (t, refl, ground arith)

-- A signature is accepted exactly if it is that of the body under the secret, with a time stamp that is a
-- number of seconds at most five minutes from now.
pub verify_slack_signature_iff :
    (platform : Platform) (signature timestamp : Option String) (body signing_secret : String)
    → (verify_slack_signature platform signature timestamp body signing_secret ≡ true)
      ↔ IsSigned platform signature timestamp body signing_secret
unfolding verify_slack_signature check_signature is_recent
verify_slack_signature_iff platform (some s) (some t) body secret = (
  (λ h.
      let (has_stamp, recent, equal) = check_signature-true platform s t body secret h in
      let (request_time, timed, near) =
        is_recent-true (platform.now_ms / 1000) (platform.parse_int t) recent in
      record {
        stamp = t;
        request_time = request_time;
        stamped = refl;
        has_stamp = has_stamp;
        timed = timed;
        recent = near;
        signed = ap some ((timing_safe_equal_iff _ _).0 equal);
      }),
  λ i.
      let stamped : t ≡ i.stamp = some_inj i.stamped in
      let signed : s ≡ computed_signature platform t body secret =
        some_inj i.signed ∙ ap (λ x. computed_signature platform x body secret) (sym stamped) in
      let timed : platform.parse_int t ≡ some i.request_time =
        ap platform.parse_int stamped ∙ i.timed in
      let has_stamp : is_empty t ≡ false = ap is_empty stamped ∙ i.has_stamp in
      rw signed (
        rw (computed_signature-is_empty platform t body secret, has_stamp, timed)
          (rw ((timing_safe_equal_iff _ _).1 refl) (ground (arith, i.recent)))),
)
verify_slack_signature_iff platform (some s) none body secret =
    ((λ h. absurd (cc h)), λ i. absurd (cc i.stamped))
verify_slack_signature_iff platform none t body secret =
    ((λ h. absurd (cc h)), λ i. absurd (cc i.signed))
