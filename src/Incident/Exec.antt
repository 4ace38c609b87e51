-- ===== src/Incident/Exec.antt =====
-- Asynchronous code as a state monad over the history of calls, in which a throw keeps the history; and
-- triples that prove what a program leaves in it.
use junando.Common.{◌∷◌, ◌≡◌, refl, Bool, true, false, if◌then◌else◌}
use junando.Common.Results.{Result, ok, err}
use junando.Incident.Calls.{Thrown, Call, History}

abbrev pub Exec : Type 0 → Type 0
Exec A = History → Result Thrown A × History

module _ {A : Type 0} where
  abbrev pub pure : A → Exec A
  pure a h = (ok a, h)

  abbrev pub throw : Thrown → Exec A
  throw e h = (err e, h)

  -- Make a call: it is recorded, and its answer is what the port says behind the earlier calls.
  unfoldable pub ask : Call → (History → Result Thrown A) → Exec A
  ask c answer h = (answer h, c ∷ h)

  -- A call that cannot throw.
  unfoldable pub tell : Call → (History → A) → Exec A
  tell c answer h = (ok (answer h), c ∷ h)

  -- `try { ... } catch`: what was thrown, as a value.
  unfoldable pub try : Exec A → Exec (Result Thrown A)
  try m h = let (r, h') = m h in (ok r, h')

module _ {A B : Type 0} where
  abbrev continue : Result Thrown A → (A → Exec B) → Exec B
  continue (ok a) f h = f a h
  continue (err e) f h = (err e, h)

  infixl 10 ◌>>=◌ ◌>>◌
  unfoldable pub ◌>>=◌ : Exec A → (A → Exec B) → Exec B
  ◌>>=◌ m f h = let (r, h') = m h in continue r f h'

  abbrev pub ◌>>◌ : Exec A → Exec B → Exec B
  m >> n = m >>= λ _. n

module _ {A : Type 0} where
  -- What holds when a program ends: one predicate for its value, one for what it throws.
  abbrev pub Ends :
      (A → History → Type 0) → (Thrown → History → Type 0) → Result Thrown A → History → Type 0
  Ends good bad (ok a) h = good a h
  Ends good bad (err e) h = bad e h

  -- From a history with `start`, the program ends with `good`, or throws with `bad`.
  unfoldable pub Triple :
      (History → Type 0) → Exec A → (A → History → Type 0) → (Thrown → History → Type 0) → Type 0
  Triple start m good bad = (h : History) → start h → Ends good bad (m h).0 (m h).1

  Ends-map :
      (good good' : A → History → Type 0) (bad bad' : Thrown → History → Type 0)
      (r : Result Thrown A) (h : History)
      → ((a : A) → good a h → good' a h)
      → ((e : Thrown) → bad e h → bad' e h)
      → Ends good bad r h
      → Ends good' bad' r h
  Ends-map good good' bad bad' (ok a) h f g x = f a x
  Ends-map good good' bad bad' (err e) h f g x = g e x

  Ends-both :
      (good : A → History → Type 0) (bad : Thrown → History → Type 0) (h : History)
      → ((a : A) → good a h)
      → ((e : Thrown) → bad e h)
      → (r : Result Thrown A) → Ends good bad r h
  Ends-both good bad h f g (ok a) = f a
  Ends-both good bad h f g (err e) = g e

  pub Triple-pure :
      (start : History → Type 0) (a : A) (good : A → History → Type 0)
      (bad : Thrown → History → Type 0)
      → ((h : History) → start h → good a h)
      → Triple start (pure a) good bad
  unfolding Triple
  Triple-pure start a good bad f h s = f h s

  pub Triple-throw :
      (start : History → Type 0) (e : Thrown) (good : A → History → Type 0)
      (bad : Thrown → History → Type 0)
      → ((h : History) → start h → bad e h)
      → Triple start (throw e) good bad
  unfolding Triple
  Triple-throw start e good bad f h s = f h s

  pub Triple-tell :
      (start : History → Type 0) (c : Call) (answer : History → A) (good : A → History → Type 0)
      (bad : Thrown → History → Type 0)
      → ((h : History) → start h → (a : A) → good a (c ∷ h))
      → Triple start (tell c answer) good bad
  unfolding Triple tell
  Triple-tell start c answer good bad f h s = f h s (answer h)

  pub Triple-ask :
      (start : History → Type 0) (c : Call) (answer : History → Result Thrown A)
      (good : A → History → Type 0) (bad : Thrown → History → Type 0)
      → ((h : History) → start h → (a : A) → good a (c ∷ h))
      → ((h : History) → start h → (e : Thrown) → bad e (c ∷ h))
      → Triple start (ask c answer) good bad
  unfolding Triple ask
  Triple-ask start c answer good bad f g h s = Ends-both good bad (c ∷ h) (f h s) (g h s) (answer h)

  pub Triple-weaken :
      (start : History → Type 0) (m : Exec A) (good good' : A → History → Type 0)
      (bad bad' : Thrown → History → Type 0)
      → ((a : A) (h : History) → good a h → good' a h)
      → ((e : Thrown) (h : History) → bad e h → bad' e h)
      → Triple start m good bad
      → Triple start m good' bad'
  unfolding Triple
  Triple-weaken start m good good' bad bad' f g t h s =
      Ends-map good good' bad bad' (m h).0 (m h).1 (λ a. f a _) (λ e. g e _) (t h s)

  pub Triple-from :
      (start start' : History → Type 0) (m : Exec A) (good : A → History → Type 0)
      (bad : Thrown → History → Type 0)
      → ((h : History) → start h → start' h)
      → Triple start' m good bad
      → Triple start m good bad
  unfolding Triple
  Triple-from start start' m good bad f t h s = t h (f h s)

  pub Triple-if :
      (start : History → Type 0) (b : Bool) (m n : Exec A) (good : A → History → Type 0)
      (bad : Thrown → History → Type 0)
      → (b ≡ true → Triple start m good bad)
      → (b ≡ false → Triple start n good bad)
      → Triple start (if b then m else n) good bad
  Triple-if start true m n good bad t u = t refl
  Triple-if start false m n good bad t u = u refl

module _ {A : Type 0} where
  pub Ends-same :
      (after : History → Type 0) (r : Result Thrown A) (h : History)
      → Ends (λ _. after) (λ _. after) r h
      → after h
  Ends-same after (ok a) h x = x
  Ends-same after (err e) h x = x

  pub Triple-try :
      (start : History → Type 0) (m : Exec A) (after : History → Type 0)
      (bad : Thrown → History → Type 0)
      → Triple start m (λ _. after) (λ _. after)
      → Triple start (try m) (λ _. after) bad
  unfolding Triple try
  Triple-try start m after bad t h s = Ends-same after (m h).0 (m h).1 (t h s)

  -- What was thrown is a value, and what holds depends on it.
  pub Triple-caught :
      (start : History → Type 0) (m : Exec A) (good : A → History → Type 0)
      (bad bad' : Thrown → History → Type 0)
      → Triple start m good bad
      → Triple start (try m) (λ r. Ends good bad r) bad'
  unfolding Triple try
  Triple-caught start m good bad bad' t h s = t h s

module _ {A B : Type 0} where
  Ends-continue :
      (mid : A → History → Type 0) (good : B → History → Type 0) (bad : Thrown → History → Type 0)
      (f : A → Exec B)
      → ((a : A) → Triple (mid a) (f a) good bad)
      → (r : Result Thrown A) (h : History) → Ends mid bad r h
      → Ends good bad (continue r f h).0 (continue r f h).1
  unfolding Triple
  Ends-continue mid good bad f t (ok a) h x = t a h x
  Ends-continue mid good bad f t (err e) h x = x

  pub Triple-bind :
      (start : History → Type 0) (m : Exec A) (mid : A → History → Type 0) (f : A → Exec B)
      (good : B → History → Type 0) (bad : Thrown → History → Type 0)
      → Triple start m mid bad
      → ((a : A) → Triple (mid a) (f a) good bad)
      → Triple start (m >>= f) good bad
  unfolding Triple ◌>>=◌
  Triple-bind start m mid f good bad t u h s =
      Ends-continue mid good bad f (λ a. u a) (m h).0 (m h).1 (t h s)
