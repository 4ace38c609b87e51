-- ===== src/Dedup/Tests.antt =====
-- A fingerprint that is claimed for five minutes at second 100, and calls for another one.
use junando.Common.{String, false, List, [], ◌∷◌, ◌≡◌, ◌≢◌, refl, eq_iff}
use junando.Common.Assoc.{lookup}
use junando.Dedup.Memory.{is_new}
use junando.Dedup.Memory.Window.{Op, check, release, run, claim_window}

abbrev other_calls : List Op
other_calls = check "b" 60 120000 ∷ release "b" ∷ []

b-not-a : ◌≢◌ {A = String} "b" "a"
b-not-a e = cc ((eq_iff "b" "a").1 e)

claim_window_example :
    (is_new "a" 300 200000 (run other_calls (is_new "a" 300 100000 []).1)).0.is_new ≡ false
claim_window_example =
    claim_window "a" 300 300 100000 200000 [] other_calls (unfold is_new lookup in refl)
      (b-not-a, (b-not-a, tt))
