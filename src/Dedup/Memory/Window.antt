-- ===== src/Dedup/Memory/Window.antt =====
-- The window of a claim: what a check finds from the one that finds a fingerprint new until its time to
-- live is over or it is reset.
use junando.Common.{
  ℕ, ◌+◌, ◌*◌, String, true, false, none, some, List, [], ◌∷◌, ◌≡◌, ◌≢◌, ◌∙◌, refl, arith, eq_iff,
  eq_refl, ltb, if◌then◌else◌,
}
use junando.Common.Lists.{All}
use junando.Common.Assoc.{lookup, remove, lookup-insert, lookup-remove}
use junando.Dedup.Memory.{Store, is_live, is_new, reset}

-- One call on the store: a check of a fingerprint with a time to live at a time, or a reset.
pub data Op : Type 0 where
  check : String → ℕ → ℕ → Op
  release : String → Op

abbrev pub target : Op → String
target (check fp ttl now) = fp
target (release fp) = fp

unfoldable pub run : List Op → Store → Store
run [] store = store
run (check fp ttl now ∷ rest) store = run rest (is_new fp ttl now store).1
run (release fp ∷ rest) store = run rest (reset fp store)

-- A call on another fingerprint leaves an entry alone.
lookup-is_new :
    (fp j : String) (ttl now : ℕ) (store : Store)
    → fp ≢ j
    → lookup j (is_new fp ttl now store).1 ≡ lookup j store
unfolding is_new
lookup-is_new fp j ttl now store ne =
    ground (arith, lookup-insert fp j (now + ttl * 1000) store, eq_iff fp j)

lookup-run :
    (j : String) (ops : List Op) (store : Store)
    → All (λ o. target o ≢ j) ops
    → lookup j (run ops store) ≡ lookup j store
unfolding run reset
lookup-run j [] store h = refl
lookup-run j (check fp ttl now ∷ rest) store h =
    lookup-run j rest _ h.1 ∙ lookup-is_new fp j ttl now store h.0
lookup-run j (release fp ∷ rest) store h =
    lookup-run j rest _ h.1 ∙ ground (arith, lookup-remove fp j store, eq_iff fp j)

lookup-claimed :
    (fp : String) (ttl now : ℕ) (store : Store)
    → (is_new fp ttl now store).0.is_new ≡ true
    → lookup fp (is_new fp ttl now store).1 ≡ some (now + ttl * 1000)
unfolding is_new
lookup-claimed fp ttl now store h =
    ground (arith, lookup-insert fp fp (now + ttl * 1000) store, eq_refl fp)

checked-at :
    (fp : String) (ttl now expiry : ℕ) (store : Store)
    → lookup fp store ≡ some expiry
    → (is_new fp ttl now store).0.is_new ≡ (if ltb now expiry then false else true)
unfolding is_new is_live
checked-at fp ttl now expiry store h = rw h (ground arith)

-- After a check that found a fingerprint new, and any calls for other fingerprints, the next check of
-- it finds a duplicate exactly if it comes before the time to live of the first check is over.
pub claim_window :
    (fp : String) (ttl ttl' start now : ℕ) (store : Store) (ops : List Op)
    → (is_new fp ttl start store).0.is_new ≡ true
    → All (λ o. target o ≢ fp) ops
    → (is_new fp ttl' now (run ops (is_new fp ttl start store).1)).0.is_new
      ≡ (if ltb now (start + ttl * 1000) then false else true)
claim_window fp ttl ttl' start now store ops fresh others =
    checked-at fp ttl' now (start + ttl * 1000) _
      (lookup-run fp ops _ others ∙ lookup-claimed fp ttl start store fresh)

-- After a reset, and any calls for other fingerprints, the next check finds the fingerprint new, at
-- whatever time it comes.
pub reset-is_new :
    (fp : String) (ttl now : ℕ) (store : Store) (ops : List Op)
    → All (λ o. target o ≢ fp) ops
    → (is_new fp ttl now (run ops (reset fp store))).0.is_new ≡ true
unfolding is_new reset is_live
reset-is_new fp ttl now store ops others =
    let gone : lookup fp (run ops (remove fp store)) ≡ none =
      lookup-run fp ops _ others ∙ ground (arith, lookup-remove fp fp store, eq_refl fp) in
    rw gone
