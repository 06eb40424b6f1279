-- ===== src/Connectors/Replay.antt =====
-- What the idempotency ledger of the fixture connectors keeps (engine/contextrail/connectors/fixture.py).
use contextrail.Prelude.{
  true, String, Option, none, some, is_some, List, ◌∷◌, ◌≡◌, refl, ◌⊎◌, inl, inr, Option-cases, ap,
  sym, ◌∙◌, arith, eq_iff,
}
use contextrail.Models.Value.{Fields}
use contextrail.Connectors.Base.{ok}
use contextrail.Connectors.Fixture.{Doc, find, apply}

module _ {D : Type 0} (apply_fn : D → Option D) (key : String) (before : D) where
  -- The write under the key either has not been recorded, and the content is as before; or it has,
  -- and the content is as before or changed once.
  abbrev pub IsOnce : Doc D → Type 0
  IsOnce doc =
      ((find key doc.ledger ≡ none) × (doc.content ≡ before))
      ⊎ ((is_some (find key doc.ledger) ≡ true)
          × ((doc.content ≡ before) ⊎ (apply_fn before ≡ some doc.content)))

  found_first :
      (ref : Fields) (ledger : List (String × Fields)) → find key ((key, ref) ∷ ledger) ≡ some ref
  found_first ref ledger = rw ((eq_iff key key).1 refl) refl

  apply_known :
      (fault_key : String) (ref : Fields) (doc : Doc D) (known : Fields)
      → find key doc.ledger ≡ some known
      → apply apply_fn fault_key key ref doc ≡ (ok (record { replayed = true; ref = known }), doc)
  unfolding apply
  apply_known fault_key ref doc known h = rw h refl

  -- what a first write under the key leaves
  abbrev IsFirst : Fields → Doc D → Doc D → Type 0
  IsFirst ref doc after =
      ((after.ledger ≡ doc.ledger) × (after.content ≡ doc.content))
      ⊎ ((after.ledger ≡ (key, ref) ∷ doc.ledger)
          × ((after.content ≡ doc.content) ⊎ (apply_fn doc.content ≡ some after.content)))

  apply_new :
      (fault_key : String) (ref : Fields) (doc : Doc D)
      → find key doc.ledger ≡ none
      → IsFirst ref doc (apply apply_fn fault_key key ref doc).1
  unfolding apply
  apply_new fault_key ref doc h = ground arith

  recorded :
      (ref : Fields) (doc after : Doc D)
      → after.ledger ≡ (key, ref) ∷ doc.ledger
      → is_some (find key after.ledger) ≡ true
  recorded ref doc after l = rw l (ap is_some (found_first ref doc.ledger))

  IsFirst-IsOnce :
      (ref : Fields) (doc after : Doc D)
      → find key doc.ledger ≡ none
      → doc.content ≡ before
      → IsFirst ref doc after
      → IsOnce after
  IsFirst-IsOnce ref doc after h p (inl (l, c)) = inl (ap (find key) l ∙ h, c ∙ p)
  IsFirst-IsOnce ref doc after h p (inr (l, inl c)) = inr (recorded ref doc after l, inl (c ∙ p))
  IsFirst-IsOnce ref doc after h p (inr (l, inr f)) =
      inr (recorded ref doc after l, inr (ap apply_fn (sym p) ∙ f))

  pub apply-IsOnce :
      (fault_key : String) (ref : Fields) (doc : Doc D)
      → IsOnce doc
      → IsOnce (apply apply_fn fault_key key ref doc).1
  apply-IsOnce fault_key ref doc (inr (h, p)) = elim (Option-cases (find key doc.ledger)) [
    | inl e ↦ absurd (ground arith)
    | inr (known, e) ↦ rw (apply_known fault_key ref doc known e) (inr (h, p))
  ]
  apply-IsOnce fault_key ref doc (inl (h, p)) =
      IsFirst-IsOnce ref doc (apply apply_fn fault_key key ref doc).1 h p
        (apply_new fault_key ref doc h)
