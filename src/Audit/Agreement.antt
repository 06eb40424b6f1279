-- ===== src/Audit/Agreement.antt =====
-- How far the last hash binds the rows before it.
use Prim.Native.String.{◌++◌, count}
use text.Mathlib.TextLemmas.{append_inj}
use contextrail.Prelude.{
  refl, String, Option, some, List, [], ◌∷◌, ◌≡◌, sym, ap, ◌∙◌, length, >>=-eq-some, some-eq-some,
  arith,
}
use contextrail.Canonical.{Encoder, canonical_json}
use contextrail.Audit.Chain.{Row, body, genesis, last_hash, chain_hash, hash_of}
use contextrail.Audit.Linked.{Continues, Linked, next, none_left}

module _ (enc : Encoder) where
  -- the text whose digest, behind the hash before, is a row's hash
  abbrev pub text_of : Row → Option String
  text_of row = canonical_json enc (body row.event row.payload row.at)

  -- sha256 has different digests for what two rows in the same place hash, if that is different.
  abbrev pub Distinguishes : List Row → List Row → Type 0
  Distinguishes (x ∷ xs) (y ∷ ys) =
      ((s t : String)
        → text_of x ≡ some s
        → text_of y ≡ some t
        → enc.sha256 (x.prev_hash ++ s) ≡ enc.sha256 (y.prev_hash ++ t)
        → x.prev_hash ++ s ≡ y.prev_hash ++ t)
      × Distinguishes xs ys
  Distinguishes _ _ = Unit

  -- all digests have one size
  abbrev pub HasOneSize : Type 0
  HasOneSize = (s t : String) → count (enc.sha256 s) ≡ count (enc.sha256 t)

  hash_inv :
      (row : Row) (h : String)
      → hash_of enc row ≡ some h
      → (text : String) × (text_of row ≡ some text) × (enc.sha256 (row.prev_hash ++ text) ≡ h)
  unfolding chain_hash
  hash_inv row h e = let (text, p, q) = >>=-eq-some (text_of row) _ e in (text, p, some-eq-some q)

  row_binds :
      (p q : String) (x y : Row) (xs ys : List Row)
      → Continues enc p x
      → Continues enc q y
      → count p ≡ count q
      → Distinguishes (x ∷ xs) (y ∷ ys)
      → x.hash ≡ y.hash
      → (p ≡ q) × (text_of x ≡ text_of y)
  row_binds p q x y xs ys kx ky n d e =
      let (s, es, hs) = hash_inv x x.hash kx.content in
      let (t, et, ht) = hash_inv y y.hash ky.content in
      let whole = d.0 s t es et (hs ∙ (e ∙ sym ht)) in
      let sizes : count x.prev_hash ≡ count y.prev_hash =
        ap count kx.link ∙ (n ∙ ap count (sym ky.link)) in
      let (same, text) =
        append_inj {s₁ = x.prev_hash} {s₂ = y.prev_hash} {t₁ = s} {t₂ = t} whole sizes in
      (sym kx.link ∙ (same ∙ ky.link), es ∙ (ap some text ∙ sym et))

  hash_sizes :
      (p q : String) (x y : Row)
      → HasOneSize
      → Continues enc p x
      → Continues enc q y
      → count x.hash ≡ count y.hash
  hash_sizes p q x y one kx ky =
      let (s, _, hs) = hash_inv x x.hash kx.content in
      let (t, _, ht) = hash_inv y y.hash ky.content in
      ap count (sym hs) ∙ (one (x.prev_hash ++ s) (y.prev_hash ++ t) ∙ ap count ht)

  -- Row by row the same hashes and the same event, payload and time in canonical form.
  abbrev pub Agree : List Row → List Row → Type 0
  Agree [] [] = Unit
  Agree (x ∷ xs) (y ∷ ys) =
      (x.prev_hash ≡ y.prev_hash) × (x.hash ≡ y.hash) × (text_of x ≡ text_of y) × Agree xs ys
  Agree _ _ = ⊥

  Agree-from :
      {p q : String} {xs ys : List Row}
      → HasOneSize
      → Linked enc p xs
      → Linked enc q ys
      → count p ≡ count q
      → Distinguishes xs ys
      → length xs ≡ length ys
      → last_hash p xs ≡ last_hash q ys
      → (p ≡ q) × Agree xs ys
  Agree-from one (none_left p) (none_left q) s d n e = (e, tt)
  Agree-from one (none_left p) (next k l) s d n e = absurd (omega arith)
  Agree-from one (next k l) (none_left q) s d n e = absurd (omega arith)
  Agree-from {p} {q} one (next {row = x} {rows = xs} k l) (next {row = y} {rows = ys} j m) s d n e =
      let (h, a) = Agree-from one l m (hash_sizes p q x y one k j) d.1 (omega arith) e in
      let (t, u) = row_binds p q x y xs ys k j s d h in (t, (k.link ∙ (t ∙ sym j.link), h, u, a))

  -- Two chains that the check passes, of one length and with one last hash, agree in every row: in
  -- the hashes, and in the canonical form of event, payload and time. The digests have one size, and
  -- sha256 tells apart what rows in the same place hash.
  pub last_hash-binds :
      (xs ys : List Row)
      → HasOneSize
      → Distinguishes xs ys
      → Linked enc genesis xs
      → Linked enc genesis ys
      → length xs ≡ length ys
      → last_hash genesis xs ≡ last_hash genesis ys
      → Agree xs ys
  last_hash-binds xs ys one d l m n e = (Agree-from one l m refl d n e).1
