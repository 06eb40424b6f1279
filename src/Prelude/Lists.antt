-- ===== src/Prelude/Lists.antt =====
-- Lists measured by native numbers, filtered by Boolean tests, and predicates over them.
use Prim.Native.Nat.{ℕ, suc, ◌+◌}
use Prim.Native.String.{String}
use mathlib.Core.Path.{◌≡◌, refl}
use mathlib.Core.Logic.{◌⊎◌, inl, inr}
use mathlib.Core.Bool.{Bool, true, false, ◌||◌}
use mathlib.Core.List.{List, [], ◌∷◌, ◌++◌}
use mathlib.Core.Option.{Option, none, some}
use native.Mathlib.Omega.{arith}
use text.Mathlib.Text.{◌==◌}
use contextrail.Prelude.Tests.{if◌then◌else◌}

module _ {ℓ} {A : Type ℓ} where
  abbrev pub length : List A → ℕ
  length [] = 0
  length (x ∷ xs) = suc (length xs)

  abbrev pub filter : (A → Bool) → List A → List A
  filter p [] = []
  filter p (x ∷ xs) = let rest = filter p xs in if p x then x ∷ rest else rest

  -- next((x for x in xs if p(x)), None)
  abbrev pub find? : (A → Bool) → List A → Option A
  find? p [] = none
  find? p (x ∷ xs) = let rest = find? p xs in if p x then some x else rest

  abbrev pub any : (A → Bool) → List A → Bool
  any p [] = false
  any p (x ∷ xs) = p x || any p xs

  abbrev pub All {κ} : (A → Type κ) → List A → Type κ
  All P [] = Unit
  All P (x ∷ xs) = P x × All P xs

  -- Where an element stands: `x` is the first, or stands further on.
  pub data At (x : A) : List A → Type ℓ where
    here : {xs : List A} → At x (x ∷ xs)
    there : {y : A} {xs : List A} → At x xs → At x (y ∷ xs)

module _ {ℓ} {A : Type ℓ} where
  pub length-append : (xs ys : List A) → length (xs ++ ys) ≡ length xs + length ys
  length-append [] ys = omega arith
  length-append (x ∷ xs) ys = omega (arith, length-append xs ys)

  pub All-append {κ} : (P : A → Type κ) (xs ys : List A) → All P xs → All P ys → All P (xs ++ ys)
  All-append P [] ys hx hy = hy
  All-append P (x ∷ xs) ys hx hy = (hx.0, All-append P xs ys hx.1 hy)

  pub All-At {κ} : (P : A → Type κ) (xs : List A) {x : A} → All P xs → At x xs → P x
  All-At P [] h m = elim m [ ]
  All-At P (x ∷ xs) h here = h.0
  All-At P (x ∷ xs) h (there m) = All-At P xs h.1 m

  pub At-cons : {x y : A} {xs : List A} → At x (y ∷ xs) → (x ≡ y) ⊎ At x xs
  At-cons here = inl refl
  At-cons (there m) = inr m

  pub not-At-nil : {x : A} {xs : List A} → At x xs → xs ≡ [] → ⊥
  not-At-nil here e = cc
  not-At-nil (there m) e = cc

  At-kept :
      (b : Bool) {x y : A} {xs : List A}
      → At x (if b then y ∷ xs else xs)
      → ((b ≡ true) × (x ≡ y)) ⊎ At x xs
  At-kept true m = elim (At-cons m) [ inl q ↦ inl (refl, q) | inr n ↦ inr n ]
  At-kept false m = inr m

  -- What a filter keeps stands in the list and passes; what passes is kept.
  pub At-filter : (p : A → Bool) (xs : List A) {x : A} → At x (filter p xs) → At x xs × (p x ≡ true)
  At-filter p [] m = elim m [ ]
  At-filter p (y ∷ xs) {x} m = elim (At-kept (p y) m) [
    | inl (e, q) ↦ rw q (here, e)
    | inr n ↦ let (k, t) = At-filter p xs n in (there k, t)
  ]

  pub filter-At : (p : A → Bool) (xs : List A) {x : A} → At x xs → p x ≡ true → At x (filter p xs)
  filter-At p [] m e = elim m [ ]
  filter-At p (y ∷ xs) {x} here e = rw e here
  filter-At p (y ∷ xs) {x} (there n) e = go (p y) (filter-At p xs n e)
    where
      go : (b : Bool) → At x (filter p xs) → At x (if b then y ∷ filter p xs else filter p xs)
      go true k = there k
      go false k = k

-- `s in xs`, for texts.
abbrev pub contains : String → List String → Bool
contains s = any (λ t. t == s)
