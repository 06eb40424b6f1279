-- ===== src/Models/Equality.antt =====
-- Python's `==` on the values of the model is reflexive where a dict has each key once.
use contextrail.Prelude.{
  ℕ, Bool, true, false, not, ◌&&◌, String, Option, some, is_some, ◌≡◌, refl, arith, Bool-cases,
  str_eq, eq_iff, inl, inr, ◌==◌,
}
use contextrail.Prelude.Int.{ℤ, pos, negsuc, eq_ℤ}
use contextrail.Models.Value.{
  Value, null, missing, bool, int, str, date, datetime, list, dict, Items, nil, cons, Fields, end,
  field, lookup, size, equal, equal_items, equal_fields,
}

-- Whether every dict has each of its keys once, as a dict of Python has.
abbrev mutual
  pub has_own_keys : Value → Bool
  has_own_keys (list xs) = items_have_own_keys xs
  has_own_keys (dict d) = fields_have_own_keys d
  has_own_keys v = true

  pub items_have_own_keys : Items → Bool
  items_have_own_keys nil = true
  items_have_own_keys (cons x xs) = has_own_keys x && items_have_own_keys xs

  pub fields_have_own_keys : Fields → Bool
  fields_have_own_keys end = true
  fields_have_own_keys (field k v d) =
      not (is_some (lookup k d)) && has_own_keys v && fields_have_own_keys d

&&-eq-true : (a b : Bool) → (a && b) ≡ true → (a ≡ true) × (b ≡ true)
&&-eq-true true b e = (refl, e)
&&-eq-true false b e = cc

eq_nat_refl : (n : ℕ) → (n == n) ≡ true
eq_nat_refl n = ground arith

eq_ℤ_refl : (n : ℤ) → eq_ℤ n n ≡ true
eq_ℤ_refl (pos n) = ground arith
eq_ℤ_refl (negsuc n) = ground arith

-- Every entry of the first dict is an entry of the second.
abbrev Within : Fields → Fields → Type 0
Within d e = (k : String) (v : Value) → lookup k d ≡ some v → lookup k e ≡ some v

Within-rest :
    (k : String) (v : Value) (d e : Fields)
    → not (is_some (lookup k d)) ≡ true
    → Within (field k v d) e
    → Within d e
Within-rest k v d e fresh w k' v' h = elim (Bool-cases (str_eq k k')) [
  | inl t ↦
      let found : lookup k d ≡ some v' = rw ((eq_iff k k').0 t) h in
      absurd (fresh_key (lookup k d) v' fresh found)
  | inr f ↦ w k' v' (rw f h)
]
  where
    fresh_key : (o : Option Value) (u : Value) → not (is_some o) ≡ true → o ≡ some u → ⊥
    fresh_key o u n e = cc (rw e at n)

abbrev is_atom : Value → Bool
is_atom (list xs) = false
is_atom (dict d) = false
is_atom v = true

equal_refl_atom : (v : Value) → is_atom v ≡ true → equal v v ≡ true
unfolding equal
equal_refl_atom null h = refl
equal_refl_atom missing h = refl
equal_refl_atom (bool true) h = refl
equal_refl_atom (bool false) h = refl
equal_refl_atom (int n) h = eq_ℤ_refl n
equal_refl_atom (str s) h = (eq_iff s s).1 refl
equal_refl_atom (date n) h = eq_nat_refl n
equal_refl_atom (datetime n) h = eq_nat_refl n
equal_refl_atom (list xs) h = cc
equal_refl_atom (dict d) h = cc

equal_list : (xs ys : Items) → equal_items xs ys ≡ true → equal (list xs) (list ys) ≡ true
unfolding equal
equal_list xs ys h = h

equal_dict : (d : Fields) → equal_fields d d ≡ true → equal (dict d) (dict d) ≡ true
unfolding equal
equal_dict d h = rw (eq_nat_refl (size d)) h

equal_items-cons :
    (x y : Value) (xs ys : Items)
    → equal x y ≡ true
    → equal_items xs ys ≡ true
    → equal_items (cons x xs) (cons y ys) ≡ true
unfolding equal
equal_items-cons x y xs ys p q = rw (p, q) refl

equal_items-nil : equal_items nil nil ≡ true
unfolding equal
equal_items-nil = refl

equal_fields-end : (e : Fields) → equal_fields end e ≡ true
unfolding equal
equal_fields-end e = refl

equal_fields-field :
    (k : String) (v w : Value) (d e : Fields)
    → lookup k e ≡ some w
    → equal v w ≡ true
    → equal_fields d e ≡ true
    → equal_fields (field k v d) e ≡ true
unfolding equal
equal_fields-field k v w d e l p q = rw (l, p, q) refl

lookup-here : (k : String) (v : Value) (d : Fields) → lookup k (field k v d) ≡ some v
lookup-here k v d = rw ((eq_iff k k).1 refl) refl

mutual
  pub equal_refl : (v : Value) → has_own_keys v ≡ true → equal v v ≡ true
  equal_refl (list xs) h = equal_list xs xs (equal_items_refl xs h)
  equal_refl (dict d) h = equal_dict d (equal_fields-Within d d h (λ k v e. e))
  equal_refl null h = equal_refl_atom null refl
  equal_refl missing h = equal_refl_atom missing refl
  equal_refl (bool b) h = equal_refl_atom (bool b) refl
  equal_refl (int n) h = equal_refl_atom (int n) refl
  equal_refl (str s) h = equal_refl_atom (str s) refl
  equal_refl (date n) h = equal_refl_atom (date n) refl
  equal_refl (datetime n) h = equal_refl_atom (datetime n) refl

  equal_items_refl : (xs : Items) → items_have_own_keys xs ≡ true → equal_items xs xs ≡ true
  equal_items_refl nil h = equal_items-nil
  equal_items_refl (cons x xs) h =
      let (p, q) = &&-eq-true (has_own_keys x) (items_have_own_keys xs) h in
      equal_items-cons x x xs xs (equal_refl x p) (equal_items_refl xs q)

  equal_fields-Within :
      (d e : Fields) → fields_have_own_keys d ≡ true → Within d e → equal_fields d e ≡ true
  equal_fields-Within end e h w = equal_fields-end e
  equal_fields-Within (field k v d) e h w =
      let (p, q) =
        &&-eq-true (not (is_some (lookup k d)) && has_own_keys v) (fields_have_own_keys d) h in
      let (fresh, own) = &&-eq-true (not (is_some (lookup k d))) (has_own_keys v) p in
      equal_fields-field k v v d e (w k v (lookup-here k v d)) (equal_refl v own)
        (equal_fields-Within d e q (Within-rest k v d e fresh w))
