-- ===== src/Rail/Ordered.antt =====
-- The order of a plan (engine/contextrail/rail/plan.py).
use contextrail.Prelude.{
  Bool, if◌then◌else◌, not, ◌&&◌, str_eq, ℕ, ◌<◌, true, false, String, Option, some, List, [], ◌∷◌,
  ◌++◌, filter, All, ◌≡◌, refl, sym, ap, ◌∙◌, ◌⊎◌, inl, inr, Bool-cases, arith, ◌==◌, some-eq-some,
  >>=-eq-some,
}
use contextrail.Models.Subject.{Subject}
use contextrail.Models.Value.{Fields}
use contextrail.Models.Action.{Action}
use contextrail.Canonical.{Encoder}
use contextrail.Policy.Python.{Python, str_le}
use contextrail.Models.Verdict.{is_allow, is_hold, is_refuse}
use contextrail.Policy.Engine.{Engine}
use contextrail.Rail.Govern.{CompileInputs, Governed, request_of, evaluate_all_actions}
use contextrail.Rail.Plan.{rank, ranked, insert, sorted, transfer_revokes, build_plan}

-- the actions of one class, in their order
abbrev in_class : ℕ → List Governed → List Governed
in_class n = filter (λ g. rank g == n)

-- The ranks one after the other.
abbrev by_rank : List Governed → List Governed
by_rank gs =
    sorted (in_class 0 gs)
    ++ (sorted (in_class 1 gs) ++ (sorted (in_class 2 gs) ++ sorted (in_class 3 gs)))

ranked-below : (g h : Governed) → rank g < rank h → ranked g h ≡ true
unfolding ranked
ranked-below g h l = ground arith

ranked-above : (g h : Governed) → rank h < rank g → ranked g h ≡ false
unfolding ranked
ranked-above g h l = ground arith

insert-past :
    (g : Governed) (xs ys : List Governed)
    → All (λ h. rank h < rank g) xs
    → insert g (xs ++ ys) ≡ xs ++ insert g ys
unfolding insert
insert-past g [] ys a = refl
insert-past g (h ∷ xs) ys (l, a) = rw (ranked-above g h l) (ap (λ t. h ∷ t) (insert-past g xs ys a))

insert-first :
    (g : Governed) (ys : List Governed) → All (λ h. rank g < rank h) ys → insert g ys ≡ g ∷ ys
unfolding insert
insert-first g [] a = refl
insert-first g (h ∷ ys) (l, a) = rw (ranked-below g h l) refl

insert-within :
    (g : Governed) (xs ys : List Governed)
    → All (λ h. rank g < rank h) ys
    → insert g (xs ++ ys) ≡ insert g xs ++ ys
unfolding insert
insert-within g [] ys a = insert-first g ys a
insert-within g (h ∷ xs) ys a = elim (Bool-cases (ranked g h)) [
  | inl e ↦ rw e refl
  | inr e ↦ rw e (ap (λ t. h ∷ t) (insert-within g xs ys a))
]

All-insert :
    (P : Governed → Type 0) (g : Governed) (xs : List Governed)
    → P g
    → All P xs
    → All P (insert g xs)
unfolding insert
All-insert P g [] p a = (p, a)
All-insert P g (h ∷ xs) p (q, a) = elim (Bool-cases (ranked g h)) [
  | inl e ↦ rw e (p, (q, a))
  | inr e ↦ rw e (q, All-insert P g xs p a)
]

All-sorted : (P : Governed → Type 0) (xs : List Governed) → All P xs → All P (sorted xs)
unfolding sorted
All-sorted P [] a = a
All-sorted P (g ∷ xs) (p, a) = All-insert P g (sorted xs) p (All-sorted P xs a)

same : (a b : ℕ) → (a == b) ≡ true → a ≡ b
same a b e = ground arith

All-in_class :
    (P : Governed → Type 0) (n : ℕ)
    → ((g : Governed) → rank g ≡ n → P g)
    → (xs : List Governed) → All P (in_class n xs)
All-in_class P n k [] = record {}
All-in_class P n k (g ∷ xs) = elim (Bool-cases (rank g == n)) [
  | inl e ↦ rw e (k g (same (rank g) n e), All-in_class P n k xs)
  | inr e ↦ rw e (All-in_class P n k xs)
]

class-All :
    (P : Governed → Type 0) (n : ℕ) (xs : List Governed)
    → ((g : Governed) → rank g ≡ n → P g)
    → All P (sorted (in_class n xs))
class-All P n xs k = All-sorted P (in_class n xs) (All-in_class P n k xs)

All-join : {A : Type 0} (P : A → Type 0) (xs ys : List A) → All P xs → All P ys → All P (xs ++ ys)
All-join P [] ys a b = b
All-join P (x ∷ xs) ys (p, a) b = (p, All-join P xs ys a b)

rank_cases : (g : Governed) → (rank g ≡ 0) ⊎ (rank g ≡ 1) ⊎ (rank g ≡ 2) ⊎ (rank g ≡ 3)
unfolding rank
rank_cases g = ground arith

above :
    (g : Governed) (n m : ℕ) (gs : List Governed)
    → rank g ≡ n
    → n < m
    → All (λ h. rank g < rank h) (sorted (in_class m gs))
above g n m gs e l = class-All _ m gs (λ h q. omega (arith, e, q, l))

below :
    (g : Governed) (n m : ℕ) (gs : List Governed)
    → rank g ≡ n
    → m < n
    → All (λ h. rank h < rank g) (sorted (in_class m gs))
below g n m gs e l = class-All _ m gs (λ h q. omega (arith, e, q, l))

insert-by_rank : (g : Governed) (gs : List Governed) → insert g (by_rank gs) ≡ by_rank (g ∷ gs)
unfolding sorted
insert-by_rank g gs = elim (rank_cases g) [
  | inl e ↦ rw e (
      insert-within g _ _ (
        All-join _ _ _ (above g 0 1 gs e (omega arith))
          (All-join _ _ _ (above g 0 2 gs e (omega arith)) (above g 0 3 gs e (omega arith)))))
  | inr (inl e) ↦ rw e (
      insert-past g _ _ (below g 1 0 gs e (omega arith))
      ∙ ap (λ t. sorted (in_class 0 gs) ++ t)
          (insert-within g _ _
            (All-join _ _ _ (above g 1 2 gs e (omega arith)) (above g 1 3 gs e (omega arith)))))
  | inr (inr (inl e)) ↦ rw e (
      insert-past g _ _ (below g 2 0 gs e (omega arith))
      ∙ ap (λ t. sorted (in_class 0 gs) ++ t)
          (insert-past g _ _ (below g 2 1 gs e (omega arith))
            ∙ ap (λ t. sorted (in_class 1 gs) ++ t)
                (insert-within g _ _ (above g 2 3 gs e (omega arith)))))
  | inr (inr (inr e)) ↦ rw e (
      insert-past g _ _ (below g 3 0 gs e (omega arith))
      ∙ ap (λ t. sorted (in_class 0 gs) ++ t)
          (insert-past g _ _ (below g 3 1 gs e (omega arith))
            ∙ ap (λ t. sorted (in_class 1 gs) ++ t)
                (insert-past g _ _ (below g 3 2 gs e (omega arith)))))
]

sorted-eq-by_rank : (gs : List Governed) → sorted gs ≡ by_rank gs
unfolding sorted
sorted-eq-by_rank [] = refl
sorted-eq-by_rank (g ∷ gs) = ap (insert g) (sorted-eq-by_rank gs) ∙ insert-by_rank g gs

abbrev is_granted : Governed → Bool
is_granted g = is_allow g.verdict.verdict && str_eq g.action.kind "grant"

abbrev is_otherwise_allowed : Governed → Bool
is_otherwise_allowed g = is_allow g.verdict.verdict && not (str_eq g.action.kind "grant")

abbrev is_held : Governed → Bool
is_held g = is_hold g.verdict.verdict

abbrev is_refused : Governed → Bool
is_refused g = is_refuse g.verdict.verdict

abbrev insert_by_id : Governed → List Governed → List Governed
insert_by_id g [] = g ∷ []
insert_by_id g (h ∷ hs) =
    let rest = insert_by_id g hs in if str_le g.action.id h.action.id then g ∷ h ∷ hs else h ∷ rest

-- sorted by ids
abbrev pub by_id : List Governed → List Governed
by_id [] = []
by_id (g ∷ gs) = insert_by_id g (by_id gs)

-- The description of the order.
abbrev pub by_class : List Governed → List Governed
by_class gs =
    by_id (filter is_granted gs)
    ++ (by_id (filter is_otherwise_allowed gs)
        ++ (by_id (filter is_held gs) ++ by_id (filter is_refused gs)))

rank-is :
    (g : Governed)
    → ((rank g == 0) ≡ is_granted g)
      × ((rank g == 1) ≡ is_otherwise_allowed g)
      × ((rank g == 2) ≡ is_held g)
      × ((rank g == 3) ≡ is_refused g)
unfolding rank
rank-is g = ground arith

filter-ext :
    (p q : Governed → Bool) (xs : List Governed)
    → ((g : Governed) → p g ≡ q g)
    → filter p xs ≡ filter q xs
filter-ext p q [] e = refl
filter-ext p q (x ∷ xs) e = rw (e x, filter-ext p q xs e) refl

ranked-same : (g h : Governed) → rank g ≡ rank h → ranked g h ≡ str_le g.action.id h.action.id
unfolding ranked
ranked-same g h e = rw (e, refl_test (rank h)) refl
  where
    refl_test : (n : ℕ) → (n == n) ≡ true
    refl_test n = ground arith

insert-by_id :
    (n : ℕ) (g : Governed) (xs : List Governed)
    → rank g ≡ n
    → All (λ h. rank h ≡ n) xs
    → insert g xs ≡ insert_by_id g xs
unfolding insert
insert-by_id n g [] e a = refl
insert-by_id n g (h ∷ xs) e (p, a) = rw (ranked-same g h (e ∙ sym p), insert-by_id n g xs e a) refl

All-by_rank : (n : ℕ) (xs : List Governed) → All (λ g. rank g ≡ n) (in_class n xs)
All-by_rank n xs = All-in_class _ n (λ g e. e) xs

sorted-by_id : (n : ℕ) (xs : List Governed) → All (λ g. rank g ≡ n) xs → sorted xs ≡ by_id xs
unfolding sorted
sorted-by_id n [] a = refl
sorted-by_id n (g ∷ xs) (p, a) =
    insert-by_id n g (sorted xs) p (All-sorted _ xs a) ∙ ap (insert_by_id g) (sorted-by_id n xs a)

class-by_id :
    (n : ℕ) (p : Governed → Bool) (xs : List Governed)
    → ((g : Governed) → (rank g == n) ≡ p g)
    → sorted (in_class n xs) ≡ by_id (filter p xs)
class-by_id n p xs e =
    sorted-by_id n (in_class n xs) (All-by_rank n xs)
    ∙ ap by_id (filter-ext (λ g. rank g == n) p xs e)

pub sorted-eq-by_class : (gs : List Governed) → sorted gs ≡ by_class gs
sorted-eq-by_class gs =
    sorted-eq-by_rank gs
    ∙ rw
        (
          class-by_id 0 is_granted gs (λ g. (rank-is g).0),
          class-by_id 1 is_otherwise_allowed gs (λ g. (rank-is g).1),
          class-by_id 2 is_held gs (λ g. (rank-is g).2),
          class-by_id 3 is_refused gs (λ g. (rank-is g).3),
        )
        refl

-- The plan is what its description says: the actions that were governed and the revocations of a
-- transfer, none left out, in four classes one after the other, each sorted by ids: allowed grants,
-- other allowed actions, held actions and refusals.
pub build_plan-by_class :
    (enc : Encoder) (py : Python) (engine : Engine) (governed : List Governed) (subject : Subject)
    (subject_record : Fields) (inputs : CompileInputs) (requested_by : Option String) (now : ℕ)
    (plan : List Governed)
    → build_plan enc py engine governed subject subject_record inputs requested_by now ≡ some plan
    → (actions : List Action) × ((revoked : List Governed) × (transfer_revokes enc subject
            subject_record inputs
          ≡ some actions)
        × (evaluate_all_actions py engine subject (request_of inputs.role requested_by) now actions
            ≡ some revoked)
        × (plan ≡ by_class (governed ++ revoked)))
unfolding build_plan
build_plan-by_class enc py engine governed subject subject_record inputs requested_by now plan e =
    let (actions, p, e') = >>=-eq-some (transfer_revokes enc subject subject_record inputs) _ e in
    let (revoked, q, e'') =
      >>=-eq-some
        (evaluate_all_actions py engine subject (request_of inputs.role requested_by) now actions) _
        e' in
    (actions, (revoked, p, q, sym (some-eq-some e'') ∙ sorted-eq-by_class (governed ++ revoked)))
