-- ===== src/Audit/Linked.antt =====
-- What `verify_chain` decides.
use contextrail.Prelude.{
  ℕ, suc, ◌+◌, String, some, List, [], ◌∷◌, ◌++◌, ◌≡◌, refl, sym, ap, ◌∙◌, ◌⊎◌, inl, inr, str_eq,
  eq_iff, length, Bool-cases, Option-cases, some-eq-some, arith,
}
use contextrail.Canonical.{Encoder}
use contextrail.Audit.Chain.{
  Row, ChainCheck, Reason, broken_link, broken_content, genesis, last_hash, passed, broken, hash_of,
  check_from, verify_chain,
}

module _ (enc : Encoder) where
  -- A row that continues a chain whose last hash is `prev`.
  pub record Continues (prev : String) (row : Row) : Type 0 where
    pub link : row.prev_hash ≡ prev
    pub content : hash_of enc row ≡ some row.hash

  -- Rows of which each continues the chain that the rows before it make.
  pub data Linked : String → List Row → Type 0 where
    none_left : (prev : String) → Linked prev []
    next :
        {prev : String} {row : Row} {rows : List Row}
        → Continues prev row
        → Linked row.hash rows
        → Linked prev (row ∷ rows)

  -- The first row that does not continue the chain, with the rows before it.
  pub record Break (prev : String) (n : ℕ) (rows : List Row) (c : ChainCheck) : Type 0 where
    pub good : List Row
    pub bad : Row
    pub rest : List Row
    pub reason : Reason
    pub split : rows ≡ good ++ bad ∷ rest
    pub linked : Linked prev good
    pub stops : ¬ Continues (last_hash prev good) bad
    pub report : c ≡ broken (n + length good) bad reason

  abbrev pub Report : String → ℕ → List Row → ChainCheck → Type 0
  Report prev n rows c = (Linked prev rows × (c ≡ passed (n + length rows))) ⊎ Break prev n rows c

  step_cases :
      (prev : String) (n : ℕ) (row : Row) (rows : List Row) (c : ChainCheck)
      → check_from enc prev n (row ∷ rows) ≡ some c
      → ((reason : Reason) × (¬ Continues prev row) × (c ≡ broken n row reason))
        ⊎ (Continues prev row × (check_from enc row.hash (suc n) rows ≡ some c))
  unfolding check_from
  step_cases prev n row rows c h = elim (Bool-cases (str_eq row.prev_hash prev)) [
    | inl l ↦ elim (Option-cases (hash_of enc row)) [
      | inl e ↦ absurd (ground arith)
      | inr (hash, e) ↦ elim (Bool-cases (str_eq hash row.hash)) [
        | inl m ↦ inr (
          record {
            link = (eq_iff row.prev_hash prev).0 l;
            content = e ∙ ap some ((eq_iff hash row.hash).0 m);
          },
          ground arith,
        )
        | inr m ↦ inl (
          broken_content,
          (λ k. ground (arith, eq_iff hash row.hash, some-eq-some (sym e ∙ k.content))),
          ground arith,
        )
      ]
    ]
    | inr l ↦
        inl (broken_link, (λ k. ground (arith, eq_iff row.prev_hash prev, k.link)), ground arith)
  ]

  prepend :
      (prev : String) (n : ℕ) (row : Row) (rows : List Row) (c : ChainCheck)
      → Continues prev row
      → Report row.hash (suc n) rows c
      → Report prev n (row ∷ rows) c
  prepend prev n row rows c k (inl (l, e)) = inl (next k l, e ∙ ap passed (omega arith))
  prepend prev n row rows c k (inr b) = inr (record {
    good = row ∷ b.good;
    bad = b.bad;
    rest = b.rest;
    reason = b.reason;
    split = ap (λ l. row ∷ l) b.split;
    linked = next k b.linked;
    stops = b.stops;
    report = b.report ∙ ap (λ m. broken m b.bad b.reason) (omega arith);
  })

  check_from-Report :
      (prev : String) (n : ℕ) (rows : List Row) (c : ChainCheck)
      → check_from enc prev n rows ≡ some c
      → Report prev n rows c
  unfolding check_from
  check_from-Report prev n [] c h =
      inl (none_left prev, sym (some-eq-some h) ∙ ap passed (omega arith))
  check_from-Report prev n (row ∷ rows) c h = elim (step_cases prev n row rows c h) [
    | inl (reason, k, e) ↦ inr (record {
      good = [];
      bad = row;
      rest = rows;
      reason = reason;
      split = refl;
      linked = none_left prev;
      stops = k;
      report = e ∙ ap (λ m. broken m row reason) (omega arith);
    })
    | inr (k, g) ↦ prepend prev n row rows c k (check_from-Report row.hash (suc n) rows c g)
  ]

  -- The check of any table: it passes, and counts all rows, only if every row continues the chain
  -- from GENESIS; otherwise it names the first row that does not, with the rows before it linked.
  pub verify_chain_exact :
      (rows : List Row) (c : ChainCheck) → verify_chain enc rows ≡ some c → Report genesis 0 rows c
  unfolding verify_chain
  verify_chain_exact rows c h = check_from-Report genesis 0 rows c h

  check_from-Linked :
      {prev : String} (n : ℕ) {rows : List Row}
      → Linked prev rows
      → check_from enc prev n rows ≡ some (passed (n + length rows))
  unfolding check_from
  check_from-Linked n (none_left prev) = ap (λ m. some (passed m)) (omega arith)
  check_from-Linked {prev} n (next {row = row} {rows = rows} k l) =
      let ih : check_from enc row.hash (suc n) rows ≡ some (passed (suc n + length rows)) =
        check_from-Linked (suc n) l in
      let link = (eq_iff row.prev_hash prev).1 k.link in
      let content = (eq_iff row.hash row.hash).1 refl in
      rw (link, k.content, content, ih) (ap (λ m. some (passed m)) (omega arith))

  pub verify_chain-Linked :
      (rows : List Row) → Linked genesis rows → verify_chain enc rows ≡ some (passed (length rows))
  unfolding verify_chain
  verify_chain-Linked rows l = check_from-Linked 0 l ∙ ap (λ m. some (passed m)) (omega arith)
