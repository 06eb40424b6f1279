-- ===== src/Audit/Append.antt =====
-- What `append_audit` keeps.
use contextrail.Prelude.{
  ℕ, suc, ◌+◌, ◌<◌, Bool, true, false, String, Option, none, some, List, [], ◌∷◌, ◌≡◌, refl, ap,
  ◌∙◌, length, Option-cases, inl, inr, arith, All,
}
use contextrail.Models.Value.{Fields}
use contextrail.Canonical.{Encoder}
use contextrail.Audit.Chain.{
  Row, Table, genesis, last_hash, add_last, passed, chain_hash, append_audit, verify_chain,
}
use contextrail.Audit.Linked.{Continues, Linked, next, none_left, verify_chain-Linked}

module _ (enc : Encoder) where
  Linked-add_last :
      {prev : String} {rows : List Row} (row : Row)
      → Linked enc prev rows
      → Continues enc (last_hash prev rows) row
      → Linked enc prev (add_last rows row)
  Linked-add_last row (none_left prev) k = next k (none_left row.hash)
  Linked-add_last row (next j l) k = next j (Linked-add_last row l k)

  -- the table's rows are linked, and numbered below the next number
  pub record IsSound (t : Table) : Type 0 where
    pub linked : Linked enc genesis t.rows
    pub numbered : All (λ (r : Row). r.seq < t.next_seq) t.rows

  All-add_last :
      (k : ℕ) (rows : List Row) (row : Row)
      → row.seq < suc k
      → All (λ (r : Row). r.seq < k) rows
      → All (λ (r : Row). r.seq < suc k) (add_last rows row)
  All-add_last k [] row h a = (h, tt)
  All-add_last k (r ∷ rs) row h a = (omega arith, All-add_last k rs row h a.1)

  length-add_last : (rows : List Row) (row : Row) → length (add_last rows row) ≡ suc (length rows)
  length-add_last [] row = refl
  length-add_last (r ∷ rs) row = ap suc (length-add_last rs row)

  appended :
      (in_transaction : Bool) (now : ℕ) (run_id : Option String) (event : String) (payload : Fields)
      (t u : Table) (row : Row)
      → append_audit enc in_transaction now run_id event payload t ≡ some (row, u)
      → (in_transaction ≡ true)
        × Continues enc (last_hash genesis t.rows) row
        × (row.event ≡ event)
        × (row.payload ≡ payload)
        × (row.at ≡ now)
        × (row.run_id ≡ run_id)
        × (row.seq ≡ t.next_seq)
        × (u ≡ record { rows = add_last t.rows row; next_seq = suc t.next_seq })
  unfolding append_audit
  appended in_transaction now run_id event payload t u row h = ground arith

  -- Appending inside a transaction to a sound table leaves it sound, with the new row at the end, under
  -- the next number and with the event, payload and time given, and nothing before it changed; the
  -- check of the new table passes and counts one row more.
  pub append_audit-IsSound :
      (in_transaction : Bool) (now : ℕ) (run_id : Option String) (event : String) (payload : Fields)
      (t u : Table) (row : Row)
      → IsSound t
      → append_audit enc in_transaction now run_id event payload t ≡ some (row, u)
      → IsSound u
        × (verify_chain enc u.rows ≡ some (passed (length t.rows + 1)))
        × (u.rows ≡ add_last t.rows row)
        × (row.event ≡ event)
        × (row.payload ≡ payload)
        × (row.at ≡ now)
        × (row.seq ≡ t.next_seq)
  append_audit-IsSound in_transaction now run_id event payload t u row sound h =
      let (_, k, e, p, a, _, q, same) =
        appended in_transaction now run_id event payload t u row h in
      let linked = Linked-add_last row sound.linked k in
      let checked = verify_chain-Linked enc (add_last t.rows row) linked in
      let long : length (add_last t.rows row) ≡ length t.rows + 1 =
        omega (arith, length-add_last t.rows row) in
      rw same (
        record {
          linked = linked;
          numbered = All-add_last t.next_seq t.rows row (omega arith) sound.numbered;
        },
        checked ∙ ap (λ m. some (passed m)) long,
        refl,
        e,
        p,
        a,
        q,
      )

  -- Outside a transaction nothing is appended; inside, only a payload that cannot be written in
  -- canonical form stops it.
  append_audit_total :
      (now : ℕ) (run_id : Option String) (event : String) (payload : Fields) (t : Table)
      (hash : String)
      → chain_hash enc (last_hash genesis t.rows) event payload now ≡ some hash
      → (append_audit enc false now run_id event payload t ≡ none)
        × ((row : Row) × (u : Table) × (append_audit enc true now run_id event payload t
              ≡ some (row, u)))
  unfolding append_audit
  append_audit_total now run_id event payload t hash h = (
    refl,
    elim (Option-cases (append_audit enc true now run_id event payload t)) [
      | inl e ↦ absurd (ground arith)
      | inr ((row, u), e) ↦ (row, u, e)
    ],
  )
