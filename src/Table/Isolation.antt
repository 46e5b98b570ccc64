-- ===== src/Table/Isolation.antt =====
-- Writing a row and reading it back, in the same transaction and in others, before and after it
-- ends.
use structuredb.Base.{
  ℕ, ◌≡◌, sym, ap, ◌∙◌, subst, true, false, none, some, List, ◌∷◌, arith, All, ◌==◌, ==_iff,
  Bool-cases, Option-cases, inl, inr, some_inj,
}
use structuredb.Base.Str.{Str, str_eq_refl}
use structuredb.Transaction.{
  Storage, commited, rollbacked, is_commited, get_status, commit, rollback, acquire_row_lock,
}
use structuredb.Transaction.Reach.{status-commit, status-rollback, status-acquire}
use structuredb.Table.{
  Row, TransactionalValue, StorageEngine, to_string, is_visible, lookup_rows, write_row, upsert,
  lookup, delete, live, tombstone,
}
use structuredb.Table.Visible.{
  IsStorable, first_visible, answer, rows_for, lookup_rows_lem, first_visible-cong,
}

-- The row that a write hands to the engine.
abbrev pub row_with : Str → TransactionalValue → Row
row_with key v = record { key = key; value = to_string v }

module _ {S : Type 0} (engine : StorageEngine S) where
  -- The versions that the engine holds of a key.
  pub record Stored (key : Str) (vs : List TransactionalValue) (s : S) : Type 0 where
    pub is_valid : engine.valid s
    pub rows : engine.rows_of key s ≡ rows_for key vs
    pub storable : All IsStorable vs

  lookup_eq_of :
      (tx : ℕ) (key : Str) (st : Storage) (s : S) (rows : List Row)
      → engine.scan_key key s ≡ some rows
      → lookup engine tx key st s ≡ lookup_rows tx st rows
  unfolding lookup
  lookup_eq_of tx key st s rows e = rw (e, lookup)

  -- `Lookup` succeeds, and returns what the first visible version of the key says.
  pub lookup_lem :
      (tx : ℕ) (key : Str) (vs : List TransactionalValue) (st : Storage) (s : S)
      → Stored key vs s
      → lookup engine tx key st s ≡ some (answer (first_visible tx st vs))
  lookup_lem tx key vs st s h =
      lookup_eq_of tx key st s _ (engine.scan_key_lem key s h.is_valid ∙ ap some h.rows)
      ∙ lookup_rows_lem tx st key vs h.storable

  -- What a write leaves: the statuses as they were, and one more version of the key.
  pub record Written (key : Str) (v : TransactionalValue) (vs : List TransactionalValue)
      (st st' : Storage) (s' : S) : Type 0 where
    pub same_status : st'.tx_status ≡ st.tx_status
    pub stored : Stored key (v ∷ vs) s'

  pub write_row_eq :
      (tx : ℕ) (key : Str) (v : TransactionalValue) (st st' : Storage) (s s' : S)
      → acquire_row_lock tx key st ≡ some st'
      → engine.upsert (row_with key v) s ≡ some s'
      → write_row engine tx key v st s ≡ some (st', s')
  unfolding write_row
  write_row_eq tx key v st st' s s' e f = rw (e, f, write_row)

  write_row_waits :
      (tx : ℕ) (key : Str) (v : TransactionalValue) (st : Storage) (s : S)
      → acquire_row_lock tx key st ≡ none
      → write_row engine tx key v st s ≡ none
  unfolding write_row
  write_row_waits tx key v st s e = rw (e, write_row)

  upsert-Stored :
      (key : Str) (v : TransactionalValue) (vs : List TransactionalValue) (s : S)
      → Stored key vs s
      → IsStorable v
      → engine.accepts (row_with key v) s
      → (s' : S) × (engine.upsert (row_with key v) s ≡ some s') × Stored key (v ∷ vs) s'
  unfolding rows_for
  upsert-Stored key v vs s h i a =
      let (s', e, valid, rows) = engine.upsert_lem (row_with key v) s h.is_valid a in
      (
        s',
        e,
        record {
          is_valid = valid;
          rows = rows key ∙ rw (str_eq_refl key, h.rows);
          storable = (i, h.storable);
        },
      )

  pub written :
      (tx : ℕ) (key : Str) (v : TransactionalValue) (vs : List TransactionalValue)
      (st st' : Storage) (s s' : S)
      → Stored key vs s
      → IsStorable v
      → engine.accepts (row_with key v) s
      → write_row engine tx key v st s ≡ some (st', s')
      → Written key v vs st st' s'
  written tx key v vs st st' s s' h i a e = elim (Option-cases (acquire_row_lock tx key st)) [
    | inl n ↦ let k = write_row_waits tx key v st s n in cc
    | inr (st₁, l) ↦
        let (s₁, u, stored) = upsert-Stored key v vs s h i a in
        let same : (st₁, s₁) ≡ (st', s') =
          some_inj (sym (write_row_eq tx key v st st₁ s s₁ l u) ∙ e) in
        record {
          same_status =
              subst (λ z. z.tx_status ≡ st.tx_status) (ap (λ p. p.0) same)
                (status-acquire tx key st st₁ l).0;
          stored = subst (Stored key (v ∷ vs)) (ap (λ p. p.1) same) stored;
        }
  ]

  -- Let an upsert of a row go through, over an engine that holds versions that the table wrote and
  -- accepts the new one. The transaction then reads the value that it wrote.
  pub lookup-own_write :
      (tx : ℕ) (key value : Str) (vs : List TransactionalValue) (st st' : Storage) (s s' : S)
      → Stored key vs s
      → IsStorable (live tx value)
      → engine.accepts (row_with key (live tx value)) s
      → upsert engine tx key value st s ≡ some (st', s')
      → lookup engine tx key st' s' ≡ some (some value)
  unfolding upsert first_visible is_visible
  lookup-own_write tx key value vs st st' s s' h i a e =
      let w = written tx key (live tx value) vs st st' s s' h i a e in
      lookup_lem tx key _ st' s' w.stored ∙ ground (arith, ==_iff tx tx)

  commited-same :
      (t : ℕ) (st st' : Storage)
      → get_status t st' ≡ get_status t st
      → is_commited t st' ≡ is_commited t st
  unfolding is_commited
  commited-same t st st' e = ground arith

  status-same :
      (t : ℕ) (st st' : Storage) → st'.tx_status ≡ st.tx_status → get_status t st' ≡ get_status t st
  unfolding get_status
  status-same t st st' e = rw e

  status_is-commited :
      (t : ℕ) (st : Storage) → get_status t st ≡ some commited → is_commited t st ≡ true
  unfolding is_commited
  status_is-commited t st e = ground arith

  status_is-rollbacked :
      (t : ℕ) (st : Storage) → get_status t st ≡ some rollbacked → is_commited t st ≡ false
  unfolding is_commited
  status_is-rollbacked t st e = ground arith

  -- A version that the reader cannot see is skipped.
  hidden :
      (tx reader : ℕ) (key value : Str) (vs : List TransactionalValue) (st st' : Storage) (s s' : S)
      → Stored key vs s
      → Stored key (live tx value ∷ vs) s'
      → (tx == reader) ≡ false
      → is_commited tx st' ≡ false
      → ((t : ℕ) → is_commited t st' ≡ is_commited t st)
      → lookup engine reader key st' s' ≡ lookup engine reader key st s
  unfolding first_visible is_visible
  hidden tx reader key value vs st st' s s' h w d c same =
      lookup_lem reader key _ st' s' w
      ∙ ap (λ z. some (answer z))
          (ground arith ∙ first_visible-cong reader st st' (λ v. rw (same v.tx)) vs)
      ∙ sym (lookup_lem reader key vs st s h)

  shown_to_all :
      (tx reader : ℕ) (key value : Str) (vs : List TransactionalValue) (st' : Storage) (s' : S)
      → Stored key (live tx value ∷ vs) s'
      → is_commited tx st' ≡ true
      → lookup engine reader key st' s' ≡ some (some value)
  unfolding first_visible is_visible
  shown_to_all tx reader key value vs st' s' w c = lookup_lem reader key _ st' s' w ∙ ground arith

  -- Let an upsert of a row go through, over an engine that holds versions that the table wrote and
  -- accepts the new one. While the writer is not committed, another transaction reads what it read
  -- before the write.
  pub lookup-uncommitted :
      (tx reader : ℕ) (key value : Str) (vs : List TransactionalValue) (st st' : Storage) (s s' : S)
      → Stored key vs s
      → IsStorable (live tx value)
      → engine.accepts (row_with key (live tx value)) s
      → (tx == reader) ≡ false
      → is_commited tx st ≡ false
      → upsert engine tx key value st s ≡ some (st', s')
      → lookup engine reader key st' s' ≡ lookup engine reader key st s
  unfolding upsert
  lookup-uncommitted tx reader key value vs st st' s s' h i a d c e =
      let w = written tx key (live tx value) vs st st' s s' h i a e in
      let same : (t : ℕ) → is_commited t st' ≡ is_commited t st =
        λ t. commited-same t st st' (status-same t st st' w.same_status) in
      hidden tx reader key value vs st st' s s' h w.stored d (same tx ∙ c) same

  -- Let an upsert of a row go through, over an engine that holds versions that the table wrote and
  -- accepts the new one. Once the writer commits, every transaction reads the value that it wrote, one that
  -- began before the commit included.
  pub lookup-commited :
      (tx reader : ℕ) (key value : Str) (vs : List TransactionalValue) (st st' : Storage) (s s' : S)
      → Stored key vs s
      → IsStorable (live tx value)
      → engine.accepts (row_with key (live tx value)) s
      → upsert engine tx key value st s ≡ some (st', s')
      → lookup engine reader key (commit tx st').0 s' ≡ some (some value)
  unfolding upsert
  lookup-commited tx reader key value vs st st' s s' h i a e =
      let w = written tx key (live tx value) vs st st' s s' h i a e in
      shown_to_all tx reader key value vs _ s' w.stored
        (status_is-commited tx _ (status-commit tx tx st' ∙ ground (arith, ==_iff tx tx)))

  rollback-same :
      (tx t : ℕ) (st st' : Storage)
      → st'.tx_status ≡ st.tx_status
      → is_commited tx st ≡ false
      → is_commited t (rollback tx st') ≡ is_commited t st
  rollback-same tx t st st' e c = elim (Bool-cases (tx == t)) [
    | inl b ↦
        let same : tx ≡ t = ground (arith, ==_iff tx t) in
        status_is-rollbacked t _ (status-rollback tx t st' ∙ rw b)
        ∙ sym (subst (λ z. is_commited z st ≡ false) same c)
    | inr b ↦ commited-same t st _ (status-rollback tx t st' ∙ rw b (status-same t st st' e))
  ]

  -- Let an upsert of a row by a transaction that is not committed go through, over an engine that
  -- holds versions that the table wrote and accepts the new one. Once the writer is rolled back,
  -- every other transaction reads what it read before the write.
  pub lookup-rolled_back :
      (tx reader : ℕ) (key value : Str) (vs : List TransactionalValue) (st st' : Storage) (s s' : S)
      → Stored key vs s
      → IsStorable (live tx value)
      → engine.accepts (row_with key (live tx value)) s
      → (tx == reader) ≡ false
      → is_commited tx st ≡ false
      → upsert engine tx key value st s ≡ some (st', s')
      → lookup engine reader key (rollback tx st') s' ≡ lookup engine reader key st s
  unfolding upsert
  lookup-rolled_back tx reader key value vs st st' s s' h i a d c e =
      let w = written tx key (live tx value) vs st st' s s' h i a e in
      hidden tx reader key value vs st (rollback tx st') s s' h w.stored d
        (status_is-rollbacked tx _ (status-rollback tx tx st' ∙ ground (arith, ==_iff tx tx)))
        (λ t. rollback-same tx t st st' w.same_status c)

  delete-none :
      (tx : ℕ) (key : Str) (st : Storage) (s : S)
      → lookup engine tx key st s ≡ some none
      → delete engine tx key st s ≡ some (false, (st, s))
  unfolding delete
  delete-none tx key st s e = rw (e, delete)

  delete-some :
      (tx : ℕ) (key value : Str) (st st' : Storage) (s s' : S)
      → lookup engine tx key st s ≡ some (some value)
      → write_row engine tx key (tombstone tx) st s ≡ some (st', s')
      → delete engine tx key st s ≡ some (true, (st', s'))
  unfolding delete
  delete-some tx key value st st' s s' e w = rw (e, w, delete)

  -- Over an engine that holds versions that the table wrote, `Delete` of a key of which the
  -- transaction sees no value returns false and changes nothing.
  pub delete-unseen :
      (tx : ℕ) (key : Str) (vs : List TransactionalValue) (st : Storage) (s : S)
      → Stored key vs s
      → answer (first_visible tx st vs) ≡ none
      → delete engine tx key st s ≡ some (false, (st, s))
  delete-unseen tx key vs st s h e =
      delete-none tx key st s (lookup_lem tx key vs st s h ∙ ap some e)

  -- Over an engine that holds versions that the table wrote and accepts a tombstone: `Delete` of a
  -- key of which the transaction sees a value, where the row is free, returns true, and the
  -- transaction then sees no value of the key.
  pub delete-seen :
      (tx : ℕ) (key value : Str) (vs : List TransactionalValue) (st st' : Storage) (s : S)
      → Stored key vs s
      → IsStorable (tombstone tx)
      → engine.accepts (row_with key (tombstone tx)) s
      → answer (first_visible tx st vs) ≡ some value
      → acquire_row_lock tx key st ≡ some st'
      → (s' : S) × (delete engine tx key st s ≡ some (true, (st', s')))
        × (lookup engine tx key st' s' ≡ some none)
  unfolding first_visible is_visible
  delete-seen tx key value vs st st' s h i a seen l =
      let (s', u, w) = upsert-Stored key (tombstone tx) vs s h i a in
      (
        s',
        delete-some tx key value st st' s s' (lookup_lem tx key vs st s h ∙ ap some seen)
            (write_row_eq tx key (tombstone tx) st st' s s' l u),
        lookup_lem tx key _ st' s' w ∙ ground (arith, ==_iff tx tx),
      )
