-- ===== src/Database/Session/Tables.antt =====
-- Sessions and the tables that they create (database/session.cpp).
use structuredb.Base.{
  ◌≡◌, ◌≢◌, refl, sym, ap, subst, ◌∙◌, false, none, some, List, arith, if◌then◌else◌, Bool-cases,
  Option-cases, inl, inr, ◌⊎◌,
}
use structuredb.Base.Str.{Str, str_eq, str_eq_iff, str_eq_refl}
use structuredb.Base.Assoc.{str_key, lookup, assign, lookup-assign, lookup-assigned}
use structuredb.Transaction.{Storage}
use structuredb.Table.{StorageEngine, TransactionalValue, live}
use structuredb.Table.Visible.{IsStorable}
use structuredb.Table.Isolation.{Stored, row_with}
use structuredb.Database.Catalog.{
  Outcome, done, database_exception, no_result, sys_tables, sys_transactions, created, to_string,
  add_storage, get_storage_id,
}
use structuredb.Database.Catalog.Naming.{get_storage_id-add_storage}
use structuredb.Database.Session.{
  Context, Session, transactional, create_table, get_table, try_emplace,
}

Outcome-cases :
    {A : Type 0} (o : Outcome A)
    → ((a : A) × (o ≡ done a)) ⊎ ((o ≡ database_exception) ⊎ (o ≡ no_result))
Outcome-cases (done a) = inl (a, refl)
Outcome-cases database_exception = inr (inl refl)
Outcome-cases no_result = inr (inr refl)

done_inj : {A : Type 0} {a b : A} → done a ≡ done b → a ≡ b
done_inj e = cc

none≢some : {A : Type 0} {a : A} → none ≢ some a
none≢some e = cc

exception≢done : {A : Type 0} {a : A} → database_exception ≢ done a
exception≢done e = cc

no_result≢done : {A : Type 0} {a : A} → no_result ≢ done a
no_result≢done e = cc

lookup-try_emplace :
    {S : Type 0} (id key : Str) (storage : S) (m : List (Str × S))
    → lookup key (try_emplace id storage m) ≡ (
        if str_eq id key
        then (elim (lookup id m) [ none ↦ some storage | some s ↦ some s ])
        else lookup key m)
unfolding try_emplace
lookup-try_emplace id key storage m = elim (Option-cases (lookup id m)) [
  | inl e ↦ rw (e, try_emplace) (lookup-assign id key storage m)
  | inr (s, e) ↦
      rw (e, try_emplace)
        (elim (Bool-cases (str_eq id key)) [
          | inl t ↦ rw t (ap (λ k. lookup k m) (sym ((str_eq_iff id key).0 t)) ∙ e)
          | inr t ↦ rw t refl
        ])
]

-- The context behind a table that was created.
abbrev with_table : {S : Type 0} → (Str → S) → Context S → Str → Storage → S → Context S
with_table new_storage c id st sys' = record {
  tx_storage = st;
  storages = try_emplace id (new_storage id) (assign sys_tables sys' c.storages);
}

create_of :
    {S : Type 0} → (Str → S) → Context S → Outcome (Str × (Storage × S)) → Outcome (Context S)
create_of new_storage c (done (id, (st, sys'))) = done (with_table new_storage c id st sys')
create_of new_storage c database_exception = database_exception
create_of new_storage c no_result = no_result

differ :
    {S : Type 0} (a b : Str) (m : List (Str × S)) (s : S)
    → lookup a m ≡ none
    → lookup b m ≡ some s
    → str_eq a b ≡ false
differ a b m s h k = elim (Bool-cases (str_eq a b)) [
  | inl e ↦ absurd (none≢some (sym h ∙ ap (λ x. lookup x m) ((str_eq_iff a b).0 e) ∙ k))
  | inr e ↦ e
]

eq_sym : (a b : Str) → str_eq a b ≡ false → str_eq b a ≡ false
eq_sym a b h = ground (arith, str_eq_iff a b, str_eq_iff b a)

module _ {S : Type 0} (new_storage : Str → S) (uuid : Str) (st : Storage) (c : Context S)
    (sys sys' : S) where
  catalog-kept :
      lookup sys_tables c.storages ≡ some sys
      → lookup uuid c.storages ≡ none
      → lookup sys_tables (with_table new_storage c uuid st sys').storages ≡ some sys'
  catalog-kept h fresh =
      lookup-try_emplace uuid sys_tables (new_storage uuid) (assign sys_tables sys' c.storages)
      ∙ rw (differ uuid sys_tables c.storages sys fresh h)
          (lookup-assigned sys_tables sys' c.storages)

  storage-made :
      lookup sys_tables c.storages ≡ some sys
      → lookup uuid c.storages ≡ none
      → lookup uuid (with_table new_storage c uuid st sys').storages ≡ some (new_storage uuid)
  storage-made h fresh =
      let missing : lookup uuid (assign sys_tables sys' c.storages) ≡ none =
        lookup-assign sys_tables uuid sys' c.storages
        ∙ ap (λ b. if b then some sys' else lookup uuid c.storages)
            (eq_sym uuid sys_tables (differ uuid sys_tables c.storages sys fresh h))
        ∙ fresh in
      lookup-try_emplace uuid uuid (new_storage uuid) (assign sys_tables sys' c.storages)
      ∙ rw (str_eq_refl uuid, missing) refl

module _ {S : Type 0} (engine : StorageEngine S) where
  module _ (new_storage : Str → S) (uuid name : Str) (session : Session) (c : Context S)
      (sys : S) where
    create-step :
        lookup sys_tables c.storages ≡ some sys
        → create_table engine new_storage uuid name session c
          ≡ create_of new_storage c (add_storage engine session.tx uuid name c.tx_storage sys)
    unfolding create_table create_of
    create-step h =
        rw (h, create_table)
          (elim (add_storage engine session.tx uuid name c.tx_storage sys)
            as (λ o.
              elim o as (λ x. Outcome (Context S)) [
                | done (id, (st, sys')) ↦ done (with_table new_storage c id st sys')
                | database_exception ↦ database_exception
                | no_result ↦ no_result
              ]
              ≡ create_of new_storage c o) [
                | done p ↦ refl
                | database_exception ↦ refl
                | no_result ↦ refl
              ])

    created_from :
        (c' : Context S)
        → lookup sys_tables c.storages ≡ some sys
        → create_table engine new_storage uuid name session c ≡ done c'
        → (id : Str) × (st : Storage) × (sys' : S) × (add_storage engine session.tx uuid name
              c.tx_storage sys
            ≡ done (id, (st, sys')))
          × (with_table new_storage c id st sys' ≡ c')
    unfolding create_of
    created_from c' h e =
        elim (Outcome-cases (add_storage engine session.tx uuid name c.tx_storage sys)) [
          | inl ((id, (st, sys')), o) ↦
              (id, st, sys', o, done_inj (sym (create-step h ∙ ap (create_of new_storage c) o) ∙ e))
          | inr (inl o) ↦
              absurd (exception≢done (sym (create-step h ∙ ap (create_of new_storage c) o) ∙ e))
          | inr (inr o) ↦
              absurd (no_result≢done (sym (create-step h ∙ ap (create_of new_storage c) o) ∙ e))
        ]

  get_table-found :
      (name id : Str) (session : Session) (c : Context S) (sys storage : S)
      → lookup sys_tables c.storages ≡ some sys
      → str_eq name sys_tables ≡ false
      → str_eq name sys_transactions ≡ false
      → get_storage_id engine session.tx name c.tx_storage sys ≡ done (some id)
      → lookup id c.storages ≡ some storage
      → get_table engine name session c ≡ done (transactional id)
  unfolding get_table
  get_table-found name id session c sys storage h a b g f = rw (h, a, b, g, f, get_table) refl

  -- Let `CreateTable` succeed with an id that no storage has, for a name that no system table has, over
  -- a catalog that holds versions that it wrote and accepts the record. Then the session finds the table
  -- of that id under the name, its storage is the one that `Init` made, and creating the name again is
  -- refused.
  pub get_table-create_table :
      (new_storage : Str → S) (uuid name : Str) (vs : List TransactionalValue) (session : Session)
      (c c' : Context S) (sys : S)
      → lookup sys_tables c.storages ≡ some sys
      → lookup uuid c.storages ≡ none
      → str_eq name sys_tables ≡ false
      → str_eq name sys_transactions ≡ false
      → Stored engine name vs sys
      → IsStorable (live session.tx (to_string (record { status = created; id = uuid })))
      → engine.accepts
          (row_with name (live session.tx (to_string (record { status = created; id = uuid }))))
          sys
      → create_table engine new_storage uuid name session c ≡ done c'
      → (get_table engine name session c' ≡ done (transactional uuid))
        × (lookup uuid c'.storages ≡ some (new_storage uuid))
        × ((other : Str)
            → create_table engine new_storage other name session c' ≡ database_exception)
  unfolding create_of
  get_table-create_table new_storage uuid name vs session c c' sys h fresh a b v i acc e =
      let (id, st, sys', added, made) = created_from new_storage uuid name session c sys c' h e in
      let (same, found, again) =
        get_storage_id-add_storage engine session.tx uuid name id vs c.tx_storage st sys sys' v i
          acc added in
      let c₁ = with_table new_storage c uuid st sys' in
      let made' : c₁ ≡ c' = ap (λ x. with_table new_storage c x st sys') (sym same) ∙ made in
      let catalog = catalog-kept new_storage uuid st c sys sys' h fresh in
      let storage = storage-made new_storage uuid st c sys sys' h fresh in
      subst
        (λ z.
          (get_table engine name session z ≡ done (transactional uuid))
          × (lookup uuid z.storages ≡ some (new_storage uuid))
          × ((other : Str)
              → create_table engine new_storage other name session z ≡ database_exception))
        made'
        (
          get_table-found name uuid session c₁ sys' (new_storage uuid) catalog a b found storage,
          storage,
          λ other.
              create-step new_storage other name session c₁ sys' catalog
              ∙ ap (create_of new_storage c₁) (again other),
        )
