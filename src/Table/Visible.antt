-- ===== src/Table/Visible.antt =====
-- Which version of a row a transaction sees.
use structuredb.Base.{
  ℕ, true, false, ◌≢◌, arith, ◌==◌, ◌<◌, ◌^◌, ◌≡◌, refl, sym, ap, ◌∙◌, subst, Option, none, some,
  List, [], ◌∷◌, ◌++◌, length, All, if◌then◌else◌, Bool-cases, inl, inr,
}
use structuredb.Base.Str.{Str}
use structuredb.Sdb.{ok, write_int, write_bool, write_string}
use structuredb.Sdb.Laws.{
  Reads, Reads-bind, Reads-return, read_int-Reads, read_bool-Reads, read_string-Reads,
}
use structuredb.Transaction.{Storage, commited, get_status, is_commited}
use structuredb.Table.{
  Row, TransactionalValue, read_value, write_value, to_string, parse_value, is_visible, shown,
  lookup_rows,
}
use mathlib.Core.List.{append_assoc, append-nil}

pub record IsStorable (v : TransactionalValue) : Type 0 where
  pub tx_fits : v.tx < 2 ^ 64
  pub value_fits : length v.value < 2 ^ 63

write_value-parts :
    (v : TransactionalValue)
    → to_string v
      ≡ write_int v.tx []
        ++ (write_bool v.is_deleted [] ++ (write_bool v.is_frozen [] ++ write_string v.value []))
unfolding to_string write_value write_string write_int write_bool
write_value-parts v = simp append_assoc

read_value-Reads : (v : TransactionalValue) → IsStorable v → Reads read_value v (to_string v)
unfolding read_value
read_value-Reads v h = subst (Reads read_value v) (sym (write_value-parts v)) (
    Reads-bind _ (read_int-Reads h.tx_fits) (
      Reads-bind _ (read_bool-Reads v.is_deleted) (
        Reads-bind _ (read_bool-Reads v.is_frozen)
          (Reads-return _ (read_string-Reads h.value_fits)))))

-- A value whose transaction id and length fit their fields is parsed back from its string as it
-- was, both flags with it.
pub parse_value-to_string :
    (v : TransactionalValue) → IsStorable v → parse_value (to_string v) ≡ some v
unfolding parse_value
parse_value-to_string v h =
    let e : read_value (to_string v) ≡ ok (v, []) =
      ap read_value (sym (append-nil (to_string v))) ∙ (read_value-Reads v h).reads [] in
    rw (e, parse_value)

-- The first version that the transaction sees.
unfoldable pub first_visible : ℕ → Storage → List TransactionalValue → Option TransactionalValue
first_visible tx st [] = none
first_visible tx st (v ∷ vs) = if is_visible tx st v then some v else first_visible tx st vs

abbrev pub answer : Option TransactionalValue → Option Str
answer none = none
answer (some v) = shown v

unfoldable pub rows_for : Str → List TransactionalValue → List Row
rows_for key [] = []
rows_for key (v ∷ vs) = record { key = key; value = to_string v } ∷ rows_for key vs

lookup_rows-step :
    (tx : ℕ) (st : Storage) (row : Row) (rows : List Row) (v : TransactionalValue)
    → parse_value row.value ≡ some v
    → lookup_rows tx st (row ∷ rows)
      ≡ (if is_visible tx st v then some (shown v) else lookup_rows tx st rows)
unfolding lookup_rows
lookup_rows-step tx st row rows v e = elim (Bool-cases (is_visible tx st v)) [
  | inl b ↦ rw (e, b, lookup_rows)
  | inr b ↦ rw (e, b, lookup_rows)
]

-- The loop of `Lookup` answers for the first visible version.
pub lookup_rows_lem :
    (tx : ℕ) (st : Storage) (key : Str) (vs : List TransactionalValue)
    → All IsStorable vs
    → lookup_rows tx st (rows_for key vs) ≡ some (answer (first_visible tx st vs))
unfolding rows_for first_visible
lookup_rows_lem tx st key [] h = unfold lookup_rows in refl
lookup_rows_lem tx st key (v ∷ vs) h =
    lookup_rows-step tx st _ (rows_for key vs) v (parse_value-to_string v h.0)
    ∙ (elim (Bool-cases (is_visible tx st v)) [
      | inl b ↦ rw b
      | inr b ↦ rw b (lookup_rows_lem tx st key vs h.1)
    ])

-- What transactions see, apart from the code: a version is visible if it was frozen, or the reader wrote it,
-- or its transaction is committed; it is hidden if none of this is so.
pub data Visible (tx : ℕ) (st : Storage) (v : TransactionalValue) : Type 0 where
  frozen : v.is_frozen ≡ true → Visible tx st v
  own : v.tx ≡ tx → Visible tx st v
  of_commited : get_status v.tx st ≡ some commited → Visible tx st v

pub record Hidden (tx : ℕ) (st : Storage) (v : TransactionalValue) : Type 0 where
  pub not_frozen : v.is_frozen ≡ false
  pub foreign : v.tx ≢ tx
  pub not_commited : get_status v.tx st ≢ some commited

-- The answer for the versions of a key, the newest first: that of the first visible one.
pub data Sees (tx : ℕ) (st : Storage) : List TransactionalValue → Option Str → Type 0 where
  nothing : Sees tx st [] none
  value_of :
      {v : TransactionalValue} {vs : List TransactionalValue}
      → Visible tx st v
      → v.is_deleted ≡ false
      → Sees tx st (v ∷ vs) (some v.value)
  deleted :
      {v : TransactionalValue} {vs : List TransactionalValue}
      → Visible tx st v
      → v.is_deleted ≡ true
      → Sees tx st (v ∷ vs) none
  older :
      {v : TransactionalValue} {vs : List TransactionalValue} {found : Option Str}
      → Hidden tx st v
      → Sees tx st vs found
      → Sees tx st (v ∷ vs) found

Visible-of :
    (tx : ℕ) (st : Storage) (v : TransactionalValue) → is_visible tx st v ≡ true → Visible tx st v
unfolding is_visible is_commited
Visible-of tx st v h = elim (Bool-cases v.is_frozen) [
  | inl f ↦ frozen f
  | inr f ↦ elim (Bool-cases (v.tx == tx)) [
    | inl o ↦ own (ground arith)
    | inr o ↦ of_commited (ground arith)
  ]
]

Hidden-of :
    (tx : ℕ) (st : Storage) (v : TransactionalValue) → is_visible tx st v ≡ false → Hidden tx st v
unfolding is_visible is_commited
Hidden-of tx st v h = record {
  not_frozen = ground arith;
  foreign = λ e. ground arith;
  not_commited = λ e. ground arith;
}

answer-Sees :
    (tx : ℕ) (st : Storage) (vs : List TransactionalValue)
    → Sees tx st vs (answer (first_visible tx st vs))
unfolding first_visible
answer-Sees tx st [] = nothing
answer-Sees tx st (v ∷ vs) = elim (Bool-cases (is_visible tx st v)) [
  | inl b ↦ elim (Bool-cases v.is_deleted) [
    | inl d ↦ rw b (
        subst (Sees tx st (v ∷ vs)) (sym (ap (λ x. if x then none else some v.value) d))
          (deleted (Visible-of tx st v b) d))
    | inr d ↦ rw b (
        subst (Sees tx st (v ∷ vs)) (sym (ap (λ x. if x then none else some v.value) d))
          (value_of (Visible-of tx st v b) d))
  ]
  | inr b ↦ rw b (older (Hidden-of tx st v b) (answer-Sees tx st vs))
]

-- The loop of `Lookup` never fails on rows that hold values which fit their fields. It returns what the first
-- visible version says, where a version is visible if it is frozen, or the transaction's own, or of a
-- committed one: its value, or nothing where it is a tombstone or no version is visible.
pub lookup_rows-Sees :
    (tx : ℕ) (st : Storage) (key : Str) (vs : List TransactionalValue)
    → All IsStorable vs
    → (found : Option Str) × (lookup_rows tx st (rows_for key vs) ≡ some found)
      × Sees tx st vs found
lookup_rows-Sees tx st key vs h =
    (answer (first_visible tx st vs), lookup_rows_lem tx st key vs h, answer-Sees tx st vs)

-- Two storages under which the same versions are visible show the same.
pub first_visible-cong :
    (tx : ℕ) (st st' : Storage)
    → ((v : TransactionalValue) → is_visible tx st' v ≡ is_visible tx st v)
    → (vs : List TransactionalValue) → first_visible tx st' vs ≡ first_visible tx st vs
unfolding first_visible
first_visible-cong tx st st' h [] = refl
first_visible-cong tx st st' h (v ∷ vs) = rw (h v, first_visible-cong tx st st' h vs)
