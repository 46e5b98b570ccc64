-- ===== src/Lsm/Order.antt =====
-- `Record::operator<` is a strict total order.
use structuredb.Base.{◌≡◌, true, false, List, [], ◌∷◌, arith, All}
use structuredb.Base.Str.{
  str_lt, str_eq_iff, str_lt_irrefl, str_lt_trans, str_lt_total, str_eq_refl,
}
use structuredb.Lsm.Types.{Record, record_lt}

pub record_lt_irrefl : (a : Record) → record_lt a a ≡ false
unfolding record_lt
record_lt_irrefl a = ground (arith, str_eq_refl a.key, str_lt_irrefl a.value)

pub record_lt_trans :
    (a b c : Record) → record_lt a b ≡ true → record_lt b c ≡ true → record_lt a c ≡ true
unfolding record_lt
record_lt_trans a b c h k = ground (
  arith,
  str_eq_iff a.key b.key,
  str_eq_iff b.key c.key,
  str_eq_iff a.key c.key,
  str_lt_trans a.key b.key c.key,
  str_lt_trans a.value b.value c.value,
  str_lt_irrefl a.key,
  str_lt_trans a.key b.key a.key,
)

-- Two records neither of which is below the other are the same record.
pub record_lt_total : (a b : Record) → record_lt a b ≡ false → record_lt b a ≡ false → a ≡ b
unfolding record_lt
record_lt_total a b h k = λ i. record { key = keys i; seq_no = seqs i; value = values i }
  where
    keys : a.key ≡ b.key
    keys = ground (arith, str_eq_iff a.key b.key, str_eq_iff b.key a.key, str_lt_total a.key b.key)

    seqs : a.seq_no ≡ b.seq_no
    seqs = ground (arith, keys, str_eq_iff a.key b.key, str_eq_iff b.key a.key)

    values : a.value ≡ b.value
    values = ground (
      arith,
      keys,
      seqs,
      str_eq_iff a.key b.key,
      str_eq_iff b.key a.key,
      str_lt_total a.value b.value,
    )

-- Not below is transitive too.
pub record_le_trans :
    (a b c : Record) → record_lt b a ≡ false → record_lt c b ≡ false → record_lt c a ≡ false
record_le_trans a b c h k =
    ground
      (arith, record_lt_total a b, record_lt_trans c a b, record_lt_trans a b a, record_lt_irrefl c)

-- The order of records refines the order of their keys.
pub key_le_of_record_le : (a b : Record) → record_lt b a ≡ false → str_lt b.key a.key ≡ false
unfolding record_lt
key_le_of_record_le a b h = ground (arith, str_eq_iff b.key a.key, str_lt_irrefl a.key)

-- No later record of the list is below an earlier one.
abbrev pub IsSorted : List Record → Type 0
IsSorted [] = Unit
IsSorted (x ∷ xs) = All (λ y. record_lt y x ≡ false) xs × IsSorted xs
