-- ===== src/Wal/Reader/Takes.antt =====
-- How many bytes the readers of an event take (wal/events and src/server/sdb).
use structuredb.Base.{
  ℕ, zero, suc, ◌+◌, ◌≤◌, ◌≡◌, ◌≢◌, refl, sym, ap, ◌∙◌, Bool, true, false, [], ◌∷◌, length, arith,
  ◌⊎◌, inl, inr, ◌==◌, if◌then◌else◌,
}
use structuredb.Base.Str.{Str}
use structuredb.Sdb.{
  Result, Fault, ok, err, unknown_event, length_error, Reader, read, read_int, read_string, ◌>>=◌,
  return,
}
use structuredb.Wal.Event.{
  parse_event, parser_of, parse_lsm_storage_upsert, parse_tx_storage_commit,
}

-- A reader takes a number of bytes at least.
pub record Takes {A : Type 0} (n : ℕ) (m : Reader A) : Type 0 where
  pub takes :
      (bytes : Str) (a : A) (rest : Str) → m bytes ≡ ok (a, rest) → length rest + n ≤ length bytes

pub Result-cases :
    {A : Type 0} (r : Result A) → ((a : A) × (r ≡ ok a)) ⊎ ((e : Fault) × (r ≡ err e))
Result-cases (ok a) = inl (a, refl)
Result-cases (err e) = inr (e, refl)

ok_inj : {A : Type 0} {a b : A} → ok a ≡ ok b → a ≡ b
ok_inj e = cc

ok≢err : {A : Type 0} {a : A} {e : Fault} → ok a ≢ err e
ok≢err h = cc

pub err_rest :
    {A B : Type 0} (m : Reader A) (f : A → Reader B) {e : Fault} (bytes : Str)
    → m bytes ≡ err e
    → (m >>= f) bytes ≡ err e
err_rest m f bytes h = rw (h, ◌>>=◌)

pub ok_rest :
    {A B : Type 0} (m : Reader A) (f : A → Reader B) {a : A} {rest : Str} (bytes : Str)
    → m bytes ≡ ok (a, rest)
    → (m >>= f) bytes ≡ f a rest
ok_rest m f bytes h = rw (h, ◌>>=◌)

pub read-suc :
    (n b : ℕ) (bytes : Str) {s rest : Str}
    → read n bytes ≡ ok (s, rest)
    → read (suc n) (b ∷ bytes) ≡ ok (b ∷ s, rest)
unfolding read
read-suc n b bytes h = rw h refl

pub read-suc-err :
    (n b : ℕ) (bytes : Str) {e : Fault} → read n bytes ≡ err e → read (suc n) (b ∷ bytes) ≡ err e
unfolding read
read-suc-err n b bytes h = rw h refl

takes-read :
    (n : ℕ) (bytes s rest : Str) → read n bytes ≡ ok (s, rest) → length rest + n ≤ length bytes
unfolding read
takes-read zero bytes s rest h = omega (arith, ap (λ p. length p.1) (ok_inj h))
takes-read (suc n) [] s rest h = cc
takes-read (suc n) (b ∷ bytes) s rest h = elim (Result-cases (read n bytes)) [
  | inl ((s', rest'), e) ↦
      let k = ok_inj (sym (read-suc n b bytes e) ∙ h) in
      omega (arith, takes-read n bytes s' rest' e, ap (λ p. length p.1) k)
  | inr (f, e) ↦ absurd (ok≢err (sym h ∙ read-suc-err n b bytes e))
]

Takes-read : (n : ℕ) → Takes n (read n)
Takes-read n = record { takes = takes-read n }

Takes-bind :
    {A B : Type 0} {m : Reader A} (f : A → Reader B) {n k : ℕ}
    → Takes n m
    → ((a : A) → Takes k (f a))
    → Takes (n + k) (m >>= f)
Takes-bind {m} f p q = record {
  takes = λ bytes b rest h. elim (Result-cases (m bytes)) [
    | inl ((a, rest'), e) ↦
        omega
          (arith, p.takes bytes a rest' e, (q a).takes rest' b rest (sym (ok_rest m f bytes e) ∙ h))
    | inr (g, e) ↦ absurd (ok≢err (sym h ∙ err_rest m f bytes e))
  ];
}

Takes-return : {A : Type 0} (a : A) → Takes 0 (return a)
Takes-return a = record { takes = λ bytes b rest h. omega (arith, ap (λ p. length p.1) (ok_inj h)) }

Takes-less : {A : Type 0} {n : ℕ} {m : Reader A} → Takes n m → Takes 0 m
Takes-less p = record { takes = λ bytes a rest h. omega (arith, p.takes bytes a rest h) }

Takes-err : {A : Type 0} (e : Fault) → Takes {A = A} 0 (λ bytes. err e)
Takes-err e = record { takes = λ bytes a rest h. absurd (ok≢err (sym h)) }

Takes-read_int : Takes 8 read_int
unfolding read_int
Takes-read_int = Takes-bind _ (Takes-read 8) (λ raw. Takes-return _)

Takes-if :
    {A : Type 0} {m k : Reader A} (b : Bool) → Takes 0 m → Takes 0 k → Takes 0 (if b then m else k)
Takes-if true p q = p
Takes-if false p q = q

Takes-read_string : Takes 8 read_string
unfolding read_string
Takes-read_string =
    Takes-bind _ Takes-read_int
      (λ size. Takes-if _ (Takes-less (Takes-read size)) (Takes-err length_error))

Takes-parser_of : (type : ℕ) → Takes 0 (parser_of type)
unfolding parser_of parse_lsm_storage_upsert parse_tx_storage_commit
Takes-parser_of type =
    Takes-if (type == 1)
      (Takes-less (
        Takes-bind _ Takes-read_string (λ id. Takes-less (
          Takes-bind _ Takes-read_int (λ seq_no. Takes-less (
            Takes-bind _ Takes-read_string
              (λ key. Takes-less (Takes-bind _ Takes-read_string (λ value. Takes-return _)))))))))
      (Takes-if (type == 2) (Takes-less (Takes-bind _ Takes-read_int (λ tx. Takes-return _)))
        (Takes-err unknown_event))

pub Takes-parse_event : Takes 8 parse_event
unfolding parse_event
Takes-parse_event = Takes-bind _ Takes-read_int Takes-parser_of
