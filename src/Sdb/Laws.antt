-- ===== src/Sdb/Laws.antt =====
-- Reading back what was written, for each kind of datum.
use structuredb.Base.{
  ℕ, ◌<◌, ◌^◌, ◌≡◌, refl, subst, ◌∙◌, Bool, true, false, [], ◌∷◌, ◌++◌, length, arith, lt→ltb,
}
use structuredb.Base.Str.{Str}
use structuredb.Sdb.Bytes.{le_bytes, le_value, le_value-le_bytes}
use structuredb.Sdb.{
  ok, Reader, ◌>>=◌, return, read, read_int, read_string, read_bool, write_int, write_string,
  write_bool,
}
use mathlib.Core.List.{append_assoc}

-- Reading what a writer put at the front of the buffer gives it back and leaves the rest.
pub record Reads {A : Type 0} (m : Reader A) (a : A) (s : Str) : Type 0 where
  pub reads : (rest : Str) → m (s ++ rest) ≡ ok (a, rest)

module _ {A B : Type 0} where
  bind_ok :
      (m : Reader A) (f : A → Reader B) {a : A} {bytes rest : Str}
      → m bytes ≡ ok (a, rest)
      → (m >>= f) bytes ≡ f a rest
  bind_ok m f e = rw (e, ◌>>=◌)

  pub Reads-bind :
      {m : Reader A} (f : A → Reader B) {a : A} {b : B} {s t : Str}
      → Reads m a s
      → Reads (f a) b t
      → Reads (m >>= f) b (s ++ t)
  Reads-bind {m} f {s} {t} p q = record {
    reads = λ rest. rw append_assoc (bind_ok m f (p.reads (t ++ rest)) ∙ q.reads rest);
  }

  pub Reads-return :
      {m : Reader A} (f : A → B) {a : A} {s : Str}
      → Reads m a s
      → Reads (m >>= λ x. return (f x)) (f a) s
  Reads-return {m} f p = record { reads = λ rest. bind_ok m (λ x. return (f x)) (p.reads rest) }

read-append : (s rest : Str) → read (length s) (s ++ rest) ≡ ok (s, rest)
unfolding read
read-append [] rest = refl
read-append (b ∷ s) rest = rw (read-append s rest)

read-Reads : (s : Str) → Reads (read (length s)) s s
read-Reads s = record { reads = read-append s }

read-le_bytes : (n : ℕ) → Reads (read 8) (le_bytes 8 n) (le_bytes 8 n)
unfolding read le_bytes
read-le_bytes n = record { reads = λ rest. refl }

pub read_int-Reads : {n : ℕ} → n < 2 ^ 64 → Reads read_int n (write_int n [])
unfolding read_int write_int
read_int-Reads {n} h =
    subst (λ v. Reads read_int v (le_bytes 8 n)) (le_value-le_bytes 8 n h)
      (Reads-return _ (read-le_bytes n))

pub read_string-Reads : {s : Str} → length s < 2 ^ 63 → Reads read_string s (write_string s [])
unfolding read_string write_string
read_string-Reads {s} h =
    Reads-bind _ (read_int-Reads (omega arith)) (rw (lt→ltb _ _ h) (read-Reads s))

pub read_bool-Reads : (b : Bool) → Reads read_bool b (write_bool b [])
unfolding read_bool write_bool le_value
read_bool-Reads true = record { reads = λ rest. refl }
read_bool-Reads false = record { reads = λ rest. refl }
