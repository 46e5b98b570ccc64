-- ===== src/Sdb.antt =====
-- sdb::BufferWriter and sdb::BufferReader (src/server/sdb). The bytes of `data_` are a list of
-- numbers. An `int64_t` is carried as its 64-bit pattern and laid out in little-endian order, as on
-- the hosts that the program is built for. A writer is the bytes written so far; a reader is the
-- bytes not yet read, and copying past their end, which C++ leaves undefined, is `overrun`.
pub mod Bytes
pub mod Laws
use structuredb.Base.{
  ℕ, zero, suc, ◌%◌, ◌^◌, ◌≡◌, Bool, true, false, List, [], ◌∷◌, ◌++◌, length, if◌then◌else◌, ltb,
  ◌==◌,
}
use structuredb.Base.Str.{Str}
use Bytes.{le_bytes, le_value}

pub data Fault : Type 0 where
  -- a copy from beyond the buffer
  overrun : Fault
  -- `resize` to a negative size, which throws std::length_error
  length_error : Fault
  -- `kParsers.at(type)` at an unknown type, which throws std::out_of_range
  unknown_event : Fault

pub data Result {ℓ} (A : Type ℓ) : Type ℓ where
  ok : A → Result A
  err : Fault → Result A

abbrev pub Reader : Type 0 → Type 0
Reader A = Str → Result (A × Str)

infixl 5 ◌>>=◌
abbrev pub ◌>>=◌ : {A B : Type 0} → Reader A → (A → Reader B) → Reader B
◌>>=◌ m f bytes = elim (m bytes) [ ok (a, rest) ↦ f a rest | err e ↦ err e ]

abbrev pub return : {A : Type 0} → A → Reader A
return a bytes = ok (a, bytes)

-- `BufferWriter::Write`
unfoldable pub write : Str → Str → Str
write buffer out = out ++ buffer

unfoldable pub write_int : ℕ → Str → Str
write_int value out = out ++ le_bytes 8 value

unfoldable pub write_string : Str → Str → Str
unfolding write write_int
write_string value out = write value (write_int (length value) out)

unfoldable pub write_bool : Bool → Str → Str
write_bool value out = out ++ ((if value then 1 else 0) ∷ [])

-- `BufferReader::Read` of a number of bytes.
unfoldable pub read : ℕ → Reader Str
read zero bytes = ok ([], bytes)
read (suc n) [] = err overrun
read (suc n) (b ∷ bytes) = elim (read n bytes) [ ok (s, rest) ↦ ok (b ∷ s, rest) | err e ↦ err e ]

unfoldable pub read_int : Reader ℕ
unfolding read
read_int = do raw ← read 8; return (le_value raw)

-- A pattern from 2 ^ 63 on is a negative size.
unfoldable pub read_string : Reader Str
unfolding read read_int
read_string = do
  size ← read_int
  if ltb size (2 ^ 63) then read size else (λ bytes. err length_error)

unfoldable pub read_bool : Reader Bool
unfolding read
read_bool = do raw ← read 1; return (if le_value raw == 0 then false else true)

unfoldable pub has_more : Str → Bool
has_more [] = false
has_more (b ∷ bytes) = true
