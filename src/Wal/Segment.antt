-- ===== src/Wal/Segment.antt =====
-- The names of the segment files (wal/segment.cpp, and the format "{:04d}.wal.sdb" of wal/writer.cpp,
-- wal/tail.cpp and wal/cleaner.cpp), and their order.
use structuredb.Base.{
  ℕ, zero, suc, ◌+◌, ◌-◌, ◌*◌, ◌/◌, ◌%◌, ◌^◌, ◌<◌, ◌≡◌, sym, ap, subst, ◌∙◌, lt→ltb, Bool, true,
  ◌&&◌, Option, none, some, [], ◌∷◌, ◌++◌, arith, if◌then◌else◌, ltb, leb,
}
use structuredb.Base.Str.{Str, str_lt}

-- ".wal.sdb"
abbrev pub extension : Str
extension = 46 ∷ 119 ∷ 97 ∷ 108 ∷ 46 ∷ 115 ∷ 100 ∷ 98 ∷ []

-- The decimal digits of a number, for a fuel above their number.
unfoldable pub decimal : ℕ → ℕ → Str
decimal zero n = []
decimal (suc fuel) n =
    if ltb n 10 then (48 + n) ∷ [] else decimal fuel (n / 10) ++ ((48 + n % 10) ∷ [])

-- `std::format("{:04d}", n)`
unfoldable pub four_digits : ℕ → Str
unfolding decimal
four_digits n =
    if ltb n 10000
    then (48 + n / 1000) ∷ (48 + n / 100 % 10) ∷ (48 + n / 10 % 10) ∷ (48 + n % 10) ∷ []
    else decimal 20 n

unfoldable pub segment_name : ℕ → Str
unfolding four_digits
segment_name n = four_digits n ++ extension

abbrev pub is_digit : ℕ → Bool
is_digit c = leb 48 c && ltb c 58

-- The digits at the front of a string, behind those whose value is `acc`.
unfoldable pub digits_value : ℕ → Str → ℕ
digits_value acc [] = acc
digits_value acc (c ∷ s) = if is_digit c then digits_value (10 * acc + (c - 48)) s else acc

-- What fits an `int64_t`.
abbrev in_range : ℕ → Option ℕ
in_range n = if ltb n (2 ^ 63) then some n else none

-- `GetSegmentNoFromName`: `std::stoll` reads the digits at the front, and throws where there is none or
-- the number is out of range; the -1 of that case is `none`.
unfoldable pub get_segment_no_from_name : Str → Option ℕ
unfolding digits_value
get_segment_no_from_name [] = none
get_segment_no_from_name (c ∷ s) = if is_digit c then in_range (digits_value 0 (c ∷ s)) else none

digits_value-digit :
    (acc d : ℕ) (s : Str) → d < 10 → digits_value acc ((48 + d) ∷ s) ≡ digits_value (10 * acc + d) s
unfolding digits_value
digits_value-digit acc d s h = ground arith

digits_value-four :
    (a b c d : ℕ) (s : Str)
    → a < 10
    → b < 10
    → c < 10
    → d < 10
    → digits_value 0 ((48 + a) ∷ (48 + b) ∷ (48 + c) ∷ (48 + d) ∷ s)
      ≡ digits_value (1000 * a + 100 * b + 10 * c + d) s
digits_value-four a b c d s ha hb hc hd =
    digits_value-digit 0 a _ ha
    ∙ digits_value-digit _ b _ hb
    ∙ digits_value-digit _ c _ hc
    ∙ digits_value-digit _ d _ hd
    ∙ ap (λ n. digits_value n s) (omega arith)

four_digits_lem :
    (n : ℕ)
    → n < 10000
    → four_digits n
      ≡ (48 + n / 1000) ∷ (48 + n / 100 % 10) ∷ (48 + n / 10 % 10) ∷ (48 + n % 10) ∷ []
unfolding four_digits
four_digits_lem n h = rw (lt→ltb n 10000 h)

value-four : (n : ℕ) → 1000 * (n / 1000) + 100 * (n / 100 % 10) + 10 * (n / 10 % 10) + n % 10 ≡ n
value-four n = omega arith

digits_value-name : (n : ℕ) → n < 10000 → digits_value 0 (segment_name n) ≡ n
unfolding segment_name digits_value
digits_value-name n h = rw (four_digits_lem n h) (
    digits_value-four (n / 1000) (n / 100 % 10) (n / 10 % 10) (n % 10) extension (omega arith)
      (omega arith) (omega arith) (omega arith)
    ∙ value-four n)

number_lem :
    (c n : ℕ) (s : Str)
    → is_digit c ≡ true
    → n < 10000
    → digits_value 0 (c ∷ s) ≡ n
    → get_segment_no_from_name (c ∷ s) ≡ some n
unfolding get_segment_no_from_name
number_lem c n s h k e =
    ap (λ b. if b then in_range (digits_value 0 (c ∷ s)) else none) h
    ∙ ap in_range e
    ∙ ap (λ b. if b then some n else none) (lt→ltb n (2 ^ 63) (omega arith))

pub number-segment_name : (n : ℕ) → n < 10000 → get_segment_no_from_name (segment_name n) ≡ some n
unfolding segment_name
number-segment_name n h =
    subst
      (λ s.
        digits_value 0 (s ++ extension) ≡ n → get_segment_no_from_name (s ++ extension) ≡ some n)
      (sym (four_digits_lem n h)) (number_lem (48 + n / 1000) n _ (ground arith) h)
      (unfold segment_name in digits_value-name n h)

str_lt-four :
    (a b c d a' b' c' d' : ℕ) (s t : Str)
    → b < 10
    → c < 10
    → d < 10
    → b' < 10
    → c' < 10
    → d' < 10
    → 1000 * a + 100 * b + 10 * c + d < 1000 * a' + 100 * b' + 10 * c' + d'
    → str_lt
        ((48 + a) ∷ (48 + b) ∷ (48 + c) ∷ (48 + d) ∷ s)
        ((48 + a') ∷ (48 + b') ∷ (48 + c') ∷ (48 + d') ∷ t)
      ≡ true
unfolding str_lt
str_lt-four a b c d a' b' c' d' s t hb hc hd hb' hc' hd' h = ground arith

pub segment_name-lt :
    (m n : ℕ) → m < n → n < 10000 → str_lt (segment_name m) (segment_name n) ≡ true
unfolding segment_name
segment_name-lt m n h k =
    rw (four_digits_lem m (omega arith), four_digits_lem n k)
      (str_lt-four (m / 1000) (m / 100 % 10) (m / 10 % 10) (m % 10) (n / 1000) (n / 100 % 10)
        (n / 10 % 10) (n % 10) extension extension (omega arith) (omega arith) (omega arith)
        (omega arith) (omega arith) (omega arith) (omega (arith, value-four m, value-four n)))
