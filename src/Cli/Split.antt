-- ===== src/Cli/Split.antt =====
-- cli/utils/split.cpp: the pieces of a command line.
use structuredb.Base.{
  ℕ, zero, suc, ◌≡◌, refl, sym, ap, ◌∙◌, Bool, true, false, List, [], ◌∷◌, ◌++◌, length, arith,
  ◌==◌, ==_iff, if◌then◌else◌, true≢false, Bool-cases, inl, inr, Option, none, some, All, ◌<◌, ◌≤◌,
  length-append,
}
use structuredb.Base.Str.{Str}

-- `str.find(delimiter, start)` over what is left from `start` on: the bytes in front of the first
-- delimiter, and those behind it when there is one.
unfoldable pub find : ℕ → Str → Str × Option Str
find delimiter [] = ([], none)
find delimiter (c ∷ str) =
    let rest = find delimiter str in if c == delimiter then ([], some str) else (c ∷ rest.0, rest.1)

-- The loop: one more piece in each round, and the last one when there is no delimiter.
unfoldable pub split_loop : ℕ → ℕ → Str → List Str
split_loop zero delimiter str = []
split_loop (suc fuel) delimiter str =
    let found = find delimiter str in
    found.0 ∷ elim found.1 [ none ↦ [] | some rest ↦ split_loop fuel delimiter rest ]

unfoldable pub split : Str → ℕ → List Str
split str delimiter = split_loop (suc (length str)) delimiter str

-- What a list of pieces is written as, the reference of `split`.
unfoldable pub behind : ℕ → List Str → Str
behind delimiter [] = []
behind delimiter (piece ∷ pieces) = delimiter ∷ piece ++ behind delimiter pieces

unfoldable pub join : ℕ → Str → List Str → Str
join delimiter piece pieces = piece ++ behind delimiter pieces

unfoldable pub is_free : ℕ → Str → Bool
is_free delimiter [] = true
is_free delimiter (c ∷ str) = if c == delimiter then false else is_free delimiter str

find-front : (d : ℕ) (p r : Str) → is_free d p ≡ true → find d (p ++ d ∷ r) ≡ (p, some r)
unfolding find is_free
find-front d [] r h = ground arith
find-front d (c ∷ p) r h = elim (Bool-cases (c == d)) [
  | inl b ↦ absurd (true≢false (sym h ∙ ap (λ x. if x then false else is_free d p) b))
  | inr b ↦ rw (b, find-front d p r (sym (ap (λ x. if x then false else is_free d p) b) ∙ h)) refl
]

find-free : (d : ℕ) (p : Str) → is_free d p ≡ true → find d p ≡ (p, none)
unfolding find is_free
find-free d [] h = refl
find-free d (c ∷ p) h = elim (Bool-cases (c == d)) [
  | inl b ↦ absurd (true≢false (sym h ∙ ap (λ x. if x then false else is_free d p) b))
  | inr b ↦ rw (b, find-free d p (sym (ap (λ x. if x then false else is_free d p) b) ∙ h)) refl
]

append_none : (p : Str) → p ++ [] ≡ p
append_none [] = refl
append_none (c ∷ p) = ap (c ∷◌) (append_none p)

loop-join :
    (fuel d : ℕ) (p : Str) (ps : List Str)
    → is_free d p ≡ true
    → All (λ q. is_free d q ≡ true) ps
    → length ps < fuel
    → split_loop fuel d (join d p ps) ≡ p ∷ ps
unfolding split_loop join behind
loop-join zero d p ps h hs e = absurd (omega arith)
loop-join (suc fuel) d p [] h hs e = rw (append_none p, find-free d p h) refl
loop-join (suc fuel) d p (q ∷ ps) h (hq, hs) e =
    rw (find-front d p (q ++ behind d ps) h) (ap (p ∷◌) (loop-join fuel d q ps hq hs (omega arith)))

length-behind : (d : ℕ) (ps : List Str) → length ps ≤ length (behind d ps)
unfolding behind
length-behind d [] = omega arith
length-behind d (p ∷ ps) = omega (arith, length-behind d ps, length-append p (behind d ps))

-- What the search finds: no delimiter, or the first one.
data Found (d : ℕ) (s : Str) : Type 0 where
  absent : is_free d s ≡ true → find d s ≡ (s, none) → Found d s
  present : (p r : Str) → is_free d p ≡ true → find d s ≡ (p, some r) → s ≡ p ++ d ∷ r → Found d s

find-Found : (d : ℕ) (s : Str) → Found d s
unfolding find is_free
find-Found d [] = absent refl refl
find-Found d (c ∷ s) = elim (Bool-cases (c == d)) [
  | inl b ↦ present [] s refl (rw b refl) (ap (λ x. x ∷ s) ((==_iff c d).0 b))
  | inr b ↦ elim (find-Found d s) [
    | absent h e ↦ absent (rw b h) (rw (b, e) refl)
    | present p r h e q ↦ present (c ∷ p) r (rw b h) (rw (b, e) refl) (ap (c ∷◌) q)
  ]
]

-- A string as pieces.
pub Pieces : ℕ → Str → List Str → Type 0
Pieces d s found =
    (p : Str) × (ps : List Str) × (found ≡ p ∷ ps)
    × (All (λ q. is_free d q ≡ true) (p ∷ ps))
    × (join d p ps ≡ s)

loop-Pieces : (fuel d : ℕ) (s : Str) → length s < fuel → Pieces d s (split_loop fuel d s)
unfolding split_loop join behind Pieces
loop-Pieces zero d s l = absurd (omega arith)
loop-Pieces (suc fuel) d s l = elim (find-Found d s) [
  | absent h e ↦ (s, [], rw e refl, (h, tt), append_none s)
  | present p r h e q ↦
      let shorter : length r < fuel = omega (arith, length-append p (d ∷ r), ap length q) in
      let (p', ps, f, hs, j) = loop-Pieces fuel d r shorter in
      (p, p' ∷ ps, rw (e, f) refl, (h, hs), ap (λ x. p ++ d ∷ x) j ∙ sym q)
]

-- Splitting what pieces without the delimiter are joined to gives the pieces back.
pub split-join :
    (d : ℕ) (p : Str) (ps : List Str)
    → is_free d p ≡ true
    → All (λ q. is_free d q ≡ true) ps
    → split (join d p ps) d ≡ p ∷ ps
unfolding split join
split-join d p ps h hs =
    loop-join (suc (length (p ++ behind d ps))) d p ps h hs
      (omega (arith, length-append p (behind d ps), length-behind d ps))

-- Splitting any string gives at least one piece, no piece has the delimiter in it, and the pieces joined
-- by it are the string.
pub split-Pieces : (d : ℕ) (s : Str) → Pieces d s (split s d)
unfolding split
split-Pieces d s = loop-Pieces (suc (length s)) d s (omega arith)
