-- ===== src/Io/SharedMutex/Places.antt =====
-- Places and lists of coroutines (io/shared_mutex.cpp): what a move, a wake-up and a removal leave.
use structuredb.Base.{
  ℕ, suc, ◌+◌, ◌-◌, ◌≡◌, ◌≢◌, sym, ap, subst, ◌∙◌, Bool, true, false, List, [], ◌∷◌, length, arith,
  ◌==◌, ==_iff, if◌then◌else◌, Bool-cases, inl, inr,
}
use structuredb.Base.Assoc.{nat_key, member}
use structuredb.Io.SharedMutex.{Place, outside, ready, sleeping, holding, move, cancel, wake}

-- A list without the first place of a number.
abbrev pub without : ℕ → List ℕ → List ℕ
without c [] = []
without c (x ∷ xs) = if x == c then xs else x ∷ without c xs

pub move-holds :
    (c k : ℕ) (p : Place) (place : ℕ → Place) (mode : Bool)
    → p ≢ holding mode
    → move c p place k ≡ holding mode
    → (place k ≡ holding mode) × ((c == k) ≡ false)
move-holds c k p place mode h e = elim (Bool-cases (c == k)) [
  | inl b ↦ absurd (h (sym (ap (λ x. if x then p else place k) b) ∙ e))
  | inr b ↦ (sym (ap (λ x. if x then p else place k) b) ∙ e, b)
]

pub cancel-holds : (p : Place) (mode : Bool) → cancel p ≡ holding mode → p ≡ holding mode
cancel-holds outside mode h = h
cancel-holds (ready m) mode h = h
cancel-holds (sleeping m) mode h = cc
cancel-holds (holding m) mode h = h

pub wake-holds :
    (cs : List ℕ) (place : ℕ → Place) (k : ℕ) (mode : Bool)
    → wake cs place k ≡ holding mode
    → place k ≡ holding mode
unfolding wake
wake-holds [] place k mode h = h
wake-holds (c ∷ cs) place k mode h =
    let q = wake-holds cs (move c (cancel (place c)) place) k mode h in
    elim (Bool-cases (c == k)) [
      | inl b ↦
          subst (λ j. place j ≡ holding mode) ((==_iff c k).0 b)
            (cancel-holds (place c) mode
              (sym (ap (λ x. if x then cancel (place c) else place k) b) ∙ q))
      | inr b ↦ sym (ap (λ x. if x then cancel (place c) else place k) b) ∙ q
    ]

pub length-without :
    (c : ℕ) (cs : List ℕ) → member c cs ≡ true → length (without c cs) ≡ length cs - 1
unfolding member
length-without c [] h = cc
length-without c (x ∷ []) h = ground arith
length-without c (x ∷ y ∷ cs) h = ground (arith, length-without c (y ∷ cs))

pub member-without :
    (c k : ℕ) (cs : List ℕ) → (c == k) ≡ false → member k cs ≡ true → member k (without c cs) ≡ true
unfolding member
member-without c k [] d h = cc
member-without c k (x ∷ cs) d h = ground (arith, member-without c k cs d)

pub member-front : (c k : ℕ) (cs : List ℕ) → (c == k) ≡ true → member k (c ∷ cs) ≡ true
unfolding member
member-front c k cs h = ground arith

pub member-behind : (c k : ℕ) (cs : List ℕ) → member k cs ≡ true → member k (c ∷ cs) ≡ true
unfolding member
member-behind c k cs h = ground arith

pub member-one : (w k : ℕ) → member k (w ∷ []) ≡ true → w ≡ k
unfolding member
member-one w k h = ground arith

pub member-none : (k : ℕ) → member k [] ≢ true
unfolding member
member-none k h = cc

pub ready≢holding : {m n : Bool} → ready m ≢ holding n
ready≢holding h = cc

pub sleeping≢holding : {m n : Bool} → sleeping m ≢ holding n
sleeping≢holding h = cc

pub outside≢holding : {n : Bool} → outside ≢ holding n
outside≢holding h = cc

pub suc_eq : (n : ℕ) → n + 1 ≡ suc n
suc_eq n = omega arith

pub not_zero : (n : ℕ) → (suc n == 0) ≡ false
not_zero n = ground arith
