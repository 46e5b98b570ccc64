-- ===== src/Io/SharedMutex/Exclusion.antt =====
-- No coroutine sleeps on a free lock (io/shared_mutex.cpp).
use structuredb.Base.{
  ℕ, ◌≡◌, ◌≢◌, refl, sym, ap, ◌∙◌, Bool, true, false, ◌||◌, List, [], ◌∷◌, ◌++◌, arith, ◌==◌,
  if◌then◌else◌, Bool-cases, inl, inr, true≢false,
}
use structuredb.Base.Assoc.{nat_key, member}
use structuredb.Io.SharedMutex.{
  Lock, exclusive, shared, Place, outside, ready, sleeping, holding, System, may_lock, locked, move,
  cancel, wake, try_lock, unlock,
}

-- What the coroutines may do: ask for the lock, take a turn of the loop, give the lock back.
pub data Step : System → System → Type 0 where
  ask :
      (c : ℕ) (mode : Bool) (s : System)
      → s.place c ≡ outside
      → Step s (record s { place = move c (ready mode) s.place })
  turn : (c : ℕ) (mode : Bool) (s : System) → s.place c ≡ ready mode → Step s (try_lock c mode s)
  release : (c : ℕ) (mode : Bool) (s : System) → s.place c ≡ holding mode → Step s (unlock c mode s)

abbrev pub initial : System
initial = record { mutex = record { state_ = shared 0; waiters_ = [] }; place = λ c. outside }

pub data Reach : System → Type 0 where
  start : Reach initial
  step : {s t : System} → Reach s → Step s t → Reach t

-- Every sleeper has its handler in the queue, and a free lock has no sleeper.
record Inv (s : System) : Type 0 where
  listed : (c : ℕ) (mode : Bool) → s.place c ≡ sleeping mode → member c s.mutex.waiters_ ≡ true
  busy : s.mutex.state_ ≡ shared 0 → (c : ℕ) (mode : Bool) → s.place c ≢ sleeping mode

-- Moving a coroutine to a place where it does not sleep makes no sleeper.
move-sleeps :
    (c k : ℕ) (p : Place) (place : ℕ → Place) (mode : Bool)
    → p ≢ sleeping mode
    → move c p place k ≡ sleeping mode
    → place k ≡ sleeping mode
move-sleeps c k p place mode h e = elim (Bool-cases (c == k)) [
  | inl b ↦ absurd (h (sym (ap (λ x. if x then p else place k) b) ∙ e))
  | inr b ↦ sym (ap (λ x. if x then p else place k) b) ∙ e
]

ready≢sleeping : {m n : Bool} → ready m ≢ sleeping n
ready≢sleeping h = cc

holding≢sleeping : {m n : Bool} → holding m ≢ sleeping n
holding≢sleeping h = cc

outside≢sleeping : {n : Bool} → outside ≢ sleeping n
outside≢sleeping h = cc

cancel-awake : (p : Place) (mode : Bool) → cancel p ≢ sleeping mode
cancel-awake outside mode h = cc
cancel-awake (ready m) mode h = cc
cancel-awake (sleeping m) mode h = cc
cancel-awake (holding m) mode h = cc

cancelled-sleeps :
    (c k : ℕ) (place : ℕ → Place) (mode : Bool)
    → move c (cancel (place c)) place k ≡ sleeping mode
    → (place k ≡ sleeping mode) × ((c == k) ≡ false)
cancelled-sleeps c k place mode h = elim (Bool-cases (c == k)) [
  | inl b ↦
      absurd (
        cancel-awake (place c) mode (sym (ap (λ x. if x then cancel (place c) else place k) b) ∙ h))
  | inr b ↦ (sym (ap (λ x. if x then cancel (place c) else place k) b) ∙ h, b)
]

wake-sleeps :
    (cs : List ℕ) (place : ℕ → Place) (k : ℕ) (mode : Bool)
    → wake cs place k ≡ sleeping mode
    → (place k ≡ sleeping mode) × (member k cs ≡ false)
unfolding member wake
wake-sleeps [] place k mode h = (h, refl)
wake-sleeps (c ∷ cs) place k mode h =
    let (q, m) = wake-sleeps cs (move c (cancel (place c)) place) k mode h in
    let (r, d) = cancelled-sleeps c k place mode q in (r, ap (λ b. b || member k cs) d ∙ m)

locked-busy : (mode : Bool) (l : Lock) → may_lock mode l ≡ true → locked mode l ≢ shared 0
locked-busy true l h e = cc
locked-busy false exclusive h e = cc
locked-busy false (shared n) h e = ground arith

free-may : (mode : Bool) (l : Lock) → may_lock mode l ≡ false → l ≢ shared 0
free-may true l h e = true≢false (sym (ap (may_lock true) e) ∙ h)
free-may false l h e = true≢false (sym (ap (may_lock false) e) ∙ h)

or_true : (a : Bool) → (a || true) ≡ true
or_true a = ground arith

member-snoc : (k c : ℕ) (cs : List ℕ) → member k (cs ++ c ∷ []) ≡ (member k cs || (c == k))
unfolding member
member-snoc k c [] = ground arith
member-snoc k c (x ∷ cs) = ground (arith, member-snoc k c cs)

module _ (s : System) (v : Inv s) where
  ask-Inv : (c : ℕ) (mode : Bool) → Inv (record s { place = move c (ready mode) s.place })
  ask-Inv c mode = record {
    listed = λ k m h. v.listed k m (move-sleeps c k (ready mode) s.place m ready≢sleeping h);
    busy = λ e k m h. v.busy e k m (move-sleeps c k (ready mode) s.place m ready≢sleeping h);
  }

  release-Inv : (c : ℕ) (mode : Bool) → Inv (unlock c mode s)
  unfolding unlock
  release-Inv c mode =
      let none_sleeps : (k : ℕ) (m : Bool)
          → wake s.mutex.waiters_ (move c outside s.place) k ≢ sleeping m =
        λ k m h.
          (let (p, out) = wake-sleeps s.mutex.waiters_ (move c outside s.place) k m h in
            true≢false
              (sym (v.listed k m (move-sleeps c k outside s.place m outside≢sleeping p)) ∙ out)) in
      record { listed = λ k m h. absurd (none_sleeps k m h); busy = λ e. none_sleeps }

  took-Inv :
      (c : ℕ) (mode : Bool)
      → may_lock mode s.mutex.state_ ≡ true
      → Inv (record {
        mutex = record s.mutex { state_ = locked mode s.mutex.state_ };
        place = move c (holding mode) s.place;
      })
  took-Inv c mode may = record {
    listed = λ k m h. v.listed k m (move-sleeps c k (holding mode) s.place m holding≢sleeping h);
    busy = λ e. absurd (locked-busy mode s.mutex.state_ may e);
  }

  slept-Inv :
      (c : ℕ) (mode : Bool)
      → may_lock mode s.mutex.state_ ≡ false
      → Inv (record {
        mutex = record s.mutex { waiters_ = s.mutex.waiters_ ++ c ∷ [] };
        place = move c (sleeping mode) s.place;
      })
  slept-Inv c mode may = record {
    listed = λ k m h. elim (Bool-cases (c == k)) [
      | inl b ↦
          member-snoc k c s.mutex.waiters_
          ∙ ap (λ x. member k s.mutex.waiters_ || x) b
          ∙ or_true (member k s.mutex.waiters_)
      | inr b ↦
          member-snoc k c s.mutex.waiters_
          ∙ ap (λ x. x || (c == k))
              (v.listed k m (sym (ap (λ x. if x then sleeping mode else s.place k) b) ∙ h))
    ];
    busy = λ e. absurd (free-may mode s.mutex.state_ may e);
  }

  turn-Inv : (c : ℕ) (mode : Bool) → Inv (try_lock c mode s)
  unfolding try_lock
  turn-Inv c mode = elim (Bool-cases (may_lock mode s.mutex.state_)) [
    | inl may ↦ rw (may, try_lock) (took-Inv c mode may)
    | inr may ↦ rw (may, try_lock) (slept-Inv c mode may)
  ]

Step-Inv : (s t : System) → Step s t → Inv s → Inv t
Step-Inv s t (ask c mode x e) v = ask-Inv x v c mode
Step-Inv s t (turn c mode x e) v = turn-Inv x v c mode
Step-Inv s t (release c mode x e) v = release-Inv x v c mode

Reach-Inv : {s : System} → Reach s → Inv s
Reach-Inv start = record { listed = λ c m h. cc; busy = λ e c m h. cc }
Reach-Inv (step r k) = Step-Inv _ _ k (Reach-Inv r)

-- In every state that the coroutines reach, whatever they ask for and in whatever order they run: a lock
-- that nobody holds has no coroutine asleep on it, so a wake-up is never lost.
pub free-awake :
    {s : System} (r : Reach s)
    → s.mutex.state_ ≡ shared 0
    → (c : ℕ) (mode : Bool) → s.place c ≢ sleeping mode
free-awake r = (Reach-Inv r).busy
