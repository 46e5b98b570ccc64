-- ===== src/Io/SharedMutex/Holders.antt =====
-- Who holds the lock (io/shared_mutex.cpp).
use structuredb.Base.{
  ℕ, ◌≡◌, ◌≢◌, refl, sym, ap, subst, ◌∙◌, Bool, true, false, List, [], ◌∷◌, ◌++◌, length, ◌==◌,
  ==_iff, if◌then◌else◌, Bool-cases, ◌⊎◌, inl, inr, true≢false,
}
use structuredb.Base.Assoc.{nat_key, member}
use structuredb.Io.SharedMutex.{
  Lock, exclusive, shared, outside, ready, sleeping, holding, System, may_lock, locked, unlocked,
  move, wake, try_lock, unlock,
}
use structuredb.Io.SharedMutex.Exclusion.{Step, ask, turn, release, Reach, start, step, free-awake}
use structuredb.Io.SharedMutex.Places.{
  without, move-holds, wake-holds, length-without, member-without, member-front, member-behind,
  member-one, member-none, ready≢holding, sleeping≢holding, outside≢holding, suc_eq, not_zero,
}

-- What the state says of those who hold the lock.
abbrev Account : Lock → List ℕ → List ℕ → Type 0
Account l readers writers =
    ((l ≡ shared (length readers)) × (writers ≡ []))
    ⊎ ((l ≡ exclusive) × (readers ≡ []) × (w : ℕ) × (writers ≡ w ∷ []))

record Held (s : System) : Type 0 where
  readers : List ℕ
  writers : List ℕ
  reads : (c : ℕ) → s.place c ≡ holding false → member c readers ≡ true
  writes : (c : ℕ) → s.place c ≡ holding true → member c writers ≡ true
  account : Account s.mutex.state_ readers writers

shared-Account :
    (l : Lock) (rs ws : List ℕ)
    → may_lock false l ≡ true
    → Account l rs ws
    → (l ≡ shared (length rs)) × (ws ≡ [])
shared-Account l rs ws h (inl p) = p
shared-Account l rs ws h (inr (e, r, w, p)) = absurd (true≢false (sym h ∙ ap (may_lock false) e))

free-Account :
    (l : Lock) (rs ws : List ℕ) → may_lock true l ≡ true → Account l rs ws → (rs ≡ []) × (ws ≡ [])
free-Account l [] ws h (inl p) = (refl, p.1)
free-Account l (r ∷ rs) ws h (inl (e, p)) =
    absurd (true≢false (sym h ∙ ap (may_lock true) e ∙ not_zero (length rs)))
free-Account l rs ws h (inr (e, r, w, p)) = absurd (true≢false (sym h ∙ ap (may_lock true) e))

module _ (s : System) (v : Held s) where
  ask-Held : (c : ℕ) (mode : Bool) → Held (record s { place = move c (ready mode) s.place })
  ask-Held c mode = record {
    readers = v.readers;
    writers = v.writers;
    reads = λ k h. v.reads k (move-holds c k (ready mode) s.place false ready≢holding h).0;
    writes = λ k h. v.writes k (move-holds c k (ready mode) s.place true ready≢holding h).0;
    account = v.account;
  }

  slept-Held :
      (c : ℕ) (mode : Bool) (ws : List ℕ)
      → Held (record {
        mutex = record s.mutex { waiters_ = ws };
        place = move c (sleeping mode) s.place;
      })
  slept-Held c mode ws = record {
    readers = v.readers;
    writers = v.writers;
    reads = λ k h. v.reads k (move-holds c k (sleeping mode) s.place false sleeping≢holding h).0;
    writes = λ k h. v.writes k (move-holds c k (sleeping mode) s.place true sleeping≢holding h).0;
    account = v.account;
  }

  took_shared-Held :
      (c : ℕ)
      → may_lock false s.mutex.state_ ≡ true
      → Held (record {
        mutex = record s.mutex { state_ = locked false s.mutex.state_ };
        place = move c (holding false) s.place;
      })
  took_shared-Held c may =
      let (e, none) = shared-Account s.mutex.state_ v.readers v.writers may v.account in
      record {
        readers = c ∷ v.readers;
        writers = v.writers;
        reads = λ k h. elim (Bool-cases (c == k)) [
          | inl b ↦ member-front c k v.readers b
          | inr b ↦
              member-behind c k v.readers
                (v.reads k (sym (ap (λ x. if x then holding false else s.place k) b) ∙ h))
        ];
        writes = λ k h. v.writes k (move-holds c k (holding false) s.place true (λ x. cc) h).0;
        account = inl (ap (locked false) e ∙ ap shared (suc_eq (length v.readers)), none);
      }

  took_exclusive-Held :
      (c : ℕ)
      → may_lock true s.mutex.state_ ≡ true
      → Held (record {
        mutex = record s.mutex { state_ = exclusive };
        place = move c (holding true) s.place;
      })
  took_exclusive-Held c may =
      let (no_reader, no_writer) = free-Account s.mutex.state_ v.readers v.writers may v.account in
      record {
        readers = [];
        writers = c ∷ [];
        reads = λ k h.
            subst (λ l. member k l ≡ true) no_reader
              (v.reads k (move-holds c k (holding true) s.place false (λ x. cc) h).0);
        writes = λ k h. elim (Bool-cases (c == k)) [
          | inl b ↦ member-front c k [] b
          | inr b ↦ absurd (
              member-none k (
                subst (λ l. member k l ≡ true) no_writer
                  (v.writes k (sym (ap (λ x. if x then holding true else s.place k) b) ∙ h))))
        ];
        account = inr (refl, refl, c, refl);
      }

  turn-Held : (c : ℕ) (mode : Bool) → Held (try_lock c mode s)
  unfolding try_lock
  turn-Held c true = elim (Bool-cases (may_lock true s.mutex.state_)) [
    | inl may ↦ rw (may, try_lock) (took_exclusive-Held c may)
    | inr may ↦ rw (may, try_lock) (slept-Held c true (s.mutex.waiters_ ++ c ∷ []))
  ]
  turn-Held c false = elim (Bool-cases (may_lock false s.mutex.state_)) [
    | inl may ↦ rw (may, try_lock) (took_shared-Held c may)
    | inr may ↦ rw (may, try_lock) (slept-Held c false (s.mutex.waiters_ ++ c ∷ []))
  ]

  module _ (c : ℕ) where
    -- Who holds the lock behind the release of a coroutine did so before, and is another one.
    still-holds :
        (k : ℕ) (mode : Bool)
        → wake s.mutex.waiters_ (move c outside s.place) k ≡ holding mode
        → (s.place k ≡ holding mode) × ((c == k) ≡ false)
    still-holds k mode h =
        move-holds c k outside s.place mode outside≢holding
          (wake-holds s.mutex.waiters_ (move c outside s.place) k mode h)

    release_shared-Held : s.place c ≡ holding false → Held (unlock c false s)
    unfolding unlock
    release_shared-Held held = record {
      readers = without c v.readers;
      writers = v.writers;
      reads =
          λ k h. let (p, d) = still-holds k false h in member-without c k v.readers d (v.reads k p);
      writes = λ k h. v.writes k (still-holds k true h).0;
      account = elim v.account [
        | inl (e, none) ↦ inl (
          ap (unlocked false) e ∙ ap shared (sym (length-without c v.readers (v.reads c held))),
          none,
        )
        | inr (e, r, w, p) ↦
            absurd (member-none c (subst (λ l. member c l ≡ true) r (v.reads c held)))
      ];
    }

    release_exclusive-Held : s.place c ≡ holding true → Held (unlock c true s)
    unfolding unlock
    release_exclusive-Held held = elim v.account [
      | inl (e, none) ↦
          absurd (member-none c (subst (λ l. member c l ≡ true) none (v.writes c held)))
      | inr (e, r, w, p) ↦ record {
        readers = [];
        writers = [];
        reads = λ k h. subst (λ l. member k l ≡ true) r (v.reads k (still-holds k false h).0);
        writes = λ k h.
            (let (q, d) = still-holds k true h in
              let one = member-one w c (subst (λ l. member c l ≡ true) p (v.writes c held)) in
              let other = member-one w k (subst (λ l. member k l ≡ true) p (v.writes k q)) in
              absurd (true≢false (sym ((==_iff c k).1 (sym one ∙ other)) ∙ d)));
        account = inl (refl, refl);
      }
    ]

Step-Held : (s t : System) → Step s t → Held s → Held t
Step-Held s t (ask c mode x e) v = ask-Held x v c mode
Step-Held s t (turn c mode x e) v = turn-Held x v c mode
Step-Held s t (release c true x e) v = release_exclusive-Held x v c e
Step-Held s t (release c false x e) v = release_shared-Held x v c e

Reach-Held : {s : System} → Reach s → Held s
Reach-Held start = record {
  readers = [];
  writers = [];
  reads = λ c h. cc;
  writes = λ c h. cc;
  account = inl (refl, refl);
}
Reach-Held (step r k) = Step-Held _ _ k (Reach-Held r)

-- In every state that the coroutines reach, whatever they ask for and in whatever order they run: a
-- coroutine that holds the lock exclusively is the only one that holds it in any mode, and a lock whose
-- state is free has no coroutine asleep on it, so a wake-up is never lost.
pub exclusive_alone :
    {s : System} (r : Reach s)
    → ((a b : ℕ) (mode : Bool) → s.place a ≡ holding true → s.place b ≡ holding mode → a ≡ b)
      × (s.mutex.state_ ≡ shared 0 → (c : ℕ) (mode : Bool) → s.place c ≢ sleeping mode)
exclusive_alone {s} r = (alone, free-awake r)
  where
    v : Held s
    v = Reach-Held r

    alone : (a b : ℕ) (mode : Bool) → s.place a ≡ holding true → s.place b ≡ holding mode → a ≡ b
    alone a b mode h k = elim v.account [
      | inl (e, none) ↦ absurd (member-none a (subst (λ l. member a l ≡ true) none (v.writes a h)))
      | inr (e, r, w, p) ↦
          let one = member-one w a (subst (λ l. member a l ≡ true) p (v.writes a h)) in
          sym one ∙ other mode w r p k
    ]
      where
        other :
            (mode : Bool) (w : ℕ)
            → v.readers ≡ []
            → v.writers ≡ w ∷ []
            → s.place b ≡ holding mode
            → w ≡ b
        other true w r p k = member-one w b (subst (λ l. member b l ≡ true) p (v.writes b k))
        other false w r p k =
            absurd (member-none b (subst (λ l. member b l ≡ true) r (v.reads b k)))
