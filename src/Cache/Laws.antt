-- ===== src/Cache/Laws.antt =====
-- The cache keeps the entries that were used last, and no more than its capacity.
use structuredb.Base.{
  ℕ, zero, suc, ◌+◌, ◌≤◌, ◌<◌, ◌≡◌, refl, sym, ap, ◌∙◌, subst, true, false, none, some, List, [],
  ◌∷◌, length, take, arith, ltb, Bool-cases, Option-cases, inl, inr,
}
use structuredb.Base.Assoc.{KeyEq, member, lookup, erase, assign, lookup-erase, lookup-assign}
use structuredb.Cache.{LruCache, back_key, pop_back, remove, touch, get, evict, emplace, put}
use structuredb.Cache.Entries.{
  has, has-none, Unique, member-remove, Unique-remove, length-remove, Distinct, erase-absent,
  Distinct-erase, length-erase, Popped, pop_back_lem,
}

module _ {K : Type 0} ⦃e : KeyEq K⦄ where
  module _ {V : Type 0} where
    pub record Inv (c : LruCache K V) : Type 0 where
      pub agree : (k : K) → member k c.index ≡ has (lookup k c.entries)
      pub unique : Unique c.index
      pub distinct : Distinct c.entries
      pub sized : length c.index ≡ length c.entries
      pub bound : length c.entries ≤ c.capacity

    -- What a put leaves: the entry in front of the others, cut to the capacity.
    abbrev pub recent : K → V → LruCache K V → List (K × V)
    recent k v c = take c.capacity ((k, v) ∷ erase k c.entries)

    record PutDone (k : K) (v : V) (c : LruCache K V) : Type 0 where
      after : LruCache K V
      put_eq : put k v c ≡ after
      entries_eq : after.entries ≡ recent k v c
      inv : Inv after

    take_all : (n : ℕ) (es : List (K × V)) → length es ≤ n → take n es ≡ es
    take_all zero [] h = refl
    take_all zero (x ∷ es) h = absurd (omega arith)
    take_all (suc n) [] h = refl
    take_all (suc n) (x ∷ es) h = ap (λ l. x ∷ l) (take_all n es (omega arith))

    put-hit :
        (k : K) (v : V) (c : LruCache K V)
        → 0 < c.capacity
        → member k c.index ≡ true
        → put k v c ≡ record c { entries = assign k v c.entries }
    unfolding put
    put-hit k v c p h = ground arith

    put-room :
        (k : K) (v : V) (c : LruCache K V)
        → member k c.index ≡ false
        → length c.index < c.capacity
        → put k v c ≡ emplace k v c
    unfolding put
    put-room k v c h p = ground arith

    put-full :
        (k last : K) (v : V) (c : LruCache K V)
        → 0 < c.capacity
        → member k c.index ≡ false
        → c.capacity ≤ length c.index
        → back_key ((k, v) ∷ c.entries) ≡ some last
        → put k v c
          ≡ record c { entries = pop_back ((k, v) ∷ c.entries); index = remove last (k ∷ c.index) }
    unfolding put evict
    put-full k last v c p h f b = ground arith

    assign-Inv :
        (k : K) (v : V) (c : LruCache K V)
        → Inv c
        → member k c.index ≡ true
        → Inv (record c { entries = assign k v c.entries })
    assign-Inv k v c i h =
        let n : length (erase k c.entries) + 1 ≡ length c.entries =
          length-erase k c.entries i.distinct (sym (i.agree k) ∙ h) in
        record {
          agree = λ j. sym (
              ap has (lookup-assign k j v c.entries) ∙ (elim (Bool-cases (e.beq k j)) [
                | inl b ↦ rw b (sym (subst (λ z. member z c.index ≡ true) ((e.beq_iff k j).0 b) h))
                | inr b ↦ rw b (sym (i.agree j))
              ]));
          unique = i.unique;
          distinct =
              unfold assign in
              (
                lookup-erase k k c.entries ∙ ground (arith, e.beq_iff k k),
                Distinct-erase k c.entries i.distinct,
              );
          sized = unfold assign in omega (arith, i.sized, n);
          bound = unfold assign in omega (arith, i.bound, n);
        }

    absent :
        (k : K) (c : LruCache K V) → Inv c → member k c.index ≡ false → lookup k c.entries ≡ none
    absent k c i h = has-none (lookup k c.entries) (sym (i.agree k) ∙ h)

    agree-cons :
        (k : K) (v : V) (c : LruCache K V)
        → Inv c
        → (j : K) → member j (k ∷ c.index) ≡ has (lookup j ((k, v) ∷ c.entries))
    unfolding member lookup
    agree-cons k v c i j = ground (arith, i.agree j)

    emplace-Inv :
        (k : K) (v : V) (c : LruCache K V)
        → Inv c
        → member k c.index ≡ false
        → length c.index < c.capacity
        → Inv (emplace k v c)
    emplace-Inv k v c i h p = record {
      agree = agree-cons k v c i;
      unique = (h, i.unique);
      distinct = (absent k c i h, i.distinct);
      sized = omega (arith, i.sized);
      bound = omega (arith, i.sized);
    }

    evicted : K → K → V → LruCache K V → LruCache K V
    evicted last k v c = record c {
      entries = pop_back ((k, v) ∷ c.entries);
      index = remove last (k ∷ c.index);
    }

    evicted-Inv :
        (k : K) (v : V) (c : LruCache K V)
        → Inv c
        → member k c.index ≡ false
        → (p : Popped ((k, v) ∷ c.entries)) → Inv (evicted p.last k v c)
    unfolding evicted
    evicted-Inv k v c i h p =
        let was : member p.last (k ∷ c.index) ≡ true = agree-cons k v c i p.last ∙ p.was_there in
        let n = length-remove p.last (k ∷ c.index) (h, i.unique) was in
        record {
          agree = λ j.
              member-remove p.last j (k ∷ c.index)
              ∙ sym (
                  ap has (p.lookups j) ∙ (elim (Bool-cases (e.beq p.last j)) [
                    | inl b ↦ rw b
                    | inr b ↦ rw b (sym (agree-cons k v c i j))
                  ]));
          unique = Unique-remove p.last (k ∷ c.index) (h, i.unique);
          distinct = p.still;
          sized = omega (arith, n, p.shorter, i.sized);
          bound = omega (arith, p.shorter, i.bound);
        }

    put-done : (k : K) (v : V) (c : LruCache K V) → Inv c → 0 < c.capacity → PutDone k v c
    unfolding evicted
    put-done k v c i pos = elim (Bool-cases (member k c.index)) [
      | inl h ↦
          let n : length (erase k c.entries) + 1 ≡ length c.entries =
            length-erase k c.entries i.distinct (sym (i.agree k) ∙ h) in
          record {
            after = record c { entries = assign k v c.entries };
            put_eq = put-hit k v c pos h;
            entries_eq =
                unfold assign in
                sym (take_all c.capacity ((k, v) ∷ erase k c.entries) (omega (arith, n, i.bound)));
            inv = assign-Inv k v c i h;
          }
      | inr h ↦
          let same =
            ap (λ l. take c.capacity ((k, v) ∷ l)) (erase-absent k c.entries (absent k c i h)) in
          elim (Bool-cases (ltb (length c.index) c.capacity)) [
            | inl b ↦
                let room : length c.index < c.capacity = ground arith in
                record {
                  after = emplace k v c;
                  put_eq = put-room k v c h room;
                  entries_eq =
                      sym
                        (same ∙ take_all c.capacity ((k, v) ∷ c.entries) (omega (arith, i.sized)));
                  inv = emplace-Inv k v c i h room;
                }
            | inr b ↦
                let full : c.capacity ≤ length c.index = ground arith in
                let p = pop_back_lem (k, v) c.entries (absent k c i h, i.distinct) in
                record {
                  after = evicted p.last k v c;
                  put_eq = put-full k p.last v c pos h full p.last_is;
                  entries_eq =
                      p.cut
                      ∙ ap (λ n. take n ((k, v) ∷ c.entries))
                          (omega (arith, p.shorter, i.sized, i.bound))
                      ∙ sym same;
                  inv = evicted-Inv k v c i h p;
                }
          ]
    ]

    -- Of a cache that keeps the invariant and has a capacity above 0, a put leaves the new entry
    -- in front of the others in their order, without the old entry of its key, and cut to the
    -- capacity: the least recently used goes. The invariant is kept.
    pub put_lem :
        (k : K) (v : V) (c : LruCache K V)
        → Inv c
        → 0 < c.capacity
        → ((put k v c).entries ≡ recent k v c) × Inv (put k v c)
    put_lem k v c i pos =
        let d = put-done k v c i pos in
        (ap (λ z. z.entries) d.put_eq ∙ d.entries_eq, subst Inv (sym d.put_eq) d.inv)

    get-absent : (k : K) (c : LruCache K V) → member k c.index ≡ false → get k c ≡ (none, c)
    unfolding get
    get-absent k c h = rw h

    touch-present :
        (k : K) (v : V) (es : List (K × V)) → lookup k es ≡ some v → touch k es ≡ assign k v es
    unfolding touch
    touch-present k v es f = rw (f, touch)

    touch-absent : (k : K) (es : List (K × V)) → lookup k es ≡ none → touch k es ≡ es
    unfolding touch
    touch-absent k es f = rw (f, touch)

    get-present :
        (k : K) (c : LruCache K V)
        → member k c.index ≡ true
        → get k c ≡ (lookup k c.entries, record c { entries = touch k c.entries })
    unfolding get
    get-present k c h = rw h

    -- In a cache that keeps the invariant, a read of a key that the list has returns its value and puts
    -- its entry in front of the other entries, which keep their order; a read of another key returns
    -- nothing and changes nothing. The invariant is kept.
    pub get_lem :
        (k : K) (c : LruCache K V)
        → Inv c
        → ((v : V)
            → lookup k c.entries ≡ some v
            → ((get k c).0 ≡ some v) × ((get k c).1.entries ≡ (k, v) ∷ erase k c.entries))
          × (lookup k c.entries ≡ none → get k c ≡ (none, c))
          × Inv (get k c).1
    unfolding assign
    get_lem k c i = (λ v f. (found v f), absent, kept)
      where
        absent : lookup k c.entries ≡ none → get k c ≡ (none, c)
        absent n = get-absent k c (i.agree k ∙ ap has n)

        moves :
            (v : V)
            → lookup k c.entries ≡ some v
            → get k c ≡ (some v, record c { entries = assign k v c.entries })
        moves v f =
            get-present k c (i.agree k ∙ ap has f)
            ∙ ap (λ o. (o, record c { entries = touch k c.entries })) f
            ∙ ap (λ l. (some v, record c { entries = l })) (touch-present k v c.entries f)

        found :
            (v : V)
            → lookup k c.entries ≡ some v
            → ((get k c).0 ≡ some v) × ((get k c).1.entries ≡ (k, v) ∷ erase k c.entries)
        found v f = (ap (λ z. z.0) (moves v f), ap (λ z. z.1.entries) (moves v f))

        kept : Inv (get k c).1
        kept = elim (Option-cases (lookup k c.entries)) [
          | inl n ↦ subst Inv (sym (ap (λ z. z.1) (absent n))) i
          | inr (v, f) ↦
              subst Inv (sym (ap (λ z. z.1) (moves v f)))
                (assign-Inv k v c i (i.agree k ∙ ap has f))
        ]
