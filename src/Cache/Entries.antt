-- ===== src/Cache/Entries.antt =====
-- Lists of distinct keys, and of entries with distinct keys: removing one, and dropping the last.
use structuredb.Base.{
  ◌+◌, ◌≡◌, refl, ap, ◌∙◌, subst, Bool, true, false, Option, none, some, List, [], ◌∷◌, length,
  take, arith, if◌then◌else◌, Bool-cases, inl, inr,
}
use structuredb.Base.Assoc.{KeyEq, member, lookup, erase, lookup-erase}
use structuredb.Cache.{back_key, pop_back, remove}

abbrev pub has : {V : Type 0} → Option V → Bool
has none = false
has (some v) = true

pub has-none : {V : Type 0} (o : Option V) → has o ≡ false → o ≡ none
has-none none h = refl
has-none (some v) h = cc

module _ {K : Type 0} ⦃e : KeyEq K⦄ where
  abbrev pub Unique : List K → Type 0
  Unique [] = Unit
  Unique (k ∷ ks) = (member k ks ≡ false) × Unique ks

  pub member-remove :
      (k j : K) (ks : List K) → member j (remove k ks) ≡ (if e.beq k j then false else member j ks)
  unfolding member remove
  member-remove k j [] = ground arith
  member-remove k j (i ∷ ks) =
      ground (arith, e.beq_iff i k, e.beq_iff k j, e.beq_iff i j, member-remove k j ks)

  pub Unique-remove : (k : K) (ks : List K) → Unique ks → Unique (remove k ks)
  unfolding remove
  Unique-remove k [] h = tt
  Unique-remove k (i ∷ ks) h = elim (Bool-cases (e.beq i k)) [
    | inl b ↦ rw b (Unique-remove k ks h.1)
    | inr b ↦ rw b (ground (arith, member-remove k i ks, h.0), Unique-remove k ks h.1)
  ]

  pub remove-absent : (k : K) (ks : List K) → member k ks ≡ false → remove k ks ≡ ks
  unfolding remove member
  remove-absent k [] h = refl
  remove-absent k (i ∷ ks) h = ground (arith, remove-absent k ks)

  pub length-remove :
      (k : K) (ks : List K) → Unique ks → member k ks ≡ true → length (remove k ks) + 1 ≡ length ks
  unfolding remove member
  length-remove k [] h m = cc
  length-remove k (i ∷ ks) h m = elim (Bool-cases (e.beq i k)) [
    | inl b ↦
        let same : i ≡ k = ground (arith, e.beq_iff i k) in
        rw b (
          omega (arith, ap length (remove-absent k ks (subst (λ z. member z ks ≡ false) same h.0))))
    | inr b ↦ rw b (omega (arith, length-remove k ks h.1 (ground arith)))
  ]

  module _ {V : Type 0} where
    abbrev pub Distinct : List (K × V) → Type 0
    Distinct [] = Unit
    Distinct ((k, v) ∷ es) = (lookup k es ≡ none) × Distinct es

    pub erase-absent : (k : K) (es : List (K × V)) → lookup k es ≡ none → erase k es ≡ es
    unfolding lookup erase
    erase-absent k [] h = refl
    erase-absent k ((i, v) ∷ es) h = ground (arith, erase-absent k es)

    pub Distinct-erase : (k : K) (es : List (K × V)) → Distinct es → Distinct (erase k es)
    unfolding erase
    Distinct-erase k [] h = tt
    Distinct-erase k ((i, v) ∷ es) h = elim (Bool-cases (e.beq i k)) [
      | inl b ↦ rw b (Distinct-erase k es h.1)
      | inr b ↦ rw b (ground (arith, lookup-erase k i es, h.0), Distinct-erase k es h.1)
    ]

    pub length-erase :
        (k : K) (es : List (K × V))
        → Distinct es
        → has (lookup k es) ≡ true
        → length (erase k es) + 1 ≡ length es
    unfolding erase lookup
    length-erase k [] h m = cc
    length-erase k ((i, v) ∷ es) h m = elim (Bool-cases (e.beq i k)) [
      | inl b ↦
          let same : i ≡ k = ground (arith, e.beq_iff i k) in
          rw b (
            omega (arith, ap length (erase-absent k es (subst (λ z. lookup z es ≡ none) same h.0))))
      | inr b ↦ rw b (omega (arith, length-erase k es h.1 (ground arith)))
    ]

    -- The last entry goes, and no other key is touched.
    pub record Popped (es : List (K × V)) : Type 0 where
      pub last : K
      pub last_is : back_key es ≡ some last
      pub lookups : (j : K) → lookup j (pop_back es) ≡ (if e.beq last j then none else lookup j es)
      pub was_there : has (lookup last es) ≡ true
      pub shorter : length (pop_back es) + 1 ≡ length es
      pub still : Distinct (pop_back es)
      pub cut : pop_back es ≡ take (length (pop_back es)) es

    pub pop_back_lem : (x : K × V) (es : List (K × V)) → Distinct (x ∷ es) → Popped (x ∷ es)
    unfolding back_key pop_back lookup
    pop_back_lem (k, v) [] h = record {
      last = k;
      last_is = refl;
      lookups = λ j. ground arith;
      was_there = ground (arith, e.beq_iff k k);
      shorter = refl;
      still = tt;
      cut = refl;
    }
    pop_back_lem (k, v) ((i, w) ∷ es) h =
        let p = pop_back_lem (i, w) es h.1 in
        record {
          last = p.last;
          last_is = p.last_is;
          lookups = λ j. ground (
            arith,
            p.lookups j,
            e.beq_iff k j,
            e.beq_iff p.last j,
            e.beq_iff p.last k,
            p.was_there,
            h.0,
          );
          was_there = ground (arith, p.was_there);
          shorter = omega (arith, p.shorter);
          still = (
            p.lookups k
                ∙ (elim (Bool-cases (e.beq p.last k)) [ inl b ↦ rw b | inr b ↦ rw b (h.0) ]),
            p.still,
          );
          cut = ap (λ l. (k, v) ∷ l) p.cut;
        }
