-- ===== src/Lsm/Tree/History.antt =====
-- The tree refines a map: under any sequence of writes, recovery writes and flushes, `Get` returns what a map
-- that is told of the same writes returns.
use structuredb.Base.{
  ℕ, ◌≡◌, refl, sym, ap, ◌∙◌, subst, true, false, some, List, [], ◌∷◌, ◌++◌, arith, if◌then◌else◌,
  Bool-cases, inl, inr, ◌==◌, some_inj,
}
use structuredb.Base.Str.{Str, str_eq}
use structuredb.Base.Assoc.{str_key, lookup}
use structuredb.Lsm.Types.{Record}
use structuredb.Lsm.KeyIterator.Laws.{in_tables, in_ss_tables}
use structuredb.Lsm.Tree.{
  Lsm, Options, new_lsm, init, init_loop, put, put_at, flush, freeze, do_put, get,
}
use structuredb.Lsm.Tree.Versions.{versions_of, new_record}
use structuredb.Lsm.Tree.Invariant.{Setup, Fits, Inv, put-Inv}
use structuredb.Lsm.Tree.Flush.{flush_lem}
use structuredb.Lsm.Tree.Reads.{get_lem, get-put, first_value}

-- Putting at the next sequence number is putting; any other number is refused and changes nothing.
pub put_at_lem :
    (seq_no : ℕ) (key value : Str) (t : Lsm)
    → put_at seq_no key value t
      ≡ (if seq_no == t.next_seq_no then (true, (put key value t).1) else (false, t))
unfolding put_at put do_put freeze
put_at_lem seq_no key value t = ground arith

-- The tree that `Init` makes of an empty directory.
unfoldable pub empty_tree : Options → Lsm
empty_tree o = record (new_lsm o []) { next_seq_no = 1 }

module _ (crc : Str → ℕ) where
  -- What a database does to a tree. Each step carries the write that it makes, if it makes one.
  pub data Step (t : Lsm) : List (Str × Str) → Lsm → Type 0 where
    puts :
        (key value : Str)
        → Fits crc t.options (new_record key value t)
        → Step t ((key, value) ∷ []) (put key value t).1
    recovers :
        (key value : Str)
        → Fits crc t.options (new_record key value t)
        → Step t ((key, value) ∷ []) (put_at t.next_seq_no key value t).1
    refuses :
        (seq_no : ℕ) (key value : Str)
        → (seq_no == t.next_seq_no) ≡ false
        → Step t [] (put_at seq_no key value t).1
    flushes : {t' : Lsm} → flush crc t ≡ some t' → Step t [] t'

  -- The writes of a run, the latest first.
  pub data Run (t : Lsm) : List (Str × Str) → Lsm → Type 0 where
    here : Run t [] t
    next :
        {u w : Lsm} {done made : List (Str × Str)}
        → Run t done u
        → Step u made w
        → Run t (made ++ done) w

  -- The tree answers as the map of the writes does.
  pub record Refines (writes : List (Str × Str)) (t : Lsm) : Type 0 where
    pub inv : Inv crc t
    pub answers : (key : Str) → get key t ≡ some (lookup key writes)

  put-Refines :
      (key value : Str) (writes : List (Str × Str)) (t : Lsm)
      → Refines writes t
      → Fits crc t.options (new_record key value t)
      → Refines ((key, value) ∷ writes) (put key value t).1
  unfolding lookup
  put-Refines key value writes t r f = record {
    inv = put-Inv crc key value t r.inv f;
    answers = λ other.
        get-put crc key other value t r.inv f
        ∙ (elim (Bool-cases (str_eq key other)) [ inl e ↦ rw e | inr e ↦ rw e (r.answers other) ]);
  }

  put_at-next :
      (key value : Str) (t : Lsm) → (put_at t.next_seq_no key value t).1 ≡ (put key value t).1
  put_at-next key value t = ap (λ p. p.1) (put_at_lem t.next_seq_no key value t) ∙ ground arith

  put_at-refused :
      (seq_no : ℕ) (key value : Str) (t : Lsm)
      → (seq_no == t.next_seq_no) ≡ false
      → (put_at seq_no key value t).1 ≡ t
  put_at-refused seq_no key value t e = ap (λ p. p.1) (put_at_lem seq_no key value t) ∙ rw e

  flush-Refines :
      (writes : List (Str × Str)) (t t' : Lsm)
      → flush crc t ≡ some t'
      → Refines writes t
      → Refines writes t'
  flush-Refines writes t t' e r =
      let (u, f, v, none_left, n, same) = flush_lem crc t r.inv in
      let is : u ≡ t' = some_inj (sym f ∙ e) in
      subst (Refines writes) is (record {
        inv = v;
        answers = λ key.
            get_lem crc key u v
            ∙ ap (λ (l : List Record). some (first_value l)) (same key)
            ∙ sym (get_lem crc key t r.inv)
            ∙ r.answers key;
      })

  -- Each step keeps the refinement, with its write added to the map.
  pub Step-Refines :
      {t u : Lsm} {made : List (Str × Str)} (writes : List (Str × Str))
      → Step t made u
      → Refines writes t
      → Refines (made ++ writes) u
  Step-Refines {t} writes (puts key value f) r = put-Refines key value writes t r f
  Step-Refines {t} writes (recovers key value f) r =
      subst (Refines ((key, value) ∷ writes)) (sym (put_at-next key value t))
        (put-Refines key value writes t r f)
  Step-Refines {t} writes (refuses seq_no key value e) r =
      subst (Refines writes) (sym (put_at-refused seq_no key value t e)) r
  Step-Refines {t} {u} writes (flushes e) r = flush-Refines writes t u e r

  pub init-empty : (o : Options) → init crc o [] ≡ some (empty_tree o)
  unfolding init init_loop empty_tree
  init-empty o = refl

  pub empty_tree-Inv : (o : Options) → Setup crc o → Inv crc (empty_tree o)
  unfolding empty_tree new_lsm versions_of in_tables in_ss_tables
  empty_tree-Inv o s = record {
    parts = record {
      mem_tables = (record { sorted = tt; entries = tt; count = omega arith }, tt);
      ss_tables = tt;
      mem_below = tt;
      of_key = λ key. tt;
      newest_first = λ key. tt;
    };
    room = omega arith;
    setup = s;
  }

  pub no-versions : (o : Options) (key : Str) → versions_of key (empty_tree o) ≡ []
  unfolding empty_tree new_lsm versions_of in_tables in_ss_tables
  no-versions o key = refl

  empty_tree-Refines : (o : Options) → Setup crc o → Refines [] (empty_tree o)
  unfolding lookup
  empty_tree-Refines o s = record {
    inv = empty_tree-Inv o s;
    answers = λ key.
        get_lem crc key _ (empty_tree-Inv o s)
        ∙ ap (λ (l : List Record). some (first_value l)) (no-versions o key);
  }

  Run-Refines :
      {t u : Lsm} {writes : List (Str × Str)} → Run t writes u → Refines [] t → Refines writes u
  Run-Refines here r = r
  Run-Refines (next {u} {w} {done} {made} run step) r = Step-Refines done step (Run-Refines run r)

  -- Let the options and the checksum allow tables to be written, and every record of the run fit
  -- into a page. After any run of writes, recovery writes and flushes from the tree that `Init`
  -- makes of an empty directory, `Get` of each key succeeds and returns the value of the latest
  -- write of the key, or nothing where no write was made to it.
  pub get-Run :
      {o : Options} {t₀ t : Lsm} {writes : List (Str × Str)} (key : Str)
      → Setup crc o
      → init crc o [] ≡ some t₀
      → Run t₀ writes t
      → get key t ≡ some (lookup key writes)
  get-Run {o} key s e run =
      (Run-Refines run
          (subst (Refines []) (some_inj (sym (init-empty o) ∙ e)) (empty_tree-Refines o s))).answers
        key
