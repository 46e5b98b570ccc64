-- ===== src/Lsm/KeyIterator/Laws.antt =====
-- The key iterator returns the records of its range, table after table.
use structuredb.Base.{
  ℕ, ◌<◌, ◌+◌, ◌≡◌, refl, sym, ap, ◌∙◌, subst, true, false, none, some, List, [], ◌∷◌, ◌++◌, length,
  arith, filter, All, Option-cases, inl, inr, cons_inj,
}
use structuredb.Base.Str.{Str}
use structuredb.Lsm.Types.{Record, ScanRange}
use structuredb.Lsm.Range.{in_range}
use structuredb.Lsm.Iterator.{IteratorOps, NextIs, drain, drain-list}
use structuredb.Lsm.MemTable.{MemTable}
use structuredb.Lsm.MemTable as Mem
use structuredb.Lsm.MemTable.Scan as MemScan
use structuredb.Lsm.MemTable.Scan.{SeqBounded}
use structuredb.Lsm.SsTable.{SsTable}
use structuredb.Lsm.SsTable.Scan.{IsTable}
use structuredb.Lsm.Source as Source
use structuredb.Lsm.Source.{Source, in_mem_table, in_ss_table}
use structuredb.Lsm.KeyIterator.{
  KeyIterator, has_more, is_exhausted, advance_loop, advance, create, next, set_current,
}
use mathlib.Core.List.{append_assoc}
unfoldable pub use structuredb.Lsm.KeyIterator.Advance.{in_tables, in_ss_tables, contents}
pub use structuredb.Lsm.KeyIterator.Advance.{IsMemTable, Ready}
use structuredb.Lsm.KeyIterator.Advance.{current_contents, IsPlaced, advance_lem}

-- The rest of what the current iterator returns comes first.
contents-some :
    (i : KeyIterator) (s : Source)
    → i.current ≡ some s
    → contents i
      ≡ Source.contents s ++ (in_tables i.range i.ro_left ++ in_ss_tables i.range i.ss_left)
unfolding contents
contents-some i s c =
    ap (λ z. current_contents z ++ (in_tables i.range i.ro_left ++ in_ss_tables i.range i.ss_left))
      c

contents-cons :
    (i : KeyIterator) (s : Source) (r : Record) (rest : List Record)
    → i.current ≡ some s
    → Source.contents s ≡ r ∷ rest
    → contents i ≡ r ∷ (rest ++ (in_tables i.range i.ro_left ++ in_ss_tables i.range i.ss_left))
contents-cons i s r rest c k =
    contents-some i s c
    ∙ ap (λ z. z ++ (in_tables i.range i.ro_left ++ in_ss_tables i.range i.ss_left)) k

more_of_fresh :
    (i : KeyIterator) (s : Source)
    → i.current ≡ some s
    → is_exhausted i ≡ false
    → Source.has_more s ≡ true
unfolding is_exhausted
more_of_fresh i s c h = ground arith

has_more-some : (i : KeyIterator) (s : Source) → i.current ≡ some s → has_more i ≡ Source.has_more s
unfolding has_more
has_more-some i s c = ground arith

has_more-none : (i : KeyIterator) → i.current ≡ none → has_more i ≡ false
unfolding has_more
has_more-none i c = ground arith

pub more_lem :
    (i : KeyIterator) (r : Record) (rest : List Record)
    → Ready i
    → contents i ≡ r ∷ rest
    → has_more i ≡ true
more_lem i r rest v e = elim (Option-cases i.current) [
  | inl c ↦ let h = v.ended c in cc
  | inr (s, c) ↦ has_more-some i s c ∙ more_of_fresh i s c v.fresh
]

-- A source that has more has a first record.
source-cons :
    (s : Source) (rs : List Record)
    → Source.IsValid s
    → Source.contents s ≡ rs
    → Source.has_more s ≡ true
    → (r : Record) × (rest : List Record) × (Source.contents s ≡ r ∷ rest)
source-cons s [] v e h = absurd (ground (arith, Source.done_lem s v e))
source-cons s (r ∷ rs) v e h = (r, rs, e)

current-cons :
    (i : KeyIterator) (s : Source)
    → Ready i
    → i.current ≡ some s
    → (r : Record) × (rest : List Record) × (Source.contents s ≡ r ∷ rest)
current-cons i s v c =
    source-cons s (Source.contents s) (subst IsPlaced c v.sound.current_placed) refl
      (more_of_fresh i s c v.fresh)

pub done_lem : (i : KeyIterator) → Ready i → contents i ≡ [] → has_more i ≡ false
done_lem i v e = elim (Option-cases i.current) [
  | inl c ↦ has_more-none i c
  | inr (s, c) ↦
      let (r, rest, k) = current-cons i s v c in
      let z : r ∷ (rest ++ (in_tables i.range i.ro_left ++ in_ss_tables i.range i.ss_left)) ≡ [] =
        sym (contents-cons i s r rest c k) ∙ e in
      cc
]

next_eq_of :
    (i : KeyIterator) (s s' : Source) (r : Record) (after : KeyIterator)
    → i.current ≡ some s
    → Source.next s ≡ some (r, s')
    → advance (set_current s' i) ≡ some after
    → next i ≡ some (r, after)
unfolding next
next_eq_of i s s' r after c n a = ground arith

advance-is :
    (i : KeyIterator) → advance i ≡ advance_loop (length i.ro_left + length i.ss_left + 2) i
unfolding advance
advance-is i = refl

pub next_lem :
    (i : KeyIterator) (r : Record) (rest : List Record)
    → Ready i
    → contents i ≡ r ∷ rest
    → NextIs next contents Ready i r rest
next_lem i r rest v e = elim (Option-cases i.current) [
  | inl c ↦ let h = v.ended c in cc
  | inr (s, c) ↦
      let (r', rest', k) = current-cons i s v c in
      let n = Source.next_lem s r' rest' (subst IsPlaced c v.sound.current_placed) k in
      let j = set_current n.after i in
      let a =
        advance_lem j
          (record {
            mem_tables = v.sound.mem_tables;
            ss_tables = v.sound.ss_tables;
            current_placed = n.after_valid;
          })
          (λ h. cc) in
      let (heads, tails) = cons_inj (sym e ∙ contents-cons i s r' rest' c k) in
      record {
        after = a.after;
        next_eq =
            next_eq_of i s n.after r' a.after c n.next_eq (advance-is j ∙ a.advanced)
            ∙ ap (λ z. some (z, a.after)) (sym heads);
        after_eq =
            a.same
            ∙ contents-some j n.after refl
            ∙ ap (λ z. z ++ (in_tables i.range i.ro_left ++ in_ss_tables i.range i.ss_left))
                n.after_eq
            ∙ sym tails;
        after_valid = a.ready;
      }
]

abbrev pub key_ops : IteratorOps KeyIterator
key_ops = record {
  has_more = has_more;
  next = next;
  contents = contents;
  valid = Ready;
  more_lem = more_lem;
  done_lem = done_lem;
  next_lem = next_lem;
}

abbrev pub key_range : Str → ScanRange
key_range key = record { lower_bound = some key; upper_bound = some key }

-- What a key iterator is to return when it is created.
pub create_key_lem :
    (key : Str) (mem : MemTable) (ro : List MemTable) (ss : List SsTable)
    → All IsMemTable (mem ∷ ro)
    → All IsTable ss
    → (i : KeyIterator) × (create key mem ro ss ≡ some i)
      × Ready i
      × (contents i ≡ in_tables (key_range key) (mem ∷ ro) ++ in_ss_tables (key_range key) ss)
unfolding create in_tables
create_key_lem key mem ro ss vm vs =
    let i : KeyIterator = record {
      range = key_range key;
      ro_left = ro;
      ss_left = ss;
      current = some (in_mem_table (Mem.scan (key_range key) mem));
    } in
    let a =
      advance_lem i (record { mem_tables = vm.1; ss_tables = vs; current_placed = tt }) (λ h. cc) in
    (
      a.after,
      advance-is i ∙ a.advanced,
      a.ready,
      a.same
          ∙ contents-some i _ refl
          ∙ ap (λ z. z ++ (in_tables (key_range key) ro ++ in_ss_tables (key_range key) ss))
              (MemScan.mem_scan-range (key_range key) mem vm.0.sorted vm.0.bounded)
          ∙ sym (
              append_assoc (filter (in_range (key_range key)) mem) (in_tables (key_range key) ro)
                (in_ss_tables (key_range key) ss)),
    )

-- Over mem tables that are sorted, with sequence numbers in their field, and table files that are sorted by
-- key and have no empty page, creating a key iterator succeeds, and the loop over it ends by its test and
-- reads exactly the records of the key in the mem table, then in each frozen mem table, then in each table
-- file, in the order of the two lists.
pub drain-create_key :
    (key : Str) (mem : MemTable) (ro : List MemTable) (ss : List SsTable) (fuel : ℕ)
    → All IsMemTable (mem ∷ ro)
    → All IsTable ss
    → length (in_tables (key_range key) (mem ∷ ro) ++ in_ss_tables (key_range key) ss) < fuel
    → (i : KeyIterator) × (create key mem ro ss ≡ some i)
      × (drain key_ops fuel i
          ≡ some (in_tables (key_range key) (mem ∷ ro) ++ in_ss_tables (key_range key) ss))
drain-create_key key mem ro ss fuel vm vs h =
    let (i, e, ready, c) = create_key_lem key mem ro ss vm vs in
    (i, e, drain-list key_ops fuel i _ ready c h)
