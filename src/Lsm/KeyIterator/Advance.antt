-- ===== src/Lsm/KeyIterator/Advance.antt =====
-- `Advance` of the key iterator: it stops, and skips only tables that have no record of the range left.
use structuredb.Base.{
  ℕ, zero, suc, ◌+◌, ◌<◌, ◌≡◌, refl, sym, ap, ◌∙◌, subst, true, false, Option, none, some, List, [],
  ◌∷◌, ◌++◌, length, arith, filter, All, Bool-cases, Option-cases, inl, inr,
}
use structuredb.Lsm.Types.{Record, ScanRange}
use structuredb.Lsm.Order.{IsSorted}
use structuredb.Lsm.Range.{in_range}
use structuredb.Lsm.MemTable.{MemTable}
use structuredb.Lsm.MemTable as Mem
use structuredb.Lsm.MemTable.Scan as MemScan
use structuredb.Lsm.MemTable.Scan.{SeqBounded}
use structuredb.Lsm.SsTable.{SsTable}
use structuredb.Lsm.SsTable as Sst
use structuredb.Lsm.SsTable.Seek.{flat}
use structuredb.Lsm.SsTable.Scan as SstScan
use structuredb.Lsm.SsTable.Scan.{IsTable}
use structuredb.Lsm.Source as Source
use structuredb.Lsm.Source.{Source, in_mem_table, in_ss_table}
use structuredb.Lsm.KeyIterator.{KeyIterator, get_next, is_exhausted, advance_loop}
use mathlib.Core.List.{append_assoc}

-- The records of a range in several tables, one table after the other.
unfoldable pub in_tables : ScanRange → List (List Record) → List Record
in_tables range [] = []
in_tables range (t ∷ ts) = filter (in_range range) t ++ in_tables range ts

unfoldable pub in_ss_tables : ScanRange → List SsTable → List Record
in_ss_tables range [] = []
in_ss_tables range (t ∷ ts) = filter (in_range range) (flat t.pages) ++ in_ss_tables range ts

-- A mem table as the write path leaves it.
pub record IsMemTable (t : MemTable) : Type 0 where
  pub sorted : IsSorted t
  pub bounded : SeqBounded t

abbrev pub current_contents : Option Source → List Record
current_contents none = []
current_contents (some s) = Source.contents s

unfoldable pub contents : KeyIterator → List Record
contents i =
    current_contents i.current ++ (in_tables i.range i.ro_left ++ in_ss_tables i.range i.ss_left)

abbrev pub IsPlaced : Option Source → Type 0
IsPlaced none = Unit
IsPlaced (some s) = Source.IsValid s

-- The tables are well formed, and the current iterator is placed.
pub record Sound (i : KeyIterator) : Type 0 where
  pub mem_tables : All IsMemTable i.ro_left
  pub ss_tables : All IsTable i.ss_left
  pub current_placed : IsPlaced i.current

-- The rounds that `Advance` can still make.
abbrev left : Option Source → ℕ
left none = 0
left (some s) = 1

abbrev rounds : KeyIterator → ℕ
rounds i = length i.ro_left + length i.ss_left + left i.current

record Stepped (i : KeyIterator) : Type 0 where
  after : KeyIterator
  stepped : get_next i ≡ some after
  sound : Sound after
  same_rest : contents after ≡ in_tables i.range i.ro_left ++ in_ss_tables i.range i.ss_left
  ended : after.current ≡ none → contents after ≡ []
  fewer : (s : Source) → i.current ≡ some s → rounds after < rounds i

get_next_ss :
    (i : KeyIterator) (t : SsTable) (ts : List SsTable) (s : Sst.SsTableIterator)
    → i.ro_left ≡ []
    → i.ss_left ≡ t ∷ ts
    → Sst.scan i.range t ≡ some s
    → get_next i ≡ some (record i { ss_left = ts; current = some (in_ss_table s) })
unfolding get_next
get_next_ss i t ts s p q e = ground arith

get_next_lem :
    (i : KeyIterator) (ro : List MemTable) (ss : List SsTable)
    → i.ro_left ≡ ro
    → i.ss_left ≡ ss
    → All IsMemTable ro
    → All IsTable ss
    → Stepped i
unfolding get_next contents in_tables in_ss_tables
get_next_lem i (t ∷ ts) ss p q vm vs = record {
  after = record i { ro_left = ts; current = some (in_mem_table (Mem.scan i.range t)) };
  stepped = rw (p, get_next);
  sound = record { mem_tables = vm.1; ss_tables = rw q vs; current_placed = tt };
  same_rest =
      rw (p, q, MemScan.mem_scan-range i.range t vm.0.sorted vm.0.bounded)
        (sym (
          append_assoc (filter (in_range i.range) t) (in_tables i.range ts)
            (in_ss_tables i.range ss)));
  ended = λ e. cc;
  fewer = λ s e. omega (arith, ap length p, ap left e);
}
get_next_lem i [] (t ∷ ts) p q vm vs =
    let (s, scanned, v, e) = SstScan.table_scan-range i.range t vs.0 in
    record {
      after = record i { ss_left = ts; current = some (in_ss_table s) };
      stepped = get_next_ss i t ts s p q scanned;
      sound = record { mem_tables = rw p tt; ss_tables = vs.1; current_placed = v };
      same_rest = rw (p, q, e);
      ended = λ h. cc;
      fewer = λ c k. omega (arith, ap length q, ap left k);
    }
get_next_lem i [] [] p q vm vs = record {
  after = record i { current = none };
  stepped = ground arith;
  sound = record { mem_tables = rw p tt; ss_tables = rw q tt; current_placed = tt };
  same_rest = rw (p, q);
  ended = λ h. rw (p, q);
  fewer = λ c k. omega (arith, ap left k);
}

pub record Ready (i : KeyIterator) : Type 0 where
  pub sound : Sound i
  pub ended : i.current ≡ none → contents i ≡ []
  pub fresh : is_exhausted i ≡ false

pub record Advanced (fuel : ℕ) (i : KeyIterator) : Type 0 where
  pub after : KeyIterator
  pub advanced : advance_loop fuel i ≡ some after
  pub same : contents after ≡ contents i
  pub ready : Ready after

-- A source that is placed and has no more records has none to return.
exhausted-empty :
    (s : Source) (rs : List Record)
    → Source.IsValid s
    → Source.contents s ≡ rs
    → Source.has_more s ≡ false
    → rs ≡ []
exhausted-empty s [] v e h = refl
exhausted-empty s (r ∷ rs) v e h = absurd (ground (arith, Source.more_lem s r rs v e))

advance-exhausted :
    (i : KeyIterator) (s : Source)
    → i.current ≡ some s
    → Sound i
    → is_exhausted i ≡ true
    → contents i ≡ in_tables i.range i.ro_left ++ in_ss_tables i.range i.ss_left
unfolding contents is_exhausted
advance-exhausted i s c v h =
    let v' : IsPlaced (some s) = subst IsPlaced c v.current_placed in
    let h' : Source.has_more s ≡ false = ground arith in
    ap (λ z. current_contents z ++ (in_tables i.range i.ro_left ++ in_ss_tables i.range i.ss_left))
      c
    ∙ ap (λ z. z ++ (in_tables i.range i.ro_left ++ in_ss_tables i.range i.ss_left))
        (exhausted-empty s _ v' refl h')

none-not_exhausted : (i : KeyIterator) → i.current ≡ none → is_exhausted i ≡ false
unfolding is_exhausted
none-not_exhausted i c = rw c

advance_loop_lem :
    (fuel : ℕ) (i : KeyIterator)
    → Sound i
    → (i.current ≡ none → contents i ≡ [])
    → rounds i < fuel
    → Advanced fuel i
unfolding advance_loop
advance_loop_lem zero i v n h = absurd (omega arith)
advance_loop_lem (suc fuel) i v n h = elim (Bool-cases (is_exhausted i)) [
  | inr e ↦ record {
    after = i;
    advanced = rw (e, advance_loop);
    same = refl;
    ready = record { sound = v; ended = n; fresh = e };
  }
  | inl e ↦ elim (Option-cases i.current) [
    | inl c ↦ absurd (ground (arith, none-not_exhausted i))
    | inr (s, c) ↦
        let g = get_next_lem i i.ro_left i.ss_left refl refl v.mem_tables v.ss_tables in
        let a = advance_loop_lem fuel g.after g.sound g.ended (omega (arith, g.fewer s c)) in
        record {
          after = a.after;
          advanced = rw (e, g.stepped, advance_loop) a.advanced;
          same = a.same ∙ g.same_rest ∙ sym (advance-exhausted i s c v e);
          ready = a.ready;
        }
  ]
]

pub advance_lem :
    (i : KeyIterator)
    → Sound i
    → (i.current ≡ none → contents i ≡ [])
    → Advanced (length i.ro_left + length i.ss_left + 2) i
advance_lem i v n = advance_loop_lem _ i v n (elim (Option-cases i.current) [
  | inl c ↦ omega (arith, ap left c)
  | inr (s, c) ↦ omega (arith, ap left c)
])
