-- ===== src/Lsm/Source.antt =====
-- The two kinds of iterators over one table that the tree's iterators work on, behind the
-- interface.
use structuredb.Base.{◌≡◌, Bool, true, false, Option, none, some, List, [], ◌∷◌}
use structuredb.Lsm.Types.{Record}
use structuredb.Lsm.Iterator.{IteratorOps, NextIs}
use structuredb.Lsm.MemTable.{MemTableIterator}
use structuredb.Lsm.MemTable as Mem
use structuredb.Lsm.MemTable.Scan as MemScan
use structuredb.Lsm.SsTable.{SsTableIterator}
use structuredb.Lsm.SsTable as Sst
use structuredb.Lsm.SsTable.Walk as SstWalk

pub data Source : Type 0 where
  in_mem_table : MemTableIterator → Source
  in_ss_table : SsTableIterator → Source

unfoldable pub has_more : Source → Bool
has_more (in_mem_table i) = Mem.has_more i
has_more (in_ss_table i) = Sst.has_more i

unfoldable pub next : Source → Option (Record × Source)
next (in_mem_table i) = elim (Mem.next i) [ none ↦ none | some (r, i') ↦ some (r, in_mem_table i') ]
next (in_ss_table i) = elim (Sst.next i) [ none ↦ none | some (r, i') ↦ some (r, in_ss_table i') ]

abbrev pub contents : Source → List Record
contents (in_mem_table i) = MemScan.contents i
contents (in_ss_table i) = SstWalk.contents i

abbrev pub IsValid : Source → Type 0
IsValid (in_mem_table i) = MemScan.IsValid i
IsValid (in_ss_table i) = SstWalk.IsValid i

pub more_lem :
    (s : Source) (r : Record) (rest : List Record)
    → IsValid s
    → contents s ≡ r ∷ rest
    → has_more s ≡ true
unfolding has_more
more_lem (in_mem_table i) r rest v e = MemScan.more_lem i r rest v e
more_lem (in_ss_table i) r rest v e = SstWalk.more_lem i r rest v e

pub done_lem : (s : Source) → IsValid s → contents s ≡ [] → has_more s ≡ false
unfolding has_more
done_lem (in_mem_table i) v e = MemScan.done_lem i v e
done_lem (in_ss_table i) v e = SstWalk.done_lem i v e

pub next_lem :
    (s : Source) (r : Record) (rest : List Record)
    → IsValid s
    → contents s ≡ r ∷ rest
    → NextIs next contents IsValid s r rest
unfolding next
next_lem (in_mem_table i) r rest v e =
    let n = MemScan.next_lem i r rest v e in
    record {
      after = in_mem_table n.after;
      next_eq = rw (n.next_eq, next);
      after_eq = n.after_eq;
      after_valid = n.after_valid;
    }
next_lem (in_ss_table i) r rest v e =
    let n = SstWalk.next_lem i r rest v e in
    record {
      after = in_ss_table n.after;
      next_eq = rw (n.next_eq, next);
      after_eq = n.after_eq;
      after_valid = n.after_valid;
    }

abbrev pub source_ops : IteratorOps Source
source_ops = record {
  has_more = has_more;
  next = next;
  contents = contents;
  valid = IsValid;
  more_lem = more_lem;
  done_lem = done_lem;
  next_lem = next_lem;
}
