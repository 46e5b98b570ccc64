-- ===== src/Replication/Follower/Mirror.antt =====
-- The log that a follower mirrors (replication/follower.cpp, wal/tail.cpp, wal/recovery.cpp).
use structuredb.Base.{
  ℕ, zero, suc, ◌+◌, ◌≤◌, ◌<◌, ◌≡◌, refl, sym, ap, subst, ◌∙◌, Bool, true, false, none, some,
  length, arith, leb, ltb, if◌then◌else◌, Bool-cases, inl, inr, ◌==◌, ==_iff, true≢false,
}
use structuredb.Base.Str.{Str}
use structuredb.Base.Assoc.{str_key, assign}
use structuredb.Wal.{wal_page_size}
use structuredb.Wal.Segment.{segment_name}
use structuredb.Wal.Files.{Directory, Below, file_size, assign-assign}
use structuredb.Wal.Reader.{each}
use structuredb.Wal.Reader.Pages.{read-last}
use structuredb.Wal.Tail.{next_segment_to_fetch, write_received_page}
use structuredb.Table.Engine.{Database, apply}
use structuredb.Database.Recovery.{recover}
use structuredb.Replication.Follower.{process_page}

-- A page that was mirrored as the last segment, whether it is new there or replaces a shorter one, is
-- recovered by a restart as it is applied when it arrives: recovery from the mirrored log is recovery
-- from the segments before it, and then the page.
pub recover-process_page :
    (n : ℕ) (before bytes : Str) (front : Directory) (live restarted : Database)
    → Below (segment_name n) front
    → length bytes ≤ wal_page_size
    → (recover (process_page n bytes (front, live)).0 restarted
        ≡ (process_page n bytes (front, recover front restarted)).1)
      × ((process_page n bytes (assign (segment_name n) before front, live)).0
          ≡ (process_page n bytes (front, live)).0)
unfolding process_page write_received_page recover
recover-process_page n before bytes front live restarted b l = (
  read-last (each apply) front (segment_name n) bytes restarted b l,
  assign-assign (segment_name n) before bytes front,
)

-- Whether a segment is there with a whole page.
abbrev pub is_complete : ℕ → Directory → Bool
is_complete n d = elim (file_size (segment_name n) d) [
  | none ↦ false
  | some size ↦ leb wal_page_size size
]

fetch-step :
    (fuel : ℕ) (d : Directory) (n : ℕ)
    → next_segment_to_fetch (suc fuel) d n
      ≡ (if is_complete n d then next_segment_to_fetch fuel d (n + 1) else n)
unfolding next_segment_to_fetch
fetch-step fuel d n =
    elim (file_size (segment_name n) d)
      as (λ o.
        elim o as (λ x. ℕ) [
          | none ↦ n
          | some size ↦ elim (ltb size wal_page_size) as (λ x. ℕ) [
            | true ↦ n
            | false ↦ next_segment_to_fetch fuel d (n + 1)
          ]
        ]
        ≡ (if (elim o as (λ x. Bool) [ none ↦ false | some size ↦ leb wal_page_size size ])
            then next_segment_to_fetch fuel d (n + 1)
            else n)) [ none ↦ refl | some size ↦ ground arith ]

differ : (n k : ℕ) → n ≤ k → (n == k) ≡ false → n + 1 ≤ k
differ n k h e = ground arith

later :
    (d : Directory) (n m : ℕ) → n ≤ m → is_complete n d ≡ true → is_complete m d ≡ false → n + 1 ≤ m
later d n m h e c = elim (Bool-cases (n == m)) [
  | inl same ↦ absurd (true≢false (sym e ∙ ap (λ k. is_complete k d) ((==_iff n m).0 same) ∙ c))
  | inr other ↦ differ n m h other
]

-- If some segment from `n` on, less than the fuel away, is missing or shorter than a page, then the
-- search from `n` ends at the first such segment: all those before it are complete.
pub next_segment_to_fetch-least :
    (fuel : ℕ) (d : Directory) (n m : ℕ)
    → n ≤ m
    → m < n + fuel
    → is_complete m d ≡ false
    → (is_complete (next_segment_to_fetch fuel d n) d ≡ false)
      × (n ≤ next_segment_to_fetch fuel d n)
      × (next_segment_to_fetch fuel d n ≤ m)
      × ((k : ℕ) → n ≤ k → k < next_segment_to_fetch fuel d n → is_complete k d ≡ true)
next_segment_to_fetch-least zero d n m h l c = absurd (omega arith)
next_segment_to_fetch-least (suc fuel) d n m h l c = elim (Bool-cases (is_complete n d)) [
  | inr e ↦ rw (fetch-step fuel d n, e) (e, omega arith, h, λ k a b. absurd (omega arith))
  | inl e ↦
      let (p, q, r, s) =
        next_segment_to_fetch-least fuel d (n + 1) m (later d n m h e c) (omega arith) c in
      rw (fetch-step fuel d n, e)
        (
          p,
          omega (arith, q),
          r,
          λ k a b. elim (Bool-cases (n == k)) [
            | inl same ↦ subst (λ j. is_complete j d ≡ true) ((==_iff n k).0 same) e
            | inr other ↦ s k (differ n k a other) b
          ],
        )
]
