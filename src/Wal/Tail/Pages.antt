-- ===== src/Wal/Tail/Pages.antt =====
-- Which pages are collected (wal/tail.cpp).
use structuredb.Base.{
  ℕ, zero, suc, ◌+◌, ◌≡◌, refl, sym, ap, ◌∙◌, true, false, not, Option, none, some, List, [], ◌∷◌,
  ◌++◌, length, take, drop, filter, filter-append, arith, All, ltb, if◌then◌else◌, Bool-cases, inl,
  inr,
}
use structuredb.Base.Str.{Str}
use structuredb.Base.Assoc.{str_key, option_eq, lookup}
use structuredb.Wal.{wal_page_size}
use structuredb.Wal.Segment.{get_segment_no_from_name}
use structuredb.Wal.Files.{Directory, list_directory, sort, All-sort, create_file_reader}
use structuredb.Wal.Reader.{Position}
use structuredb.Wal.Reader.Pages.{Present, present}
use structuredb.Wal.Tail.{
  WalPageData, no_lt, position_lt, read_segment_loop, read_segment_pages, collect_loop,
  collect_pages_from,
}
use mathlib.Core.List.{append-nil}

-- The position that no page is before.
abbrev pub origin : Position
origin = record { segment_no = none; page_no = 0 }

-- The pages from a position on.
abbrev pub from_on : Position → List WalPageData → List WalPageData
from_on from pages = filter (λ page. not (position_lt page.position from)) pages

pub origin-least : (pos : Position) → position_lt pos origin ≡ false
unfolding position_lt
origin-least pos =
    elim pos.segment_no
      as (λ s. (if not (option_eq s none) then no_lt s none else ltb pos.page_no 0) ≡ false) [
        | none ↦ ground arith
        | some n ↦ refl
      ]

lt-differ : (a b : Option ℕ) → no_lt a b ≡ true → option_eq a b ≡ false
lt-differ none none h = cc
lt-differ none (some b) h = refl
lt-differ (some a) none h = cc
lt-differ (some a) (some b) h = ground arith

earlier_segment :
    (pos from : Position)
    → no_lt pos.segment_no from.segment_no ≡ true
    → position_lt pos from ≡ true
unfolding position_lt
earlier_segment pos from h =
    ap (λ b. if not b then no_lt pos.segment_no from.segment_no else ltb pos.page_no from.page_no)
      (lt-differ pos.segment_no from.segment_no h)
    ∙ h

-- A page that is added to all the pages.
from_on-snoc :
    (from : Position) (page : WalPageData) (out all : List WalPageData)
    → out ≡ from_on from all
    → (if not (position_lt page.position from) then out ++ page ∷ [] else out)
      ≡ from_on from (all ++ page ∷ [])
from_on-snoc from page out all h =
    elim (position_lt page.position from)
      as (λ b.
        (if not b then out ++ page ∷ [] else out)
        ≡ from_on from all ++ (if not b then page ∷ [] else [])) [
          | true ↦ h ∙ sym (append-nil (from_on from all))
          | false ↦ ap (λ l. l ++ page ∷ []) h
        ]
    ∙ sym (filter-append (λ p. not (position_lt p.position from)) all (page ∷ []))

loop-filter :
    (fuel : ℕ) (segment_no : Option ℕ) (page_no : ℕ) (from : Position) (content : Str)
    (out all : List WalPageData)
    → out ≡ from_on from all
    → read_segment_loop fuel segment_no page_no from content out
      ≡ from_on from (read_segment_loop fuel segment_no page_no origin content all)
unfolding read_segment_loop
loop-filter zero segment_no page_no from content out all h = h
loop-filter (suc fuel) segment_no page_no from [] out all h = h
loop-filter (suc fuel) segment_no page_no from (b ∷ content) out all h =
    let pos : Position = record { segment_no = segment_no; page_no = page_no } in
    let page : WalPageData = record {
      position = pos;
      content = take wal_page_size (b ∷ content);
    } in
    rw (origin-least pos) (
      loop-filter fuel segment_no (page_no + 1) from (drop wal_page_size (b ∷ content)) _
        (all ++ page ∷ []) (from_on-snoc from page out all h))

-- A segment that is before the position adds no page from it on.
loop-earlier :
    (fuel : ℕ) (segment_no : Option ℕ) (page_no : ℕ) (from : Position) (content : Str)
    (out : List WalPageData)
    → no_lt segment_no from.segment_no ≡ true
    → read_segment_loop fuel segment_no page_no from content out ≡ out
unfolding read_segment_loop
loop-earlier zero segment_no page_no from content out h = refl
loop-earlier (suc fuel) segment_no page_no from [] out h = refl
loop-earlier (suc fuel) segment_no page_no from (b ∷ content) out h =
    rw (earlier_segment (record { segment_no = segment_no; page_no = page_no }) from h)
      (loop-earlier fuel segment_no (page_no + 1) from (drop wal_page_size (b ∷ content)) out h)

pub collect-step :
    (d : Directory) (from : Position) (segment content : Str) (segments : List Str)
    (out : List WalPageData)
    → lookup segment d ≡ some content
    → collect_loop d from (segment ∷ segments) out ≡ (
        let segment_no = get_segment_no_from_name segment in
        collect_loop d from segments (
          if no_lt segment_no from.segment_no
          then out
          else read_segment_pages segment_no from content out))
unfolding collect_loop create_file_reader
collect-step d from segment content segments out h =
    elim (Bool-cases (no_lt (get_segment_no_from_name segment) from.segment_no)) [
      | inl e ↦ rw (e, collect_loop) refl
      | inr e ↦ rw (e, h, collect_loop) refl
    ]

no_lt-origin : (a : Option ℕ) → no_lt a none ≡ false
no_lt-origin a = refl

segment-filter :
    (segment_no : Option ℕ) (from : Position) (content : Str) (out all : List WalPageData)
    → out ≡ from_on from all
    → (if no_lt segment_no from.segment_no
        then out
        else read_segment_pages segment_no from content out)
      ≡ from_on from (read_segment_pages segment_no origin content all)
unfolding read_segment_pages
segment-filter segment_no from content out all h =
    elim (Bool-cases (no_lt segment_no from.segment_no)) [
      | inl e ↦ rw e (
          sym (loop-earlier (suc (length content)) segment_no 0 from content out e)
          ∙ loop-filter (suc (length content)) segment_no 0 from content out all h)
      | inr e ↦ rw e (loop-filter (suc (length content)) segment_no 0 from content out all h)
    ]

loop_filter :
    (d : Directory) (from : Position) (segments : List Str) (out all : List WalPageData)
    → All (Present d) segments
    → out ≡ from_on from all
    → (pages : List WalPageData) × (collect_loop d origin segments all ≡ some pages)
      × (collect_loop d from segments out ≡ some (from_on from pages))
unfolding collect_loop
loop_filter d from [] out all p h = (all, refl, ap some h)
loop_filter d from (segment ∷ segments) out all p h =
    let number = get_segment_no_from_name segment in
    let content = p.0.0 in
    let (pages, e, f) =
      loop_filter d from segments _ (read_segment_pages number origin content all) p.1
        (segment-filter number from content out all h) in
    (
      pages,
      collect-step d origin segment content segments all p.0.1 ∙ e,
      collect-step d from segment content segments out p.0.1 ∙ f,
    )

-- Collecting from a position gives those of the pages collected from the origin that are not before it.
pub collect_pages_from_lem :
    (d : Directory) (from : Position)
    → (pages : List WalPageData) × (collect_pages_from d origin ≡ some pages)
      × (collect_pages_from d from
          ≡ some (filter (λ page. not (position_lt page.position from)) pages))
unfolding collect_pages_from
collect_pages_from_lem d from =
    loop_filter d from (sort (list_directory d)) [] []
      (All-sort (Present d) (list_directory d) (present d)) refl
