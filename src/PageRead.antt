-- ===== src/PageRead.antt =====
-- page-read.c: reading the pages of a task from a chain of snapshots. Each level of the chain is a
-- pagemap.img and a pages.img; the head of the list is the youngest, its tail the `parent`s.
pub mod Image
pub mod Inside
pub mod Gaps
pub mod Seek
pub mod Read
pub mod Pass
pub mod Next
use crtools.Base.{
  ℕ, ◌+◌, ◌-◌, ◌*◌, ◌%◌, ◌^◌, Bool, true, false, not, ◌&&◌, List, [], ◌∷◌, Option, none, some, ltb,
  leb, ◌==◌, if◌then◌else◌, add64, sub64, page_size, length, take, drop,
}
use crtools.Iov.{iov_end}
use crtools.Pagemap.{PagemapEntry, pagemap2iovec}

-- `struct page_read` but for `parent`. `entries` are those that `fd` has not yet given; `file` is
-- what `fd_pg` is open on, and `offset` where it stands. `freed` says that the entry that `pe`
-- points to was freed.
pub record Level : Type 0 where
  pub entries : List PagemapEntry
  pub pe : Option PagemapEntry
  pub freed : Bool
  pub cvaddr : ℕ
  pub file : List ℕ
  pub offset : ℕ

-- A freshly opened level.
unfoldable pub open_page_read_at : List PagemapEntry → List ℕ → Level
open_page_read_at entries file = record {
  entries = entries;
  pe = none;
  freed = false;
  cvaddr = 0;
  file = file;
  offset = 0;
}

-- `has_parent` is `pr->parent != NULL`.
-- The new state of `get_pagemap` and whether it returned 1, on the entries that are left.
unfoldable pub get_pagemap : Bool → List PagemapEntry → Level → Bool × Level
get_pagemap has_parent [] lv = (false, lv)
get_pagemap has_parent (e ∷ es) lv = (
  not (e.in_parent && not has_parent),
  record lv { entries = es; pe = some e; freed = false; cvaddr = e.vaddr },
)

unfoldable pub put_pagemap : Level → Level
put_pagemap lv = record lv { freed = true }

unfoldable pub skip_pagemap_pages : PagemapEntry → ℕ → Level → Level
skip_pagemap_pages e len lv = if len == 0 then lv else record lv {
  offset = if e.in_parent then lv.offset else lv.offset + len;
  cvaddr = add64 lv.cvaddr len;
}

-- The rounds of the loop of `seek_pagemap_page`: `e` is what `pr->pe` points to, and the list is what
-- `fd` has still to give. The result is `true` for 0 and `false` for -1.
unfoldable pub seek_from : Bool → ℕ → PagemapEntry → List PagemapEntry → Level → Bool × Level
unfolding skip_pagemap_pages put_pagemap
seek_from has_parent vaddr e [] lv =
    if ltb vaddr lv.cvaddr
    then (false, lv)
    else if leb (iov_end (pagemap2iovec e)) vaddr
    then (
      false,
      put_pagemap (skip_pagemap_pages e (sub64 (iov_end (pagemap2iovec e)) lv.cvaddr) lv),
    )
    else (true, skip_pagemap_pages e (sub64 vaddr lv.cvaddr) lv)
seek_from has_parent vaddr e (e' ∷ es) lv =
    let skipped =
      put_pagemap (skip_pagemap_pages e (sub64 (iov_end (pagemap2iovec e)) lv.cvaddr) lv) in
    let got = record skipped { entries = es; pe = some e'; freed = false; cvaddr = e'.vaddr } in
    let rest = seek_from has_parent vaddr e' es got in
    if ltb vaddr lv.cvaddr
    then (false, lv)
    else if leb (iov_end (pagemap2iovec e)) vaddr
    then (if e'.in_parent && not has_parent then (false, got) else rest)
    else (true, skip_pagemap_pages e (sub64 vaddr lv.cvaddr) lv)

-- `goto new_pagemap`
unfoldable pub seek_new : Bool → ℕ → List PagemapEntry → Level → Bool × Level
unfolding get_pagemap
seek_new has_parent vaddr [] lv = get_pagemap has_parent [] lv
seek_new has_parent vaddr (e ∷ es) lv =
    let (got, lv') = get_pagemap has_parent (e ∷ es) lv in
    if got then seek_from has_parent vaddr e es lv' else (false, lv')

unfoldable pub seek_pagemap_page : Bool → ℕ → Level → Bool × Level
unfolding seek_from seek_new
seek_pagemap_page has_parent vaddr lv = elim lv.pe [
  | none ↦ seek_new has_parent vaddr lv.entries lv
  | some e ↦ seek_from has_parent vaddr e lv.entries lv
]

-- `pr->parent`
abbrev pub has_parents : List Level → Bool
has_parents [] = false
has_parents (lv ∷ lvs) = true

-- What a level reads from its own pages.img: a whole page, or nothing.
pub read_own : Level → Option (List ℕ) × Level
read_own lv =
    let got = take page_size (drop lv.offset lv.file) in
    let after = record lv { offset = lv.offset + length got } in
    if length got == page_size
    then (some got, record after { cvaddr = add64 lv.cvaddr page_size })
    else (none, after)

-- The result is the page, or `none` for -1; a null `pe` faults, which is `none` here and ruled out
-- where `seek_pagemap_page` has succeeded.
pub read_pagemap_page : ℕ → List Level → Option (List ℕ) × List Level
unfolding read_own
read_pagemap_page vaddr [] = (none, [])
read_pagemap_page vaddr (lv ∷ []) = elim lv.pe [
  | none ↦ (none, lv ∷ [])
  | some e ↦
      let (page, lv') = read_own lv in if e.in_parent then (none, lv ∷ []) else (page, lv' ∷ [])
]
read_pagemap_page vaddr (lv ∷ pr ∷ prs) =
    let (found, pr') = seek_pagemap_page (has_parents prs) vaddr pr in
    let (page, prs') = read_pagemap_page vaddr (pr' ∷ prs) in
    let (own, lv') = read_own lv in
    elim lv.pe [
      | none ↦ (none, lv ∷ pr ∷ prs)
      | some e ↦
          if not e.in_parent
          then (own, lv' ∷ pr ∷ prs)
          else if not found
          then (none, lv ∷ pr' ∷ prs)
          else elim page [
            | none ↦ (none, lv ∷ prs')
            | some bytes ↦ (some bytes, record lv { cvaddr = add64 lv.cvaddr page_size } ∷ prs')
          ]
    ]
