-- ===== src/PageXfer.antt =====
-- page-xfer.c: writing the pages of a page pipe, to local images or to a page server.
pub mod Local
pub mod Pages
use crtools.Base.{
  ℕ, ◌+◌, ◌-◌, ◌*◌, ◌/◌, ◌%◌, ◌^◌, Bool, true, false, List, [], ◌∷◌, ◌++◌, Option, none, some, Res,
  ok, err, bug, ◌>>=◌, ◌>>◌, bug_on, fail_on, ltb, leb, ◌==◌, if◌then◌else◌, page_size, length,
  take, drop, slice, map, reverse,
}
use crtools.Iov.{Iovec}
use crtools.Pagemap.{PagemapEntry}
use crtools.PagePipe.{PagePipe, PagePipeBuf}

-- `struct page_xfer`: the three writers, over the state `S` behind it. `write_pages pipe len` takes
-- `len` bytes out of the pipe and returns what is left in it.
pub record PageXfer (S : Type 0) : Type 0 where
  pub write_pagemap : Iovec → S → Res S
  pub write_pages : List ℕ → ℕ → S → Res (List ℕ × S)
  pub write_hole : Iovec → S → Res S

module _ {S : Type 0} (xfer : PageXfer S) where
  -- `while (hole && hole->iov_base < iov->iov_base)`; the list is from `hole` to the last hole.
  unfoldable pub write_holes_below : ℕ → List Iovec → S → Res (List Iovec × S)
  write_holes_below base [] s = ok ([], s)
  write_holes_below base (hole ∷ hs) s =
      let rest = xfer.write_hole hole s >>= write_holes_below base hs in
      if ltb hole.iov_base base then rest else ok (hole ∷ hs, s)

  -- `while (hole)`
  unfoldable pub write_holes : List Iovec → S → Res S
  write_holes [] s = ok s
  write_holes (hole ∷ hs) s = xfer.write_hole hole s >>= write_holes hs

  -- The segments of one buffer, with what is in its pipe. The array is not read again, so that
  -- `iov->iov_base -= off` is a new value here.
  unfoldable pub dump_segs : ℕ → List Iovec → List Iovec → List ℕ → S → Res (List Iovec × S)
  dump_segs off [] hs pipe s = ok (hs, s)
  dump_segs off (iov ∷ iovs) hs pipe s = do
    (hs', s1) ← write_holes_below iov.iov_base hs s
    bug_on (ltb iov.iov_base off)
    s2 ← xfer.write_pagemap (record iov { iov_base = iov.iov_base - off }) s1
    (pipe', s3) ← xfer.write_pages pipe iov.iov_len s2
    dump_segs off iovs hs' pipe' s3

  -- The buffers in the order of the list; `pipe_of i` is what is in the pipe made as number `i`.
  unfoldable pub dump_bufs :
      ℕ → (ℕ → List ℕ) → List Iovec → ℕ → List PagePipeBuf → List Iovec → S → Res (List Iovec × S)
  unfolding dump_segs
  dump_bufs off pipe_of iovs i [] hs s = ok (hs, s)
  dump_bufs off pipe_of iovs i (ppb ∷ ppbs) hs s = do
    (hs', s') ← dump_segs off (slice iovs ppb.iov ppb.nr_segs) hs (pipe_of i) s
    dump_bufs off pipe_of iovs (i + 1) ppbs hs' s'

  unfoldable pub page_xfer_dump_pages : (ℕ → List ℕ) → PagePipe → ℕ → S → Res S
  unfolding dump_bufs
  page_xfer_dump_pages pipe_of pp off s = do
    (hs, s') ← dump_bufs off pipe_of pp.iovs 0 (reverse pp.bufs) (take pp.free_hole pp.holes) s
    write_holes hs s'

-- What a local dump has written: the entries of pagemap.img and the bytes of pages.img.
pub record LocalImage : Type 0 where
  pub entries : List PagemapEntry
  pub file : List ℕ

-- The entry that `write_pagemap_loc`, or `write_pagehole_loc`, makes of an iovec.
abbrev pub entry_of : Bool → Iovec → PagemapEntry
entry_of hole iov = record {
  vaddr = iov.iov_base;
  nr_pages = iov.iov_len / page_size % 2 ^ 32;
  in_parent = hole;
}

-- `dedup` is `dedup_one_iovec` on the parent, where `auto_dedup` asks for it; `room` says whether
-- the image can still be written to.
module _ (dedup : Option (Iovec → LocalImage → Res LocalImage)) (room : LocalImage → Bool) where
  pub write_entry : PagemapEntry → LocalImage → Res LocalImage
  write_entry pe img =
      if room img then ok (record img { entries = img.entries ++ pe ∷ [] }) else err

  pub write_pagemap_loc : Iovec → LocalImage → Res LocalImage
  unfolding write_entry
  write_pagemap_loc iov img = elim dedup [
    | none ↦ write_entry (entry_of false iov) img
    | some dedup_one_iovec ↦ dedup_one_iovec iov img >>= write_entry (entry_of false iov)
  ]

  -- `splice` moves `len` bytes if the pipe has them and the image has room, and otherwise fewer.
  pub write_pages_loc : List ℕ → ℕ → LocalImage → Res (List ℕ × LocalImage)
  write_pages_loc pipe len img =
      if ltb (length pipe) len
      then err
      else if room img
      then ok (drop len pipe, record img { file = img.file ++ take len pipe })
      else err

  pub write_pagehole_loc : Iovec → LocalImage → Res LocalImage
  unfolding write_entry
  write_pagehole_loc iov img = write_entry (entry_of true iov) img

  -- The writers that `open_page_local_xfer` sets.
  abbrev pub page_local_xfer : PageXfer LocalImage
  page_local_xfer = record {
    write_pagemap = write_pagemap_loc;
    write_pages = write_pages_loc;
    write_hole = write_pagehole_loc;
  }
