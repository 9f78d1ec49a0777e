-- ===== src/PageXfer/Local.antt =====
-- page_xfer_dump_pages (page-xfer.c) into local images: the holes and the segments are merged by their
-- addresses into pagemap.img, and the pipes are emptied one after the other into pages.img.
use crtools.Base.{
  ℕ, ◌+◌, ◌-◌, ◌≤◌, ◌≡◌, refl, sym, ap, ◌∙◌, Bool, true, false, List, [], ◌∷◌, ◌++◌, none, Res, ok,
  ltb, Bool-cases, inl, inr, length, length-drop, take, take-add, drop, slice, reverse,
  append_assoc, append-nil, arith,
}
use crtools.Iov.{Iovec}
use crtools.Pagemap.{PagemapEntry}
use crtools.PagePipe.{PagePipe, PagePipeBuf}
use crtools.PageXfer.{
  PageXfer, LocalImage, entry_of, write_pagemap_loc, write_pages_loc, write_pagehole_loc,
  page_local_xfer, write_holes_below, write_holes, dump_segs, dump_bufs, page_xfer_dump_pages,
}

-- The pagemap of some holes and some segments: both in their order, a hole before a segment if its
-- address is lower.
unfoldable pub merge : List Iovec → List Iovec → List PagemapEntry
merge [] [] = []
merge [] (iov ∷ iovs) = entry_of false iov ∷ merge [] iovs
merge (hole ∷ hs) [] = entry_of true hole ∷ merge hs []
merge (hole ∷ hs) (iov ∷ iovs) = elim (ltb hole.iov_base iov.iov_base) [
  | true ↦ entry_of true hole ∷ merge hs (iov ∷ iovs)
  | false ↦ entry_of false iov ∷ merge (hole ∷ hs) iovs
]

abbrev pub seg_bytes : List Iovec → ℕ
seg_bytes [] = 0
seg_bytes (iov ∷ iovs) = iov.iov_len + seg_bytes iovs

pub merge_hole :
    (hole : Iovec) (hs : List Iovec) (iov : Iovec) (iovs : List Iovec)
    → ltb hole.iov_base iov.iov_base ≡ true
    → merge (hole ∷ hs) (iov ∷ iovs) ≡ entry_of true hole ∷ merge hs (iov ∷ iovs)
unfolding merge
merge_hole hole hs iov iovs h = rw (h, merge)

pub merge_segment :
    (hole : Iovec) (hs : List Iovec) (iov : Iovec) (iovs : List Iovec)
    → ltb hole.iov_base iov.iov_base ≡ false
    → merge (hole ∷ hs) (iov ∷ iovs) ≡ entry_of false iov ∷ merge (hole ∷ hs) iovs
unfolding merge
merge_segment hole hs iov iovs h = rw (h, merge)

abbrev pub with_entry : LocalImage → PagemapEntry → LocalImage
with_entry img pe = record img { entries = img.entries ++ pe ∷ [] }

not_below_zero : (n : ℕ) → ltb n 0 ≡ false
not_below_zero n = ground arith

sub_zero : (n : ℕ) → n - 0 ≡ n
sub_zero n = omega arith

le→not_ltb : (a b : ℕ) → a ≤ b → ltb b a ≡ false
le→not_ltb a b h = ground arith

-- The bytes that the buffers give, from the pipe made as number `i` on.
unfoldable pub drained : (ℕ → List ℕ) → List Iovec → ℕ → List PagePipeBuf → List ℕ
drained pipe_of iovs i [] = []
drained pipe_of iovs i (ppb ∷ ppbs) =
    take (seg_bytes (slice iovs ppb.iov ppb.nr_segs)) (pipe_of i)
    ++ drained pipe_of iovs (i + 1) ppbs

-- Every pipe holds the bytes of its buffer's segments.
abbrev pub AreFilled : (ℕ → List ℕ) → List Iovec → ℕ → List PagePipeBuf → Type 0
AreFilled pipe_of iovs i [] = Unit {0}
AreFilled pipe_of iovs i (ppb ∷ ppbs) =
    (seg_bytes (slice iovs ppb.iov ppb.nr_segs) ≤ length (pipe_of i))
    × AreFilled pipe_of iovs (i + 1) ppbs

-- The segments of the buffers, in the order in which they are written.
abbrev pub segs_of : List Iovec → List PagePipeBuf → List Iovec
segs_of iovs [] = []
segs_of iovs (ppb ∷ ppbs) = slice iovs ppb.iov ppb.nr_segs ++ segs_of iovs ppbs

module _ (room : LocalImage → Bool) (roomy : (img : LocalImage) → room img ≡ true) where
  abbrev xfer : PageXfer LocalImage
  xfer = page_local_xfer none room

  pub hole_written :
      (hole : Iovec) (img : LocalImage)
      → write_pagehole_loc none room hole img ≡ ok (with_entry img (entry_of true hole))
  unfolding write_pagehole_loc
  hole_written hole img = rw (roomy img)

  pub segment_written :
      (iov : Iovec) (img : LocalImage)
      → write_pagemap_loc none room iov img ≡ ok (with_entry img (entry_of false iov))
  unfolding write_pagemap_loc
  segment_written iov img = rw (roomy img)

  pub pages_written :
      (pipe : List ℕ) (len : ℕ) (img : LocalImage)
      → len ≤ length pipe
      → write_pages_loc none room pipe len img
        ≡ ok (drop len pipe, record img { file = img.file ++ take len pipe })
  unfolding write_pages_loc
  pages_written pipe len img h = rw (le→not_ltb len (length pipe) h, roomy img)

  record Below (base : ℕ) (hs : List Iovec) (img : LocalImage) (r : Res (List Iovec × LocalImage))
      : Type 0 where
    hs' : List Iovec
    img' : LocalImage
    done : r ≡ ok (hs', img')
    file : img'.file ≡ img.file
    merged :
        (iov : Iovec) (iovs : List Iovec)
        → iov.iov_base ≡ base
        → img'.entries ++ entry_of false iov ∷ merge hs' iovs ≡ img.entries ++ merge hs (iov ∷ iovs)

  write_holes_below-Below :
      (base : ℕ) (hs : List Iovec) (img : LocalImage)
      → Below base hs img (write_holes_below xfer base hs img)
  unfolding write_holes_below merge
  write_holes_below-Below base [] img = record {
    hs' = [];
    img' = img;
    done = refl;
    file = refl;
    merged = λ iov iovs e. refl;
  }
  write_holes_below-Below base (hole ∷ hs) img = elim (Bool-cases (ltb hole.iov_base base)) [
    | inl lower ↦
        let ih = write_holes_below-Below base hs (with_entry img (entry_of true hole)) in
        record {
          hs' = ih.hs';
          img' = ih.img';
          done = simp (lower, hole_written hole img) ih.done;
          file = ih.file;
          merged = λ iov iovs e.
              ih.merged iov iovs e
              ∙ append_assoc img.entries (entry_of true hole ∷ []) (merge hs (iov ∷ iovs))
              ∙ ap (◌++◌ img.entries) (sym (merge_hole hole hs iov iovs (rw e lower)));
        }
    | inr not_lower ↦ record {
      hs' = hole ∷ hs;
      img' = img;
      done = rw not_lower;
      file = refl;
      merged = λ iov iovs e.
          ap (◌++◌ img.entries) (sym (merge_segment hole hs iov iovs (rw e not_lower)));
    }
  ]

  record Segs (iovs hs : List Iovec) (pipe : List ℕ) (img : LocalImage)
      (r : Res (List Iovec × LocalImage)) : Type 0 where
    hs' : List Iovec
    img' : LocalImage
    done : r ≡ ok (hs', img')
    file : img'.file ≡ img.file ++ take (seg_bytes iovs) pipe
    merged :
        (more : List Iovec)
        → img'.entries ++ merge hs' more ≡ img.entries ++ merge hs (iovs ++ more)

  dump_segs-Segs :
      (iovs hs : List Iovec) (pipe : List ℕ) (img : LocalImage)
      → seg_bytes iovs ≤ length pipe
      → Segs iovs hs pipe img (dump_segs xfer 0 iovs hs pipe img)
  unfolding dump_segs
  dump_segs-Segs [] hs pipe img h = record {
    hs' = hs;
    img' = img;
    done = refl;
    file = sym (append-nil img.file);
    merged = λ more. refl;
  }
  dump_segs-Segs (iov ∷ iovs) hs pipe img h =
      let b = write_holes_below-Below iov.iov_base hs img in
      let img2 = with_entry b.img' (entry_of false iov) in
      let img3 = record img2 { file = img2.file ++ take iov.iov_len pipe } in
      let ih =
        dump_segs-Segs iovs b.hs' (drop iov.iov_len pipe) img3
          (omega (arith, length-drop iov.iov_len pipe)) in
      record {
        hs' = ih.hs';
        img' = ih.img';
        done =
            rw
              (
                b.done,
                not_below_zero iov.iov_base,
                sub_zero iov.iov_base,
                segment_written iov b.img',
                pages_written pipe iov.iov_len img2 (omega arith),
              )
              ih.done;
        file =
            ih.file
            ∙ ap
                (λ f. (f ++ take iov.iov_len pipe) ++ take (seg_bytes iovs) (drop iov.iov_len pipe))
                b.file
            ∙ append_assoc img.file (take iov.iov_len pipe)
                (take (seg_bytes iovs) (drop iov.iov_len pipe))
            ∙ ap (◌++◌ img.file) (sym (take-add iov.iov_len (seg_bytes iovs) pipe));
        merged = λ more.
            ih.merged more
            ∙ append_assoc b.img'.entries (entry_of false iov ∷ []) (merge b.hs' (iovs ++ more))
            ∙ b.merged iov (iovs ++ more) refl;
      }

  record Bufs (pipe_of : ℕ → List ℕ) (iovs : List Iovec) (i : ℕ) (ppbs : List PagePipeBuf)
      (hs : List Iovec) (img : LocalImage) (r : Res (List Iovec × LocalImage)) : Type 0 where
    hs' : List Iovec
    img' : LocalImage
    done : r ≡ ok (hs', img')
    file : img'.file ≡ img.file ++ drained pipe_of iovs i ppbs
    merged :
        (more : List Iovec)
        → img'.entries ++ merge hs' more ≡ img.entries ++ merge hs (segs_of iovs ppbs ++ more)

  dump_bufs-Bufs :
      (pipe_of : ℕ → List ℕ) (iovs : List Iovec) (i : ℕ) (ppbs : List PagePipeBuf) (hs : List Iovec)
      (img : LocalImage)
      → AreFilled pipe_of iovs i ppbs
      → Bufs pipe_of iovs i ppbs hs img (dump_bufs xfer 0 pipe_of iovs i ppbs hs img)
  unfolding dump_bufs drained
  dump_bufs-Bufs pipe_of iovs i [] hs img f = record {
    hs' = hs;
    img' = img;
    done = refl;
    file = sym (append-nil img.file);
    merged = λ more. refl;
  }
  dump_bufs-Bufs pipe_of iovs i (ppb ∷ ppbs) hs img f =
      let part = slice iovs ppb.iov ppb.nr_segs in
      let s = dump_segs-Segs part hs (pipe_of i) img f.0 in
      let ih = dump_bufs-Bufs pipe_of iovs (i + 1) ppbs s.hs' s.img' f.1 in
      record {
        hs' = ih.hs';
        img' = ih.img';
        done = rw s.done ih.done;
        file =
            ih.file
            ∙ ap (λ l. l ++ drained pipe_of iovs (i + 1) ppbs) s.file
            ∙ append_assoc img.file (take (seg_bytes part) (pipe_of i))
                (drained pipe_of iovs (i + 1) ppbs);
        merged = λ more.
            ih.merged more
            ∙ s.merged (segs_of iovs ppbs ++ more)
            ∙ ap (λ l. img.entries ++ merge hs l)
                (sym (append_assoc part (segs_of iovs ppbs) more));
      }

  write_holes-ok :
      (hs : List Iovec) (img : LocalImage)
      → write_holes xfer hs img ≡ ok (record img { entries = img.entries ++ merge hs [] })
  unfolding write_holes merge
  write_holes-ok [] img = rw (append-nil img.entries)
  write_holes-ok (hole ∷ hs) img = rw (
    hole_written hole img,
    write_holes-ok hs (with_entry img (entry_of true hole)),
    append_assoc img.entries (entry_of true hole ∷ []) (merge hs []),
  )

  -- With auto-dedup off, with room in the images, with every pipe holding the bytes of its buffer's segments, and with
  -- no offset, `page_xfer_dump_pages` succeeds; it appends to pagemap.img the holes and the segments merged by
  -- address, each once, and to pages.img the bytes of the segments, buffer by buffer in the order in
  -- which the buffers were made.
  pub page_xfer_dump_pages-merge :
      (pipe_of : ℕ → List ℕ) (pp : PagePipe) (img : LocalImage)
      → AreFilled pipe_of pp.iovs 0 (reverse pp.bufs)
      → page_xfer_dump_pages xfer pipe_of pp 0 img
        ≡ ok (record {
          entries =
              img.entries ++ merge (take pp.free_hole pp.holes) (segs_of pp.iovs (reverse pp.bufs));
          file = img.file ++ drained pipe_of pp.iovs 0 (reverse pp.bufs);
        })
  unfolding page_xfer_dump_pages
  page_xfer_dump_pages-merge pipe_of pp img f =
      let b =
        dump_bufs-Bufs pipe_of pp.iovs 0 (reverse pp.bufs) (take pp.free_hole pp.holes) img f in
      rw (
        b.done,
        write_holes-ok b.hs' b.img',
        b.merged [],
        b.file,
        append-nil (segs_of pp.iovs (reverse pp.bufs)),
      )
