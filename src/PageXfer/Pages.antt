-- ===== src/PageXfer/Pages.antt =====
-- What a local dump (page-xfer.c) of a page pipe (page-pipe.c) records in pagemap.img.
use mathlib.Core.List.{reverse-cons}
use crtools.Base.{
  ℕ, ◌/◌, ◌^◌, ◌<◌, ◌≡◌, refl, sym, ap, ap₂, subst, ◌∙◌, Bool, true, false, List, [], ◌∷◌, ◌++◌,
  none, ok, Bool-cases, inl, inr, ltb, if◌then◌else◌, page_size, take, take-add, slice, All,
  reverse, append_assoc, append-nil, arith,
}
use crtools.Iov.{Iovec, page_run, iov_pages, pages}
use crtools.Pagemap.{PagemapEntry}
use crtools.PagePipe.{PagePipe, PagePipeBuf}
use crtools.PagePipe.Inv.{Inv, Chain, contents}
use crtools.PagePipe.Holes.{hole_pages}
use crtools.PageXfer.{LocalImage, entry_of, page_local_xfer, page_xfer_dump_pages}
use crtools.PageXfer.Local.{
  merge, merge_hole, merge_segment, segs_of, AreFilled, page_xfer_dump_pages-merge,
}

-- The addresses of the pages of the entries with the given `in_parent`.
abbrev pub pages_with : Bool → List PagemapEntry → List ℕ
pages_with true [] = []
pages_with false [] = []
pages_with true (e ∷ es) =
    (if e.in_parent then page_run e.vaddr e.nr_pages else []) ++ pages_with true es
pages_with false (e ∷ es) =
    (if e.in_parent then [] else page_run e.vaddr e.nr_pages) ++ pages_with false es

-- A segment whose count of pages fits the `uint32` of the image.
abbrev pub IsShort : Iovec → Type 0
IsShort iov = iov.iov_len / page_size < 2 ^ 32

entry_pages :
    (hole : Bool) (iov : Iovec)
    → IsShort iov
    → page_run (entry_of hole iov).vaddr (entry_of hole iov).nr_pages ≡ iov_pages iov
entry_pages hole iov h = ap (page_run iov.iov_base) (omega arith)

merge-pages :
    (hs iovs : List Iovec)
    → All IsShort hs
    → All IsShort iovs
    → (pages_with false (merge hs iovs) ≡ pages iovs) × (pages_with true (merge hs iovs) ≡ pages hs)
unfolding merge
merge-pages [] [] p q = (refl, refl)
merge-pages [] (iov ∷ iovs) p q =
    let ih = merge-pages [] iovs p q.1 in (ap₂ ◌++◌ (entry_pages false iov q.0) ih.0, ih.1)
merge-pages (hole ∷ hs) [] p q =
    let ih = merge-pages hs [] p.1 q in (ih.0, ap₂ ◌++◌ (entry_pages true hole p.0) ih.1)
merge-pages (hole ∷ hs) (iov ∷ iovs) p q = elim (Bool-cases (ltb hole.iov_base iov.iov_base)) [
  | inl lower ↦
      let ih = merge-pages hs (iov ∷ iovs) p.1 q in
      rw (merge_hole hole hs iov iovs lower) (ih.0, ap₂ ◌++◌ (entry_pages true hole p.0) ih.1)
  | inr not_lower ↦
      let ih = merge-pages (hole ∷ hs) iovs p q.1 in
      rw (merge_segment hole hs iov iovs not_lower)
        (ap₂ ◌++◌ (entry_pages false iov q.0) ih.0, ih.1)
]

segs_of-append :
    (iovs : List Iovec) (bs cs : List PagePipeBuf)
    → segs_of iovs (bs ++ cs) ≡ segs_of iovs bs ++ segs_of iovs cs
segs_of-append iovs [] cs = refl
segs_of-append iovs (b ∷ bs) cs =
    ap (◌++◌ (slice iovs b.iov b.nr_segs)) (segs_of-append iovs bs cs)
    ∙ sym (append_assoc (slice iovs b.iov b.nr_segs) (segs_of iovs bs) (segs_of iovs cs))

-- The buffers of a valid page pipe, oldest first, have the used part of the array in its order.
pub segs_of-Chain :
    (iovs : List Iovec) (bs : List PagePipeBuf) (e : ℕ)
    → Chain iovs bs e
    → segs_of iovs (reverse bs) ≡ take e iovs
segs_of-Chain iovs [] e c = rw c
segs_of-Chain iovs (b ∷ bs) e c =
    rw
      (
        reverse-cons b bs,
        segs_of-append iovs (reverse bs) (b ∷ []),
        segs_of-Chain iovs bs b.iov c.2,
        append-nil (slice iovs b.iov b.nr_segs),
        ← c.0,
      )
      (sym (take-add b.iov b.nr_segs iovs))

-- If auto-dedup is off, the images have room, every pipe holds the bytes of its segments, and no segment and no hole
-- has 2^32 pages or more, then a dump of a valid page pipe into fresh images succeeds, and pagemap.img
-- records as present exactly the pages that were added to the pipe, and as in the parent exactly the
-- holes, both in the order in which they were added.
pub page_xfer_dump_pages-pages_with :
    (room : LocalImage → Bool) (pipe_of : ℕ → List ℕ) (pp : PagePipe)
    → ((img : LocalImage) → room img ≡ true)
    → Inv pp
    → All IsShort (take pp.free_iov pp.iovs)
    → All IsShort (take pp.free_hole pp.holes)
    → AreFilled pipe_of pp.iovs 0 (reverse pp.bufs)
    → (img : LocalImage) × (page_xfer_dump_pages
          (page_local_xfer none room)
          pipe_of
          pp
          0
          (record { entries = []; file = [] })
        ≡ ok img)
      × (pages_with false img.entries ≡ contents pp)
      × (pages_with true img.entries ≡ hole_pages pp)
page_xfer_dump_pages-pages_with room pipe_of pp roomy v p q f =
    let run =
      page_xfer_dump_pages-merge room roomy pipe_of pp (record { entries = []; file = [] }) f in
    let segs = segs_of-Chain pp.iovs pp.bufs pp.free_iov v.chain in
    let m =
      merge-pages (take pp.free_hole pp.holes) (segs_of pp.iovs (reverse pp.bufs)) q
        (subst (All IsShort) (sym segs) p) in
    (_, run, m.0 ∙ ap pages segs, m.1)
