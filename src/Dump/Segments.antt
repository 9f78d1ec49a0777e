-- ===== src/Dump/Segments.antt =====
-- What the parasite is told to put into the pipes (mem.c, step 2 of __parasite_dump_pages_seized).
use mathlib.Core.List.{reverse-cons}
use crtools.Base.{
  ℕ, ◌+◌, ◌^◌, ◌<◌, ◌≡◌, refl, sym, ap, ◌∙◌, Bool, true, List, [], ◌∷◌, ◌++◌, ok, add32, slice,
  reverse, arith,
}
use crtools.Iov.{Iovec, pages}
use crtools.PagePipe.{PagePipeBuf, PagePipe}
use crtools.PagePipe.Inv.{Inv, Chain, contents}
use crtools.PageXfer.Local.{segs_of}
use crtools.PageXfer.Pages.{segs_of-Chain}
use crtools.Dump.{DumpPagesArgs, grab_pages}

-- The segments that the commands name in the array.
abbrev pub told_segs : List Iovec → List DumpPagesArgs → List Iovec
told_segs iovs [] = []
told_segs iovs (d ∷ ds) = slice iovs d.off d.nr_segs ++ told_segs iovs ds

-- Consecutive buffers, the oldest first.
abbrev Starts : ℕ → List PagePipeBuf → Type 0
Starts off [] = Unit {0}
Starts off (b ∷ bs) = (b.iov ≡ off) × (off + b.nr_segs < 2 ^ 32) × Starts (off + b.nr_segs) bs

grab_pages-told :
    (run : DumpPagesArgs → Bool) (iovs : List Iovec) (off : ℕ) (bs : List PagePipeBuf)
    → ((d : DumpPagesArgs) → run d ≡ true)
    → Starts off bs
    → (ds : List DumpPagesArgs) × (grab_pages run off bs ≡ ok ds)
      × (told_segs iovs ds ≡ segs_of iovs bs)
unfolding grab_pages
grab_pages-told run iovs off [] runs s = ([], refl, refl)
grab_pages-told run iovs off (b ∷ bs) runs s =
    let args : DumpPagesArgs = record { off = off; nr_segs = b.nr_segs; nr_pages = b.pages_in } in
    let small = s.1 in
    let word : add32 off b.nr_segs ≡ off + b.nr_segs = omega (arith, small) in
    let (ds, run', e) = grab_pages-told run iovs (off + b.nr_segs) bs runs s.2 in
    (args ∷ ds, rw (runs args, word, run') refl, rw (s.0, e) refl)

abbrev ends : ℕ → List PagePipeBuf → ℕ
ends off [] = off
ends off (b ∷ bs) = ends (off + b.nr_segs) bs

Starts-append :
    (off : ℕ) (bs : List PagePipeBuf) (b : PagePipeBuf)
    → Starts off bs
    → b.iov ≡ ends off bs
    → b.iov + b.nr_segs < 2 ^ 32
    → Starts off (bs ++ b ∷ []) × (ends off (bs ++ b ∷ []) ≡ b.iov + b.nr_segs)
Starts-append off [] b s e w = ((e, omega (arith, e, w), tt), omega (arith, e))
Starts-append off (c ∷ bs) b s e w =
    let ih = Starts-append (off + c.nr_segs) bs b s.2 e w in ((s.0, s.1, ih.0), ih.1)

-- The buffers of a valid page pipe are consecutive, whatever the array is.
Chain-Starts :
    (iovs : List Iovec) (bs : List PagePipeBuf) (e : ℕ)
    → e < 2 ^ 32
    → Chain iovs bs e
    → Starts 0 (reverse bs) × (ends 0 (reverse bs) ≡ e)
Chain-Starts iovs [] e w c = (tt, sym c)
Chain-Starts iovs (b ∷ bs) e w c =
    let f = c.0 in
    let ih = Chain-Starts iovs bs b.iov (omega (arith, f, w)) c.2 in
    let a = Starts-append 0 (reverse bs) b ih.0 (sym ih.1) (omega (arith, f, w)) in
    rw (reverse-cons b bs) (a.0, a.1 ∙ f)

-- With a parasite that does what it is told, the commands for a valid page pipe name the used part of
-- the array, segment by segment, in its order, so that the pages that it puts into the pipes are those that were added to the
-- page pipe.
pub grab_pages-contents :
    (run : DumpPagesArgs → Bool) (pp : PagePipe)
    → ((d : DumpPagesArgs) → run d ≡ true)
    → Inv pp
    → (ds : List DumpPagesArgs) × (grab_pages run 0 (reverse pp.bufs) ≡ ok ds)
      × (pages (told_segs pp.iovs ds) ≡ contents pp)
grab_pages-contents run pp runs v =
    let u = v.used in
    let w = v.word in
    let c = Chain-Starts pp.iovs pp.bufs pp.free_iov (omega (arith, u, w)) v.chain in
    let (ds, run', e) = grab_pages-told run pp.iovs 0 (reverse pp.bufs) runs c.0 in
    (ds, run', ap pages (e ∙ segs_of-Chain pp.iovs pp.bufs pp.free_iov v.chain))
