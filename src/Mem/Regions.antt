-- ===== src/Mem/Regions.antt =====
-- generate_iovs of mem.c on one memory region.
use crtools.Base.{
  ℕ, ◌+◌, ◌*◌, ◌/◌, ◌<◌, ◌≡◌, false, List, ◌++◌, Option, none, some, Res, ok, err, bug, arith,
  add64, page_size, length,
}
use crtools.PagePipe.{PagePipe, Kernel, IsDocumented}
use crtools.PagePipe.Inv.{Inv, contents}
use crtools.PagePipe.Holes.{HolesInv, hole_pages}
use crtools.Mem.{MemSnapCtx, VmaEntry, Scan, PageCounts, scan_pages, generate_iovs, vma_area_len}
use crtools.Mem.Generate.{IsFit, map_of, addrs_where, is_page, is_hole, AllTracked, IsReady}
use crtools.Mem.Pages.{ScanResult, scanned, scan_pages-ScanResult}
use crtools.Mem.Pages

abbrev pub start_scan : PagePipe → Option MemSnapCtx → Scan
start_scan pp snap = record { pp = pp; snap = snap; skipped = 0; written = 0 }

-- The addresses of `pmes`, a region's entries of /proc/<pid>/pagemap, that are dumped as pages, and
-- those that are left to the parent.
abbrev pub new_pages : VmaEntry → Option MemSnapCtx → List ℕ → List ℕ
new_pages vma snap pmes = addrs_where (is_page vma (map_of snap)) vma.start pmes

abbrev pub old_pages : VmaEntry → Option MemSnapCtx → List ℕ → List ℕ
old_pages vma snap pmes = addrs_where (is_hole vma (map_of snap)) vma.start pmes

module _ (k : Kernel) (vma : VmaEntry) (pp : PagePipe) (snap : Option MemSnapCtx)
    (counts : PageCounts) (pmes : List ℕ) where
  pub record Generated (out : PagePipe × Option MemSnapCtx × PageCounts) : Type 0 where
    pub pipe : Inv out.0
    pub holes : HolesInv out.0
    pub fit : IsFit out.1 (vma.start + length pmes * page_size)
    pub map : map_of out.1 ≡ map_of snap
    pub pages : contents out.0 ≡ contents pp ++ new_pages vma snap pmes
    pub lefts : hole_pages out.0 ≡ hole_pages pp ++ old_pages vma snap pmes
    pub written :
        out.2.pages_written ≡ add64 counts.pages_written (length (new_pages vma snap pmes))
    pub skipped :
        out.2.pages_skipped_parent
        ≡ add64 counts.pages_skipped_parent (length (old_pages vma snap pmes))

  pub data GenerateResult (r : Res (PagePipe × Option MemSnapCtx × PageCounts)) : Type 0 where
    generated :
        (out : PagePipe × Option MemSnapCtx × PageCounts)
        → r ≡ ok out
        → Generated out
        → GenerateResult r
    no_pipe : (i : ℕ) → r ≡ err → k.new_pipe i ≡ none → GenerateResult r
    no_memory : (i : ℕ) → r ≡ err → k.grow_holes i ≡ false → GenerateResult r
    no_iov :
        r ≡ bug → pp.nr_iovs < pp.free_iov + length (new_pages vma snap pmes) → GenerateResult r

  -- Take a region whose entries of /proc/<pid>/pagemap are `pmes` and that ends below 2^64, a page pipe and holes that
  -- satisfy their invariants, and a kernel that keeps its documentation. If there is a parent, let the rover be at an
  -- entry of its pagemap, the entries from there on ascend without overlapping, no address from the region's begin on
  -- be in an entry that the rover has passed (so that the rover has not come past the last one), and each clean page
  -- of the region that is to be dumped be in an entry. Let the array of holes have room to grow for the region's pages below 2^32 elements.
  -- Then `generate_iovs` puts into the pipe, in order,
  -- exactly the pages to be dumped that are soft-dirty or have no parent, and into the holes exactly
  -- the others that are to be dumped, counts both, and leaves pipe, holes and rover fit for the next region; or it fails
  -- because a pipe or memory could
  -- not be had, or stops at a BUG_ON because the array has fewer free elements than there are pages.
  pub generate_iovs-GenerateResult :
      (doc : IsDocumented k) (read_map : ℕ → ℕ → Option (List ℕ))
      → read_map (vma.start / page_size) (vma_area_len vma / page_size) ≡ some pmes
      → IsReady vma (map_of snap) (start_scan pp snap) vma.start (length pmes)
      → AllTracked vma (map_of snap) vma.start pmes
      → GenerateResult (generate_iovs k read_map vma pp snap counts)
  unfolding generate_iovs
  generate_iovs-GenerateResult doc read_map e v t = elim result [
    | scanned s r sc ↦
        generated (s.pp, s.snap, counted s) (rw (e, r))
          (record {
            pipe = sc.ready.pipe;
            holes = sc.ready.holes;
            fit = sc.ready.fit;
            map = sc.ready.map;
            pages = sc.pages;
            lefts = sc.lefts;
            written = omega (arith, sc.written);
            skipped = omega (arith, sc.skipped);
          })
    | Pages.no_pipe i r f ↦ no_pipe i (rw (e, r)) f
    | Pages.no_memory i r f ↦ no_memory i (rw (e, r)) f
    | Pages.no_iov r l ↦ no_iov (rw (e, r)) l
  ]
    where
      counted : Scan → PageCounts
      counted s = record {
        pages_scanned = add64 counts.pages_scanned (vma_area_len vma / page_size);
        pages_skipped_parent = add64 counts.pages_skipped_parent s.skipped;
        pages_written = add64 counts.pages_written s.written;
      }

      result :
          ScanResult k doc vma
            (map_of snap)
            (start_scan pp snap)
            vma.start
            pmes
            0
            (scan_pages k vma 0 pmes (start_scan pp snap))
      result =
          scan_pages-ScanResult k doc vma (map_of snap) pmes 0 0 vma.start (start_scan pp snap)
            (let same : length pmes + 0 ≡ length pmes = omega arith in rw same v) t (omega arith)
