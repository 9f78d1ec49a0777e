-- ===== src/Tests/Pipes.antt =====
-- The page pipe (page-pipe.c), the scan of memory (mem.c) and what the parasite is told, on one page pipe.
use crtools.Base.{
  ℕ, ◌+◌, ◌^◌, ◌≤◌, ◌≡◌, refl, true, false, List, [], ◌∷◌, none, some, ok, err, ◌⊎◌, ◌&&◌, not, bit,
  reverse, arith,
}
use crtools.Iov.{pages}
use crtools.PagePipe.{PagePipe, Kernel, IsDocumented, page_pipe_add_page, page_pipe_add_hole}
use crtools.PagePipe.Inv.{Inv, contents}
use crtools.PagePipe.Add.{AddResult, page_pipe_add_page-AddResult}
use crtools.PagePipe.{create_page_pipe}
use crtools.PagePipe.Create.{Created, create_page_pipe-Created}
use crtools.PagePipe.Holes.{HolesInv, AddsHole, page_pipe_add_hole-AddsHole}
use crtools.Mem.{
  rove, MemSnapCtx, VmaEntry, PageCounts, page_in_parent, generate_iovs, pme_soft_dirty,
}
use crtools.Mem.Rover.{Searching, covers, entries, page_in_parent-covers}
use crtools.Mem.Regions.{GenerateResult, generate_iovs-GenerateResult}
use crtools.Dump.{DumpPagesArgs, grab_pages}
use crtools.Dump.Segments.{told_segs, grab_pages-contents}

abbrev kernel : Kernel
kernel = record {
  new_page_pipe = true;
  new_pipe = λ n. some 65536;
  set_pipe_sz = λ n want. none;
  grow_holes = λ n. true;
  fresh = record { iov_base = 0; iov_len = 0 };
}

kernel-IsDocumented : IsDocumented kernel
kernel-IsDocumented = record {
  holds_page = λ n size e. let s : 65536 ≡ size = cc in omega (arith, s);
  sets_size = λ n want size e. absurd cc;
  new_int = λ n size e. let s : 65536 ≡ size = cc in omega (arith, s);
  set_int = λ n want size e. absurd cc;
}

-- One page at 0x1000, and room for one more segment.
abbrev one_page_pipe : PagePipe
one_page_pipe = record {
  nr_pipes = 1;
  bufs = record { pipe_size = 16; pages_in = 1; nr_segs = 1; iov = 0 } ∷ [];
  nr_iovs = 2;
  free_iov = 1;
  iovs = record { iov_base = 4096; iov_len = 4096 } ∷ record { iov_base = 0; iov_len = 0 } ∷ [];
  nr_holes = 0;
  free_hole = 0;
  holes = [];
}

one_page_pipe-Inv : Inv one_page_pipe
one_page_pipe-Inv = record {
  started = omega arith;
  room = omega arith;
  word = omega arith;
  used = omega arith;
  chain = (
    refl,
    record {
      segs = omega arith;
      holds = omega arith;
      fits = omega arith;
      small = omega arith;
      counted = refl;
    },
    refl,
  );
  paged = (record { whole = refl; inside = omega arith }, tt);
}

no_holes-HolesInv : HolesInv one_page_pipe
no_holes-HolesInv = record { room = omega arith; used = omega arith; paged = tt }

page_pipe_add_page-AddResult_example :
    AddResult kernel kernel-IsDocumented one_page_pipe 8192
      (page_pipe_add_page kernel one_page_pipe 8192)
page_pipe_add_page-AddResult_example =
    page_pipe_add_page-AddResult kernel kernel-IsDocumented one_page_pipe 8192 one_page_pipe-Inv
      (omega arith)

page_pipe_add_hole-AddsHole_example :
    ((pp' : PagePipe) × (page_pipe_add_hole kernel one_page_pipe 8192 ≡ ok pp')
      × AddsHole one_page_pipe 8192 pp')
    ⊎ ((page_pipe_add_hole kernel one_page_pipe 8192 ≡ err)
        × (one_page_pipe.free_hole ≡ one_page_pipe.nr_holes)
        × (true ≡ false))
page_pipe_add_hole-AddsHole_example =
    page_pipe_add_hole-AddsHole kernel one_page_pipe 8192 no_holes-HolesInv (omega arith)
      (omega arith)

-- A parent with the pages at 0x1000 and 0x2000.
abbrev parent : MemSnapCtx
parent = record {
  nr_iovs = 1;
  iovs = record { iov_base = 4096; iov_len = 8192 } ∷ [];
  alloc = 64;
  rover = 0;
}

parent-Searching : Searching parent 4096
parent-Searching = record {
  inside = omega arith;
  room = omega arith;
  sorted = (omega arith, omega arith, tt);
  passed = λ w h. refl;
}

page_in_parent-covers_example :
    ((page_in_parent kernel.fresh 8192 0 parent).0
      ≡ (not (bit 0 pme_soft_dirty) && covers (entries parent) 8192))
    × ((page_in_parent kernel.fresh 8192 0 parent).1.iovs ≡ parent.iovs)
    × ((page_in_parent kernel.fresh 8192 0 parent).1.nr_iovs ≡ 1)
    × (Searching (page_in_parent kernel.fresh 8192 0 parent).1 8192
        ⊎ ((bit 0 pme_soft_dirty ≡ false)
            × ((page_in_parent kernel.fresh 8192 0 parent).0 ≡ false)
            × (1 ≤ (page_in_parent kernel.fresh 8192 0 parent).1.rover)))
page_in_parent-covers_example = page_in_parent-covers kernel.fresh 8192 0 parent (record {
  inside = omega arith;
  room = omega arith;
  sorted = (omega arith, omega arith, tt);
  passed = λ w h. refl;
})

-- Behind its only entry.
abbrev passed_parent : MemSnapCtx
passed_parent = record {
  nr_iovs = 1;
  iovs =
      record { iov_base = 4096; iov_len = 8192 } ∷ record { iov_base = 65536; iov_len = 4096 } ∷ [];
  alloc = 64;
  rover = 1;
}

-- A clean page above all entries is taken for one of the parent's, by what stands behind them.
taken_behind : page_in_parent kernel.fresh 65536 0 passed_parent ≡ (true, passed_parent)
unfolding page_in_parent rove
taken_behind = refl

-- A private anonymous region of two pages: a clean one that the parent has, and a dirty one.
abbrev vma : VmaEntry
vma = record { start = 4096; «end» = 12288; prot = 3; status = 513 }

abbrev pmes : List ℕ
pmes = 2 ^ 63 ∷ (2 ^ 63 + 2 ^ 55) ∷ []

abbrev no_counts : PageCounts
no_counts = record { pages_scanned = 0; pages_skipped_parent = 0; pages_written = 0 }

generate_iovs-GenerateResult_example :
    GenerateResult kernel vma one_page_pipe
      (some parent)
      no_counts
      pmes
      (generate_iovs kernel (λ pfn n. some pmes) vma one_page_pipe (some parent) no_counts)
generate_iovs-GenerateResult_example =
    generate_iovs-GenerateResult kernel vma one_page_pipe (some parent) no_counts pmes
      kernel-IsDocumented (λ pfn n. some pmes) refl
      (record {
        pipe = one_page_pipe-Inv;
        holes = no_holes-HolesInv;
        fit = parent-Searching;
        map = refl;
        low = omega arith;
        hole_room = omega arith;
        counts = (omega arith, omega arith);
      })
      (λ d clean. refl, (λ d clean. refl, tt))

grab_pages-contents_example :
    (ds : List DumpPagesArgs) × (grab_pages (λ d. true) 0 (reverse one_page_pipe.bufs) ≡ ok ds)
    × (pages (told_segs one_page_pipe.iovs ds) ≡ contents one_page_pipe)
grab_pages-contents_example =
    grab_pages-contents (λ d. true) one_page_pipe (λ d. refl) one_page_pipe-Inv

create_page_pipe-Created_example :
    ((pp : PagePipe) × (create_page_pipe kernel 2 one_page_pipe.iovs ≡ ok pp) × Created pp)
    ⊎ ((create_page_pipe kernel 2 one_page_pipe.iovs ≡ err)
        × ((true ≡ false) ⊎ (kernel.new_pipe 0 ≡ none)))
create_page_pipe-Created_example =
    create_page_pipe-Created kernel kernel-IsDocumented 2 one_page_pipe.iovs (omega arith)
      (omega arith)
