-- ===== src/Mem.antt =====
-- mem.c: which pages of a task are dumped, and which of them are left to the parent snapshot.

pub mod Rover
pub mod Generate
pub mod Pages
pub mod Regions
use crtools.Base.{
  ℕ, zero, suc, ◌+◌, ◌-◌, ◌*◌, ◌/◌, ◌%◌, ◌^◌, Bool, true, false, not, ◌&&◌, ◌||◌, List, [], ◌∷◌,
  ◌++◌, Option, none, some, ltb, leb, ◌==◌, if◌then◌else◌, Res, ok, err, bug, ◌>>=◌, ◌>>◌, or_err,
  fail_on, add64, sub64, bit, page_size, length, get_or, set, replicate,
}
use crtools.Iov.{Iovec, iov_end}
use crtools.Pagemap.{PagemapEntry, pagemap2iovec}
use crtools.PagePipe.{PagePipe, Kernel, page_pipe_add_page, page_pipe_add_hole}

-- `struct mem_snap_ctx`: the parent's pagemap, and how far the search in it has come. `iovs` is the
-- whole allocation of `alloc` elements, of which the first `nr_iovs` are set.
pub record MemSnapCtx : Type 0 where
  pub nr_iovs : ℕ
  pub iovs : List Iovec
  pub alloc : ℕ
  pub rover : ℕ

-- MEM_SNAP_BATCH
abbrev pub mem_snap_batch : ℕ
mem_snap_batch = 64

-- The fields of `VmaEntry` that the dump reads.
pub record VmaEntry : Type 0 where
  pub start : ℕ
  pub «end» : ℕ
  pub prot : ℕ
  pub status : ℕ

-- VMA_AREA_REGULAR, …: bits of `status`; PME_PRESENT, …: bits of an entry of /proc/pid/pagemap.
abbrev vma_area_regular : ℕ
vma_area_regular = 0

abbrev vma_area_vdso : ℕ
vma_area_vdso = 3

abbrev vma_file_private : ℕ
vma_file_private = 6

abbrev vma_file_shared : ℕ
vma_file_shared = 7

abbrev vma_anon_shared : ℕ
vma_anon_shared = 8

abbrev vma_anon_private : ℕ
vma_anon_private = 9

abbrev vma_area_sysvipc : ℕ
vma_area_sysvipc = 10

abbrev pub pme_present : ℕ
pme_present = 63

abbrev pub pme_swap : ℕ
pme_swap = 62

abbrev pub pme_file : ℕ
pme_file = 61

abbrev pub pme_soft_dirty : ℕ
pme_soft_dirty = 55

pub vma_area_len : VmaEntry → ℕ
vma_area_len vma = sub64 vma.end vma.start

pub privately_dump_vma : ℕ → VmaEntry → Bool
privately_dump_vma task_size vma =
    if not (bit vma.status vma_area_regular)
    then false
    else if bit vma.status vma_file_shared
    then false
    else if bit vma.status vma_area_sysvipc
    then false
    else if bit vma.status vma_anon_shared
    then false
    else if not (bit vma.status vma_anon_private) && not (bit vma.status vma_file_private)
    then false
    else if ltb task_size vma.end
    then false
    else true

pub should_dump_page : VmaEntry → ℕ → Bool
should_dump_page vmae pme =
    if bit vmae.status vma_area_vdso
    then true
    else if bit vmae.status vma_file_private && bit pme pme_file
    then false
    else if bit pme pme_present || bit pme pme_swap
    then true
    else false

module _ (fresh : Iovec) where
  -- The loop of `mem_snap_init` over the entries of the parent's pagemap; `more n` says whether
  -- `xrealloc` to `n` elements succeeds.
  pub collect_snap : (ℕ → Bool) → MemSnapCtx → List PagemapEntry → Res MemSnapCtx
  collect_snap more ctx [] = ok ctx
  collect_snap more ctx (pe ∷ pes) =
      let rest =
        collect_snap more
          (record ctx {
            iovs = set ctx.iovs ctx.nr_iovs (pagemap2iovec pe);
            nr_iovs = ctx.nr_iovs + 1;
          })
          pes in
      let rest_grown =
        collect_snap more
          (record ctx {
            iovs = set ctx.iovs ctx.nr_iovs (pagemap2iovec pe) ++ replicate mem_snap_batch fresh;
            nr_iovs = ctx.nr_iovs + 1;
            alloc = ctx.alloc + mem_snap_batch;
          })
          pes in
      if leb ctx.alloc (ctx.nr_iovs + 1)
      then (if more (ctx.alloc + mem_snap_batch) then rest_grown else err)
      else rest

  -- `image` is what opening and reading the parent's pagemap-<pid>.img gave: an error, no image (or no
  -- parent at all), or its entries. `none` is the null pointer: nothing is in the parent.
  pub mem_snap_init : (ℕ → Bool) → Res (Option (List PagemapEntry)) → Res (Option MemSnapCtx)
  unfolding collect_snap
  mem_snap_init more image = do
    found ← image
    elim found [
      | none ↦ ok none
      | some pes ↦ do
        fail_on (not (more mem_snap_batch))
        ctx ←
            collect_snap more
              (record {
                nr_iovs = 0;
                alloc = mem_snap_batch;
                rover = 0;
                iovs = replicate mem_snap_batch fresh;
              })
              pes
        ok (some ctx)
    ]

  -- The loop of `page_in_parent`, on fuel; each round that goes on moves the rover below `nr_iovs`.
  unfoldable pub rove : ℕ → ℕ → MemSnapCtx → Bool × MemSnapCtx
  rove zero vaddr snap = (false, snap)
  rove (suc n) vaddr snap =
      let rest = rove n vaddr (record snap { rover = snap.rover + 1 }) in
      if ltb vaddr (get_or snap.iovs snap.rover fresh).iov_base
      then (false, snap)
      else if ltb vaddr (iov_end (get_or snap.iovs snap.rover fresh))
      then (true, snap)
      else if leb snap.nr_iovs (snap.rover + 1)
      then (false, record snap { rover = snap.rover + 1 })
      else rest

  unfoldable pub page_in_parent : ℕ → ℕ → MemSnapCtx → Bool × MemSnapCtx
  unfolding rove
  page_in_parent vaddr pme snap =
      if bit pme pme_soft_dirty
      then (false, snap)
      else rove (suc (snap.nr_iovs - snap.rover)) vaddr snap

-- `snap && page_in_parent(...)`
pub in_parent : Iovec → ℕ → ℕ → Option MemSnapCtx → Bool × Option MemSnapCtx
in_parent fresh vaddr pme none = (false, none)
in_parent fresh vaddr pme (some snap) =
    let (found, snap') = page_in_parent fresh vaddr pme snap in (found, some snap')

-- What `generate_iovs` changes: the page pipe, the search in the parent, and `pages[0]`, `pages[1]`.
pub record Scan : Type 0 where
  pub pp : PagePipe
  pub snap : Option MemSnapCtx
  pub skipped : ℕ
  pub written : ℕ

-- The counters of stats.c that the dump of memory adds to.
pub record PageCounts : Type 0 where
  pub pages_scanned : ℕ
  pub pages_skipped_parent : ℕ
  pub pages_written : ℕ

module _ (k : Kernel) where
  -- The body of the loop of `generate_iovs`.
  pub scan_page : VmaEntry → ℕ → ℕ → Scan → Res Scan
  unfolding in_parent
  scan_page vma vaddr pme s =
      if not (should_dump_page vma pme)
      then ok s
      else (let (parent, snap') = in_parent k.fresh vaddr pme s.snap in
          if parent
          then (do
            pp' ← page_pipe_add_hole k s.pp vaddr
            ok (record s { pp = pp'; snap = snap'; skipped = add64 s.skipped 1 }))
          else (do
            pp' ← page_pipe_add_page k s.pp vaddr
            ok (record s { pp = pp'; snap = snap'; written = add64 s.written 1 })))

  -- The loop from `pfn` on; the list is `map[pfn]`, `map[pfn + 1]`, ….
  pub scan_pages : VmaEntry → ℕ → List ℕ → Scan → Res Scan
  scan_pages vma pfn [] s = ok s
  scan_pages vma pfn (pme ∷ pmes) s =
      scan_page vma (add64 vma.start (pfn * page_size)) pme s >>= scan_pages vma (pfn + 1) pmes

  -- `read_map pfn n` is what `lseek` and `read` give of /proc/<pid>/pagemap: `n` entries from `pfn` on,
  -- or `none`.
  pub generate_iovs :
      (ℕ → ℕ → Option (List ℕ))
      → VmaEntry
      → PagePipe
      → Option MemSnapCtx
      → PageCounts
      → Res (PagePipe × Option MemSnapCtx × PageCounts)
  unfolding scan_pages scan_page
  generate_iovs read_map vma pp snap counts = do
    pmes ← or_err (read_map (vma.start / page_size) (vma_area_len vma / page_size))
    s ← scan_pages vma 0 pmes (record { pp = pp; snap = snap; skipped = 0; written = 0 })
    ok (
      s.pp,
      s.snap,
      record {
        pages_scanned = add64 counts.pages_scanned (vma_area_len vma / page_size);
        pages_skipped_parent = add64 counts.pages_skipped_parent s.skipped;
        pages_written = add64 counts.pages_written s.written;
      },
    )
