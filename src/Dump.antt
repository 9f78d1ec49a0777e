-- ===== src/Dump.antt =====
-- The dump of a task's memory (mem.c: dump_pages_args_size, prep_dump_pages_args,
-- __parasite_dump_pages_seized, parasite_dump_pages_seized): page pipe, parasite and images together.
pub mod Segments
use crtools.Base.{
  ℕ, ◌+◌, ◌-◌, ◌*◌, ◌/◌, ◌%◌, ◌^◌, Bool, true, false, not, List, [], ◌∷◌, ◌++◌, Option, none, some,
  Res, ok, err, bug, ◌>>=◌, ◌>>◌, fail_on, or_err, add32, bit, if◌then◌else◌, length, reverse,
}
use crtools.Iov.{Iovec}
use crtools.Pagemap.{PagemapEntry}
use crtools.PagePipe.{PagePipeBuf, PagePipe, Kernel, create_page_pipe}
use crtools.Mem.{
  MemSnapCtx, VmaEntry, PageCounts, vma_area_len, privately_dump_vma, mem_snap_init, generate_iovs,
}
use crtools.PageXfer.{PageXfer, page_xfer_dump_pages}

-- `struct parasite_vma_entry`
pub record ParasiteVmaEntry : Type 0 where
  pub start : ℕ
  pub len : ℕ
  pub prot : ℕ

-- `off`, `nr_segs` and `nr_pages` of `struct parasite_dump_pages_args`, as one PARASITE_CMD_DUMPPAGES
-- finds them.
pub record DumpPagesArgs : Type 0 where
  pub off : ℕ
  pub nr_segs : ℕ
  pub nr_pages : ℕ

-- `dump_pages_args_size`, with the sizes of the three structures.
unfoldable pub dump_pages_args_size : (args_size vma_size iovec_size : ℕ) → (nr priv_size : ℕ) → ℕ
dump_pages_args_size args_size vma_size iovec_size nr priv_size =
    (args_size + nr * vma_size + (priv_size + 1) * iovec_size / 2) % 2 ^ 32

-- The regions that the parasite makes readable for the dump. PROT_READ is 1.
unfoldable pub prep_dump_pages_args : ℕ → List VmaEntry → List ParasiteVmaEntry
prep_dump_pages_args task_size [] = []
prep_dump_pages_args task_size (vma ∷ vmas) =
    let rest = prep_dump_pages_args task_size vmas in
    if not (privately_dump_vma task_size vma)
    then rest
    else if bit vma.prot 0
    then rest
    else record { start = vma.start; len = vma_area_len vma; prot = vma.prot } ∷ rest

module _ (k : Kernel) where
  -- Step 1: the page pipe of all regions.
  unfoldable pub collect_pages :
      (task_size : ℕ)
      → (ℕ → ℕ → Option (List ℕ))
      → List VmaEntry
      → PagePipe
      → Option MemSnapCtx
      → PageCounts
      → Res (PagePipe × Option MemSnapCtx × PageCounts)
  collect_pages task_size read_map [] pp snap counts = ok (pp, snap, counts)
  collect_pages task_size read_map (vma ∷ vmas) pp snap counts =
      if not (privately_dump_vma task_size vma)
      then collect_pages task_size read_map vmas pp snap counts
      else generate_iovs k read_map vma pp snap counts >>= λ r.
          collect_pages task_size read_map vmas r.0 r.1 r.2

-- Step 2: what the parasite is told, buffer by buffer from `off` on; `run` says whether it could be
-- told and did it.
unfoldable pub grab_pages : (DumpPagesArgs → Bool) → ℕ → List PagePipeBuf → Res (List DumpPagesArgs)
grab_pages run off [] = ok []
grab_pages run off (ppb ∷ ppbs) =
    let args : DumpPagesArgs = record {
      off = off;
      nr_segs = ppb.nr_segs;
      nr_pages = ppb.pages_in;
    } in
    do
      fail_on (not (run args))
      told ← grab_pages run (add32 off ppb.nr_segs) ppbs
      ok (args ∷ told)

-- What the dump finds around it: the size of the address space, the parent's pagemap, whether memory for `map` and the
-- file of the task's pagemap can be had, the task's pagemap, the parasite's two
-- commands, whether the soft-dirty bits can be reset, and the bytes that the parasite puts into pipes.
pub record DumpEnv : Type 0 where
  pub task_size : ℕ
  pub more : ℕ → Bool
  pub parent_map : Res (Option (List PagemapEntry))
  pub has_map : Bool
  pub has_pagemap : Bool
  pub read_map : ℕ → ℕ → Option (List ℕ)
  pub dump_pages : DumpPagesArgs → Bool
  pub mprotect_vmas : (add_prot : Bool) → List ParasiteVmaEntry → Bool
  pub reset_dirty : Bool
  pub pipe_of : ℕ → List ℕ

-- The dump, with the writers of an opened `page_xfer` or, for a pre-dump, none: then the page pipe is
-- kept for later. The clean-up of an error path is left out, since nothing of it outlives the call.
unfoldable pub dump_pages_seized :
    {S : Type 0}
    → Kernel
    → DumpEnv
    → List VmaEntry
    → (priv_size : ℕ) → (iovs : List Iovec) → Option (PageXfer S)
    → S
    → PageCounts
    → Res (Option PagePipe × S × PageCounts)
unfolding collect_pages grab_pages
dump_pages_seized k env vmas priv_size iovs xfer s counts = do
  snap ← mem_snap_init k.fresh env.more env.parent_map
  fail_on (not env.has_map)
  fail_on (not env.has_pagemap)
  pp0 ← create_page_pipe k (priv_size / 2) iovs
  (pp, snap', counts') ← collect_pages k env.task_size env.read_map vmas pp0 snap counts
  told ← grab_pages env.dump_pages 0 (reverse pp.bufs)
  elim xfer [
    | none ↦ fail_on (not env.reset_dirty) >> ok (some pp, s, counts')
    | some x ↦ do
      s' ← page_xfer_dump_pages x env.pipe_of pp 0 s
      fail_on (not env.reset_dirty)
      ok (none, s', counts')
  ]

-- The regions are made readable, dumped, and protected again, which a failed dump leaves out here.
unfoldable pub parasite_dump_pages_seized :
    {S : Type 0}
    → Kernel
    → DumpEnv
    → List VmaEntry
    → (priv_size : ℕ) → (iovs : List Iovec) → Option (PageXfer S)
    → S
    → PageCounts
    → Res (Option PagePipe × S × PageCounts)
unfolding dump_pages_seized prep_dump_pages_args
parasite_dump_pages_seized k env vmas priv_size iovs xfer s counts =
    let pargs = prep_dump_pages_args env.task_size vmas in
    do
      fail_on (not (env.mprotect_vmas true pargs))
      r ← dump_pages_seized k env vmas priv_size iovs xfer s counts
      fail_on (not (env.mprotect_vmas false pargs))
      ok r
