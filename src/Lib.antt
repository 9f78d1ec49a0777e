-- ===== src/Lib.antt =====
-- CRIU saves the state of running tasks in image files and restores them. This library models how the
-- memory of a task is dumped and read back, and the helpers of that path.
--
-- The dump (mem.c) walks over the memory regions of a task. For every page that is to be dumped it asks
-- whether the parent snapshot has the page already, and puts the address into a page pipe
-- (page-pipe.c), as a page or as a hole. The code that is injected into the task fills the pipes, and
-- page-xfer.c writes them out: into pagemap.img and pages.img, or through a socket to a page server,
-- which does the same on another machine. The restore reads the pages back through a chain of
-- snapshots (page-read.c) into the task's mappings (cr-restore.c), and cr-dedup.c punches out of a parent what
-- its child has itself. The restorer's arguments live in memory of rst-malloc.c, the injected code
-- logs through pie/log-simple.c, tasks exclude each other by include/lock.h, and stats.c counts.
-- Besides the memory, a dump checks the mounts of the task (mount.c), gives ids to the kernel objects that
-- tasks share (kcmp-ids.c), and saves file locks (file-lock.c) and the tree of tasks (pstree.c). The restore reads
-- the tree, prepares it, and finds a place for the restorer's code (cr-restore.c).
--
-- Files, and what they are a model of:
--   Base       machine words, lists, Boolean tests; `Res`, what a C function comes back with: a value, -1
--              or a null pointer (`err`), or a stop at a BUG_ON (`bug`, which also stands for undefined
--              behaviour and for a loop that never ends, where the definition says so)
--   Iov        struct iovec and the addresses of its pages
--   PagePipe   page-pipe.c: struct page_pipe as a record, the buffers with the last one first; the shared
--              array of iovecs is a list, and a buffer's `iov` is an index in it. Its children state the
--              invariant (Inv) and follow try_add_page (Buf, Try), page_pipe_add_page (Add) and
--              page_pipe_add_hole (Holes)
--   Pagemap    protobuf/pagemap.proto: an entry of pagemap.img
--   Mem        mem.c: the parent's map with its rover, the test of one page and generate_iovs; privately_dump_vma
--              of cr-dump.c
--   Dump       mem.c: the whole dump of a task's pages, with the parasite's commands
--   PageXfer   page-xfer.c: struct page_xfer as a record of three functions over a state, page_xfer_dump_pages,
--              and the local writers
--   PageServer page-xfer.c: the messages in bytes, the server's loop and the client's writers
--   PageRead   page-read.c: one level of a snapshot as a record of what its two files have still to give,
--              and a chain as the list of levels; Image is the reference that does not depend on a reader
--   RstMalloc  rst-malloc.c: the three memories, with addresses as numbers
--   Stats      stats.c
--   LogSimple  pie/log-simple.c
--   Lock       include/lock.h: the mutex as a step relation over all its users
--   Kcmp       kcmp-ids.c: the tree of ids; a node of rbtree.c is a node of a plain tree, and its balancing a
--              parameter. Its children follow the search (Search), the ids given (Ids), and what kcmp(2) makes
--              of it (Spine)
--   Mount      mount.c: the list of mounts, their links, the tree that they show, and the checks of a dump
--   FileLock   file-lock.c: lines of /proc/locks, entries of the image, and the system calls of the restore as
--              values; Kernel is what a lock is to the kernel
--   PsTree     pstree.c: the tree of tasks as a plain tree; a pointer to an item is the item with the levels
--              above it, and a pointer to an item that the restore has read is the chain of items up to the root, each
--              with a number for its address. Image and Siblings follow the image and what is read of it, Bounds
--              `max_pid`, and Migrate the shell job
--   PsKobj     pstree.c: the ids of shared kernel objects; a mask of clone flags is a record
--   Restore    cr-restore.c: the place for the restorer, timers, and scheduling parameters
--   RestorePages  cr-restore.c: the pages of a task are read into its private mappings, which it may share with its
--              parent; memory is a function from addresses to pages. Its children follow what pages have got
--              (Content), one entry (Run), all entries (Entries), the pages that are dropped (Drop), the search for a
--              page's mapping (Placed), and when the whole succeeds (Success)
--   Dedup      cr-dedup.c: what is punched out of the parent's pages.img is the list of calls of fallocate. Punch is
--              what a list of them covers, Loop follows dedup_one_iovec, and Entries cr_dedup_one_pagemap
--   Tests      runs on small inputs
--
-- Bounds and fuel: `unsigned long` and `u64` wrap at 2^64, `unsigned int` and `u32` at 2^32, where the
-- source computes in them; pages have 4096 bytes. page_in_parent runs on fuel of one more than the number
-- of entries that the rover has not passed, and every round passes one. recv_pages runs on fuel of the
-- number of bytes to receive, and every call of splice that makes progress takes one at least. serve_loop
-- runs on fuel of one more than the number of bytes in the socket, and every message takes 24.
-- The walk over the tasks runs on fuel of their number, and the search for the restorer's place on five more than the
-- regions behind the first ones; both are proved to be enough.
-- dedup_one_iovec runs on fuel of two more than the entries that the parent has left, and every round but the first
-- passes one. The digits of a number run on fuel of 21, and no 64-bit number has more.
--
-- Parameters: what the kernel and the C library answer (pipes, their sizes, memory, mmap, mremap,
-- splice, the task's pagemap, whether a file can be written to, madvise and the
-- page that it leaves), the parasite's answers, fallocate, and, for the local
-- writers of page-xfer.c, what auto-dedup does (dedup_one_iovec, which Dedup models on its own).
-- A theorem names what it needs of them.
--
-- Not modelled: printing of debug messages, the release of resources on error paths, the contents of
-- images after a failed dump, sockets and image files before they are opened, and the parts of the
-- program that are mostly system calls.
pub mod Base
pub mod Iov
pub mod Kcmp
pub mod Mount
pub mod FileLock
pub mod PsTree
pub mod PsKobj
pub mod Restore
pub mod RestorePages
pub mod Dedup
pub mod PagePipe
pub mod Pagemap
pub mod Mem
pub mod PageRead
pub mod PageXfer
pub mod RstMalloc
pub mod Stats
pub mod LogSimple
pub mod Lock
pub mod Dump
pub mod PageServer
pub mod Tests
