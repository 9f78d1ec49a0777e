-- ===== src/Pagemap.antt =====
-- PagemapEntry (protobuf/pagemap.proto), an entry of pagemap.img, and `pagemap2iovec` of page-read.c.
use crtools.Base.{ℕ, ◌*◌, ◌%◌, ◌^◌, Bool, page_size}
use crtools.Iov.{Iovec}

pub record PagemapEntry : Type 0 where
  pub vaddr : ℕ
  pub nr_pages : ℕ
  pub in_parent : Bool

abbrev pub pagemap2iovec : PagemapEntry → Iovec
pagemap2iovec pe = record { iov_base = pe.vaddr; iov_len = pe.nr_pages * page_size % 2 ^ 64 }
