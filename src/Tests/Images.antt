-- ===== src/Tests/Images.antt =====
-- Reading a chain of snapshots (page-read.c) and writing one, locally and through the page server
-- (page-xfer.c), on small images.
use crtools.Base.{
  ℕ, ◌≡◌, refl, Bool, true, false, List, [], ◌∷◌, ◌++◌, Option, none, some, ok, replicate, take,
  reverse, min, length-replicate, arith,
}
use crtools.PagePipe.{PagePipe}
use crtools.PagePipe.Inv.{Inv, contents}
use crtools.PagePipe.Holes.{hole_pages}
use crtools.PageRead.Image.{Image, IsWhole}
use crtools.PageRead.Read.{Read}
use crtools.PageRead.Pass.{AllWhole}
use crtools.PageXfer.{LocalImage, page_local_xfer, page_xfer_dump_pages}
use crtools.PageXfer.Local.{merge, segs_of, drained, AreFilled, page_xfer_dump_pages-merge}
use crtools.PageXfer.Pages.{pages_with, page_xfer_dump_pages-pages_with}

-- A snapshot with its own page at 0x1000 and one at 0x2000 that is in the parent, and the parent.
abbrev pub child_image : Image
child_image = record {
  entries =
      record { vaddr = 4096; nr_pages = 1; in_parent = false }
      ∷ record { vaddr = 8192; nr_pages = 1; in_parent = true }
      ∷ [];
  file = replicate 4096 1;
}

abbrev pub parent_image : Image
parent_image = record {
  entries = record { vaddr = 4096; nr_pages = 2; in_parent = false } ∷ [];
  file = replicate 8192 2;
}

pub child_image-IsWhole : IsWhole true child_image
child_image-IsWhole = record {
  sorted = (omega arith, omega arith, refl, (omega arith, omega arith, refl, tt));
  closed = (λ e. refl, (λ e. refl, tt));
  stored = omega (arith, length-replicate {A = ℕ} 4096 1);
}

pub parent_image-IsWhole : IsWhole false parent_image
parent_image-IsWhole = record {
  sorted = (omega arith, omega arith, refl, tt);
  closed = (λ e. absurd cc, tt);
  stored = omega (arith, length-replicate {A = ℕ} 8192 2);
}

abbrev pub chain : List Image
chain = child_image ∷ parent_image ∷ []

pub chain-AllWhole : AllWhole chain
chain-AllWhole = (child_image-IsWhole, (parent_image-IsWhole, tt))

-- One page at 0x2000 to dump, and a hole at 0x1000.
abbrev pipe : PagePipe
pipe = record {
  nr_pipes = 1;
  bufs = record { pipe_size = 16; pages_in = 1; nr_segs = 1; iov = 0 } ∷ [];
  nr_iovs = 1;
  free_iov = 1;
  iovs = record { iov_base = 8192; iov_len = 4096 } ∷ [];
  nr_holes = 1;
  free_hole = 1;
  holes = record { iov_base = 4096; iov_len = 4096 } ∷ [];
}

pipe-Inv : Inv pipe
pipe-Inv = record {
  started = omega arith;
  room = omega arith;
  word = omega arith;
  used = omega arith;
  chain = (
    refl,
    record {
      segs = omega arith;
      holds = omega arith;
      fits = omega arith;
      small = omega arith;
      counted = refl;
    },
    refl,
  );
  paged = (record { whole = refl; inside = omega arith }, tt);
}

abbrev bytes_of : ℕ → List ℕ
bytes_of i = replicate 4096 7

pipe-AreFilled : AreFilled bytes_of pipe.iovs 0 (reverse pipe.bufs)
pipe-AreFilled = (omega (arith, length-replicate {A = ℕ} 4096 7), tt)

abbrev roomy : LocalImage → Bool
roomy img = true

abbrev nothing : LocalImage
nothing = record { entries = []; file = [] }

page_xfer_dump_pages-merge_example :
    page_xfer_dump_pages (page_local_xfer none roomy) bytes_of pipe 0 nothing
    ≡ ok (record {
      entries = [] ++ merge (take 1 pipe.holes) (segs_of pipe.iovs (reverse pipe.bufs));
      file = [] ++ drained bytes_of pipe.iovs 0 (reverse pipe.bufs);
    })
page_xfer_dump_pages-merge_example =
    page_xfer_dump_pages-merge roomy (λ img. refl) bytes_of pipe nothing pipe-AreFilled

page_xfer_dump_pages-pages_with_example :
    (img : LocalImage) × (page_xfer_dump_pages (page_local_xfer none roomy) bytes_of pipe 0 nothing
      ≡ ok img)
    × (pages_with false img.entries ≡ contents pipe)
    × (pages_with true img.entries ≡ hole_pages pipe)
page_xfer_dump_pages-pages_with_example =
    page_xfer_dump_pages-pages_with roomy bytes_of pipe (λ img. refl) pipe-Inv (omega arith, tt)
      (omega arith, tt) pipe-AreFilled

abbrev opens : ℕ → ℕ → Bool
opens type id = true

-- At most 1000 bytes at a time.
abbrev splice : ℕ → ℕ → Option ℕ
splice t n = some (min n 1000)

abbrev sends : List ℕ → Bool
sends sent = true

-- Type 5, number 1.
abbrev dst : ℕ
dst = 261
