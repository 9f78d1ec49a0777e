-- ===== src/PagePipe/Create.antt =====
-- create_page_pipe of page-pipe.c: what every page pipe begins as.
use crtools.Base.{
  false, Bool-cases, ℕ, ◌+◌, ◌/◌, ◌^◌, ◌≤◌, ◌<◌, ◌≡◌, ◌⊎◌, refl, inl, inr, List, [], ◌∷◌, none, ok,
  err, Option-cases, page_size, length, arith,
}
use crtools.Iov.{Iovec}
use crtools.PagePipe.{PagePipe, Kernel, IsDocumented, page_pipe_grow, create_page_pipe}
use crtools.PagePipe.Inv.{Inv, contents}
use crtools.PagePipe.Holes.{HolesInv, hole_pages}

pub record Created (pp : PagePipe) : Type 0 where
  pub inv : Inv pp
  pub holes : HolesInv pp
  pub no_pages : contents pp ≡ []
  pub no_holes : hole_pages pp ≡ []

abbrev first_pipe : ℕ → List Iovec → ℕ → PagePipe
first_pipe nr_segs iovs size = record {
  nr_pipes = 1;
  bufs = record { pipe_size = size / page_size; pages_in = 0; nr_segs = 0; iov = 0 } ∷ [];
  nr_iovs = nr_segs;
  free_iov = 0;
  iovs = iovs;
  nr_holes = 0;
  free_hole = 0;
  holes = [];
}

-- With an array of at least `nr_segs` elements, where `nr_segs` is less than 2^32 - 1, `create_page_pipe`
-- gives a valid page pipe with no pages and no holes, or fails because the memory for it or its first pipe cannot be had.
pub create_page_pipe-Created :
    (k : Kernel) (doc : IsDocumented k) (nr_segs : ℕ) (iovs : List Iovec)
    → nr_segs ≤ length iovs
    → nr_segs + 1 < 2 ^ 32
    → ((pp : PagePipe) × (create_page_pipe k nr_segs iovs ≡ ok pp) × Created pp)
      ⊎ ((create_page_pipe k nr_segs iovs ≡ err)
          × ((k.new_page_pipe ≡ false) ⊎ (k.new_pipe 0 ≡ none)))
unfolding create_page_pipe page_pipe_grow
create_page_pipe-Created k doc nr_segs iovs room word = elim (Bool-cases k.new_page_pipe) [
  | inr no_memory ↦ inr (rw no_memory, inl no_memory)
  | inl memory ↦ elim (Option-cases (k.new_pipe 0)) [
    | inl no_pipe ↦ inr (rw (memory, no_pipe), inr no_pipe)
    | inr (size, e) ↦
        let least = doc.holds_page 0 size e in
        let int = doc.new_int 0 size e in
        inl (
          first_pipe nr_segs iovs size,
          rw (memory, e),
          record {
            inv = record {
              started = omega arith;
              room = room;
              word = word;
              used = omega arith;
              chain = (
                refl,
                record {
                  segs = omega arith;
                  holds = omega (arith, least);
                  fits = omega arith;
                  small = omega (arith, int);
                  counted = refl;
                },
                refl,
              );
              paged = tt;
            };
            holes = record { room = omega arith; used = omega arith; paged = tt };
            no_pages = refl;
            no_holes = refl;
          },
        )
  ]
]
