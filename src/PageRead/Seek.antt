-- ===== src/PageRead/Seek.antt =====
-- seek_pagemap_page of page-read.c finds an address exactly when an entry holds it, and then stands at
-- the address and at its page.
use crtools.Base.{ℕ, ◌≤◌, ◌<◌, ◌≡◌, refl, Bool, true, false, none, length, arith}
use crtools.Pagemap.{PagemapEntry}
use crtools.PageRead.{Level, open_page_read_at, seek_from, seek_new, seek_pagemap_page}
use crtools.PageRead.Image.{Image, entry_end, locate, IsWhole}
use crtools.PageRead.Inside.{At}
use crtools.PageRead.Gaps.{
  SeekState, found, gap, over, in_reach, seek_from-SeekState, seek_new-SeekState,
}

pub data SeekResult (has_parent : Bool) (img : Image) (v : ℕ) (r : Bool × Level) : Type 0 where
  hit :
      (e : PagemapEntry) (base : ℕ)
      → r.0 ≡ true
      → At has_parent img r.1 e base
      → r.1.cvaddr ≡ v
      → v < entry_end e
      → SeekResult has_parent img v r
  miss : r.0 ≡ false → locate img.entries 0 v ≡ none → SeekResult has_parent img v r

SeekState-SeekResult :
    (hp : Bool) (img : Image) (v todo : ℕ) (r : Bool × Level)
    → SeekState hp img v todo r
    → SeekResult hp img v r
SeekState-SeekResult hp img v todo r (found e base m a q lo few) = hit e base m a q lo
SeekState-SeekResult hp img v todo r (gap e base m a lo n few) = miss m (n v (omega arith) lo)
SeekState-SeekResult hp img v todo r (over m lo n) = miss m (n v (omega arith))

module _ (has_parent : Bool) (img : Image) where
  -- A level that may still be sought for any address from `v` on: one that was just opened, or one
  -- that is in an entry.
  pub data Ready (v : ℕ) (lv : Level) : Type 0 where
    opened : lv ≡ open_page_read_at img.entries img.file → Ready v lv
    standing :
        (e : PagemapEntry) (base : ℕ) → At has_parent img lv e base → lv.cvaddr ≤ v → Ready v lv

  pub seek_pagemap_page-SeekResult :
      (v : ℕ) (lv : Level)
      → IsWhole has_parent img
      → Ready v lv
      → SeekResult has_parent img v (seek_pagemap_page has_parent v lv)
  unfolding seek_pagemap_page open_page_read_at
  seek_pagemap_page-SeekResult v lv w (standing e base a lo) =
      rw (a.pe, seek_pagemap_page)
        (SeekState-SeekResult has_parent img v (in_reach v e lv.entries)
          (seek_from has_parent v e lv.entries lv)
          (seek_from-SeekState has_parent img v (in_reach v e lv.entries) e base lv.entries lv refl
            a lo (omega arith)))
  seek_pagemap_page-SeekResult v lv w (opened e) = rw e (
      SeekState-SeekResult has_parent img v (length img.entries)
        (seek_new has_parent v img.entries (open_page_read_at img.entries img.file))
        (seek_new-SeekState has_parent img v (length img.entries) img.entries w refl (omega arith)))
