-- ===== src/Tests/Punching.antt =====
-- Deduplication of a small snapshot.
use crtools.Base.{◌≡◌, refl, Bool, true, false, List, [], ◌∷◌, Res, ok, err, bug}
use crtools.Iov.{Iovec}
use crtools.PageRead.{
  Level, open_page_read_at, get_pagemap, put_pagemap, skip_pagemap_pages, seek_from, seek_new,
  seek_pagemap_page,
}
use crtools.Dedup.{Hole, Deduped, dedup_loop, dedup_one_iovec}
use crtools.Dedup.{dedup_entries, cr_dedup_one_pagemap}
use crtools.Tests.Images.{child_image, parent_image}

abbrev supported : Hole → Bool
supported h = true

abbrev parent : Level
parent = open_page_read_at parent_image.entries parent_image.file

-- The second page of the parent.
abbrev second_page : Iovec
second_page = record { iov_base = 8192; iov_len = 4096 }

abbrev holes_of : Res Deduped → Bool × List Hole
holes_of (ok d) = (d.success, d.holes)
holes_of err = (false, [])
holes_of bug = (false, [])

one_hole :
    holes_of (dedup_loop supported false 3 8192 12288 parent)
    ≡ (true, record { off = 4096; len = 4096 } ∷ [])
unfolding seek_pagemap_page seek_new seek_from get_pagemap put_pagemap skip_pagemap_pages
    open_page_read_at
one_hole = refl

-- An iovec that reaches behind the parent's last entry: its page is punched, and -1 returned.
behind :
    holes_of (dedup_loop supported false 3 8192 16384 parent)
    ≡ (false, record { off = 4096; len = 4096 } ∷ [])
unfolding seek_pagemap_page seek_new seek_from get_pagemap put_pagemap skip_pagemap_pages
    open_page_read_at
behind = refl

-- The snapshot's first page is punched out of the parent, and the second, which is in the parent, is not.
first_page :
    cr_dedup_one_pagemap supported child_image.entries (parent ∷ [])
    ≡ ok (true, record { off = 0; len = 4096 } ∷ [])
unfolding dedup_entries dedup_one_iovec seek_pagemap_page seek_new seek_from get_pagemap put_pagemap
    skip_pagemap_pages open_page_read_at
first_page = refl
