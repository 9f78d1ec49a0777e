-- ===== src/RestorePages/Entries.antt =====
-- restore_priv_vma_content of cr-restore.c: all entries in turn, and the pages that it then drops.
use crtools.Base.{
  ℕ, ◌+◌, ◌*◌, ◌/◌, ◌^◌, ◌<◌, ◌≡◌, refl, ap, ◌∙◌, subst, true, List, [], ◌∷◌, ◌++◌, ok, ◌>>=◌,
  page_size, arith,
}
use crtools.Iov.{iov_pages}
use crtools.Pagemap.{PagemapEntry, pagemap2iovec}
use crtools.PageRead.{Level, open_page_read_at, get_pagemap, put_pagemap, has_parents}
use crtools.PageRead.Image.{Image, entry_end, stored_size, Ascends, IsWhole}
use crtools.PageRead.Inside.{At, first_level, first-At}
use crtools.PageRead.Read.{ChainReady, ChainReady-le, has_images, has_parents-eq}
use crtools.PageRead.Next.{get_pagemap-At, get_pagemap-first}
use crtools.PageRead.Pass.{open_chain, AllWhole, open_chain-ChainReady}
use crtools.RestorePages.{Reading, restore_run, put_head, restore_entries}
use crtools.RestorePages.Content.{Holds, Holds-none, Holds-append}
use crtools.RestorePages.Run.{bind-Ok, ok_inner, In, restore_run-In}

-- The pages of some entries.
abbrev pub entry_pages : List PagemapEntry → List ℕ
entry_pages [] = []
entry_pages (e ∷ es) = iov_pages (pagemap2iovec e) ++ entry_pages es

-- get_pagemap gives the entry `e` next, and the reader is then at its begin.
pub record Next (imgs : List Image) (img : Image) (e : PagemapEntry) (es : List PagemapEntry)
    (head : Level) (tail : List Level) : Type 0 where
  pub level : Level
  pub base : ℕ
  pub got : get_pagemap (has_images imgs) (e ∷ es) head ≡ (true, level)
  pub stands : At (has_images imgs) img level e base
  pub place : level.cvaddr ≡ e.vaddr
  pub entries : level.entries ≡ es
  pub ready : ChainReady imgs tail e.vaddr

-- The reader has the entries `es` still to give.
pub record Begins (imgs : List Image) (img : Image) (es : List PagemapEntry) (lvs : List Level)
    : Type 0 where
  pub head : Level
  pub tail : List Level
  pub chain : lvs ≡ head ∷ tail
  pub next :
      (e : PagemapEntry) (es2 : List PagemapEntry) → es ≡ e ∷ es2 → Next imgs img e es2 head tail

pub In-Begins :
    (imgs : List Image) (img : Image) (e : PagemapEntry) (base : ℕ) (es : List PagemapEntry)
    (lvs : List Level)
    → In imgs img e base (entry_end e) es lvs
    → Begins imgs img es (put_head lvs)
In-Begins imgs img e base es lvs i = record {
  head = put_pagemap i.head;
  tail = i.tail;
  chain = ap put_head i.chain;
  next = λ e2 es2 q.
      let left : i.head.entries ≡ e2 ∷ es2 = i.entries ∙ q in
      let (level, got, stands, place, entries) =
        get_pagemap-At (has_images imgs) img e e2 es2 base i.head i.stands left i.place in
      let sorted : Ascends e.vaddr (e ∷ e2 ∷ es2) =
        subst (λ l. Ascends e.vaddr (e ∷ l)) left i.stands.sorted in
      record {
        level = level;
        base = base + stored_size e;
        got = got;
        stands = stands;
        place = place;
        entries = entries;
        ready = ChainReady-le imgs i.tail (entry_end e) e2.vaddr sorted.3.0 i.ready;
      };
}

pub open_chain-Begins :
    (imgs : List Image) (img : Image)
    → AllWhole (img ∷ imgs)
    → Begins imgs img img.entries (open_chain (img ∷ imgs))
open_chain-Begins imgs img w = record {
  head = open_page_read_at img.entries img.file;
  tail = open_chain imgs;
  chain = refl;
  next = λ e es q. record {
    level = first_level (has_images imgs) img e es;
    base = 0;
    got = get_pagemap-first (has_images imgs) img e es w.0 q;
    stands = first-At (has_images imgs) img w.0 e es q;
    place = refl;
    entries = refl;
    ready =
        ChainReady-le imgs (open_chain imgs) 0 e.vaddr (omega arith)
          (open_chain-ChainReady imgs w.1);
  };
}

pub entry_run :
    (e : PagemapEntry)
    → entry_end e < 2 ^ 64
    → e.vaddr + (pagemap2iovec e).iov_len / page_size * page_size ≡ entry_end e
entry_run e h = omega arith

-- All entries that are left: what the chain holds at their pages is in memory.
pub restore_entries-Holds :
    (imgs : List Image) (img : Image) (es : List PagemapEntry) (r r2 : Reading)
    → IsWhole (has_images imgs) img
    → Begins imgs img es r.levels
    → restore_entries es r ≡ ok r2
    → Holds (img ∷ imgs) (entry_pages es) r.memory r2.memory
restore_entries-Holds imgs img [] r r2 w b ok2 =
    subst (λ s. Holds (img ∷ imgs) [] r.memory s.memory) (ok_inner r r2 ok2)
      (Holds-none (img ∷ imgs) r.memory)
restore_entries-Holds imgs img (e ∷ es) r r2 w b ok2 =
    let n = b.next e es refl in
    let hp : has_parents b.tail ≡ has_images imgs = has_parents-eq imgs b.tail e.vaddr n.ready in
    let start : Reading = record r { levels = n.level ∷ b.tail } in
    let run : (restore_run ((pagemap2iovec e).iov_len / page_size) e.vaddr start >>= λ s.
    restore_entries es (record s { levels = put_head s.levels }))
        ≡ ok r2 =
      (rw (b.chain, hp, n.got) at ok2) in
    let (r1, first, rest) = bind-Ok _ _ r2 run in
    let one =
      restore_run-In imgs img e n.base es ((pagemap2iovec e).iov_len / page_size) e.vaddr start r1 w
        (entry_run e n.stands.sorted.1) n.stands.sorted.2
        (record {
          head = n.level;
          tail = b.tail;
          chain = refl;
          stands = n.stands;
          place = n.place;
          entries = n.entries;
          ready = n.ready;
        })
        first in
    Holds-append (img ∷ imgs) (iov_pages (pagemap2iovec e)) (entry_pages es) r.memory r1.memory
      r2.memory one.1
      (restore_entries-Holds imgs img es (record r1 { levels = put_head r1.levels }) r2 w
        (In-Begins imgs img e n.base es r1.levels one.0) rest)
