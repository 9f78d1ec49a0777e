-- ===== src/PageRead/Inside.antt =====
-- A reader of page-read.c that is inside an entry of its pagemap.
use crtools.Base.{
  ℕ, ◌+◌, ◌-◌, ◌^◌, ◌≤◌, ◌<◌, ◌≡◌, refl, ap, subst, ◌∙◌, Bool, true, false, not, ◌&&◌, List, [],
  ◌∷◌, none, some, ltb, if◌then◌else◌, sub64, length, arith,
}
use crtools.Iov.{iov_end}
use crtools.Pagemap.{PagemapEntry, pagemap2iovec}
use crtools.PageRead.{Level, open_page_read_at, put_pagemap, skip_pagemap_pages, seek_from}
use crtools.PageRead.Image.{
  Image, entry_end, stored_size, data_size, locate, Ascends, IsClosed, IsWhole,
}

-- Where in pages.img the reader stands when it is at `c` in the entry `e` that begins at `base` there.
abbrev pub place : PagemapEntry → ℕ → ℕ → ℕ
place e base c = if e.in_parent then base else base + (c - e.vaddr)

-- The reader is inside the entry `e`, and no address from `cvaddr` on is in an entry before that.
pub record At (has_parent : Bool) (img : Image) (lv : Level) (e : PagemapEntry) (base : ℕ)
    : Type 0 where
  pub pe : lv.pe ≡ some e
  pub live : lv.freed ≡ false
  pub file : lv.file ≡ img.file
  pub inside : (e.vaddr ≤ lv.cvaddr) × (lv.cvaddr ≤ entry_end e)
  pub offset : lv.offset ≡ place e base lv.cvaddr
  pub sorted : Ascends e.vaddr (e ∷ lv.entries)
  pub closed : IsClosed has_parent (e ∷ lv.entries)
  pub stored : base + data_size (e ∷ lv.entries) ≤ length img.file
  pub rest : (w : ℕ) → lv.cvaddr ≤ w → locate img.entries 0 w ≡ locate (e ∷ lv.entries) base w

-- An address below the first entry is in none.
pub locate_below :
    (es : List PagemapEntry) (lo off v : ℕ) → v < lo → Ascends lo es → locate es off v ≡ none
locate_below [] lo off v h a = refl
locate_below (e ∷ es) lo off v h a =
    ground (arith, locate_below es (entry_end e) (off + stored_size e) v)

-- The next entry, for an address at or behind the end of this one.
pub locate_next :
    (e : PagemapEntry) (es : List PagemapEntry) (base w : ℕ)
    → entry_end e ≤ w
    → locate (e ∷ es) base w ≡ locate es (base + stored_size e) w
locate_next e es base w h = ground arith

pub iov_end-entry :
    (e : PagemapEntry) → entry_end e < 2 ^ 64 → iov_end (pagemap2iovec e) ≡ entry_end e
iov_end-entry e h = omega arith

-- Skipping from inside an entry to another place in it, or to its end.
pub skip_to :
    (e : PagemapEntry) (base c' : ℕ) (lv : Level)
    → e.vaddr ≤ lv.cvaddr
    → lv.cvaddr ≤ c'
    → c' < 2 ^ 64
    → lv.offset ≡ place e base lv.cvaddr
    → skip_pagemap_pages e (sub64 c' lv.cvaddr) lv
      ≡ record lv { offset = place e base c'; cvaddr = c' }
unfolding skip_pagemap_pages
skip_to e base c' lv lo le top o = ground arith

pub closed_test :
    (has_parent : Bool) (e : PagemapEntry)
    → (e.in_parent ≡ true → has_parent ≡ true)
    → (e.in_parent && not has_parent) ≡ false
closed_test true e h = ground arith
closed_test false e h = ground arith

pub le→not_ltb : (a b : ℕ) → a ≤ b → ltb b a ≡ false
le→not_ltb a b h = ground arith

module _ (has_parent : Bool) (img : Image) where
  -- Moving to `v` inside the entry.
  pub skip-At :
      (v : ℕ) (e : PagemapEntry) (base : ℕ) (lv : Level)
      → At has_parent img lv e base
      → lv.cvaddr ≤ v
      → v ≤ entry_end e
      → At has_parent img (record lv { offset = place e base v; cvaddr = v }) e base
  skip-At v e base lv a lo hi = record {
    pe = a.pe;
    live = a.live;
    file = a.file;
    inside = (omega (arith, a.inside.0), hi);
    offset = refl;
    sorted = a.sorted;
    closed = a.closed;
    stored = a.stored;
    rest = λ w hw. a.rest w (omega arith);
  }

  -- The level after the entry `e` is done and the next one, `e'`, was read.
  abbrev pub step_to : PagemapEntry → PagemapEntry → List PagemapEntry → Level → Level
  step_to e e' es lv =
      record (put_pagemap (skip_pagemap_pages e (sub64 (iov_end (pagemap2iovec e)) lv.cvaddr) lv)) {
        entries = es;
        pe = some e';
        freed = false;
        cvaddr = e'.vaddr;
      }

  pub step_to-At :
      (e e' : PagemapEntry) (es : List PagemapEntry) (base : ℕ) (lv : Level)
      → lv.entries ≡ e' ∷ es
      → At has_parent img lv e base
      → At has_parent img (step_to e e' es lv) e' (base + stored_size e)
  unfolding put_pagemap
  step_to-At e e' es base lv q a =
      rw
        (
          iov_end-entry e a.sorted.1,
          skip_to e base (entry_end e) lv a.inside.0 a.inside.1 a.sorted.1 a.offset,
        )
        (record {
          pe = refl;
          live = refl;
          file = a.file;
          inside = (omega arith, omega arith);
          offset = ground arith;
          sorted = (omega arith, sorted.3.1, sorted.3.2, sorted.3.3);
          closed = (subst (λ l. IsClosed has_parent (e ∷ l)) q a.closed).1;
          stored =
              omega (arith, subst (λ l. base + data_size (e ∷ l) ≤ length img.file) q a.stored);
          rest = λ w hw.
              a.rest w (omega (arith, a.inside.1, sorted.3.0))
              ∙ ap (λ l. locate (e ∷ l) base w) q
              ∙ locate_next e (e' ∷ es) base w (omega (arith, sorted.3.0));
        })
    where
      sorted : Ascends e.vaddr (e ∷ e' ∷ es)
      sorted = subst (λ l. Ascends e.vaddr (e ∷ l)) q a.sorted

  -- An address that the loop has come past is in no entry.
  pub none_before :
      (e : PagemapEntry) (base : ℕ) (es : List PagemapEntry) (lv : Level)
      → lv.entries ≡ es
      → At has_parent img lv e base
      → (w : ℕ) → lv.cvaddr ≤ w
      → locate img.entries 0 w ≡ locate (e ∷ es) base w
  none_before e base es lv q a w h = a.rest w h ∙ ap (λ l. locate (e ∷ l) base w) q

  pub seek_from_below :
      (v : ℕ) (e : PagemapEntry) (es : List PagemapEntry) (lv : Level)
      → ltb v lv.cvaddr ≡ true
      → seek_from has_parent v e es lv ≡ (false, lv)
  unfolding seek_from
  seek_from_below v e [] lv h = rw h
  seek_from_below v e (e' ∷ es) lv h = rw h

  -- A level that was just opened, after its first entry was read.
  abbrev pub first_level : PagemapEntry → List PagemapEntry → Level
  first_level e' es = record (open_page_read_at img.entries img.file) {
    entries = es;
    pe = some e';
    cvaddr = e'.vaddr;
  }

  pub first-At :
      IsWhole has_parent img
      → (e' : PagemapEntry) (es : List PagemapEntry) → img.entries ≡ e' ∷ es
      → At has_parent img (first_level e' es) e' 0
  unfolding open_page_read_at
  first-At w e' es q = record {
    pe = refl;
    live = refl;
    file = refl;
    inside = (omega arith, omega arith);
    offset = ground arith;
    sorted =
        let a : Ascends 0 (e' ∷ es) = subst (Ascends 0) q w.sorted in (omega arith, a.1, a.2, a.3);
    closed = subst (IsClosed has_parent) q w.closed;
    stored = omega (arith, subst (λ l. data_size l ≤ length img.file) q w.stored);
    rest = λ u hu. ap (λ l. locate l 0 u) q;
  }
