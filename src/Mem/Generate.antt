-- ===== src/Mem/Generate.antt =====
-- generate_iovs (mem.c): every page that is to be dumped goes into the page pipe, as a page or as a
-- hole, in the order of the addresses.
use crtools.Base.{
  ℕ, ◌+◌, ◌*◌, ◌^◌, ◌≤◌, ◌<◌, ◌≡◌, refl, ap₂, inl, inr, Bool, true, false, not, ◌&&◌, List, [], ◌∷◌,
  ◌++◌, Option, none, some, if◌then◌else◌, arith, bit, page_size, length, take,
}
use crtools.Iov.{Iovec}
use crtools.PagePipe.{pp_holes_batch}
use crtools.PagePipe.Inv.{Inv, contents}
use crtools.PagePipe.Holes.{HolesInv, hole_pages}
use crtools.Mem.{MemSnapCtx, VmaEntry, Scan, should_dump_page, in_parent, pme_soft_dirty}
use crtools.Mem.Rover.{Searching, covers, entries, page_in_parent-covers}

-- The parent's pagemap, if there is one: what the searches leave as it is.
abbrev pub map_of : Option MemSnapCtx → Option (List Iovec)
map_of none = none
map_of (some s) = some (entries s)

-- The reference: a page is left to the parent if it is not soft-dirty and the parent has it.
abbrev pub left_to_parent : Option (List Iovec) → ℕ → ℕ → Bool
left_to_parent none v pme = false
left_to_parent (some iovs) v pme = not (bit pme pme_soft_dirty) && covers iovs v

abbrev pub IsFit : Option MemSnapCtx → ℕ → Type 0
IsFit none v = Unit {0}
IsFit (some s) v = Searching s v

-- "Non soft-dirty should be present in parent map": a page that is clean is in the parent's pagemap.
abbrev pub IsTracked : Option (List Iovec) → ℕ → ℕ → Type 0
IsTracked none v pme = Unit {0}
IsTracked (some iovs) v pme = bit pme pme_soft_dirty ≡ false → covers iovs v ≡ true

pub record Decided (v pme : ℕ) (snap : Option MemSnapCtx) (r : Bool × Option MemSnapCtx)
    : Type 0 where
  pub right : r.0 ≡ left_to_parent (map_of snap) v pme
  pub fit : IsFit r.1 v
  pub same : map_of r.1 ≡ map_of snap

pub in_parent-Decided :
    (fresh : Iovec) (v pme : ℕ) (snap : Option MemSnapCtx)
    → IsFit snap v
    → IsTracked (map_of snap) v pme
    → Decided v pme snap (in_parent fresh v pme snap)
unfolding in_parent
in_parent-Decided fresh v pme none f t = record { right = refl; fit = tt; same = refl }
in_parent-Decided fresh v pme (some s) f t =
    let p = page_in_parent-covers fresh v pme s f in
    record {
      right = p.0;
      fit = elim p.3 [ inl fit ↦ fit | inr (clean, f, past) ↦ absurd (never clean f p.0) ];
      same = λ i. some (ap₂ (λ n is. take n is) p.2 p.1 i);
    }
  where
    never :
        {found : Bool}
        → bit pme pme_soft_dirty ≡ false
        → found ≡ false
        → found ≡ (not (bit pme pme_soft_dirty) && covers (entries s) v)
        → ⊥
    never clean f e = ground (arith, t clean)

-- The addresses, from `a` on, of the entries of /proc/<pid>/pagemap that pass a test.
abbrev pub addrs_where : (ℕ → ℕ → Bool) → ℕ → List ℕ → List ℕ
addrs_where p a [] = []
addrs_where p a (pme ∷ pmes) =
    if p a pme then a ∷ addrs_where p (a + page_size) pmes else addrs_where p (a + page_size) pmes

module _ (vma : VmaEntry) (m : Option (List Iovec)) where
  -- What goes into the pipe, and what becomes a hole.
  abbrev pub is_page : ℕ → ℕ → Bool
  is_page v pme = should_dump_page vma pme && not (left_to_parent m v pme)

  abbrev pub is_hole : ℕ → ℕ → Bool
  is_hole v pme = should_dump_page vma pme && left_to_parent m v pme

  -- Every page that is to be dumped and is clean is in the parent's pagemap.
  abbrev pub AllTracked : ℕ → List ℕ → Type 0
  AllTracked a [] = Unit {0}
  AllTracked a (pme ∷ pmes) =
      (should_dump_page vma pme ≡ true → IsTracked m a pme) × AllTracked (a + page_size) pmes

  -- A scan that may go on with `n` pages from the address `a` on.
  pub record IsReady (s : Scan) (a n : ℕ) : Type 0 where
    pub pipe : Inv s.pp
    pub holes : HolesInv s.pp
    pub fit : IsFit s.snap a
    pub map : map_of s.snap ≡ m
    pub low : a + n * page_size < 2 ^ 64
    pub hole_room : s.pp.nr_holes + pp_holes_batch * n < 2 ^ 32
    pub counts : (s.skipped + n < 2 ^ 64) × (s.written + n < 2 ^ 64)

  -- From `s` on, the scan has put the pages `ps` into the pipe and the holes `hs` into the array, and
  -- has come to the address `b` with `n` pages to go.
  pub record Scanned (s : Scan) (b n : ℕ) (ps hs : List ℕ) (s' : Scan) : Type 0 where
    pub ready : IsReady s' b n
    pub pages : contents s'.pp ≡ contents s.pp ++ ps
    pub lefts : hole_pages s'.pp ≡ hole_pages s.pp ++ hs
    pub written : s'.written ≡ s.written + length ps
    pub skipped : s'.skipped ≡ s.skipped + length hs
    pub segs : s'.pp.free_iov ≤ s.pp.free_iov + length ps
    pub array : s'.pp.nr_iovs ≡ s.pp.nr_iovs
