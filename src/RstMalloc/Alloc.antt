-- ===== src/RstMalloc/Alloc.antt =====
-- Allocation from a memory that is remapped into the restorer (rst_mem_alloc, rst_mem_free_last and
-- rst_mem_cpos of rst-malloc.c).
use crtools.Base.{
  ℕ, ◌+◌, ◌-◌, ◌^◌, ◌≤◌, ◌<◌, ◌≡◌, refl, sym, ap, subst, true, ◌⊎◌, inl, inr, Option, none, some,
  Res, ok, Bool-cases, Option-cases, ltb, not_ltb, ltb→lt, ◌==◌, if◌then◌else◌, add64, arith,
}
use crtools.RstMalloc.{
  grow_shremap, grow_private, RstMemType, RstMems, RmType, rm_shared, rm_shremap, rm_private, Mmaps,
  round_up_page, rst_mem_batch, rst_mem_grow, regrown, grow_remap, grow_mem, mem_of, with_mem, cut,
  give_back, rst_mem_cpos, rst_mem_remap_ptr, rst_mem_alloc, rst_mem_free_last,
}

-- A buffer of `size` bytes from `buf` on, of which the last `free_bytes` are free; the last object,
-- if there is one, ends where they start.
pub record IsBuffer (t : RstMemType) : Type 0 where
  pub remaps : t.remapable ≡ true
  pub enabled : t.enabled ≡ true
  pub grows : (t.grow ≡ grow_shremap) ⊎ (t.grow ≡ grow_private)
  pub starts : t.buf ≤ t.free_mem
  pub filled : (t.free_mem - t.buf) + t.free_bytes ≡ t.size
  pub last_fits : t.last ≤ t.free_mem - t.buf
  pub word : t.size < 2 ^ 62

round_up_page-enough :
    (n : ℕ) → n < 2 ^ 62 → (n ≤ round_up_page n) × (round_up_page n < 2 ^ 62 + 2 ^ 13)
round_up_page-enough n h = (omega arith, omega arith)

rst_mem_grow-enough :
    (n : ℕ) → n < 2 ^ 62 → (n ≤ rst_mem_grow n) × (rst_mem_grow n < 2 ^ 62 + 2 ^ 13)
unfolding rst_mem_grow
rst_mem_grow-enough n h =
    let r = round_up_page-enough n h in
    elim (Bool-cases (ltb (round_up_page n) rst_mem_batch)) [
      | inl e ↦
          let l = ltb→lt (round_up_page n) rst_mem_batch e in
          rw e (omega (arith, l, r.0), omega arith)
      | inr e ↦ rw e r
    ]

-- What `t->grow` leaves: the same used part, and `size` bytes free.
record Grown (size : ℕ) (t t' : RstMemType) : Type 0 where
  remaps : t'.remapable ≡ true
  enabled : t'.enabled ≡ true
  grows : (t'.grow ≡ grow_shremap) ⊎ (t'.grow ≡ grow_private)
  starts : t'.buf ≤ t'.free_mem
  same : t'.free_mem - t'.buf ≡ t.free_mem - t.buf
  filled : (t'.free_mem - t'.buf) + t'.free_bytes ≡ t'.size
  free : size ≤ t'.free_bytes
  word : t'.size < 2 ^ 63 + 2 ^ 14

grow_mem-remap :
    (sys : Mmaps) (t : RstMemType) (size : ℕ)
    → IsBuffer t
    → grow_mem sys t size ≡ grow_remap sys t size
unfolding grow_mem
grow_mem-remap sys t size b = elim b.grows [ inl e ↦ rw e | inr e ↦ rw e ]

grow_remap-Grown :
    (sys : Mmaps) (t : RstMemType) (size : ℕ)
    → IsBuffer t
    → size < 2 ^ 62
    → (grow_remap sys t size ≡ none)
      ⊎ ((t' : RstMemType) × (grow_remap sys t size ≡ some t') × Grown size t t')
unfolding grow_remap
grow_remap-Grown sys t size b h =
    let g = rst_mem_grow-enough size h in
    let n = rst_mem_grow size in
    elim (Option-cases
      (if t.buf == 0 then sys.mmap n else sys.mremap t.buf t.size (add64 t.size n))) [
        | inl e ↦ inl (rw (grow_remap, e))
        | inr (aux, e) ↦ inr (
          regrown t n aux,
          rw (grow_remap, e),
          record {
            remaps = b.remaps;
            enabled = b.enabled;
            grows = b.grows;
            starts = let s = b.starts in omega (arith, s);
            same = let s = b.starts in omega (arith, s);
            filled =
                let s = b.starts in
                let f = b.filled in let w = b.word in omega (arith, s, f, w, g.1);
            free = let f = b.filled in let w = b.word in omega (arith, f, w, g.0, g.1);
            word = let w = b.word in omega (arith, w, g.1);
          },
        )
      ]

pub mem_of-with_mem : (m : RstMems) (ty : RmType) (t : RstMemType) → mem_of (with_mem m ty t) ty ≡ t
mem_of-with_mem m rm_shared t = refl
mem_of-with_mem m rm_shremap t = refl
mem_of-with_mem m rm_private t = refl

-- The object at `p` of `size` bytes, cut behind all that was allocated before it.
pub record Allocated (size : ℕ) (ty : RmType) (m m' : RstMems) (p : ℕ) : Type 0 where
  pub pos : ℕ
  pub before : rst_mem_cpos ty m ≡ ok pos
  pub after : rst_mem_cpos ty m' ≡ ok (pos + size)
  pub found : rst_mem_remap_ptr pos ty m' ≡ ok p
  pub fits : pos + size ≤ (mem_of m' ty).size
  pub undone : (m2 : RstMems) × (rst_mem_free_last ty m' ≡ ok m2) × (rst_mem_cpos ty m2 ≡ ok pos)
  pub buffer : (mem_of m' ty).size < 2 ^ 62 → IsBuffer (mem_of m' ty)

cut-Allocated :
    (size : ℕ) (ty : RmType) (m : RstMems) (t' : RstMemType)
    → IsBuffer (mem_of m ty)
    → Grown size (mem_of m ty) t'
    → Allocated size ty m (with_mem m ty (cut size t')) t'.free_mem
unfolding rst_mem_cpos rst_mem_remap_ptr rst_mem_free_last
cut-Allocated size ty m t' b g =
    let e = mem_of-with_mem m ty (cut size t') in
    let m' = with_mem m ty (cut size t') in
    let e2 = mem_of-with_mem m' ty (give_back (cut size t')) in
    record {
      pos = (mem_of m ty).free_mem - (mem_of m ty).buf;
      before = rw (b.remaps, b.enabled);
      after =
          rw (e, g.remaps, g.enabled)
            (let s = g.starts in let w = g.same in ap ok (omega (arith, s, w)));
      found = rw (e, g.remaps) (let s = g.starts in let w = g.same in ap ok (omega (arith, s, w)));
      fits = rw e (let f = g.filled in let w = g.same in let r = g.free in omega (arith, f, w, r));
      undone = (
        with_mem m' ty (give_back (cut size t')),
        rw (e, g.enabled),
        rw (e2, g.remaps, g.enabled)
            (let s = g.starts in let w = g.same in ap ok (omega (arith, s, w))),
      );
      buffer = λ w. subst IsBuffer (sym e) (record {
        remaps = g.remaps;
        enabled = g.enabled;
        grows = g.grows;
        starts = let s = g.starts in omega (arith, s);
        filled =
            let s = g.starts in
            let f = g.filled in let r = g.free in let x = g.word in omega (arith, s, f, r, x);
        last_fits = let s = g.starts in omega (arith, s);
        word = subst (λ t. t.size < 2 ^ 62) e w;
      });
    }

-- The outcome of `rst_mem_alloc`: no memory, and nothing changed, or an object.
pub data AllocResult (size : ℕ) (ty : RmType) (m : RstMems)
    : Res (Option ℕ × RstMems) → Type 0 where
  refused : (mem_of m ty).free_bytes < size → AllocResult size ty m (ok (none, m))
  allocated :
      (p : ℕ) (m' : RstMems) → Allocated size ty m m' p → AllocResult size ty m (ok (some p, m'))

kept-Grown : (size : ℕ) (t : RstMemType) → IsBuffer t → size ≤ t.free_bytes → Grown size t t
kept-Grown size t b h = record {
  remaps = b.remaps;
  enabled = b.enabled;
  grows = b.grows;
  starts = b.starts;
  same = refl;
  filled = b.filled;
  free = h;
  word = let w = b.word in omega (arith, w);
}

-- An allocation of less than 2^62 bytes from a valid remappable memory fails only if too few bytes are free,
-- and then changes nothing; otherwise the object stands, also after the buffer has grown and moved, at
-- the position that `rst_mem_cpos` gave before, `rst_mem_cpos` has advanced by its size, the object is inside the buffer, the memory is
-- valid while it stays below 2^62 bytes, and `rst_mem_free_last` sets `rst_mem_cpos` back.
pub rst_mem_alloc-AllocResult :
    (sys : Mmaps) (size : ℕ) (ty : RmType) (m : RstMems)
    → IsBuffer (mem_of m ty)
    → size < 2 ^ 62
    → AllocResult size ty m (rst_mem_alloc sys size ty m)
unfolding rst_mem_alloc
rst_mem_alloc-AllocResult sys size ty m b h =
    elim (Bool-cases (ltb (mem_of m ty).free_bytes size)) [
      | inl few ↦ elim (grow_remap-Grown sys (mem_of m ty) size b h) [
        | inl e ↦
            rw (b.enabled, few, grow_mem-remap sys (mem_of m ty) size b, e)
              (refused (ltb→lt _ _ few))
        | inr (t', e, g) ↦
            rw (b.enabled, few, grow_mem-remap sys (mem_of m ty) size b, e)
              (allocated _ _ (cut-Allocated size ty m t' b g))
      ]
      | inr enough ↦
          rw (b.enabled, enough)
            (allocated _ _ (
              cut-Allocated size ty m (mem_of m ty) b
                (kept-Grown size (mem_of m ty) b (not_ltb _ _ enough))))
    ]
