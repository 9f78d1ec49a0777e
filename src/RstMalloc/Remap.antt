-- ===== src/RstMalloc/Remap.antt =====
-- rst_mem_remap (rst-malloc.c): the two buffers side by side in the restorer.
use crtools.Base.{
  ℕ, ◌+◌, ◌%◌, ◌^◌, ◌⊎◌, none, ◌≡◌, refl, true, false, inl, inr, some, Res, ok, err, Option-cases,
  ◌==◌,
}
use crtools.RstMalloc.{
  RstMemType, RstMems, rm_shremap, rm_private, Mmaps, rst_mem_remap_ptr, rst_mem_remap_size,
  rst_mem_remap_one, rst_mem_remap,
}

-- A remappable buffer that something was allocated from.
pub record IsUsed (t : RstMemType) : Type 0 where
  pub remaps : t.remapable ≡ true
  pub mapped : (t.buf == 0) ≡ false

pub data RemapResult (sys : Mmaps) (to : ℕ) (m : RstMems) : Res RstMems → Type 0 where
  refused :
      (sys.mremap_fixed m.private.buf m.private.size to ≡ none)
        ⊎ (sys.mremap_fixed m.shremap.buf m.shremap.size (to + m.private.size) ≡ none)
      → RemapResult sys to m err
  remapped :
      (m' : RstMems)
      → ((pos : ℕ) → rst_mem_remap_ptr pos rm_private m' ≡ ok (to + pos))
      → ((pos : ℕ) → rst_mem_remap_ptr pos rm_shremap m' ≡ ok (to + m.private.size + pos))
      → (m'.private.size ≡ m.private.size) × (m'.shremap.size ≡ m.shremap.size)
      → rst_mem_remap_size m ≡ (m.private.size + m.shremap.size) % 2 ^ 64
      → (m'.private.enabled ≡ false) × (m'.shremap.enabled ≡ false)
      → RemapResult sys to m (ok m')

-- If a call of mremap that is given a fixed address returns it or fails, `rst_mem_remap` of two used buffers fails,
-- and then one of its two calls of mremap has failed, or leaves them side by side: the object at position `pos` of the
-- private buffer is at `to + pos`, that of the shared one behind the whole private buffer, the sizes are kept, no
-- further allocation is allowed from either, and `rst_mem_remap_size` has said the sum of both sizes modulo 2^64.
pub rst_mem_remap-RemapResult :
    (sys : Mmaps) (to : ℕ) (m : RstMems)
    → ((buf size at' aux : ℕ) → sys.mremap_fixed buf size at' ≡ some aux → aux ≡ at')
    → IsUsed m.private
    → IsUsed m.shremap
    → RemapResult sys to m (rst_mem_remap sys to m)
unfolding rst_mem_remap rst_mem_remap_one rst_mem_remap_ptr rst_mem_remap_size
rst_mem_remap-RemapResult sys to m fixed p s =
    elim (Option-cases (sys.mremap_fixed m.private.buf m.private.size to)) [
      | inl e ↦ rw (p.remaps, p.mapped, e) (refused (inl e))
      | inr (aux, e) ↦
          elim (Option-cases
            (sys.mremap_fixed m.shremap.buf m.shremap.size (to + m.private.size))) [
              | inl e2 ↦ rw (p.remaps, p.mapped, e, s.remaps, s.mapped, e2) (refused (inr e2))
              | inr (aux2, e2) ↦
                  rw (p.remaps, p.mapped, e, s.remaps, s.mapped, e2)
                    (remapped _ (λ pos. rw (p.remaps, fixed _ _ _ _ e))
                      (λ pos. rw (s.remaps, fixed _ _ _ _ e2)) (refl, refl) refl (refl, refl))
            ]
    ]
