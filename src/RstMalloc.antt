-- ===== src/RstMalloc.antt =====
-- rst-malloc.c: the memory that the restorer's arguments are allocated from.
pub mod Alloc
pub mod Remap
use crtools.Base.{
  ℕ, ◌+◌, ◌-◌, ◌*◌, ◌/◌, ◌%◌, ◌^◌, Bool, true, false, not, ◌||◌, Option, none, some, Res, ok, err,
  ◌>>=◌, ◌>>◌, bug_on, ltb, ◌==◌, if◌then◌else◌, add64, sub64, page_size,
}

-- The `grow` function of a type.
pub data Growth : Type 0 where
  grow_shared : Growth
  grow_shremap : Growth
  grow_private : Growth

-- `struct rst_mem_type_s`, with addresses as numbers: 0 is NULL.
pub record RstMemType : Type 0 where
  pub remapable : Bool
  pub enabled : Bool
  pub free_bytes : ℕ
  pub free_mem : ℕ
  pub grow : Growth
  pub last : ℕ
  pub buf : ℕ
  pub size : ℕ

-- The indices of `rst_mems`.
pub data RmType : Type 0 where
  rm_shared : RmType
  rm_shremap : RmType
  rm_private : RmType

-- `rst_mems`
pub record RstMems : Type 0 where
  pub shared : RstMemType
  pub shremap : RstMemType
  pub private : RstMemType

-- What the kernel answers to one call: `mmap size`, and `mremap buf old_size new_size`, each none
-- for MAP_FAILED; `mremap_fixed buf size to` is `mremap` with MREMAP_FIXED.
pub record Mmaps : Type 0 where
  pub mmap : ℕ → Option ℕ
  pub mremap : ℕ → ℕ → ℕ → Option ℕ
  pub mremap_fixed : ℕ → ℕ → ℕ → Option ℕ

abbrev pub rst_mem_batch : ℕ
rst_mem_batch = 2 * page_size

-- `round_up(n, PAGE_SIZE)` of an `unsigned long`
abbrev pub round_up_page : ℕ → ℕ
round_up_page n = add64 n (page_size - 1) / page_size * page_size

unfoldable pub rst_mem_grow : ℕ → ℕ
rst_mem_grow need_size =
    if ltb (round_up_page need_size) rst_mem_batch then rst_mem_batch else round_up_page need_size

unfoldable pub grow_shared_mem : Mmaps → RstMemType → ℕ → Option RstMemType
unfolding rst_mem_grow
grow_shared_mem sys t size = elim (sys.mmap (rst_mem_grow size)) [
  | none ↦ none
  | some aux ↦ some (record t { free_mem = aux; free_bytes = rst_mem_grow size; last = 0 })
]

-- The buffer of `n` more bytes, now at `aux`.
abbrev pub regrown : RstMemType → ℕ → ℕ → RstMemType
regrown t n aux = record t {
  free_mem = t.free_mem + aux - t.buf;
  free_bytes = add64 t.free_bytes n;
  size = add64 t.size n;
  buf = aux;
}

unfoldable pub grow_remap : Mmaps → RstMemType → ℕ → Option RstMemType
unfolding rst_mem_grow
grow_remap sys t size =
    let n = rst_mem_grow size in
    elim (if t.buf == 0 then sys.mmap n else sys.mremap t.buf t.size (add64 t.size n)) [
      | none ↦ none
      | some aux ↦ some (regrown t n aux)
    ]

-- `t->grow(t, size)`
unfoldable pub grow_mem : Mmaps → RstMemType → ℕ → Option RstMemType
unfolding grow_shared_mem grow_remap
grow_mem sys t size = elim t.grow [
  | grow_shared ↦ grow_shared_mem sys t size
  | grow_shremap ↦ grow_remap sys t size
  | grow_private ↦ grow_remap sys t size
]

abbrev pub fresh_mem : Growth → Bool → Bool → RstMemType
fresh_mem g r e = record {
  remapable = r;
  enabled = e;
  free_bytes = 0;
  free_mem = 0;
  grow = g;
  last = 0;
  buf = 0;
  size = 0;
}

abbrev pub rst_mems : RstMems
rst_mems = record {
  shared = fresh_mem grow_shared false true;
  shremap = fresh_mem grow_shremap true true;
  private = fresh_mem grow_private true false;
}

abbrev pub mem_of : RstMems → RmType → RstMemType
mem_of m rm_shared = m.shared
mem_of m rm_shremap = m.shremap
mem_of m rm_private = m.private

abbrev pub with_mem : RstMems → RmType → RstMemType → RstMems
with_mem m rm_shared t = record m { shared = t }
with_mem m rm_shremap t = record m { shremap = t }
with_mem m rm_private t = record m { private = t }

unfoldable pub rst_mem_switch_to_private : RstMems → RstMems
rst_mem_switch_to_private m = record m {
  shared = record m.shared { enabled = false };
  shremap = record m.shremap { enabled = false };
  private = record m.private { enabled = true };
}

unfoldable pub rst_mem_cpos : RmType → RstMems → Res ℕ
rst_mem_cpos type m =
    let t = mem_of m type in bug_on (not t.remapable || not t.enabled) >> ok (t.free_mem - t.buf)

unfoldable pub rst_mem_remap_ptr : ℕ → RmType → RstMems → Res ℕ
rst_mem_remap_ptr pos type m = let t = mem_of m type in bug_on (not t.remapable) >> ok (t.buf + pos)

-- The cut of `size` bytes behind the guard on what is free.
abbrev pub cut : ℕ → RstMemType → RstMemType
cut size t = record t {
  free_mem = t.free_mem + size;
  free_bytes = sub64 t.free_bytes size;
  last = size;
}

-- None is NULL.
unfoldable pub rst_mem_alloc : Mmaps → ℕ → RmType → RstMems → Res (Option ℕ × RstMems)
unfolding grow_mem
rst_mem_alloc sys size type m =
    let t = mem_of m type in
    bug_on (not t.enabled) >> elim (if ltb t.free_bytes size then grow_mem sys t size else some t) [
      | none ↦ ok (none, m)
      | some t' ↦ ok (some t'.free_mem, with_mem m type (cut size t'))
    ]

-- The last object is free again.
abbrev pub give_back : RstMemType → RstMemType
give_back t = record t {
  free_mem = t.free_mem - t.last;
  free_bytes = add64 t.free_bytes t.last;
  last = 0;
}

unfoldable pub rst_mem_free_last : RmType → RstMems → Res RstMems
rst_mem_free_last type m =
    let t = mem_of m type in bug_on (not t.enabled) >> ok (with_mem m type (give_back t))

unfoldable pub rst_mem_remap_size : RstMems → ℕ
rst_mem_remap_size m = add64 m.private.size m.shremap.size

unfoldable pub rst_mem_remap_one : Mmaps → ℕ → RmType → RstMems → Res RstMems
rst_mem_remap_one sys to type m =
    let t = mem_of m type in
    bug_on (not t.remapable)
    >> (if t.buf == 0 then ok m else elim (sys.mremap_fixed t.buf t.size to) [
      | none ↦ err
      | some aux ↦ ok (with_mem m type (record t { buf = aux; enabled = false }))
    ])

unfoldable pub rst_mem_remap : Mmaps → ℕ → RstMems → Res RstMems
unfolding rst_mem_remap_one
rst_mem_remap sys to m = do
  m1 ← rst_mem_remap_one sys to rm_private m
  rst_mem_remap_one sys (to + m1.private.size) rm_shremap m1
