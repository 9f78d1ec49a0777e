-- ===== src/RestorePages/Run.antt =====
-- The pages of one entry, as restore_priv_vma_content (cr-restore.c) reads them.
use crtools.Base.{
  ℕ, zero, suc, ◌+◌, ◌*◌, ◌%◌, ◌<◌, ◌≡◌, refl, sym, ap, ◌∙◌, subst, inl, inr, Bool, true, false,
  not, ◌||◌, List, [], ◌∷◌, some, Option-cases, Res, ok, err, bug, ◌>>=◌, ◌>>◌, fail_on, ltb,
  page_size, add64, arith,
}
use crtools.Iov.{page_run}
use crtools.Pagemap.{PagemapEntry}
use crtools.PageRead.{Level, read_pagemap_page}
use crtools.PageRead.Image.{Image, entry_end, lookup, IsWhole}
use crtools.PageRead.Inside.{At}
use crtools.PageRead.Read.{Here, ChainReady, Read, has_images, read_pagemap_page-Read}
use crtools.PageRead.Next.{Moved, read_pagemap_page-Moved}
use crtools.RestorePages.{RstVma, skip_vmas, put_page, Reading, restore_page, restore_run}
use crtools.RestorePages.Content.{Holds, Holds-none, Holds-append, put_page-Holds}

-- What a round that succeeds has read and done.
record Paged (va : ℕ) (r r2 : Reading) : Type 0 where
  vma : RstVma
  buf : List ℕ
  read : (read_pagemap_page va r.levels).0 ≡ some buf
  levels : r2.levels ≡ (read_pagemap_page va r.levels).1
  memory : r2.memory ≡ put_page vma va buf r.memory

pub ok_inner {ℓ} : {A : Type ℓ} (x y : A) → ok x ≡ ok y → x ≡ y
ok_inner x y e = ap (λ r. elim r [ ok a ↦ a | err ↦ x | bug ↦ x ]) e

-- A chain of results that succeeds, taken apart.
pub bind-Ok {ℓ κ} :
    {A : Type ℓ} {B : Type κ} (r : Res A) (f : A → Res B) (y : B)
    → (r >>= f) ≡ ok y
    → (x : A) × (r ≡ ok x) × (f x ≡ ok y)
bind-Ok (ok x) f y e = (x, refl, e)
bind-Ok err f y e = absurd (cc)
bind-Ok bug f y e = absurd (cc)

pub fail_on-Ok {ℓ} :
    {A : Type ℓ} (b : Bool) (r : Res A) (y : A) → (fail_on b >> r) ≡ ok y → (b ≡ false) × (r ≡ ok y)
fail_on-Ok true r y e = absurd (cc)
fail_on-Ok false r y e = (refl, e)

restore_page-Paged : (va : ℕ) (r r2 : Reading) → restore_page va r ≡ ok r2 → Paged va r r2
unfolding restore_page
restore_page-Paged va r r2 e = elim (Option-cases (skip_vmas va r.vmas)) [
  | inl n ↦ let f : err ≡ ok r2 = (rw (restore_page, n) at e) in absurd (cc)
  | inr ((v, vs), q) ↦ elim (Option-cases (read_pagemap_page va r.levels).0) [
    | inl n ↦
        let g : (fail_on (ltb va v.start || not v.priv) >> err) ≡ ok r2 =
          (rw (restore_page, q, n) at e) in
        let f : err ≡ ok r2 = (fail_on-Ok (ltb va v.start || not v.priv) err r2 g).1 in absurd (cc)
    | inr (buf, p) ↦
        let r3 : Reading = record {
          vmas = v ∷ vs;
          levels = (read_pagemap_page va r.levels).1;
          memory = put_page v va buf r.memory;
        } in
        let g : (fail_on (ltb va v.start || not v.priv) >> ok r3) ≡ ok r2 =
          (rw (restore_page, q, p) at e) in
        let same : r3 ≡ r2 =
          ok_inner r3 r2 (fail_on-Ok (ltb va v.start || not v.priv) (ok r3) r2 g).1 in
        subst (Paged va r) same
          (record { vma = v; buf = buf; read = p; levels = refl; memory = refl })
  ]
]

-- The reader of the youngest snapshot is at `va` in the entry `e`, behind which `es` are left.
pub record In (imgs : List Image) (img : Image) (e : PagemapEntry) (base va : ℕ)
    (es : List PagemapEntry) (lvs : List Level) : Type 0 where
  pub head : Level
  pub tail : List Level
  pub chain : lvs ≡ head ∷ tail
  pub stands : At (has_images imgs) img head e base
  pub place : head.cvaddr ≡ va
  pub entries : head.entries ≡ es
  pub ready : ChainReady imgs tail va

-- The page that is read next.
pub In-page :
    (imgs : List Image) (img : Image) (e : PagemapEntry) (base va : ℕ) (es : List PagemapEntry)
    (lvs : List Level)
    → IsWhole (has_images imgs) img
    → va < entry_end e
    → va % page_size ≡ 0
    → In imgs img e base va es lvs
    → (read_pagemap_page va lvs).0 ≡ lookup (img ∷ imgs) va
In-page imgs img e base va es lvs w lo al i =
    let read : Read (img ∷ imgs) va (read_pagemap_page va (i.head ∷ i.tail)) =
      read_pagemap_page-Read imgs i.tail img i.head e base va w
        (record { stands = i.stands; here = i.place; below = lo; page = al }) i.ready in
    ap (λ l. (read_pagemap_page va l).0) i.chain ∙ read.page

-- One page of an entry: what the chain holds there is in memory, and the reader is behind it.
pub restore_page-In :
    (imgs : List Image) (img : Image) (e : PagemapEntry) (base va : ℕ) (es : List PagemapEntry)
    (r r2 : Reading)
    → IsWhole (has_images imgs) img
    → va < entry_end e
    → va % page_size ≡ 0
    → In imgs img e base va es r.levels
    → restore_page va r ≡ ok r2
    → In imgs img e base (va + page_size) es r2.levels
      × Holds (img ∷ imgs) (va ∷ []) r.memory r2.memory
restore_page-In imgs img e base va es r r2 w lo al i ok2 = (
  subst (In imgs img e base (va + page_size) es) (sym step) (record {
    head = m.head;
    tail = m.tail;
    chain = m.chain;
    stands = m.stands;
    place = m.place;
    entries = m.entries ∙ i.entries;
    ready =
        (subst (λ l. ChainReady (img ∷ imgs) l (va + page_size)) m.chain (read.ready p.buf got)).2;
  }),
  subst (Holds (img ∷ imgs) (va ∷ []) r.memory) (sym p.memory)
      (put_page-Holds (img ∷ imgs) p.vma va p.buf r.memory (sym read.page ∙ got)),
)
  where
    p : Paged va r r2
    p = restore_page-Paged va r r2 ok2

    here : Here (has_images imgs) img i.head e base va
    here = record { stands = i.stands; here = i.place; below = lo; page = al }

    got : (read_pagemap_page va (i.head ∷ i.tail)).0 ≡ some p.buf
    got = subst (λ l. (read_pagemap_page va l).0 ≡ some p.buf) i.chain p.read

    step : r2.levels ≡ (read_pagemap_page va (i.head ∷ i.tail)).1
    step = p.levels ∙ ap (λ l. (read_pagemap_page va l).1) i.chain

    read : Read (img ∷ imgs) va (read_pagemap_page va (i.head ∷ i.tail))
    read = read_pagemap_page-Read imgs i.tail img i.head e base va w here i.ready

    m : Moved (has_images imgs) img e base va i.head (read_pagemap_page va (i.head ∷ i.tail)).1
    m = read_pagemap_page-Moved (has_images imgs) img e base va i.head i.tail p.buf here got

-- The pages of an entry that are left.
pub restore_run-In :
    (imgs : List Image) (img : Image) (e : PagemapEntry) (base : ℕ) (es : List PagemapEntry)
    (n va : ℕ) (r r2 : Reading)
    → IsWhole (has_images imgs) img
    → va + n * page_size ≡ entry_end e
    → va % page_size ≡ 0
    → In imgs img e base va es r.levels
    → restore_run n va r ≡ ok r2
    → In imgs img e base (entry_end e) es r2.levels
      × Holds (img ∷ imgs) (page_run va n) r.memory r2.memory
restore_run-In imgs img e base es zero va r r2 w q al i ok2 =
    let same : r ≡ r2 = ok_inner r r2 ok2 in
    subst
      (λ s. In imgs img e base (entry_end e) es s.levels × Holds (img ∷ imgs) [] r.memory s.memory)
      same
      (
        subst (λ a. In imgs img e base a es r.levels) (omega (arith, q)) i,
        Holds-none (img ∷ imgs) r.memory,
      )
restore_run-In imgs img e base es (suc n) va r r2 w q al i ok2 =
    let (r1, first, rest) =
      bind-Ok (restore_page va r) (λ s. restore_run n (add64 va page_size) s) r2 ok2 in
    let next : add64 va page_size ≡ va + page_size = omega (arith, q, i.stands.sorted.1) in
    let one = restore_page-In imgs img e base va es r r1 w (omega (arith, q)) al i first in
    let more =
      restore_run-In imgs img e base es n (va + page_size) r1 r2 w (omega (arith, q))
        (omega (arith, al)) one.0 (subst (λ a. restore_run n a r1 ≡ ok r2) next rest) in
    (
      more.0,
      Holds-append (img ∷ imgs) (va ∷ []) (page_run (va + page_size) n) r.memory r1.memory r2.memory
          one.1 more.1,
    )
