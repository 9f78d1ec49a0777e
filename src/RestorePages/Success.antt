-- ===== src/RestorePages/Success.antt =====
-- When restore_priv_vma_content of cr-restore.c returns 0.
use crtools.Base.{
  ℕ, zero, suc, ◌+◌, ◌*◌, ◌/◌, ◌%◌, ◌≡◌, refl, sym, ap, ◌∙◌, subst, inl, inr, Bool, true, false,
  not, ◌&&◌, ◌||◌, Bool-cases, List, [], ◌∷◌, ◌++◌, none, some, Option-cases, Res, ok, err, bug,
  ◌>>=◌, ltb, if◌then◌else◌, page_size, add64, sub64, arith,
}
use crtools.Iov.{page_run}
use crtools.Pagemap.{PagemapEntry, pagemap2iovec}
use crtools.PageRead.{read_pagemap_page}
use crtools.PageRead.Image.{Image, entry_end, lookup, IsWhole}
use crtools.PageRead.Read.{has_images, has_parents-eq}
use crtools.PageRead.Pass.{open_chain, AllWhole}
use crtools.RestorePages.{
  RstVma, Premapped, set_at, skip_vmas, put_page, Reading, restore_page, restore_run, put_head,
  restore_entries, drop_pages, drop_unshared, restore_priv_vma_content,
}
use crtools.RestorePages.Run.{In}
use crtools.RestorePages.Run.{In, In-page, restore_page-In}
use crtools.RestorePages.Placed.{
  IsSorted, all_placed, all_private, all_placed-all_private, entry_pages-IsAscending,
}
use crtools.RestorePages.Entries.{
  entry_pages, Next, Begins, In-Begins, entry_run, open_chain-Begins,
}

abbrev pub succeeded {ℓ} : {A : Type ℓ} → Res A → Bool
succeeded (ok x) = true
succeeded err = false
succeeded bug = false

-- The chain holds each page.
abbrev pub all_found : List Image → List ℕ → Bool
all_found imgs [] = true
all_found imgs (a ∷ pages) = elim (lookup imgs a) [ none ↦ false | some buf ↦ all_found imgs pages ]

abbrev fine : List Image → List RstVma → List ℕ → Bool
fine imgs vs pages = all_placed vs pages && all_found imgs pages

and_false : (b : Bool) → (b && false) ≡ false
and_false true = refl
and_false false = refl

-- A page is restored, and leaves what is asked of the others, or it fails the whole.
data PageCase (imgs : List Image) (va : ℕ) (r : Reading) : Type 0 where
  passes :
      (r2 : Reading)
      → restore_page va r ≡ ok r2
      → ((pages : List ℕ) → fine imgs r.vmas (va ∷ pages) ≡ fine imgs r2.vmas pages)
      → PageCase imgs va r
  fails :
      restore_page va r ≡ err
      → ((pages : List ℕ) → fine imgs r.vmas (va ∷ pages) ≡ false)
      → PageCase imgs va r

restore_page-PageCase :
    (imgs : List Image) (va : ℕ) (r : Reading)
    → (read_pagemap_page va r.levels).0 ≡ lookup imgs va
    → PageCase imgs va r
unfolding restore_page
restore_page-PageCase imgs va r page = elim (Option-cases (skip_vmas va r.vmas)) [
  | inl n ↦ fails (rw (restore_page, n) refl) (λ pages. rw (all_placed, n) refl)
  | inr ((v, vs), q) ↦ elim (Bool-cases (ltb va v.start || not v.priv)) [
    | inl b ↦ fails (rw (restore_page, q, b) refl) (λ pages. rw (all_placed, q, b) refl)
    | inr g ↦ elim (Option-cases (lookup imgs va)) [
      | inl n ↦ fails (rw (restore_page, q, g, page, n) refl) (λ pages.
          rw (all_placed, q, all_found, n)
            (and_false (not (ltb va v.start || not v.priv) && all_placed (v ∷ vs) pages)))
      | inr (buf, p) ↦
          passes
            (record {
              vmas = v ∷ vs;
              levels = (read_pagemap_page va r.levels).1;
              memory = put_page v va buf r.memory;
            })
            (rw (restore_page, q, g, page, p) refl)
            (λ pages. rw (all_placed, q, g, all_found, p) refl)
    ]
  ]
]

restore_run-succeeded :
    (imgs : List Image) (img : Image) (e : PagemapEntry) (base : ℕ) (es : List PagemapEntry)
    (n va : ℕ) (r : Reading) (k : Reading → Res Premapped) (more : List ℕ)
    → IsWhole (has_images imgs) img
    → va + n * page_size ≡ entry_end e
    → va % page_size ≡ 0
    → In imgs img e base va es r.levels
    → ((r2 : Reading)
        → In imgs img e base (entry_end e) es r2.levels
        → succeeded (k r2) ≡ fine (img ∷ imgs) r2.vmas more)
    → succeeded (restore_run n va r >>= k) ≡ fine (img ∷ imgs) r.vmas (page_run va n ++ more)
restore_run-succeeded imgs img e base es zero va r k more w q al i next =
    next r (subst (λ a. In imgs img e base a es r.levels) (omega (arith, q)) i)
restore_run-succeeded imgs img e base es (suc n) va r k more w q al i next =
    by_case
      (restore_page-PageCase (img ∷ imgs) va r
        (In-page imgs img e base va es r.levels w (omega (arith, q)) al i))
      (λ r2 ok2.
        ap (λ a. succeeded (restore_run n a r2 >>= k)) (omega (arith, q, i.stands.sorted.1))
        ∙ restore_run-succeeded imgs img e base es n (va + page_size) r2 k more w (omega (arith, q))
            (omega (arith, al))
            (restore_page-In imgs img e base va es r r2 w (omega (arith, q)) al i ok2).0 next)
  where
    by_case :
        PageCase (img ∷ imgs) va r
        → ((r2 : Reading)
            → restore_page va r ≡ ok r2
            → succeeded (restore_run n (add64 va page_size) r2 >>= k)
              ≡ fine (img ∷ imgs) r2.vmas (page_run (va + page_size) n ++ more))
        → succeeded (restore_run (suc n) va r >>= k)
          ≡ fine (img ∷ imgs) r.vmas (page_run va (suc n) ++ more)
    by_case (passes r2 ok2 same) rest =
        ap (λ z. succeeded ((z >>= λ s. restore_run n (add64 va page_size) s) >>= k)) ok2
        ∙ rest r2 ok2
        ∙ sym (same (page_run (va + page_size) n ++ more))
    by_case (fails failed never) rest =
        ap (λ z. succeeded ((z >>= λ s. restore_run n (add64 va page_size) s) >>= k)) failed
        ∙ sym (never (page_run (va + page_size) n ++ more))

bind_assoc {ℓ κ ι} :
    {A : Type ℓ} {B : Type κ} {C : Type ι} (r : Res A) (f : A → Res B) (g : B → Res C)
    → ((r >>= f) >>= g) ≡ (r >>= λ x. f x >>= g)
bind_assoc (ok x) f g = refl
bind_assoc err f g = refl
bind_assoc bug f g = refl

restore_entries-succeeded :
    (imgs : List Image) (img : Image) (es : List PagemapEntry) (r : Reading)
    (k : Reading → Res Premapped)
    → IsWhole (has_images imgs) img
    → Begins imgs img es r.levels
    → ((r2 : Reading) → succeeded (k r2) ≡ true)
    → succeeded (restore_entries es r >>= k) ≡ fine (img ∷ imgs) r.vmas (entry_pages es)
restore_entries-succeeded imgs img [] r k w b done = done r
restore_entries-succeeded imgs img (e ∷ es) r k w b done =
    ap (λ z. succeeded (z >>= k)) eq
    ∙ ap succeeded
        (bind_assoc (restore_run count e.vaddr start) (λ s. restore_entries es (after s)) k)
    ∙ restore_run-succeeded imgs img e n.base es count e.vaddr start
        (λ s. restore_entries es (after s) >>= k) (entry_pages es) w (entry_run e n.stands.sorted.1)
        n.stands.sorted.2
        (record {
          head = n.level;
          tail = b.tail;
          chain = refl;
          stands = n.stands;
          place = n.place;
          entries = n.entries;
          ready = n.ready;
        })
        (λ s i.
          restore_entries-succeeded imgs img es (after s) k w
            (In-Begins imgs img e n.base es s.levels i) done)
  where
    n : Next imgs img e es b.head b.tail
    n = b.next e es refl

    count : ℕ
    count = (pagemap2iovec e).iov_len / page_size

    start : Reading
    start = record r { levels = n.level ∷ b.tail }

    after : Reading → Reading
    after s = record s { levels = put_head s.levels }

    eq :
        restore_entries (e ∷ es) r
        ≡ (restore_run count e.vaddr start >>= λ s. restore_entries es (after s))
    eq = rw (restore_entries, b.chain, has_parents-eq imgs b.tail e.vaddr n.ready, n.got) refl

module _ (fresh : ℕ → List ℕ) (advise : ℕ → Bool) (advises : (a : ℕ) → advise a ≡ true) where
  drop_pages-succeeded :
      (n va : ℕ) (m : Premapped) → (m2 : Premapped) × (drop_pages fresh advise n va m ≡ ok m2)
  drop_pages-succeeded zero va m = (m, refl)
  drop_pages-succeeded (suc n) va m = elim (Bool-cases (m.ppage_bits va)) [
    | inl b ↦
        let m1 : Premapped = record m { content = set_at m.content va (fresh va) } in
        let (m2, e) = drop_pages-succeeded n (va + page_size) m1 in
        (m2, rw (drop_pages, b, advises va) e)
    | inr b ↦ let (m2, e) = drop_pages-succeeded n (va + page_size) m in (m2, rw (drop_pages, b) e)
  ]

  drop_unshared-succeeded :
      (vs : List RstVma) (m : Premapped) → succeeded (drop_unshared fresh advise vs m) ≡ true
  drop_unshared-succeeded [] m = refl
  drop_unshared-succeeded (v ∷ vs) m =
      let (m2, e) = one v.inherited in
      ap (λ z. succeeded (z >>= λ s. drop_unshared fresh advise vs s)) e
      ∙ drop_unshared-succeeded vs m2
    where
      one :
          (b : Bool)
          → (m2 : Premapped) × ((if b
                then drop_pages fresh advise (sub64 v.end v.start / page_size) v.start m
                else ok m)
              ≡ ok m2)
      one true = drop_pages-succeeded (sub64 v.end v.start / page_size) v.start m
      one false = (m, refl)

  pub restore_priv_vma_content-succeeded :
      (imgs : List Image) (img : Image) (vmas : List RstVma) (m : Premapped)
      → AllWhole (img ∷ imgs)
      → IsSorted 0 vmas
      → succeeded
          (restore_priv_vma_content fresh advise vmas img.entries (open_chain (img ∷ imgs)) m)
        ≡ (all_private vmas (entry_pages img.entries)
            && all_found (img ∷ imgs) (entry_pages img.entries))
  unfolding restore_priv_vma_content
  restore_priv_vma_content-succeeded imgs img vmas m w up =
      restore_entries-succeeded imgs img img.entries
        (record { vmas = vmas; levels = open_chain (img ∷ imgs); memory = m })
        (λ r. drop_unshared fresh advise vmas r.memory) w.0 (open_chain-Begins imgs img w)
        (λ r. drop_unshared-succeeded vmas r.memory)
      ∙ ap (λ b. b && all_found (img ∷ imgs) (entry_pages img.entries))
          (all_placed-all_private 0 vmas 0 (entry_pages img.entries) up
            (entry_pages-IsAscending 0 img.entries w.0.sorted))
