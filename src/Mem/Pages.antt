-- ===== src/Mem/Pages.antt =====
-- The loop of generate_iovs (mem.c), page by page.
use crtools.Base.{
  ℕ, suc, ◌+◌, ◌*◌, ◌≤◌, ◌<◌, ◌≡◌, refl, sym, ap, subst, ◌∙◌, inl, inr, Bool, true, false, List, [],
  ◌∷◌, ◌++◌, Option, none, some, Res, ok, err, bug, Bool-cases, arith, add64, page_size, length,
  length-append, append-nil, append_assoc,
}
use crtools.Iov.{Iovec}
use crtools.PagePipe.{PagePipe, Kernel, IsDocumented, pp_holes_batch}
use crtools.PagePipe.Inv.{contents}
use crtools.PagePipe.Buf.{AddsPage}
use crtools.PagePipe.Add.{AddResult, adds, page_pipe_add_page-AddResult}
use crtools.PagePipe.Add
use crtools.PagePipe.Holes.{hole_pages, AddsHole, page_pipe_add_hole-AddsHole}
use crtools.Mem.{MemSnapCtx, VmaEntry, Scan, should_dump_page, in_parent, scan_page, scan_pages}
use crtools.Mem.Generate.{
  IsFit, IsTracked, map_of, left_to_parent, addrs_where, is_page, is_hole, AllTracked, IsReady,
  Scanned, Decided, in_parent-Decided,
}

IsFit-le : (snap : Option MemSnapCtx) (v w : ℕ) → v ≤ w → IsFit snap v → IsFit snap w
IsFit-le none v w h f = tt
IsFit-le (some s) v w h f = record {
  inside = f.inside;
  room = f.room;
  sorted = f.sorted;
  passed = λ u hu. f.passed u (omega arith);
}

addrs_where_cons :
    (p : ℕ → ℕ → Bool) (a pme : ℕ) (pmes : List ℕ)
    → addrs_where p a (pme ∷ pmes)
      ≡ addrs_where p a (pme ∷ []) ++ addrs_where p (a + page_size) pmes
addrs_where_cons p a pme pmes = elim (Bool-cases (p a pme)) [ inl e ↦ rw e | inr e ↦ rw e ]

module _ (k : Kernel) (doc : IsDocumented k) (vma : VmaEntry) (m : Option (List Iovec)) where
  -- How the scan of `pmes` from `a` on ends.
  pub data ScanResult (s : Scan) (a : ℕ) (pmes : List ℕ) (n : ℕ) (r : Res Scan) : Type 0 where
    scanned :
        (s' : Scan)
        → r ≡ ok s'
        → Scanned vma m s
            (a + length pmes * page_size)
            n
            (addrs_where (is_page vma m) a pmes)
            (addrs_where (is_hole vma m) a pmes)
            s'
        → ScanResult s a pmes n r
    no_pipe : (i : ℕ) → r ≡ err → k.new_pipe i ≡ none → ScanResult s a pmes n r
    no_memory : (i : ℕ) → r ≡ err → k.grow_holes i ≡ false → ScanResult s a pmes n r
    no_iov :
        r ≡ bug
        → s.pp.nr_iovs < s.pp.free_iov + length (addrs_where (is_page vma m) a pmes)
        → ScanResult s a pmes n r

  module _ (s : Scan) (a n : ℕ) (v : IsReady vma m s a (suc n)) where
    skip_page : Scanned vma m s (a + page_size) n [] [] s
    skip_page = (record {
      ready = record {
        pipe = v.pipe;
        holes = v.holes;
        fit = IsFit-le s.snap a (a + page_size) (omega arith) v.fit;
        map = v.map;
        low = omega (arith, v.low);
        hole_room = omega (arith, v.hole_room);
        counts = omega (arith, v.counts.0, v.counts.1);
      };
      pages = sym (append-nil (contents s.pp));
      lefts = sym (append-nil (hole_pages s.pp));
      written = omega arith;
      skipped = omega arith;
      segs = omega arith;
      array = refl;
    })

    with_page : Option MemSnapCtx → PagePipe → Scan
    with_page snap' pp' = record s { pp = pp'; snap = snap'; written = add64 s.written 1 }

    add_page :
        (snap' : Option MemSnapCtx) (pp' : PagePipe)
        → IsFit snap' a
        → map_of snap' ≡ m
        → AddsPage s.pp a pp'
        → Scanned vma m s (a + page_size) n (a ∷ []) [] (with_page snap' pp')
    unfolding with_page
    add_page snap' pp' fit same add = (record {
      ready = record {
        pipe = add.inv;
        holes = record {
          room = omega (arith, v.holes.room, ap length add.same_holes.0, add.same_holes.2);
          used = omega (arith, v.holes.used, add.same_holes.1, add.same_holes.2);
          paged = rw (add.same_holes.0, add.same_holes.1) v.holes.paged;
        };
        fit = IsFit-le snap' a (a + page_size) (omega arith) fit;
        map = same;
        low = omega (arith, v.low);
        hole_room = omega (arith, v.hole_room, add.same_holes.2);
        counts = omega (arith, v.counts.0, v.counts.1);
      };
      pages = add.appended;
      lefts = rw (add.same_holes.0, add.same_holes.1) (sym (append-nil (hole_pages s.pp)));
      written = omega (arith, v.counts.1);
      skipped = omega arith;
      segs = omega (arith, add.few_segs.0);
      array = add.few_segs.1;
    })

    with_hole : Option MemSnapCtx → PagePipe → Scan
    with_hole snap' pp' = record s { pp = pp'; snap = snap'; skipped = add64 s.skipped 1 }

    add_hole :
        (snap' : Option MemSnapCtx) (pp' : PagePipe)
        → IsFit snap' a
        → map_of snap' ≡ m
        → AddsHole s.pp a pp'
        → Scanned vma m s (a + page_size) n [] (a ∷ []) (with_hole snap' pp')
    unfolding with_hole
    add_hole snap' pp' fit same add = (record {
      ready = record {
        pipe = record {
          started = omega (arith, v.pipe.started, ap length add.same_pages.3);
          room = omega (arith, v.pipe.room, ap length add.same_pages.0, add.same_pages.2);
          word = omega (arith, v.pipe.word, add.same_pages.2);
          used = omega (arith, v.pipe.used, add.same_pages.1, add.same_pages.2);
          chain = rw (add.same_pages.0, add.same_pages.1, add.same_pages.3) v.pipe.chain;
          paged = rw (add.same_pages.0, add.same_pages.1) v.pipe.paged;
        };
        holes = add.inv;
        fit = IsFit-le snap' a (a + page_size) (omega arith) fit;
        map = same;
        low = omega (arith, v.low);
        hole_room = omega (arith, v.hole_room, add.few);
        counts = omega (arith, v.counts.0, v.counts.1);
      };
      pages = rw (add.same_pages.0, add.same_pages.1) (sym (append-nil (contents s.pp)));
      lefts = add.appended;
      written = omega arith;
      skipped = omega (arith, v.counts.0);
      segs = omega (arith, add.same_pages.1);
      array = add.same_pages.2;
    })

  Scanned-trans :
      {s s1 s2 : Scan} {b c n n' : ℕ} (ps ps' hs hs' : List ℕ)
      → Scanned vma m s b n ps hs s1
      → Scanned vma m s1 c n' ps' hs' s2
      → Scanned vma m s c n' (ps ++ ps') (hs ++ hs') s2
  Scanned-trans {s} ps ps' hs hs' p q = record {
    ready = q.ready;
    pages = q.pages ∙ ap (λ l. l ++ ps') p.pages ∙ append_assoc (contents s.pp) ps ps';
    lefts = q.lefts ∙ ap (λ l. l ++ hs') p.lefts ∙ append_assoc (hole_pages s.pp) hs hs';
    written = omega (arith, p.written, q.written, length-append ps ps');
    skipped = omega (arith, p.skipped, q.skipped, length-append hs hs');
    segs = omega (arith, p.segs, q.segs, length-append ps ps');
    array = q.array ∙ p.array;
  }

  scan_page-ScanResult :
      (s : Scan) (a pme n : ℕ)
      → IsReady vma m s a (suc n)
      → (should_dump_page vma pme ≡ true → IsTracked m a pme)
      → ScanResult s a (pme ∷ []) n (scan_page k vma a pme s)
  unfolding scan_page with_hole with_page
  scan_page-ScanResult s a pme n v t = elim (Bool-cases (should_dump_page vma pme)) [
    | inr no_dump ↦ scanned s (rw no_dump) (rw no_dump (skip_page s a n v))
    | inl dump ↦ dumped dump
  ]
    where
      decided :
          should_dump_page vma pme ≡ true → Decided a pme s.snap (in_parent k.fresh a pme s.snap)
      decided dump =
          in_parent-Decided k.fresh a pme s.snap v.fit
            (subst (λ x. IsTracked x a pme) (sym v.map) (t dump))

      found :
          should_dump_page vma pme ≡ true
          → (in_parent k.fresh a pme s.snap).0 ≡ left_to_parent m a pme
      found dump = (decided dump).right ∙ ap (λ x. left_to_parent x a pme) v.map

      dumped :
          should_dump_page vma pme ≡ true → ScanResult s a (pme ∷ []) n (scan_page k vma a pme s)
      dumped dump = elim (Bool-cases (left_to_parent m a pme)) [
        | inl left ↦
            elim (page_pipe_add_hole-AddsHole k s.pp a v.holes (omega (arith, v.hole_room))
              (omega (arith, v.low))) [
                | inl (pp', r, add) ↦
                    scanned (with_hole s a n v (in_parent k.fresh a pme s.snap).1 pp')
                      (rw (dump, found dump ∙ left, r))
                      (rw (dump, left)
                        (add_hole s a n v (in_parent k.fresh a pme s.snap).1 pp' (decided dump).fit
                          ((decided dump).same ∙ v.map) add))
                | inr (r, at_end, e) ↦
                    no_memory (s.pp.nr_holes + pp_holes_batch) (rw (dump, found dump ∙ left, r)) e
              ]
        | inr kept ↦
            elim (page_pipe_add_page-AddResult k doc s.pp a v.pipe (omega (arith, v.low))) [
              | adds pp' r add ↦
                  scanned (with_page s a n v (in_parent k.fresh a pme s.snap).1 pp')
                    (rw (dump, found dump ∙ kept, r))
                    (rw (dump, kept)
                      (add_page s a n v (in_parent k.fresh a pme s.snap).1 pp' (decided dump).fit
                        ((decided dump).same ∙ v.map) add))
              | Add.no_pipe i r e ↦ no_pipe i (rw (dump, found dump ∙ kept, r)) e
              | Add.no_iov r e ↦
                  no_iov (rw (dump, found dump ∙ kept, r)) (rw (dump, kept) (omega (arith, e)))
            ]
      ]

  pub scan_pages-ScanResult :
      (pmes : List ℕ) (n pfn a : ℕ) (s : Scan)
      → IsReady vma m s a (length pmes + n)
      → AllTracked vma m a pmes
      → vma.start + pfn * page_size ≡ a
      → ScanResult s a pmes n (scan_pages k vma pfn pmes s)
  unfolding scan_pages
  scan_pages-ScanResult [] n pfn a s v t e = scanned s refl (record {
    ready =
        let same : 0 + n ≡ n = omega arith in
        let here : a + 0 * page_size ≡ a = omega arith in
        rw here (subst (IsReady vma m s a) same v);
    pages = sym (append-nil (contents s.pp));
    lefts = sym (append-nil (hole_pages s.pp));
    written = omega arith;
    skipped = omega arith;
    segs = omega arith;
    array = refl;
  })
  scan_pages-ScanResult (pme ∷ pmes) n pfn a s v t e =
      elim (scan_page-ScanResult s a pme (length pmes + n) (subst (IsReady vma m s a) more v) t.0) [
        | scanned s1 r sc ↦ after s1 r sc (
            scan_pages-ScanResult pmes n (pfn + 1) (a + page_size) s1 sc.ready t.1
              (omega (arith, e)))
        | no_pipe i r f ↦ no_pipe i (rw (here, r)) f
        | no_memory i r f ↦ no_memory i (rw (here, r)) f
        | no_iov r l ↦
            no_iov (rw (here, r)) (omega (arith, l, ap length pages_split, length-append ps1 ps2))
      ]
    where
      more : suc (length pmes) + n ≡ suc (length pmes + n)
      more = omega arith

      here : add64 vma.start (pfn * page_size) ≡ a
      here = omega (arith, v.low)

      ps1 : List ℕ
      ps1 = addrs_where (is_page vma m) a (pme ∷ [])

      ps2 : List ℕ
      ps2 = addrs_where (is_page vma m) (a + page_size) pmes

      hs1 : List ℕ
      hs1 = addrs_where (is_hole vma m) a (pme ∷ [])

      hs2 : List ℕ
      hs2 = addrs_where (is_hole vma m) (a + page_size) pmes

      pages_split : addrs_where (is_page vma m) a (pme ∷ pmes) ≡ ps1 ++ ps2
      pages_split = addrs_where_cons (is_page vma m) a pme pmes

      holes_split : addrs_where (is_hole vma m) a (pme ∷ pmes) ≡ hs1 ++ hs2
      holes_split = addrs_where_cons (is_hole vma m) a pme pmes

      up : a + page_size + length pmes * page_size ≡ a + suc (length pmes) * page_size
      up = omega arith

      after :
          (s1 : Scan)
          → scan_page k vma a pme s ≡ ok s1
          → Scanned vma m s (a + page_size) (length pmes + n) ps1 hs1 s1
          → ScanResult s1 (a + page_size) pmes n (scan_pages k vma (pfn + 1) pmes s1)
          → ScanResult s a (pme ∷ pmes) n (scan_pages k vma pfn (pme ∷ pmes) s)
      after s1 r sc (scanned s2 r2 sc2) = scanned s2 (rw (here, r) r2) (
          subst
            (λ ps.
              Scanned vma m s (a + suc (length pmes) * page_size) n ps
                (addrs_where (is_hole vma m) a (pme ∷ pmes)) s2)
            (sym pages_split)
            (subst (λ hs. Scanned vma m s (a + suc (length pmes) * page_size) n (ps1 ++ ps2) hs s2)
              (sym holes_split)
              (subst (λ b. Scanned vma m s b n (ps1 ++ ps2) (hs1 ++ hs2) s2) up
                (Scanned-trans ps1 ps2 hs1 hs2 sc sc2))))
      after s1 r sc (no_pipe i r2 f) = no_pipe i (rw (here, r) r2) f
      after s1 r sc (no_memory i r2 f) = no_memory i (rw (here, r) r2) f
      after s1 r sc (no_iov r2 l) =
          no_iov (rw (here, r) r2)
            (omega (arith, l, sc.segs, sc.array, ap length pages_split, length-append ps1 ps2))
