-- ===== src/PsTree/Siblings.antt =====
-- The tree that read_pstree_image (pstree.c) builds from an image: list_add puts each child before its siblings.
use crtools.Base.{
  ℕ, suc, ◌<◌, ◌+◌, ◌≡◌, refl, sym, ap, ap₂, ◌∙◌, ◌⊎◌, Bool, true, false, List, [], ◌∷◌, ◌++◌, map,
  append_assoc, append-nil, ok, All, All-append, ◌==◌, ==_iff, arith,
}
use crtools.Base.Order.{All-imp}
use crtools.PsTree.{
  Task, PsItem, PsForest, node, nil, cons, task_of, count, PstreeEntry, entry_of, write_entries,
  dump_pstree, ReadItem, Chain, Reader, list_add, with_item, fresh_reader, read_pstree_image,
}
use crtools.PsTree.Image.{
  HasPids, entry_below, item, pairs, pairs_all, fst, with_all, with_all-append, map-append,
  read_below, entries-preorder, write_entries-all, leads, visits,
}

-- The tree with all lists of siblings reversed.
abbrev mutual
  pub mirror : PsItem → PsItem
  mirror (node t cs) = node t (mirror_all cs nil)

  pub mirror_all : PsForest → PsForest → PsForest
  mirror_all nil before = before
  mirror_all (cons c cs) before = mirror_all cs (cons (mirror c) before)

-- The tasks in the order of the walk, each with its ancestors.
abbrev mutual
  pub chains : List Task → PsItem → List (List Task)
  chains up (node t cs) = (t ∷ up) ∷ chains_all (t ∷ up) cs

  pub chains_all : List Task → PsForest → List (List Task)
  chains_all up nil = []
  chains_all up (cons c cs) = chains up c ++ chains_all up cs

-- What is in the walk for an item and those below it, and for siblings, of which `before` have been added last.
abbrev mutual
  block : ℕ → Chain → PsItem → List Chain
  block n up (node t cs) = (item n t ∷ up) ∷ block_all (suc n) (item n t ∷ up) cs []

  block_all : ℕ → Chain → PsForest → List Chain → List Chain
  block_all n up nil before = before
  block_all n up (cons c cs) before = block_all (n + count c) up cs (block n up c ++ before)

abbrev IsBefore : ℕ → Chain → Type 0
IsBefore n [] = Unit {0}
IsBefore n (i ∷ up) = i.addr < n

IsBefore-le : (m n : ℕ) → m < n → (c : Chain) → IsBefore m c → IsBefore n c
IsBefore-le m n h [] b = tt
IsBefore-le m n h (i ∷ up) b = omega (arith, h, b)

list_add-behind :
    (p : ReadItem) (up new : Chain) (xs ys : List Chain)
    → All (IsBefore p.addr) xs
    → list_add p.addr new (xs ++ (p ∷ up) ∷ ys) ≡ xs ++ (p ∷ up) ∷ new ∷ ys
list_add-behind p up new [] ys a = rw (list_add, (==_iff p.addr p.addr).1 refl) refl
list_add-behind p up new ([] ∷ xs) ys a = ap (◌∷◌ []) (list_add-behind p up new xs ys a.1)
list_add-behind p up new ((i ∷ us) ∷ xs) ys a =
    let n : (i.addr == p.addr) ≡ false = (let a0 = a.0 in ground (arith, a0)) in
    rw (list_add, n) (ap (◌∷◌ (i ∷ us)) (list_add-behind p up new xs ys a.1))

-- Reading the children of `p`, which stands in the walk behind items that were read earlier.
with_all-block :
    (n : ℕ) (p : ReadItem) (up : Chain) (cs : PsForest) (xs before ys : List Chain) (r : Reader)
    → All (IsBefore p.addr) xs
    → p.addr < n
    → r.items ≡ xs ++ (p ∷ up) ∷ (before ++ ys)
    → (with_all (pairs_all n (p ∷ up) cs) r).items
      ≡ xs ++ (p ∷ up) ∷ (block_all n (p ∷ up) cs before ++ ys)
with_all-block n p up nil xs before ys r a h q = q
with_all-block n p up (cons (node t ds) cs) xs before ys r a h q =
    let k = item n t ∷ p ∷ up in
    let r1 = with_item (entry_below (p ∷ up) t) k r in
    let added : r1.items ≡ xs ++ ((p ∷ up) ∷ (k ∷ (before ++ ys))) =
      ap (list_add p.addr k) {y = xs ++ ((p ∷ up) ∷ (before ++ ys))} q
      ∙ list_add-behind p up k xs (before ++ ys) a in
    let placed : r1.items ≡ (xs ++ (p ∷ up) ∷ []) ++ (k ∷ (before ++ ys)) =
      added ∙ sym (append_assoc xs ((p ∷ up) ∷ []) (k ∷ (before ++ ys))) in
    let below =
      with_all-block (suc n) (item n t) (p ∷ up) ds (xs ++ (p ∷ up) ∷ []) [] (before ++ ys) r1
        (All-append (IsBefore n) xs ((p ∷ up) ∷ []) (All-imp (IsBefore-le p.addr n h) xs a) (h, tt))
        (omega arith) placed in
    let c = node t ds in
    let joined : (with_all (pairs n (p ∷ up) c) r).items
        ≡ xs ++ (p ∷ up) ∷ ((block n (p ∷ up) c ++ before) ++ ys) =
      below
      ∙ append_assoc xs ((p ∷ up) ∷ []) (block n (p ∷ up) c ++ (before ++ ys))
      ∙ ap (λ l. xs ++ (p ∷ up) ∷ l) (sym (append_assoc (block n (p ∷ up) c) before ys)) in
    ap (λ s. s.items) (with_all-append (pairs n (p ∷ up) c) (pairs_all (n + count c) (p ∷ up) cs) r)
    ∙ with_all-block (n + count c) p up cs xs (block n (p ∷ up) c ++ before) ys
        (with_all (pairs n (p ∷ up) c) r) a (omega (arith, h)) joined

abbrev pub tasks_of : Chain → List Task
tasks_of [] = []
tasks_of (i ∷ up) = i.task ∷ tasks_of up

mutual
  block-mirror :
      (n : ℕ) (up : Chain) (i : PsItem)
      → map tasks_of (block n up i) ≡ chains (tasks_of up) (mirror i)
  block-mirror n up (node t cs) =
      ap (◌∷◌ (t ∷ tasks_of up)) (block_all-mirror (suc n) (item n t ∷ up) cs [] nil refl)

  block_all-mirror :
      (n : ℕ) (up : Chain) (cs : PsForest) (before : List Chain) (done : PsForest)
      → map tasks_of before ≡ chains_all (tasks_of up) done
      → map tasks_of (block_all n up cs before) ≡ chains_all (tasks_of up) (mirror_all cs done)
  block_all-mirror n up nil before done q = q
  block_all-mirror n up (cons c cs) before done q =
      block_all-mirror (n + count c) up cs (block n up c ++ before) (cons (mirror c) done)
        (map-append tasks_of (block n up c) before ∙ ap₂ ◌++◌ (block-mirror n up c) q)

-- What the restore reads from the image of a tree.
pub record IsRead (root : PsItem) (es : List PstreeEntry) : Type 0 where
  pub reader : Reader
  pub returned : read_pstree_image es ≡ ok reader
  pub items : map tasks_of reader.items ≡ chains [] (mirror root)

-- Where every entry can be written, no pid is 0, and no task has the pid of an ancestor, dump_pstree of a tree whose
-- root leads its session, or with --shell-job, writes an image from which read_pstree_image builds the same tree, each
-- task with its ids, threads and ancestors, but with all siblings in the opposite order.
pub dump_pstree-IsRead :
    (write : PstreeEntry → Bool)
    → ((e : PstreeEntry) → write e ≡ true)
    → (shell_job : Bool) (root : PsItem) → HasPids root
    → (shell_job ≡ true) ⊎ ((task_of root).pid ≡ (task_of root).sid)
    → (es : List PstreeEntry) × (dump_pstree write shell_job root ≡ ok es) × IsRead root es
unfolding dump_pstree read_pstree_image
dump_pstree-IsRead write w shell_job (node t cs) p leader =
    let root = node t cs in
    let es = map fst (pairs 0 [] root) in
    let r1 = with_item (entry_below [] t) (item 0 t ∷ []) fresh_reader in
    let r = with_all (pairs 0 [] root) fresh_reader in
    let dumped : dump_pstree write shell_job root ≡ ok es =
      rw (dump_pstree, leads t.pid t.sid shell_job leader)
        (ap (λ vs. write_entries write (map entry_of vs)) (visits root)
          ∙ ap (write_entries write) (entries-preorder 0 [] root)
          ∙ write_entries-all write es w) in
    let read = read_below 1 (item 0 t) [] cs r1 [] p.0 p.2 p.1 ([], refl, tt) refl in
    (
      es,
      dumped,
      record {
        reader = r;
        returned = rw append-nil at read;
        items =
            ap (map tasks_of) (
              with_all-block 1 (item 0 t) [] cs [] [] [] r1 tt (omega arith) refl
              ∙ ap (◌∷◌ (item 0 t ∷ [])) (append-nil (block_all 1 (item 0 t ∷ []) cs [])))
            ∙ block-mirror 0 [] root;
      },
    )
