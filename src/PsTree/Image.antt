-- ===== src/PsTree/Image.antt =====
-- The image of the tree of tasks (dump_pstree and read_pstree_image of pstree.c).
use crtools.Base.{
  ℕ, suc, ◌+◌, ◌≡◌, ◌≢◌, refl, sym, ap, ap₂, ◌∙◌, subst, ◌⊎◌, inl, inr, Bool, true, false,
  Bool-cases, ◌&&◌, not, Option, none, some, List, [], ◌∷◌, ◌++◌, map, append_assoc, ok, All,
  All-append, ◌==◌, ==_iff, arith,
}
use crtools.Base.Order.{All-left, All-right}
use crtools.PsTree.{
  Task, PsItem, PsForest, node, nil, cons, walk, count, count_all, for_each_pstree_item,
  PstreeEntry, entry_of, write_entries, ReadItem, Chain, Reader, ancestor, find_parent, place_item,
  with_item, read_entries,
}
use crtools.PsTree.Walk.{preorder, preorder_all, for_each_pstree_item-preorder}

abbrev mutual
  pub tasks : PsItem → List Task
  tasks (node t cs) = t ∷ tasks_all cs

  pub tasks_all : PsForest → List Task
  tasks_all nil = []
  tasks_all (cons c cs) = tasks c ++ tasks_all cs

-- No pid is 0, and no task has the pid of an ancestor.
abbrev mutual
  pub HasPids : PsItem → Type 0
  HasPids (node t cs) = (t.pid ≢ 0) × All (λ s. s.pid ≢ t.pid) (tasks_all cs) × AllPids cs

  pub AllPids : PsForest → Type 0
  AllPids nil = Unit {0}
  AllPids (cons c cs) = HasPids c × AllPids cs

abbrev pub head_of : Chain → Option Task
head_of [] = none
head_of (i ∷ up) = some i.task

abbrev pub entry_below : Chain → Task → PstreeEntry
entry_below up t = entry_of (record { task = t; parent = head_of up })

abbrev pub item : ℕ → Task → ReadItem
item n t = record { addr = n; task = t }

-- The entries of the image, each with the item that it stands for; the first one is the `n`-th.
abbrev mutual
  pub pairs : ℕ → Chain → PsItem → List (PstreeEntry × Chain)
  pairs n up (node t cs) = (entry_below up t, item n t ∷ up) ∷ pairs_all (suc n) (item n t ∷ up) cs

  pub pairs_all : ℕ → Chain → PsForest → List (PstreeEntry × Chain)
  pairs_all n up nil = []
  pairs_all n up (cons c cs) = pairs n up c ++ pairs_all (n + count c) up cs

abbrev pub fst : PstreeEntry × Chain → PstreeEntry
fst p = p.0

abbrev pub with_all : List (PstreeEntry × Chain) → Reader → Reader
with_all [] r = r
with_all (p ∷ ps) r = with_all ps (with_item p.0 p.1 r)

pub with_all-append :
    (ps qs : List (PstreeEntry × Chain)) (r : Reader)
    → with_all (ps ++ qs) r ≡ with_all qs (with_all ps r)
with_all-append [] qs r = refl
with_all-append (p ∷ ps) qs r = with_all-append ps qs (with_item p.0 p.1 r)

pub map-append {ℓ κ} :
    {A : Type ℓ} {B : Type κ} (f : A → B) (xs ys : List A) → map f (xs ++ ys) ≡ map f xs ++ map f ys
map-append f [] ys = refl
map-append f (x ∷ xs) ys = ap (◌∷◌ (f x)) (map-append f xs ys)

-- Where the reader stands after an item or a list of siblings: at a task below `up`.
module _ (Q : Task → Type 0) where
  abbrev pub Stands : Chain → Reader → Type 0
  Stands up r = (xs : Chain) × (r.parent ≡ xs ++ up) × All (λ i. Q i.task) xs

  mutual
    Stands-item :
        (n : ℕ) (up : Chain) (i : PsItem) (r : Reader)
        → All Q (tasks i)
        → Stands up (with_all (pairs n up i) r)
    Stands-item n up (node t cs) r q =
        let s =
          Stands-all (suc n) (item n t ∷ up) cs (with_item (entry_below up t) (item n t ∷ up) r) q.1
            ([], refl, tt) in
        (
          s.0 ++ item n t ∷ [],
          s.1 ∙ sym (append_assoc s.0 (item n t ∷ []) up),
          All-append (λ i. Q i.task) s.0 (item n t ∷ []) s.2 (q.0, tt),
        )

    Stands-all :
        (n : ℕ) (up : Chain) (cs : PsForest) (r : Reader)
        → All Q (tasks_all cs)
        → Stands up r
        → Stands up (with_all (pairs_all n up cs) r)
    Stands-all n up nil r q s = s
    Stands-all n up (cons c cs) r q s =
        rw (with_all-append (pairs n up c) (pairs_all (n + count c) up cs) r) (
          Stands-all (n + count c) up cs (with_all (pairs n up c) r)
            (All-right Q (tasks c) (tasks_all cs) q)
            (Stands-item n up c r (All-left Q (tasks c) (tasks_all cs) q)))

mutual
  nr_tasks-item :
      (n : ℕ) (up : Chain) (i : PsItem) (r : Reader)
      → (with_all (pairs n up i) r).nr_tasks ≡ r.nr_tasks + count i
  nr_tasks-item n up (node t cs) r =
      nr_tasks-all (suc n) (item n t ∷ up) cs (with_item (entry_below up t) (item n t ∷ up) r)
      ∙ omega arith

  nr_tasks-all :
      (n : ℕ) (up : Chain) (cs : PsForest) (r : Reader)
      → (with_all (pairs_all n up cs) r).nr_tasks ≡ r.nr_tasks + count_all cs
  nr_tasks-all n up nil r = omega arith
  nr_tasks-all n up (cons c cs) r =
      ap (λ s. s.nr_tasks) (with_all-append (pairs n up c) (pairs_all (n + count c) up cs) r)
      ∙ nr_tasks-all (n + count c) up cs (with_all (pairs n up c) r)
      ∙ (let k = nr_tasks-item n up c r in omega (arith, k))

-- The parent is found among the ancestors of the item read last.
ancestor-stands :
    (u : ReadItem) (us xs : Chain)
    → All (λ s. s.task.pid ≢ u.task.pid) xs
    → ancestor u.task.pid (xs ++ u ∷ us) ≡ u ∷ us
ancestor-stands u us [] a = rw (ancestor, (==_iff u.task.pid u.task.pid).1 refl) refl
ancestor-stands u us (x ∷ xs) a =
    let n : (x.task.pid == u.task.pid) ≡ false = (let a0 = a.0 in ground (arith, a0)) in
    rw (ancestor, n) (ancestor-stands u us xs a.1)

place_item-below :
    (m : ℕ) (u : ReadItem) (us : Chain) (t : Task) (r : Reader)
    → u.task.pid ≢ 0
    → Stands (λ s. s.pid ≢ u.task.pid) (u ∷ us) r
    → r.nr_tasks ≡ m
    → place_item (entry_below (u ∷ us) t) r ≡ ok (item m t ∷ u ∷ us)
place_item-below m u us t r n s k =
    let z : (u.task.pid == 0) ≡ false = ground (arith, n) in
    let a : ancestor u.task.pid r.parent ≡ u ∷ us =
      ap (ancestor u.task.pid) s.1 ∙ ancestor-stands u us s.0 s.2 in
    rw (place_item, z, find_parent, a) (ap (λ c. ok (item c t ∷ u ∷ us)) k)

mutual
  read_item :
      (m : ℕ) (u : ReadItem) (us : Chain) (i : PsItem) (r : Reader) (more : List PstreeEntry)
      → u.task.pid ≢ 0
      → HasPids i
      → Stands (λ s. s.pid ≢ u.task.pid) (u ∷ us) r
      → r.nr_tasks ≡ m
      → read_entries (map fst (pairs m (u ∷ us) i) ++ more) r
        ≡ read_entries more (with_all (pairs m (u ∷ us) i) r)
  read_item m u us (node t cs) r more n p s k =
      rw (read_entries, place_item-below m u us t r n s k)
        (read_below (suc m) (item m t) (u ∷ us) cs
          (with_item (entry_below (u ∷ us) t) (item m t ∷ u ∷ us) r) more p.0 p.2 p.1 ([], refl, tt)
          (ap suc k))

  pub read_below :
      (m : ℕ) (u : ReadItem) (us : Chain) (cs : PsForest) (r : Reader) (more : List PstreeEntry)
      → u.task.pid ≢ 0
      → AllPids cs
      → All (λ s. s.pid ≢ u.task.pid) (tasks_all cs)
      → Stands (λ s. s.pid ≢ u.task.pid) (u ∷ us) r
      → r.nr_tasks ≡ m
      → read_entries (map fst (pairs_all m (u ∷ us) cs) ++ more) r
        ≡ read_entries more (with_all (pairs_all m (u ∷ us) cs) r)
  read_below m u us nil r more n p a s k = refl
  read_below m u us (cons c cs) r more n p a s k =
      let Q = λ (s : Task). s.pid ≢ u.task.pid in
      let m2 = m + count c in
      let rest = map fst (pairs_all m2 (u ∷ us) cs) ++ more in
      let r2 = with_all (pairs m (u ∷ us) c) r in
      rw
        (
          map-append fst (pairs m (u ∷ us) c) (pairs_all m2 (u ∷ us) cs),
          append_assoc (map fst (pairs m (u ∷ us) c)) (map fst (pairs_all m2 (u ∷ us) cs)) more,
          with_all-append (pairs m (u ∷ us) c) (pairs_all m2 (u ∷ us) cs) r,
        )
        (read_item m u us c r rest n p.0 s k
          ∙ read_below m2 u us cs r2 more n p.1 (All-right Q (tasks c) (tasks_all cs) a)
              (Stands-item Q m (u ∷ us) c r (All-left Q (tasks c) (tasks_all cs) a))
              (nr_tasks-item m (u ∷ us) c r ∙ ap (λ z. z + count c) k))

mutual
  pub entries-preorder :
      (n : ℕ) (up : Chain) (i : PsItem)
      → map entry_of (preorder (head_of up) i) ≡ map fst (pairs n up i)
  entries-preorder n up (node t cs) =
      ap (◌∷◌ (entry_below up t)) (entries-preorder_all (suc n) (item n t) up cs)

  entries-preorder_all :
      (n : ℕ) (u : ReadItem) (up : Chain) (cs : PsForest)
      → map entry_of (preorder_all u.task cs) ≡ map fst (pairs_all n (u ∷ up) cs)
  entries-preorder_all n u up nil = refl
  entries-preorder_all n u up (cons c cs) =
      map-append entry_of (preorder (some u.task) c) (preorder_all u.task cs)
      ∙ ap₂ ◌++◌ (entries-preorder n (u ∷ up) c) (entries-preorder_all (n + count c) u up cs)
      ∙ sym (map-append fst (pairs n (u ∷ up) c) (pairs_all (n + count c) (u ∷ up) cs))

pub write_entries-all :
    (write : PstreeEntry → Bool) (es : List PstreeEntry)
    → ((e : PstreeEntry) → write e ≡ true)
    → write_entries write es ≡ ok es
write_entries-all write [] h = refl
write_entries-all write (e ∷ es) h = rw (write_entries, h e, write_entries-all write es h) refl

pub visits : (root : PsItem) → for_each_pstree_item root ≡ preorder none root
visits root =
    let z : count root + 0 ≡ count root = omega arith in
    subst (λ n. walk n (some (record { item = root; levels = [] })) ≡ preorder none root) z
      (for_each_pstree_item-preorder root 0)

-- The test for the leader of a session.
pub leads :
    (pid sid : ℕ) (shell_job : Bool)
    → (shell_job ≡ true) ⊎ (pid ≡ sid)
    → (not (pid == sid) && not shell_job) ≡ false
leads pid sid shell_job (inl e) = elim (Bool-cases (pid == sid)) [
  | inl h ↦ rw h refl
  | inr h ↦ rw (h, e) refl
]
leads pid sid shell_job (inr e) = rw ((==_iff pid sid).1 e) refl
