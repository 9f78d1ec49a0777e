-- ===== src/PsTree/Bounds.antt =====
-- `max_pid` of pstree.c, from which helper tasks get their pids.
use crtools.Base.{
  ℕ, ◌≤◌, max, ◌≡◌, refl, ◌⊎◌, inl, inr, bug, true, false, Bool-cases, List, [], ◌∷◌, Res, ok, err,
  All, ◌==◌, subst, arith,
}
use crtools.Base.Order.{All-imp}
use crtools.PsTree.{
  Task, PstreeEntry, Chain, Reader, ancestor, find_item, find_parent, item_from, list_add, add_item,
  place_item, with_item, read_entries, fresh_reader, read_pstree_image,
}

-- No id of the task is greater.
abbrev pub IsBelow : ℕ → Task → Type 0
IsBelow m t = (t.pid ≤ m) × (t.pgid ≤ m) × (t.sid ≤ m)

abbrev pub AllBelow : ℕ → Chain → Type 0
AllBelow m c = All (λ i. IsBelow m i.task) c

IsBelow-more : (m n : ℕ) → m ≤ n → (t : Task) → IsBelow m t → IsBelow n t
IsBelow-more m n h t b =
    let b0 = b.0 in
    let b1 = b.1 in
    let b2 = b.2 in (omega (arith, h, b0), omega (arith, h, b1), omega (arith, h, b2))

chain_more : (m n : ℕ) → m ≤ n → (c : Chain) → AllBelow m c → AllBelow n c
chain_more m n h c a = All-imp (λ i. IsBelow-more m n h i.task) c a

ancestor-AllBelow : (m ppid : ℕ) (c : Chain) → AllBelow m c → AllBelow m (ancestor ppid c)
ancestor-AllBelow m ppid [] a = tt
ancestor-AllBelow m ppid (t ∷ ts) a = elim (Bool-cases (t.task.pid == ppid)) [
  | inl h ↦ rw (ancestor, h) a
  | inr h ↦ rw (ancestor, h) (ancestor-AllBelow m ppid ts a.1)
]

find_item-AllBelow :
    (m ppid : ℕ) (cs : List Chain) → All (AllBelow m) cs → AllBelow m (find_item ppid cs)
find_item-AllBelow m ppid [] a = tt
find_item-AllBelow m ppid ([] ∷ cs) a = find_item-AllBelow m ppid cs a.1
find_item-AllBelow m ppid ((t ∷ ts) ∷ cs) a = elim (Bool-cases (t.task.pid == ppid)) [
  | inl h ↦ rw (find_item, h) a.0
  | inr h ↦ rw (find_item, h) (find_item-AllBelow m ppid cs a.1)
]

record IsBounded (r : Reader) : Type 0 where
  items : All (AllBelow r.max_pid) r.items
  parent : AllBelow r.max_pid r.parent

find_parent-AllBelow :
    (ppid : ℕ) (r : Reader) → IsBounded r → AllBelow r.max_pid (find_parent ppid r)
find_parent-AllBelow ppid r b =
    go (ancestor ppid r.parent) refl (ancestor-AllBelow r.max_pid ppid r.parent b.parent)
  where
    go :
        (c : Chain)
        → ancestor ppid r.parent ≡ c
        → AllBelow r.max_pid c
        → AllBelow r.max_pid (find_parent ppid r)
    go [] e a = rw (find_parent, e) (find_item-AllBelow r.max_pid ppid r.items b.items)
    go (t ∷ ts) e a = rw (find_parent, e) a

list_add-All :
    (P : Chain → Type 0) (parent : ℕ) (item : Chain) (cs : List Chain)
    → P item
    → All P cs
    → All P (list_add parent item cs)
list_add-All P parent item [] p a = tt
list_add-All P parent item ([] ∷ cs) p a = (a.0, list_add-All P parent item cs p a.1)
list_add-All P parent item ((i ∷ up) ∷ cs) p a = elim (Bool-cases (i.addr == parent)) [
  | inl h ↦ rw (list_add, h) (a.0, (p, a.1))
  | inr h ↦ rw (list_add, h) (a.0, list_add-All P parent item cs p a.1)
]

add_item-All :
    (P : Chain → Type 0) (item : Chain) (cs : List Chain)
    → P item
    → All P cs
    → All P (add_item item cs)
add_item-All P [] cs p a = a
add_item-All P (i ∷ []) cs p a = (p, a)
add_item-All P (i ∷ q ∷ up) cs p a = list_add-All P q.addr (i ∷ q ∷ up) cs p a

with_item-IsBounded :
    (e : PstreeEntry) (up : Chain) (r : Reader)
    → IsBounded r
    → AllBelow r.max_pid up
    → IsBounded (with_item e (item_from e r ∷ up) r)
with_item-IsBounded e up r b a =
    let m = max e.sid (max e.pgid (max e.pid r.max_pid)) in
    let le : r.max_pid ≤ m = omega arith in
    let chain : AllBelow m (item_from e r ∷ up) =
      ((omega arith, omega arith, omega arith), chain_more r.max_pid m le up a) in
    record {
      items =
          add_item-All (AllBelow m) (item_from e r ∷ up) r.items chain
            (All-imp (chain_more r.max_pid m le) r.items b.items);
      parent = chain;
    }

-- The chain of a new item is its task and one that was there.
place_item-cases :
    (e : PstreeEntry) (r : Reader) (c : Chain)
    → place_item e r ≡ ok c
    → (c ≡ item_from e r ∷ []) ⊎ (c ≡ item_from e r ∷ find_parent e.ppid r)
place_item-cases e r c h = elim (Bool-cases (e.ppid == 0)) [
  | inl z ↦ first r.items refl z
  | inr z ↦ below (find_parent e.ppid r) refl z
]
  where
    first :
        (cs : List Chain)
        → r.items ≡ cs
        → (e.ppid == 0) ≡ true
        → (c ≡ item_from e r ∷ []) ⊎ (c ≡ item_from e r ∷ find_parent e.ppid r)
    first [] q z = let k : ok (item_from e r ∷ []) ≡ ok c = (rw (place_item, z, q) at h) in inl (cc)
    first (d ∷ ds) q z = let k : err ≡ ok c = (rw (place_item, z, q) at h) in absurd (cc)

    below :
        (up : Chain)
        → find_parent e.ppid r ≡ up
        → (e.ppid == 0) ≡ false
        → (c ≡ item_from e r ∷ []) ⊎ (c ≡ item_from e r ∷ find_parent e.ppid r)
    below [] q z = let k : err ≡ ok c = (rw (place_item, z, q) at h) in absurd (cc)
    below (t ∷ ts) q z =
        let k : ok (item_from e r ∷ t ∷ ts) ≡ ok c = (rw (place_item, z, q) at h) in inr (cc)

placed-IsBounded :
    (e : PstreeEntry) (r : Reader) (c : Chain)
    → place_item e r ≡ ok c
    → IsBounded r
    → IsBounded (with_item e c r)
placed-IsBounded e r c h b = elim (place_item-cases e r c h) [
  | inl q ↦ rw q (with_item-IsBounded e [] r b tt)
  | inr q ↦
      rw q (with_item-IsBounded e (find_parent e.ppid r) r b (find_parent-AllBelow e.ppid r b))
]

read_entries-IsBounded :
    (es : List PstreeEntry) (r out : Reader)
    → IsBounded r
    → read_entries es r ≡ ok out
    → IsBounded out
read_entries-IsBounded [] r out b h = let same : r ≡ out = cc in subst IsBounded same b
read_entries-IsBounded (e ∷ es) r out b h =
    go (place_item e r) refl (λ c. read_entries-IsBounded es (with_item e c r) out)
  where
    go :
        (x : Res Chain)
        → place_item e r ≡ x
        → ((c : Chain)
            → IsBounded (with_item e c r)
            → read_entries es (with_item e c r) ≡ ok out
            → IsBounded out)
        → IsBounded out
    go (ok c) q ih = ih c (placed-IsBounded e r c q b) (rw (read_entries, q) at h)
    go err q ih = let k : err ≡ ok out = (rw (read_entries, q) at h) in absurd (cc)
    go bug q ih = let k : bug ≡ ok out = (rw (read_entries, q) at h) in absurd (cc)

-- Of any image that read_pstree_image accepts, `max_pid` is at least the pid, the process group and the session of every
-- item and of each of its ancestors.
pub read_pstree_image-max_pid :
    (es : List PstreeEntry) (r : Reader)
    → read_pstree_image es ≡ ok r
    → All (AllBelow r.max_pid) r.items
unfolding read_pstree_image
read_pstree_image-max_pid es r h =
    (read_entries-IsBounded es fresh_reader r (record { items = tt; parent = tt }) h).items
