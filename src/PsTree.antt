-- ===== src/PsTree.antt =====
-- pstree.c: the tree of tasks, its walk, its image, and the reading of the image.
pub mod Walk
pub mod Image
pub mod Siblings
pub mod Bounds
pub mod Migrate
use crtools.Base.{
  ℕ, zero, suc, ◌+◌, Bool, true, false, not, ◌&&◌, Option, none, some, List, [], ◌∷◌, ◌++◌, map,
  Res, ok, err, ◌>>=◌, ◌>>◌, fail_on, or_err, ◌==◌, if◌then◌else◌, length, max,
}

-- What an image holds of a `pstree_item`; `threads` are the `virt` ids.
pub record Task : Type 0 where
  pub pid : ℕ
  pub pgid : ℕ
  pub sid : ℕ
  pub threads : List ℕ

-- A task with its children in order.
mutual
  pub data PsItem : Type 0 where
    node : Task → PsForest → PsItem

  pub data PsForest : Type 0 where
    nil : PsForest
    cons : PsItem → PsForest → PsForest

abbrev pub task_of : PsItem → Task
task_of (node t cs) = t

-- A parent, and the siblings behind the item or its ancestor.
pub record Level : Type 0 where
  pub parent : Task
  pub behind : PsForest

-- A pointer to an item: the item, and the levels above it.
pub record Place : Type 0 where
  pub item : PsItem
  pub levels : List Level

-- `while (item->parent)` of pstree_item_next
abbrev pub climb : List Level → Option Place
climb [] = none
climb (l ∷ ls) = elim l.behind [
  | nil ↦ climb ls
  | cons c cs ↦ some (record { item = c; levels = record { parent = l.parent; behind = cs } ∷ ls })
]

unfoldable pub pstree_item_next : Place → Option Place
pstree_item_next p = elim p.item [
  | node t cs ↦ elim cs [
    | nil ↦ climb p.levels
    | cons c rest ↦
        some (record { item = c; levels = record { parent = t; behind = rest } ∷ p.levels })
  ]
]

-- A task and its parent.
pub record Visit : Type 0 where
  pub task : Task
  pub parent : Option Task

-- `item->parent`
abbrev pub parent_of : List Level → Option Task
parent_of [] = none
parent_of (l ∷ ls) = some l.parent

abbrev pub visit : Place → Visit
visit p = record { task = task_of p.item; parent = parent_of p.levels }

-- `for_each_pstree_item`, on fuel.
unfoldable pub walk : ℕ → Option Place → List Visit
unfolding pstree_item_next
walk zero p = []
walk (suc n) none = []
walk (suc n) (some p) = visit p ∷ walk n (pstree_item_next p)

abbrev mutual
  pub count : PsItem → ℕ
  count (node t cs) = suc (count_all cs)

  pub count_all : PsForest → ℕ
  count_all nil = 0
  count_all (cons c cs) = count c + count_all cs

abbrev pub for_each_pstree_item : PsItem → List Visit
for_each_pstree_item root = walk (count root) (some (record { item = root; levels = [] }))

-- `message pstree_entry`; `n_threads` is the length of `threads`.
pub record PstreeEntry : Type 0 where
  pub pid : ℕ
  pub ppid : ℕ
  pub pgid : ℕ
  pub sid : ℕ
  pub threads : List ℕ

abbrev pub entry_of : Visit → PstreeEntry
entry_of v = record {
  pid = v.task.pid;
  ppid = elim v.parent [ none ↦ 0 | some p ↦ p.pid ];
  pgid = v.task.pgid;
  sid = v.task.sid;
  threads = v.task.threads;
}

-- `pb_write_one` of each entry; `write` tells whether one can be written.
abbrev pub write_entries : (PstreeEntry → Bool) → List PstreeEntry → Res (List PstreeEntry)
write_entries write [] = ok []
write_entries write (e ∷ es) =
    fail_on (not (write e)) >> (write_entries write es >>= λ out. ok (e ∷ out))

-- The entries of the image.
unfoldable pub dump_pstree : (PstreeEntry → Bool) → Bool → PsItem → Res (List PstreeEntry)
unfolding walk
dump_pstree write shell_job root =
    let t = task_of root in
    fail_on (not (t.pid == t.sid) && not shell_job)
    >> write_entries write (map entry_of (for_each_pstree_item root))

-- A `pstree_item` that has been read; `addr` stands for its address, and is its number among those allocated.
pub record ReadItem : Type 0 where
  pub addr : ℕ
  pub task : Task

-- A pointer to an item that has been read: the item, its parent, and so on up to the root; empty for NULL.
abbrev pub Chain : Type 0
Chain = List ReadItem

-- `items` is the tree below root_item, as the items in the order of for_each_pstree_item.
pub record Reader : Type 0 where
  pub items : List Chain
  -- `parent`: the item read last
  pub parent : Chain
  pub max_pid : ℕ
  pub nr_threads : ℕ
  pub nr_tasks : ℕ

-- `while (parent) { if (…) break; parent = parent->parent; }`
abbrev pub ancestor : ℕ → Chain → Chain
ancestor ppid [] = []
ancestor ppid (i ∷ up) = elim (i.task.pid == ppid) [ true ↦ i ∷ up | false ↦ ancestor ppid up ]

-- `for_each_pstree_item(parent) if (parent->pid.virt == e->ppid) break;`
abbrev pub find_item : ℕ → List Chain → Chain
find_item ppid [] = []
find_item ppid ([] ∷ cs) = find_item ppid cs
find_item ppid ((i ∷ up) ∷ cs) = elim (i.task.pid == ppid) [
  | true ↦ i ∷ up
  | false ↦ find_item ppid cs
]

-- Empty for NULL, when no item has the pid.
abbrev pub find_parent : ℕ → Reader → Chain
find_parent ppid r = elim (ancestor ppid r.parent) [ i ∷ up ↦ i ∷ up | [] ↦ find_item ppid r.items ]

abbrev pub task_from : PstreeEntry → Task
task_from e = record { pid = e.pid; pgid = e.pgid; sid = e.sid; threads = e.threads }

-- alloc_pstree_item_with_rst, and the fields that are set
abbrev pub item_from : PstreeEntry → Reader → ReadItem
item_from e r = record { addr = r.nr_tasks; task = task_from e }

-- The new item and its parent.
abbrev pub place_item : PstreeEntry → Reader → Res Chain
place_item e r = elim (e.ppid == 0) [
  | true ↦ elim r.items [ [] ↦ ok (item_from e r ∷ []) | c ∷ cs ↦ err ]
  | false ↦ elim (find_parent e.ppid r) [ [] ↦ err | i ∷ up ↦ ok (item_from e r ∷ i ∷ up) ]
]

-- `list_add(&pi->sibling, &parent->children)`: the first child is what the walk visits behind its parent.
abbrev pub list_add : ℕ → Chain → List Chain → List Chain
list_add parent item [] = []
list_add parent item ([] ∷ cs) = [] ∷ list_add parent item cs
list_add parent item ((i ∷ up) ∷ cs) = elim (i.addr == parent) [
  | true ↦ (i ∷ up) ∷ item ∷ cs
  | false ↦ (i ∷ up) ∷ list_add parent item cs
]

abbrev pub add_item : Chain → List Chain → List Chain
add_item [] items = items
add_item (i ∷ []) items = (i ∷ []) ∷ items
add_item (i ∷ p ∷ up) items = list_add p.addr (i ∷ p ∷ up) items

-- The casts to `int` keep ids, which are below 2^31.
abbrev pub with_item : PstreeEntry → Chain → Reader → Reader
with_item e item r = record {
  items = add_item item r.items;
  parent = item;
  max_pid = max e.sid (max e.pgid (max e.pid r.max_pid));
  nr_threads = r.nr_threads + length e.threads;
  nr_tasks = suc r.nr_tasks;
}

-- The loop of read_pstree_image, with memory enough and without the ids' images.
abbrev pub read_entries : List PstreeEntry → Reader → Res Reader
read_entries [] r = ok r
read_entries (e ∷ es) r = place_item e r >>= λ item. read_entries es (with_item e item r)

abbrev pub fresh_reader : Reader
fresh_reader = record { items = []; parent = []; max_pid = 0; nr_threads = 0; nr_tasks = 0 }

unfoldable pub read_pstree_image : List PstreeEntry → Res Reader
read_pstree_image es = read_entries es fresh_reader

-- `getsid(getpid())`, `getpgid(getpid())` and `opts.shell_job`
pub record ShellJob : Type 0 where
  pub current_sid : ℕ
  pub current_gid : ℕ
  pub shell_job : Bool

abbrev pub migrate_task : ShellJob → ℕ → ℕ → Task → Task
migrate_task sh old_sid old_gid t = record t {
  pgid = if t.pgid == old_gid then sh.current_gid else t.pgid;
  sid = if t.sid == old_sid then sh.current_sid else t.sid;
}

abbrev mutual
  pub migrate : (Task → Task) → PsItem → PsItem
  migrate f (node t cs) = node (f t) (migrate_all f cs)

  pub migrate_all : (Task → Task) → PsForest → PsForest
  migrate_all f nil = nil
  migrate_all f (cons c cs) = cons (migrate f c) (migrate_all f cs)

-- The tree and `max_pid`.
unfoldable pub prepare_pstree_for_shell_job : ShellJob → PsItem → ℕ → PsItem × ℕ
prepare_pstree_for_shell_job sh root max_pid =
    let t = task_of root in
    if not sh.shell_job
    then (root, max_pid)
    else (if t.sid == t.pid then (root, max_pid) else (
      migrate (migrate_task sh t.sid t.pgid) root,
      max sh.current_gid (max sh.current_sid max_pid),
    ))
