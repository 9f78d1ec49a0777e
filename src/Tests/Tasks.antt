-- ===== src/Tests/Tasks.antt =====
-- A tree of four tasks, walked, dumped, read and prepared.
use crtools.Base.{
  map, Res, err, bug, ℕ, ◌+◌, ◌≡◌, refl, inr, List, [], ◌∷◌, Option, none, some, Bool, true, false,
  All, ok, ◌==◌, if◌then◌else◌, arith,
}
use crtools.PsTree.{
  Task, PsItem, PsForest, node, nil, cons, task_of, count, Visit, walk, PstreeEntry, dump_pstree,
  ReadItem, Reader, Chain, read_pstree_image, ShellJob, prepare_pstree_for_shell_job,
}
use crtools.PsTree.Walk.{preorder, for_each_pstree_item-preorder}
use crtools.PsTree.Image.{HasPids, tasks}
use crtools.PsTree.Siblings.{tasks_of, IsRead, dump_pstree-IsRead}
use crtools.PsTree.Bounds.{IsBelow, AllBelow, read_pstree_image-max_pid}
use crtools.PsTree.Migrate.{Migration, prepare_pstree_for_shell_job-Migration}
use crtools.PsKobj.{TaskKobjIdsEntry, CloneMask, Kobj, prepare_pstree_kobj_ids}
use crtools.PsKobj.Namespaces.{IsPlaced, prepare_pstree_kobj_ids-IsPlaced}

abbrev task : ℕ → Task
task pid = record { pid = pid; pgid = 10; sid = 10; threads = pid ∷ [] }

abbrev leaf_task : ℕ → PsItem
leaf_task pid = node (task pid) nil

abbrev root : PsItem
root = node (task 10) (cons (node (task 11) (cons (leaf_task 12) nil)) (cons (leaf_task 13) nil))

abbrev visit_of : ℕ → ℕ → Visit
visit_of pid ppid = record { task = task pid; parent = some (task ppid) }

for_each_pstree_item-preorder_example :
    walk (count root + 0) (some (record { item = root; levels = [] }))
    ≡ record { task = task 10; parent = none }
      ∷ visit_of 11 10
      ∷ visit_of 12 11
      ∷ visit_of 13 10
      ∷ []
for_each_pstree_item-preorder_example = for_each_pstree_item-preorder root 0

abbrev writable : PstreeEntry → Bool
writable e = true

root-HasPids : HasPids root
root-HasPids = omega arith

dump_pstree-IsRead_example :
    (es : List PstreeEntry) × (dump_pstree writable false root ≡ ok es) × IsRead root es
dump_pstree-IsRead_example =
    dump_pstree-IsRead writable (λ e. refl) false root root-HasPids (inr refl)

abbrev entry : ℕ → ℕ → PstreeEntry
entry pid ppid = record { pid = pid; ppid = ppid; pgid = 10; sid = 20; threads = [] }

abbrev first_read : ReadItem
first_read = record { addr = 0; task = record { pid = 10; pgid = 10; sid = 20; threads = [] } }

abbrev reader : Reader
reader = record {
  items = (first_read ∷ []) ∷ [];
  parent = first_read ∷ [];
  max_pid = 20;
  nr_threads = 0;
  nr_tasks = 1;
}

reads_one : read_pstree_image (entry 10 0 ∷ []) ≡ ok reader
unfolding read_pstree_image
reads_one = refl

-- The second child is read before the first one in the walk.
abbrev pids : Res Reader → List (List ℕ)
pids (ok r) = map (λ c. map (λ t. t.pid) (tasks_of c)) r.items
pids err = []
pids bug = []

siblings_reversed :
    pids (read_pstree_image (entry 10 0 ∷ entry 11 10 ∷ entry 12 11 ∷ entry 13 10 ∷ []))
    ≡ (10 ∷ []) ∷ (13 ∷ 10 ∷ []) ∷ (11 ∷ 10 ∷ []) ∷ (12 ∷ 11 ∷ 10 ∷ []) ∷ []
unfolding read_pstree_image
siblings_reversed = refl

read_pstree_image-max_pid_example : All (AllBelow 20) reader.items
read_pstree_image-max_pid_example = read_pstree_image-max_pid (entry 10 0 ∷ []) reader reads_one

abbrev job : ShellJob
job = record { current_sid = 500; current_gid = 501; shell_job = true }

-- A root in the session 9 of its old shell.
abbrev member : PsItem
member = node (record (task 10) { sid = 9 }) (cons (leaf_task 11) nil)

member-IsBelow : All (IsBelow 11) (tasks member)
member-IsBelow = omega arith

prepare_pstree_for_shell_job-Migration_example :
    Migration job member 11 (prepare_pstree_for_shell_job job member 11)
prepare_pstree_for_shell_job-Migration_example =
    prepare_pstree_for_shell_job-Migration job member 11 member-IsBelow

abbrev ids : ℕ → TaskKobjIdsEntry
ids files = record {
  files_id = files;
  pid_ns_id = 1;
  net_ns_id = 1;
  ipc_ns_id = 1;
  uts_ns_id = 1;
  mnt_ns_id = 1;
}

abbrev no_flags : CloneMask
no_flags = record {
  files = false;
  newpid = false;
  newnet = false;
  newipc = false;
  newuts = false;
  newns = false;
}

-- The task 13 shares the root's descriptors.
abbrev kobj : Kobj
kobj = record {
  ids = λ t. some (ids (if t.pid == 13 then 10 else t.pid));
  root_ids = some (ids 1);
  rst_namespaces_flags = no_flags;
  shared_fdt_prepare = λ t. true;
}

abbrev masks : List (Option CloneMask)
masks = some no_flags ∷ some no_flags ∷ some no_flags ∷ some (record no_flags { files = true }) ∷ []

prepares : prepare_pstree_kobj_ids kobj root ≡ ok masks
unfolding prepare_pstree_kobj_ids crtools.PsKobj.kobj_round crtools.PsKobj.get_clone_mask walk
    crtools.PsTree.pstree_item_next
prepares = refl

prepare_pstree_kobj_ids-IsPlaced_example : All (IsPlaced kobj) (preorder none root)
prepare_pstree_kobj_ids-IsPlaced_example = prepare_pstree_kobj_ids-IsPlaced kobj root masks prepares
