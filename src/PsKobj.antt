-- ===== src/PsKobj.antt =====
-- pstree.c: which kernel objects a task shares with its parent, and the flags to clone it with.
pub mod Namespaces
use crtools.Base.{
  ℕ, Bool, true, false, not, ◌&&◌, ◌||◌, Option, none, some, List, [], ◌∷◌, Res, ok, err, ◌>>=◌,
  ◌>>◌, fail_on, or_err, ◌==◌, if◌then◌else◌,
}
use crtools.PsTree.{Task, Visit, PsItem, for_each_pstree_item}

-- `message task_kobj_ids_entry`, as far as get_clone_mask reads it.
pub record TaskKobjIdsEntry : Type 0 where
  pub files_id : ℕ
  pub pid_ns_id : ℕ
  pub net_ns_id : ℕ
  pub ipc_ns_id : ℕ
  pub uts_ns_id : ℕ
  pub mnt_ns_id : ℕ

-- A mask of CLONE_FILES, CLONE_NEWPID, CLONE_NEWNET, CLONE_NEWIPC, CLONE_NEWUTS and CLONE_NEWNS.
pub record CloneMask : Type 0 where
  pub files : Bool
  pub newpid : Bool
  pub newnet : Bool
  pub newipc : Bool
  pub newuts : Bool
  pub newns : Bool

unfoldable pub get_clone_mask : TaskKobjIdsEntry → TaskKobjIdsEntry → CloneMask
get_clone_mask i p = record {
  files = i.files_id == p.files_id;
  newpid = not (i.pid_ns_id == p.pid_ns_id);
  newnet = not (i.net_ns_id == p.net_ns_id);
  newipc = not (i.ipc_ns_id == p.ipc_ns_id);
  newuts = not (i.uts_ns_id == p.uts_ns_id);
  newns = not (i.mnt_ns_id == p.mnt_ns_id);
}

-- `cflags & CLONE_ALLNS`
abbrev pub any_ns : CloneMask → Bool
any_ns m = m.newpid || (m.newnet || (m.newipc || (m.newuts || m.newns)))

-- `item->ids`, `root_ids`, `opts.rst_namespaces_flags`, and whether shared_fdt_prepare succeeds.
pub record Kobj : Type 0 where
  pub ids : Task → Option TaskKobjIdsEntry
  pub root_ids : Option TaskKobjIdsEntry
  pub rst_namespaces_flags : CloneMask
  pub shared_fdt_prepare : Task → Bool

abbrev pub is_root_item : Visit → Bool
is_root_item v = elim v.parent [ none ↦ true | some p ↦ false ]

-- `parent ? parent->ids : root_ids`
abbrev pub ids_above : Kobj → Visit → Option TaskKobjIdsEntry
ids_above k v = elim v.parent [ none ↦ k.root_ids | some p ↦ k.ids p ]

-- From `set_mask` on.
abbrev pub set_mask : Visit → CloneMask → Res (Option CloneMask)
set_mask v cflags = fail_on (not (is_root_item v) && any_ns cflags) >> ok (some cflags)

-- `if (cflags & CLONE_FILES)`
abbrev pub share_files : Kobj → Visit → CloneMask → Res (Unit {0})
share_files k v cflags =
    if cflags.files
    then (fail_on (is_root_item v) >> fail_on (not (k.shared_fdt_prepare v.task)))
    else ok tt

-- The `clone_flags` that one round sets; none when it sets nothing.
unfoldable pub kobj_round : Kobj → Visit → Res (Option CloneMask)
unfolding get_clone_mask
kobj_round k v = elim (k.ids v.task) [
  | none ↦ if is_root_item v then set_mask v k.rst_namespaces_flags else ok none
  | some i ↦ or_err (ids_above k v) >>= λ p.
      share_files k v (get_clone_mask i p) >> set_mask v (get_clone_mask i p)
]

abbrev pub kobj_rounds : Kobj → List Visit → Res (List (Option CloneMask))
kobj_rounds k [] = ok []
kobj_rounds k (v ∷ vs) = kobj_round k v >>= λ m. kobj_rounds k vs >>= λ ms. ok (m ∷ ms)

-- The flags of all items, in the order of the walk; the first are the root's (`current_ns_mask`).
unfoldable pub prepare_pstree_kobj_ids : Kobj → PsItem → Res (List (Option CloneMask))
unfolding kobj_round
prepare_pstree_kobj_ids k root = kobj_rounds k (for_each_pstree_item root)
