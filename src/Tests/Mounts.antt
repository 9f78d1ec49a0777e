-- ===== src/Tests/Mounts.antt =====
-- The tree of mounts, on small namespaces.
use crtools.Base.{
  ℕ, ◌≡◌, refl, List, [], ◌∷◌, none, some, false, true, Res, ok, err, ℤ, pos, negsuc,
}
use mathlib.Core.List.{Perm}
use crtools.Base.Strings.{Text}
use crtools.Mount.{
  MountInfo, Linked, MntTree, MntForest, node, nil, cons, mnt_build_ids_tree, mnt_resort_siblings,
  mount_resolve_path, validate_mounts, mnt_depth, mount_of, count_slashes,
}
use crtools.Mount.Tree.{links, IsResorted, mnt_resort_siblings-IsResorted}
use crtools.Mount.Links.{mnt_build_ids_tree-rooted}
use crtools.Mount.Resolve.{Resolution, mount_resolve_path-Resolution}
use crtools.Mount.Valid.{Verdict, validate_mounts-Verdict}

abbrev mount : ℕ → ℕ → Text → MountInfo
mount id parent path = record {
  mnt_id = id;
  parent_mnt_id = parent;
  s_dev = id;
  root = 47 ∷ [];
  mountpoint = path;
  master_id = 0;
  shared_id = 0;
  fstype = 1;
  source = [];
  options = [];
  need_plugin = false;
}

-- "/", "/a", "/a/b" and "/ab"
abbrev top : MountInfo
top = mount 20 1 (47 ∷ [])

abbrev a : MountInfo
a = mount 21 20 (47 ∷ 97 ∷ [])

abbrev a_b : MountInfo
a_b = mount 22 20 (47 ∷ 97 ∷ 47 ∷ 98 ∷ [])

abbrev mounts : List MountInfo
mounts = a ∷ top ∷ a_b ∷ []

mnt_build_ids_tree-rooted_example : mnt_build_ids_tree mounts ≡ some (top, (20, a) ∷ (20, a_b) ∷ [])
unfolding crtools.Mount.is_root crtools.Base.Strings.str_eq
mnt_build_ids_tree-rooted_example = mnt_build_ids_tree-rooted mounts

abbrev tree : MntTree
tree = node top (cons (node a_b nil) (cons (node a nil) nil))

mnt_resort_siblings-IsResorted_example :
    Perm (links (mnt_resort_siblings tree)) (links tree) × IsResorted (mnt_resort_siblings tree)
mnt_resort_siblings-IsResorted_example = mnt_resort_siblings-IsResorted tree

-- The deeper mount came first, and comes last.
resorted : mnt_resort_siblings tree ≡ node top (cons (node a nil) (cons (node a_b nil) nil))
unfolding mnt_resort_siblings mnt_depth
resorted = refl

abbrev ab_path : Text
ab_path = 47 ∷ 97 ∷ 98 ∷ []

mount_resolve_path-Resolution_example : Resolution tree ab_path (mount_resolve_path tree ab_path)
mount_resolve_path-Resolution_example = mount_resolve_path-Resolution tree ab_path

-- "/ab" is resolved to the mount on "/a".
ab-resolved : mount_resolve_path tree ab_path ≡ a
unfolding mount_resolve_path crtools.Mount.is_on crtools.Base.Strings.strn_eq
ab-resolved = refl

abbrev linked : MountInfo → Linked
linked m = record {
  mount = m;
  parent = some top;
  siblings = a_b ∷ a ∷ [];
  peer_children = none;
  binds = [];
}

abbrev no_plugin : MountInfo → ℤ
no_plugin m = negsuc 94

validate_mounts-Verdict_example :
    Verdict no_plugin true
      (linked a ∷ linked a_b ∷ [])
      (validate_mounts no_plugin true (linked a ∷ linked a_b ∷ []))
validate_mounts-Verdict_example =
    validate_mounts-Verdict no_plugin true (linked a ∷ linked a_b ∷ [])

-- "/a/b" lies below "/a".
overmounted : validate_mounts no_plugin true (linked a ∷ linked a_b ∷ []) ≡ err
unfolding validate_mounts crtools.Mount.validate_mount crtools.Mount.skips crtools.Mount.lacks_peer
    crtools.Mount.lacks_root crtools.Mount.is_overmounted crtools.Mount.covers
    crtools.Base.Strings.strn_eq crtools.Mount.is_root crtools.Base.Strings.str_eq
overmounted = refl
