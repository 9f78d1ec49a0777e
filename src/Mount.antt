-- ===== src/Mount.antt =====
-- mount.c: the tree of mount points, how a path is resolved in it, and the checks of a dump.
pub mod Tree
pub mod Links
pub mod Resolve
pub mod Valid
use crtools.Base.Strings.{Text, slash, str_eq, strn_eq}
use crtools.Base.{
  ℕ, zero, suc, ◌+◌, Bool, true, false, not, ◌&&◌, ◌||◌, Option, none, some, List, [], ◌∷◌, ◌++◌,
  Res, ok, err, ◌>>=◌, ◌>>◌, fail_on, ltb, leb, ◌==◌, if◌then◌else◌, length, get_or, min, ℤ, is_neg,
  is_pos,
}

-- `basename` of string.h (GNU): what follows the last slash.
abbrev pub basename_from : Text → Text → Text
basename_from best [] = best
basename_from best (c ∷ cs) = basename_from (if c == slash then cs else best) cs

abbrev pub basename : Text → Text
basename path = basename_from path path

-- `struct mount_info` less its links. A `fstype` pointer is a number.
pub record MountInfo : Type 0 where
  pub mnt_id : ℕ
  pub parent_mnt_id : ℕ
  pub s_dev : ℕ
  pub root : Text
  pub mountpoint : Text
  pub master_id : ℕ
  pub shared_id : ℕ
  pub fstype : ℕ
  pub source : Text
  pub options : Text
  pub need_plugin : Bool

unfoldable pub is_root : Text → Bool
is_root p = str_eq p (slash ∷ [])

abbrev pub is_root_mount : MountInfo → Bool
is_root_mount mi = is_root mi.mountpoint

abbrev pub fsroot_mounted : MountInfo → Bool
fsroot_mounted mi = is_root mi.root

-- `__lookup_mnt_id`; lookup_mnt_id calls it on the list of all mounts.
abbrev pub lookup_mnt_id : List MountInfo → ℕ → Option MountInfo
lookup_mnt_id [] id = none
lookup_mnt_id (m ∷ ms) id = elim (m.mnt_id == id) [ true ↦ some m | false ↦ lookup_mnt_id ms id ]

unfoldable pub mounts_equal : MountInfo → MountInfo → Bool → Bool
mounts_equal mi c bind =
    if not (mi.s_dev == c.s_dev)
      || (not (c.fstype == mi.fstype)
          || (not (str_eq c.source mi.source) || not (str_eq c.options mi.options)))
    then false
    else (if bind
        then true
        else (if not (str_eq c.root mi.root)
            then false
            else str_eq (basename c.mountpoint) (basename mi.mountpoint)))

-- A mount that has been hung below the parent with the id in front.
abbrev pub Link : Type 0
Link = ℕ × MountInfo

-- The loop of mnt_build_ids_tree: the root found so far, and the links made so far. A parent is
-- known by its id, which is unique in a namespace.
abbrev pub build_ids :
    List MountInfo → List MountInfo → Option MountInfo → List Link → Option (MountInfo × List Link)
build_ids list [] none links = none
build_ids list [] (some r) links = some (r, links)
build_ids list (m ∷ ms) root links = elim (lookup_mnt_id list m.parent_mnt_id) [
  | some p ↦ build_ids list ms root (links ++ (p.mnt_id, m) ∷ [])
  | none ↦ elim root [
    | some r ↦ none
    | none ↦ elim (is_root_mount m) [ true ↦ build_ids list ms (some m) links | false ↦ none ]
  ]
]

unfoldable pub mnt_build_ids_tree : List MountInfo → Option (MountInfo × List Link)
mnt_build_ids_tree list = build_ids list list none []

abbrev pub count_slashes : Text → ℕ
count_slashes [] = 0
count_slashes (c ∷ cs) = if c == slash then suc (count_slashes cs) else count_slashes cs

unfoldable pub mnt_depth : MountInfo → ℕ
mnt_depth m = count_slashes m.mountpoint

-- The linked mounts as a tree: a mount with its `children` in order.
mutual
  pub data MntTree : Type 0 where
    node : MountInfo → MntForest → MntTree

  pub data MntForest : Type 0 where
    nil : MntForest
    cons : MntTree → MntForest → MntForest

abbrev pub mount_of : MntTree → MountInfo
mount_of (node m cs) = m

-- `list_for_each_entry(p, &list, siblings) if (…) break; list_add(&m->siblings, &p->siblings);` with
-- an entry that the loop stops at: `list_add` puts behind it.
abbrev pub add_behind : MntTree → MntForest → Option MntForest
add_behind m nil = none
add_behind m (cons p ps) = elim (leb (mnt_depth (mount_of p)) (mnt_depth (mount_of m))) [
  | true ↦ some (cons p (cons m ps))
  | false ↦ elim (add_behind m ps) [ none ↦ none | some l ↦ some (cons p l) ]
]

-- Without one, `p` is the head of the list, and `m` comes first.
abbrev pub add_sibling : MntTree → MntForest → MntForest
add_sibling m list = elim (add_behind m list) [ none ↦ cons m list | some l ↦ l ]

unfoldable mutual
  pub mnt_resort_siblings : MntTree → MntTree
  mnt_resort_siblings (node m cs) = node m (resort_all cs nil)

  -- The loop over the children, into the local list.
  pub resort_all : MntForest → MntForest → MntForest
  resort_all nil list = list
  resort_all (cons c cs) list = resort_all cs (add_sibling (mnt_resort_siblings c) list)

-- The test of mount_resolve_path on a child's mount point.
unfoldable pub is_on : Text → Text → Bool
is_on mountpoint path =
    let n = length mountpoint in
    if ltb (length path) n then false else strn_eq (min n (length path)) mountpoint path

unfoldable mutual
  pub mount_resolve_path : MntTree → Text → MountInfo
  mount_resolve_path (node m cs) path = resolve_below m cs path

  pub resolve_below : MountInfo → MntForest → Text → MountInfo
  resolve_below m nil path = m
  resolve_below m (cons c cs) path = elim (is_on (mount_of c).mountpoint path) [
    | true ↦ mount_resolve_path c path
    | false ↦ resolve_below m cs path
  ]

-- What validate_mounts reads through a mount's links: its parent; that one's children; the children
-- of the first other mount of the parent's peer group, when there is one; and the other mounts that
-- are bound to the same file system.
pub record Linked : Type 0 where
  pub mount : MountInfo
  pub parent : Option MountInfo
  pub siblings : List MountInfo
  pub peer_children : Option (List MountInfo)
  pub binds : List MountInfo

abbrev pub any : (MountInfo → Bool) → List MountInfo → Bool
any p [] = false
any p (x ∷ xs) = p x || any p xs

-- `m->parent && m->parent->shared_id`, and none of the peer's children equals `m`
unfoldable pub lacks_peer : Linked → Bool
lacks_peer l = elim l.parent [
  | none ↦ false
  | some p ↦ not (p.shared_id == 0) && elim l.peer_children [
    | none ↦ false
    | some cs ↦ not (any (λ ct. mounts_equal l.mount ct false) cs)
  ]
]

-- The `continue` that stands for an empty `mnt_share` skips the other checks, too.
unfoldable pub skips : Linked → Bool
skips l = elim l.parent [
  | none ↦ false
  | some p ↦ not (p.shared_id == 0) && elim l.peer_children [ none ↦ true | some cs ↦ false ]
]

-- `m->parent && !fsroot_mounted(m)`, and no mount of the same file system has its root
unfoldable pub lacks_root : Linked → Bool
lacks_root l = elim l.parent [
  | none ↦ false
  | some p ↦ not (fsroot_mounted l.mount) && not (any fsroot_mounted l.binds)
]

-- `if (ret == 0) m->need_plugin = true;`
abbrev pub need_after : ℤ → Bool → Bool
need_after ret need = if is_neg ret then need else (if is_pos ret then need else true)

-- `cr_plugin_dump_ext_mount`, -ENOTSUP when no plugin takes the mount; the new `need_plugin`.
unfoldable pub ask_plugin : (MountInfo → ℤ) → Bool → MountInfo → Res Bool
ask_plugin plugin call_plugins m =
    if call_plugins
    then (if is_neg (plugin m) then err else ok (need_after (plugin m) m.need_plugin))
    else (if m.need_plugin then ok true else err)

-- The mount point `t` is `m` or above it.
unfoldable pub covers : Text → Text → Bool
covers t m =
    if ltb (length m) (length t)
    then false
    else (if not (strn_eq (length t) t m)
        then false
        else not (ltb (length t) (length m) && not (get_or m (length t) 0 == slash)))

unfoldable pub is_overmounted : Linked → Bool
is_overmounted l = elim l.parent [
  | none ↦ false
  | some p ↦
      any (λ t. not (l.mount.mnt_id == t.mnt_id) && covers t.mountpoint l.mount.mountpoint)
        l.siblings
]

-- One round of validate_mounts; the new `need_plugin`.
unfoldable pub validate_mount : (MountInfo → ℤ) → Bool → Linked → Res Bool
validate_mount plugin call_plugins l =
    if skips l
    then ok l.mount.need_plugin
    else (fail_on (lacks_peer l)
        >> ((if lacks_root l
              then ask_plugin plugin call_plugins l.mount
              else ok l.mount.need_plugin)
            >>= λ need. fail_on (is_overmounted l) >> ok need))

unfoldable pub validate_mounts : (MountInfo → ℤ) → Bool → List Linked → Res (List Bool)
unfolding validate_mount
validate_mounts plugin call_plugins [] = ok []
validate_mounts plugin call_plugins (l ∷ ls) = validate_mount plugin call_plugins l >>= λ need.
    validate_mounts plugin call_plugins ls >>= λ needs. ok (need ∷ needs)
