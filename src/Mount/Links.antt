-- ===== src/Mount/Links.antt =====
-- mnt_build_ids_tree of mount.c.
use crtools.Base.Strings.{str_eq}
use crtools.Base.{
  ℕ, Bool, ◌==◌, sym, ◌∙◌, if◌then◌else◌, ◌≡◌, refl, inl, inr, true, false, Bool-cases, Option,
  none, some, Option-cases, List, [], ◌∷◌, ◌++◌, append_assoc, append-nil,
}
use crtools.Mount.{
  is_root, MountInfo, Link, lookup_mnt_id, is_root_mount, build_ids, mnt_build_ids_tree,
}

-- The mounts that have the id.
abbrev pub having : List MountInfo → ℕ → List MountInfo
having [] id = []
having (m ∷ ms) id = if m.mnt_id == id then m ∷ having ms id else having ms id

abbrev pub first_of : List MountInfo → Option MountInfo
first_of [] = none
first_of (m ∷ ms) = some m

-- The mount point is the text "/".
abbrev pub at_slash : MountInfo → Bool
at_slash m = str_eq m.mountpoint (47 ∷ [])

lookup_mnt_id-having :
    (list : List MountInfo) (id : ℕ) → lookup_mnt_id list id ≡ first_of (having list id)
lookup_mnt_id-having [] id = refl
lookup_mnt_id-having (m ∷ ms) id = elim (Bool-cases (m.mnt_id == id)) [
  | inl h ↦ rw (lookup_mnt_id, having, h) refl
  | inr h ↦ rw (lookup_mnt_id, having, h) (lookup_mnt_id-having ms id)
]

is_root_mount-at_slash : (m : MountInfo) → is_root_mount m ≡ at_slash m
unfolding is_root
is_root_mount-at_slash m = refl

module _ (list : List MountInfo) where
  -- The mounts with no parent in the list.
  abbrev pub orphans : List MountInfo → List MountInfo
  orphans [] = []
  orphans (m ∷ ms) = elim (first_of (having list m.parent_mnt_id)) [
    | none ↦ m ∷ orphans ms
    | some p ↦ orphans ms
  ]

  -- The others, with the ids of their parents.
  abbrev pub parented : List MountInfo → List Link
  parented [] = []
  parented (m ∷ ms) = elim (first_of (having list m.parent_mnt_id)) [
    | none ↦ parented ms
    | some p ↦ (p.mnt_id, m) ∷ parented ms
  ]

  -- A tree has one root, which is mounted on "/".
  abbrev pub rooted : List MountInfo → List Link → Option (MountInfo × List Link)
  rooted [] links = none
  rooted (r ∷ []) links = elim (at_slash r) [ true ↦ some (r, links) | false ↦ none ]
  rooted (r ∷ s ∷ rs) links = none

  abbrev no_more : List MountInfo → MountInfo → List Link → Option (MountInfo × List Link)
  no_more [] r links = some (r, links)
  no_more (s ∷ rs) r links = none

  -- What was looked up is the first mount with the id.
  found :
      {o : Option MountInfo} (m : MountInfo)
      → lookup_mnt_id list m.parent_mnt_id ≡ o
      → first_of (having list m.parent_mnt_id) ≡ o
  found m h = sym (lookup_mnt_id-having list m.parent_mnt_id) ∙ h

  build_ids-rooted :
      (r : MountInfo) (ms : List MountInfo) (links : List Link)
      → build_ids list ms (some r) links ≡ no_more (orphans ms) r (links ++ parented ms)
  build_ids-rooted r [] links = rw append-nil refl
  build_ids-rooted r (m ∷ ms) links = elim (Option-cases (lookup_mnt_id list m.parent_mnt_id)) [
    | inl h ↦ rw (build_ids, orphans, parented, h, found m h) refl
    | inr (p, h) ↦
        rw
          (
            build_ids,
            orphans,
            parented,
            h,
            found m h,
            build_ids-rooted r ms (links ++ (p.mnt_id, m) ∷ []),
            append_assoc links ((p.mnt_id, m) ∷ []) (parented ms),
          )
          refl
  ]

  no_more-rooted :
      (r : MountInfo) (rs : List MountInfo) (links : List Link)
      → at_slash r ≡ true
      → no_more rs r links ≡ rooted (r ∷ rs) links
  no_more-rooted r [] links e = rw (rooted, e) refl
  no_more-rooted r (s ∷ rs) links e = refl

  rooted-false :
      (r : MountInfo) (rs : List MountInfo) (links : List Link)
      → at_slash r ≡ false
      → none ≡ rooted (r ∷ rs) links
  rooted-false r [] links e = rw (rooted, e) refl
  rooted-false r (s ∷ rs) links e = refl

  build_ids-start :
      (ms : List MountInfo) (links : List Link)
      → build_ids list ms none links ≡ rooted (orphans ms) (links ++ parented ms)
  build_ids-start [] links = refl
  build_ids-start (m ∷ ms) links = elim (Option-cases (lookup_mnt_id list m.parent_mnt_id)) [
    | inl h ↦ elim (Bool-cases (is_root_mount m)) [
      | inl r ↦
          rw (build_ids, orphans, parented, h, found m h, r, build_ids-rooted m ms links)
            (no_more-rooted m (orphans ms) (links ++ parented ms)
              (sym (is_root_mount-at_slash m) ∙ r))
      | inr r ↦
          rw (build_ids, orphans, parented, h, found m h, r)
            (rooted-false m (orphans ms) (links ++ parented ms)
              (sym (is_root_mount-at_slash m) ∙ r))
    ]
    | inr (p, h) ↦
        rw
          (
            build_ids,
            orphans,
            parented,
            h,
            found m h,
            build_ids-start ms (links ++ (p.mnt_id, m) ∷ []),
            append_assoc links ((p.mnt_id, m) ∷ []) (parented ms),
          )
          refl
  ]

-- mnt_build_ids_tree succeeds exactly when one mount alone has no parent in the list and that
-- one is mounted on "/"; it is the root, and every other mount is linked, in the order of
-- the list, below the first mount that has the id of its parent.
pub mnt_build_ids_tree-rooted :
    (list : List MountInfo)
    → mnt_build_ids_tree list ≡ rooted list (orphans list list) (parented list list)
unfolding mnt_build_ids_tree
mnt_build_ids_tree-rooted list = build_ids-start list list []
