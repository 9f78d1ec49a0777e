-- ===== src/PsKobj/Namespaces.antt =====
-- What prepare_pstree_kobj_ids of pstree.c lets pass.
use crtools.Base.{
  ◌≡◌, refl, subst, ◌⊎◌, inl, inr, true, false, Bool-cases, Option, none, some, Option-cases, List,
  [], ◌∷◌, Res, ok, err, bug, All, ◌==◌, arith,
}
use crtools.PsTree.{Task, Visit, PsItem, for_each_pstree_item}
use crtools.PsTree.Walk.{preorder}
use crtools.PsTree.Image.{visits}
use crtools.PsKobj.{
  TaskKobjIdsEntry, CloneMask, get_clone_mask, any_ns, Kobj, kobj_round, kobj_rounds,
  prepare_pstree_kobj_ids,
}

-- Two tasks in the same five namespaces.
pub record SameNamespaces (i p : TaskKobjIdsEntry) : Type 0 where
  pub pid : i.pid_ns_id ≡ p.pid_ns_id
  pub net : i.net_ns_id ≡ p.net_ns_id
  pub ipc : i.ipc_ns_id ≡ p.ipc_ns_id
  pub uts : i.uts_ns_id ≡ p.uts_ns_id
  pub mnt : i.mnt_ns_id ≡ p.mnt_ns_id

-- A task that has ids is in its parent's namespaces; the descriptors of a task that shares them have
-- been prepared, and the root shares none with the restorer.
pub data IsPlaced (k : Kobj) (v : Visit) : Type 0 where
  no_ids : k.ids v.task ≡ none → IsPlaced k v
  is_root :
      (i p : TaskKobjIdsEntry)
      → v.parent ≡ none
      → k.ids v.task ≡ some i
      → k.root_ids ≡ some p
      → ((i.files_id == p.files_id) ≡ false)
      → IsPlaced k v
  is_child :
      (t : Task) (i p : TaskKobjIdsEntry)
      → v.parent ≡ some t
      → k.ids v.task ≡ some i
      → k.ids t ≡ some p
      → SameNamespaces i p
      → ((i.files_id == p.files_id) ≡ false) ⊎ (k.shared_fdt_prepare v.task ≡ true)
      → IsPlaced k v

same_of : (i p : TaskKobjIdsEntry) → any_ns (get_clone_mask i p) ≡ false → SameNamespaces i p
unfolding get_clone_mask
same_of i p e = record {
  pid = ground arith;
  net = ground arith;
  ipc = ground arith;
  uts = ground arith;
  mnt = ground arith;
}

module _ (k : Kobj) (v : Visit) (m : Option CloneMask) (h : kobj_round k v ≡ ok m) where
  round-root :
      (i p : TaskKobjIdsEntry)
      → v.parent ≡ none
      → k.ids v.task ≡ some i
      → k.root_ids ≡ some p
      → IsPlaced k v
  unfolding kobj_round
  round-root i p n a b = elim (Bool-cases (i.files_id == p.files_id)) [
    | inr f ↦ is_root i p n a b f
    | inl f ↦ let c : err ≡ ok m = (rw (kobj_round, a, n, b, get_clone_mask, f) at h) in absurd (cc)
  ]

  -- A child: first the files, then the namespaces.
  round-child :
      (t : Task) (i p : TaskKobjIdsEntry)
      → v.parent ≡ some t
      → k.ids v.task ≡ some i
      → k.ids t ≡ some p
      → IsPlaced k v
  unfolding kobj_round
  round-child t i p n a b = elim (Bool-cases (any_ns (get_clone_mask i p))) [
    | inl s ↦ elim (Bool-cases (i.files_id == p.files_id)) [
      | inr f ↦
          let c : err ≡ ok m = (rw (kobj_round, a, n, b, get_clone_mask, f, s) at h) in absurd (cc)
      | inl f ↦ elim (Bool-cases (k.shared_fdt_prepare v.task)) [
        | inr d ↦
            let c : err ≡ ok m = (rw (kobj_round, a, n, b, get_clone_mask, f, d) at h) in
            absurd (cc)
        | inl d ↦
            let c : err ≡ ok m = (rw (kobj_round, a, n, b, get_clone_mask, f, d, s) at h) in
            absurd (cc)
      ]
    ]
    | inr s ↦ elim (Bool-cases (i.files_id == p.files_id)) [
      | inr f ↦ is_child t i p n a b (same_of i p s) (inl f)
      | inl f ↦ elim (Bool-cases (k.shared_fdt_prepare v.task)) [
        | inl d ↦ is_child t i p n a b (same_of i p s) (inr d)
        | inr d ↦
            let c : err ≡ ok m = (rw (kobj_round, a, n, b, get_clone_mask, f, d) at h) in
            absurd (cc)
      ]
    ]
  ]

  round-IsPlaced : IsPlaced k v
  unfolding kobj_round
  round-IsPlaced = elim (Option-cases (k.ids v.task)) [
    | inl a ↦ no_ids a
    | inr (i, a) ↦ elim (Option-cases v.parent) [
      | inl n ↦ elim (Option-cases k.root_ids) [
        | inr (p, b) ↦ round-root i p n a b
        | inl b ↦ let c : err ≡ ok m = (rw (kobj_round, a, n, b) at h) in absurd (cc)
      ]
      | inr (t, n) ↦ elim (Option-cases (k.ids t)) [
        | inr (p, b) ↦ round-child t i p n a b
        | inl b ↦ let c : err ≡ ok m = (rw (kobj_round, a, n, b) at h) in absurd (cc)
      ]
    ]
  ]

rounds-IsPlaced :
    (k : Kobj) (vs : List Visit) (ms : List (Option CloneMask))
    → kobj_rounds k vs ≡ ok ms
    → All (IsPlaced k) vs
rounds-IsPlaced k [] ms h = tt
rounds-IsPlaced k (v ∷ vs) ms h =
    go (kobj_round k v) (kobj_rounds k vs) refl refl (rounds-IsPlaced k vs)
  where
    go :
        (a : Res (Option CloneMask)) (b : Res (List (Option CloneMask)))
        → kobj_round k v ≡ a
        → kobj_rounds k vs ≡ b
        → ((out : List (Option CloneMask)) → kobj_rounds k vs ≡ ok out → All (IsPlaced k) vs)
        → IsPlaced k v × All (IsPlaced k) vs
    go (ok m) (ok out) p q ih = (round-IsPlaced k v m p, ih out q)
    go (ok m) err p q ih = let c : err ≡ ok ms = (rw (kobj_rounds, p, q) at h) in absurd (cc)
    go (ok m) bug p q ih = let c : bug ≡ ok ms = (rw (kobj_rounds, p, q) at h) in absurd (cc)
    go err b p q ih = let c : err ≡ ok ms = (rw (kobj_rounds, p) at h) in absurd (cc)
    go bug b p q ih = let c : bug ≡ ok ms = (rw (kobj_rounds, p) at h) in absurd (cc)

-- When prepare_pstree_kobj_ids succeeds, every task below the root that has ids is in the same pid, network, IPC, UTS and mount
-- namespaces as its parent, which has ids too; where it shares its parent's descriptors,
-- shared_fdt_prepare has succeeded for it; and a root with ids does not share the restorer's descriptors.
pub prepare_pstree_kobj_ids-IsPlaced :
    (k : Kobj) (root : PsItem) (ms : List (Option CloneMask))
    → prepare_pstree_kobj_ids k root ≡ ok ms
    → All (IsPlaced k) (preorder none root)
unfolding prepare_pstree_kobj_ids
prepare_pstree_kobj_ids-IsPlaced k root ms h =
    subst (All (IsPlaced k)) (visits root) (rounds-IsPlaced k (for_each_pstree_item root) ms h)
