-- ===== src/Kcmp.antt =====
-- kcmp-ids.c: the two-level tree that tells kernel objects apart, by a general id first and by
-- sys_kcmp among those that share it.
pub mod Search
pub mod Ids
pub mod Spine
use crtools.Base.{
  ℕ, zero, suc, ◌+◌, ◌%◌, ◌^◌, Bool, true, false, Option, none, some, List, [], ◌∷◌, ◌++◌, map, Res,
  ok, ◌>>=◌, ◌>>◌, bug_on, ltb, ◌==◌, if◌then◌else◌, add64, ℤ, is_neg, is_pos,
}

-- A tree of rbtree.c, without its colours.
pub data Tree {ℓ} (A : Type ℓ) : Type ℓ where
  leaf : Tree A
  node : Tree A → A → Tree A → Tree A

pub record KidElem : Type 0 where
  pub pid : ℕ
  pub genid : ℕ
  pub idx : ℕ

-- A `kid_entry` as a node of a subtree: its own subtree is not looked at there.
pub record KidSub : Type 0 where
  pub subid : ℕ
  pub elem : KidElem

-- A `kid_entry` as a node of the main tree.
pub record KidEntry : Type 0 where
  pub self : KidSub
  pub subtree : Tree KidSub

pub record KidTree : Type 0 where
  pub root : Tree KidEntry
  pub kcmp_type : ℕ
  pub subid : ℕ

-- DECLARE_KCMP_TREE
abbrev pub kcmp_tree : ℕ → KidTree
kcmp_tree type = record { root = leaf; kcmp_type = type; subid = 1 }

-- What is outside: the system call, `xmalloc`, and how `rb_link_and_balance` rearranges a tree that
-- a node has been linked into.
pub record Kernel : Type 0 where
  pub sys_kcmp : ℕ → ℕ → ℕ → ℕ → ℕ → ℤ
  pub xmalloc : Bool
  pub balance : Tree KidEntry → Tree KidEntry
  pub balance_sub : Tree KidSub → Tree KidSub

-- `!node` of a root
abbrev pub is_leaf {ℓ} : {A : Type ℓ} → Tree A → Bool
is_leaf leaf = true
is_leaf (node l x r) = false

-- Where a loop goes at a node.
pub data Turn : Type 0 where
  left : Turn
  right : Turn
  stop : Turn

module _ {ℓ} {A : Type ℓ} (turn : A → Turn) where
  -- `while (node)`: the node that the loop stops at.
  abbrev pub find : Tree A → Option A
  find leaf = none
  find (node l x r) = elim (turn x) [ left ↦ find l | right ↦ find r | stop ↦ some x ]

  -- A node put where the loop fell off the tree (`*new`).
  abbrev pub link : A → Tree A → Tree A
  link a leaf = node leaf a leaf
  link a (node l x r) = elim (turn x) [
    | left ↦ node (link a l) x r
    | right ↦ node l x (link a r)
    | stop ↦ node l x r
  ]

  -- The node that the loop stops at, changed in place.
  abbrev pub put : A → Tree A → Tree A
  put a leaf = leaf
  put a (node l x r) = elim (turn x) [
    | left ↦ node (put a l) x r
    | right ↦ node l x (put a r)
    | stop ↦ node l a r
  ]

-- `if (elem->genid < this->elem.genid) … else if (…) … else …`
unfoldable pub turn_gen : KidElem → KidEntry → Turn
turn_gen elem this =
    if ltb elem.genid this.self.elem.genid
    then left
    else (if ltb this.self.elem.genid elem.genid then right else stop)

-- `if (ret < 0) … else if (ret > 0) … else …`
unfoldable pub turn_ret : ℤ → Turn
turn_ret ret = if is_neg ret then left else (if is_pos ret then right else stop)

abbrev pub kcmp : Kernel → ℕ → KidSub → KidElem → ℤ
kcmp k type this elem = k.sys_kcmp this.elem.pid elem.pid type this.elem.idx elem.idx

unfoldable pub turn_sub : Kernel → ℕ → KidElem → KidSub → Turn
unfolding turn_ret
turn_sub k type elem this = turn_ret (kcmp k type this elem)

-- None is NULL; the entry stands in its own subtree.
unfoldable pub alloc_kid_entry : Kernel → KidTree → KidElem → Res (Option KidEntry × KidTree)
alloc_kid_entry k tree elem =
    let id = tree.subid % 2 ^ 32 in
    let self : KidSub = record { subid = id; elem = elem } in
    if k.xmalloc
    then (bug_on (id == 0)
        >> ok (
          some (record { self = self; subtree = k.balance_sub (node leaf self leaf) }),
          record tree { subid = add64 tree.subid 1 },
        ))
    else ok (none, tree)

-- The returned id, whether `*new_id` has been set to 1, and the changed entry and tree.
pub record SubId : Type 0 where
  pub id : ℕ
  pub new_id : Bool
  pub entry : KidEntry
  pub tree : KidTree

unfoldable pub kid_generate_sub : Kernel → KidTree → KidEntry → KidElem → Res SubId
unfolding alloc_kid_entry turn_sub
kid_generate_sub k tree e elem =
    bug_on (is_leaf e.subtree) >> elim (find (turn_sub k tree.kcmp_type elem) e.subtree) [
      | some this ↦ ok (record { id = this.subid; new_id = false; entry = e; tree = tree })
      | none ↦ alloc_kid_entry k tree elem >>= λ (o, t). elim o [
        | none ↦ ok (record { id = 0; new_id = false; entry = e; tree = t })
        | some sub ↦ ok (record {
          id = sub.self.subid;
          new_id = true;
          entry = record e {
            subtree = k.balance_sub (link (turn_sub k tree.kcmp_type elem) sub.self e.subtree);
          };
          tree = t;
        })
      ]
    ]

pub record GenId : Type 0 where
  pub id : ℕ
  pub new_id : Bool
  pub tree : KidTree

unfoldable pub kid_generate_gen : Kernel → KidTree → KidElem → Res GenId
unfolding alloc_kid_entry kid_generate_sub turn_gen
kid_generate_gen k tree elem = elim (find (turn_gen elem) tree.root) [
  | some this ↦ kid_generate_sub k tree this elem >>= λ s. ok (record {
    id = s.id;
    new_id = s.new_id;
    tree = record s.tree { root = put (turn_gen elem) s.entry tree.root };
  })
  | none ↦ alloc_kid_entry k tree elem >>= λ (o, t). elim o [
    | none ↦ ok (record { id = 0; new_id = false; tree = t })
    | some e ↦ ok (record {
      id = e.self.subid;
      new_id = true;
      tree = record t { root = k.balance (link (turn_gen elem) e tree.root) };
    })
  ]
]
