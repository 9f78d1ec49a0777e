-- ===== src/Mount/Resolve.antt =====
-- mount_resolve_path of mount.c, and the comparison of strings.
use crtools.Base.{
  ◌≡◌, refl, ◌⊎◌, inl, inr, true, false, Bool-cases, ◌++◌, length, length-append, min, ltb, not_ltb,
  ltb→lt, arith,
}
use crtools.Base.Strings.{Text, StartsWith, strn_eq-StartsWith, strn_eq-append}
use crtools.Mount.{
  MountInfo, MntTree, MntForest, node, nil, cons, mount_of, is_on, mount_resolve_path,
  resolve_below,
}

pub is_on-StartsWith : (m path : Text) → is_on m path ≡ true → StartsWith path m
unfolding is_on
is_on-StartsWith m path e = elim (Bool-cases (ltb (length path) (length m))) [
  | inl h ↦ let f : false ≡ true = (rw h at e) in absurd (cc)
  | inr h ↦
      let l = not_ltb (length path) (length m) h in
      let n : min (length m) (length path) ≡ length m = omega (arith, l) in
      strn_eq-StartsWith m path l (rw (h, n) at e)
]

pub is_on-append : (m rest : Text) → is_on m (m ++ rest) ≡ true
unfolding is_on
is_on-append m rest =
    let l = length-append m rest in
    elim (Bool-cases (ltb (length (m ++ rest)) (length m))) [
      | inl h ↦ let lt = ltb→lt (length (m ++ rest)) (length m) h in absurd (omega (arith, l, lt))
      | inr h ↦
          let n : min (length m) (length (m ++ rest)) ≡ length m = omega (arith, l) in
          rw (h, n) (strn_eq-append m rest)
    ]

mutual
  -- `Within t s`: s is t or below it.
  pub data Within : MntTree → MntTree → Type 0 where
    itself : (t : MntTree) → Within t t
    below : (m : MountInfo) (cs : MntForest) (s : MntTree) → InForest cs s → Within (node m cs) s

  pub data InForest : MntForest → MntTree → Type 0 where
    in_first : (c : MntTree) (cs : MntForest) (s : MntTree) → Within c s → InForest (cons c cs) s
    in_rest : (c : MntTree) (cs : MntForest) (s : MntTree) → InForest cs s → InForest (cons c cs) s

abbrev pub children : MntTree → MntForest
children (node m cs) = cs

-- No mount point of these starts the path.
abbrev pub AllOff : Text → MntForest → Type 0
AllOff path nil = Unit {0}
AllOff path (cons c cs) = (¬ StartsWith path (mount_of c).mountpoint) × AllOff path cs

-- A mount below whose mount point starts the path, with no child of which that is true.
record FoundIn (cs : MntForest) (path : Text) (r : MountInfo) : Type 0 where
  at_tree : MntTree
  inside : InForest cs at_tree
  result : r ≡ mount_of at_tree
  starts : StartsWith path r.mountpoint
  off : AllOff path (children at_tree)

pub record Resolution (t : MntTree) (path : Text) (r : MountInfo) : Type 0 where
  pub at_tree : MntTree
  pub inside : Within t at_tree
  pub result : r ≡ mount_of at_tree
  pub starts : (r ≡ mount_of t) ⊎ StartsWith path r.mountpoint
  pub off : AllOff path (children at_tree)

is_on-false : (m path : Text) → is_on m path ≡ false → ¬ StartsWith path m
is_on-false m path e (rest, r) = let y : is_on m path ≡ true = rw r (is_on-append m rest) in cc

found_rest :
    {c : MntTree} {cs : MntForest} {path : Text} {r : MountInfo}
    → FoundIn cs path r
    → FoundIn (cons c cs) path r
found_rest {c} {cs} f = record {
  at_tree = f.at_tree;
  inside = in_rest c cs f.at_tree f.inside;
  result = f.result;
  starts = f.starts;
  off = f.off;
}

module _ (m : MountInfo) (c : MntTree) (cs : MntForest) (path : Text) where
  resolve_into :
      is_on (mount_of c).mountpoint path ≡ true
      → resolve_below m (cons c cs) path ≡ mount_resolve_path c path
  unfolding mount_resolve_path
  resolve_into e = ground arith

  resolve_past :
      is_on (mount_of c).mountpoint path ≡ false
      → resolve_below m (cons c cs) path ≡ resolve_below m cs path
  unfolding mount_resolve_path
  resolve_past e = ground arith

mutual
  unfolding mount_resolve_path

  resolve-Found :
      (c : MntTree) (cs : MntForest) (path : Text)
      → StartsWith path (mount_of c).mountpoint
      → FoundIn (cons c cs) path (mount_resolve_path c path)
  resolve-Found (node m ds) cs path s = elim (below-cases m ds path) [
    | inl (off, same) ↦ rw same (record {
      at_tree = node m ds;
      inside = in_first (node m ds) cs (node m ds) (itself (node m ds));
      result = refl;
      starts = s;
      off = off;
    })
    | inr f ↦ record {
      at_tree = f.at_tree;
      inside = in_first (node m ds) cs f.at_tree (below m ds f.at_tree f.inside);
      result = f.result;
      starts = f.starts;
      off = f.off;
    }
  ]

  below-cases :
      (m : MountInfo) (cs : MntForest) (path : Text)
      → (AllOff path cs × (resolve_below m cs path ≡ m)) ⊎ FoundIn cs path (resolve_below m cs path)
  below-cases m nil path = inl (tt, refl)
  below-cases m (cons c cs) path = elim (Bool-cases (is_on (mount_of c).mountpoint path)) [
    | inl h ↦
        rw (resolve_into m c cs path h)
          (inr (resolve-Found c cs path (is_on-StartsWith (mount_of c).mountpoint path h)))
    | inr h ↦ rw (resolve_past m c cs path h) (elim (below-cases m cs path) [
      | inl (off, same) ↦ inl ((is_on-false (mount_of c).mountpoint path h, off), same)
      | inr f ↦ inr (found_rest f)
    ])
  ]

-- mount_resolve_path ends at a mount of the tree that is the root or whose mount point is
-- a prefix of the path, character by character, and of no child of which that is true. (What follows the
-- prefix need not be a slash.)
pub mount_resolve_path-Resolution :
    (t : MntTree) (path : Text) → Resolution t path (mount_resolve_path t path)
unfolding mount_resolve_path
mount_resolve_path-Resolution (node m cs) path = elim (below-cases m cs path) [
  | inl (off, same) ↦ rw same (record {
    at_tree = node m cs;
    inside = itself (node m cs);
    result = refl;
    starts = inl refl;
    off = off;
  })
  | inr f ↦ record {
    at_tree = f.at_tree;
    inside = below m cs f.at_tree f.inside;
    result = f.result;
    starts = inr f.starts;
    off = f.off;
  }
]
