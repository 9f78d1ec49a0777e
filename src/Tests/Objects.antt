-- ===== src/Tests/Objects.antt =====
-- The ids of kernel objects, on small trees.
use crtools.Base.{ℕ, ◌≡◌, refl, true, ok, pos, ltb, ◌==◌, if◌then◌else◌, arith}
use crtools.Kcmp.{leaf, node, KidSub, KidEntry, KidTree, Kernel, kid_generate_sub, kid_generate_gen}
use crtools.Kcmp.Ids.{IsTree, IsBalance, GenResult, kid_generate_gen-GenResult}
use crtools.Kcmp.Spine.{IsDocumented, reply, kid_generate_sub-spine}

-- kcmp(2) on objects numbered by the descriptor's index.
abbrev order : ℕ → ℕ → ℕ
order a b = if a == b then 0 else (if ltb a b then 1 else 2)

abbrev kcmp_kernel : Kernel
kcmp_kernel = record {
  sys_kcmp = λ p1 p2 type i1 i2. pos (order i1 i2);
  xmalloc = true;
  balance = λ t. t;
  balance_sub = λ t. t;
}

abbrev object : ℕ → ℕ → KidSub
object id idx = record { subid = id; elem = record { pid = 10; genid = 7; idx = idx } }

-- Three objects of one general id, after the tree has been balanced.
abbrev three : KidEntry
three = record {
  self = object 1 1;
  subtree = node (node leaf (object 1 1) leaf) (object 2 2) (node leaf (object 3 3) leaf);
}

abbrev kid_tree : KidTree
kid_tree = record { root = node leaf three leaf; kcmp_type = 0; subid = 4 }

kcmp_kernel-IsBalance : IsBalance kcmp_kernel
kcmp_kernel-IsBalance = record { keeps = λ t. refl; keeps_sub = λ t. refl }

kid_tree-IsTree : IsTree kid_tree
kid_tree-IsTree = record {
  ascends = (tt, tt);
  entries = (record { same = (refl, (refl, (refl, tt))); filled = λ e. cc }, tt);
  started = omega arith;
  word = omega arith;
  below = omega arith;
  distinct = omega arith;
}

kid_generate_gen-GenResult_example :
    GenResult kcmp_kernel kcmp_kernel-IsBalance kid_tree kid_tree-IsTree
      (object 0 3).elem
      (kid_generate_gen kcmp_kernel kid_tree (object 0 3).elem)
kid_generate_gen-GenResult_example =
    kid_generate_gen-GenResult kcmp_kernel kcmp_kernel-IsBalance kid_tree kid_tree-IsTree
      (object 0 3).elem

abbrev kcmp_kernel-IsDocumented : IsDocumented kcmp_kernel
kcmp_kernel-IsDocumented = record {
  result = λ s elem. order s.elem.idx elem.idx;
  returned = λ type s elem. refl;
}

-- The object with the id 1 hangs to the left and gets the id 4.
kid_generate_sub-spine_example :
    reply (kid_generate_sub kcmp_kernel kid_tree three (object 0 1).elem) ≡ ok (4, true)
kid_generate_sub-spine_example =
    kid_generate_sub-spine kcmp_kernel kid_tree three (object 0 1).elem kcmp_kernel-IsDocumented
      (λ e. cc)
