-- ===== src/PsTree/Walk.antt =====
-- for_each_pstree_item of pstree.c visits every task once, parents first.
use crtools.Base.{
  ℕ, zero, suc, ◌+◌, ◌≤◌, ◌≡◌, refl, sym, ap, ap₂, ◌∙◌, Option, none, some, List, [], ◌∷◌, ◌++◌,
  append_assoc, append-nil, length, length-append, arith,
}
use crtools.PsTree.{
  Task, PsItem, PsForest, node, nil, cons, Level, Place, climb, pstree_item_next, Visit, parent_of,
  visit, walk, count, count_all,
}

-- A task with the parent given, its children, theirs and so on: each task before its children, and a
-- child with all below it before the next.
abbrev mutual
  pub preorder : Option Task → PsItem → List Visit
  preorder up (node t cs) = record { task = t; parent = up } ∷ preorder_all t cs

  pub preorder_all : Task → PsForest → List Visit
  preorder_all t nil = []
  preorder_all t (cons c cs) = preorder (some t) c ++ preorder_all t cs

abbrev behind : List Level → List Visit
behind [] = []
behind (l ∷ ls) = preorder_all l.parent l.behind ++ behind ls

-- What is still to be visited.
abbrev remaining : Option Place → List Visit
remaining none = []
remaining (some p) = preorder (parent_of p.levels) p.item ++ behind p.levels

climb-remaining : (ls : List Level) → remaining (climb ls) ≡ behind ls
climb-remaining [] = refl
climb-remaining (l ∷ ls) = go l.behind refl (climb-remaining ls)
  where
    go :
        (cs : PsForest)
        → l.behind ≡ cs
        → remaining (climb ls) ≡ behind ls
        → remaining (climb (l ∷ ls)) ≡ behind (l ∷ ls)
    go nil e ih = rw (climb, e, behind) ih
    go (cons c cs) e ih =
        rw (climb, e, behind)
          (sym (append_assoc (preorder (some l.parent) c) (preorder_all l.parent cs) (behind ls)))

next-remaining :
    (item : PsItem) (ls : List Level)
    → let p : Place = record { item = item; levels = ls } in
      remaining (some p) ≡ visit p ∷ remaining (pstree_item_next p)
unfolding pstree_item_next
next-remaining (node t nil) ls =
    ap (◌∷◌ (visit (record { item = node t nil; levels = ls }))) (sym (climb-remaining ls))
next-remaining (node t (cons c cs)) ls =
    ap (◌∷◌ (visit (record { item = node t (cons c cs); levels = ls })))
      (append_assoc (preorder (some t) c) (preorder_all t cs) (behind ls))

walk-remaining : (n : ℕ) (o : Option Place) → length (remaining o) ≤ n → walk n o ≡ remaining o
unfolding walk
walk-remaining zero none h = refl
walk-remaining zero (some p) h =
    let l = ap length (next-remaining p.item p.levels) in absurd (omega (arith, h, l))
walk-remaining (suc n) none h = refl
walk-remaining (suc n) (some p) h =
    let e = next-remaining p.item p.levels in
    let l = ap length e in
    ap (◌∷◌ (visit p)) (walk-remaining n (pstree_item_next p) (omega (arith, h, l))) ∙ sym e

mutual
  length-preorder : (up : Option Task) (i : PsItem) → length (preorder up i) ≡ count i
  length-preorder up (node t cs) = ap suc (length-preorder_all t cs)

  length-preorder_all : (t : Task) (cs : PsForest) → length (preorder_all t cs) ≡ count_all cs
  length-preorder_all t nil = refl
  length-preorder_all t (cons c cs) =
      length-append (preorder (some t) c) (preorder_all t cs)
      ∙ ap₂ ◌+◌ (length-preorder (some t) c) (length-preorder_all t cs)

-- for_each_pstree_item ends, and visits each task exactly once with its parent: in the order of a depth-first
-- search, a task before its children and the children in order; one step for each task is enough, and
-- more steps add nothing.
pub for_each_pstree_item-preorder :
    (root : PsItem) (more : ℕ)
    → walk (count root + more) (some (record { item = root; levels = [] })) ≡ preorder none root
for_each_pstree_item-preorder root more =
    let l = length-preorder none root in
    let p : Place = record { item = root; levels = [] } in
    let e : remaining (some p) ≡ preorder none root = append-nil (preorder none root) in
    walk-remaining (count root + more) (some p) (omega (arith, l, ap length e)) ∙ e
