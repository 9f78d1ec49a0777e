-- ===== src/PsTree/Migrate.antt =====
-- prepare_pstree_for_shell_job of pstree.c.
use crtools.Base.{
  ℕ, max, ◌≡◌, refl, sym, ap, ap₂, ◌∙◌, ◌⊎◌, inl, inr, map, Bool, true, false, Bool-cases, List, [],
  ◌∷◌, ◌++◌, All, ◌==◌, ==_iff, if◌then◌else◌, not, arith,
}
use crtools.PsTree.{
  Task, PsItem, PsForest, node, nil, cons, task_of, ShellJob, migrate_task, migrate, migrate_all,
  prepare_pstree_for_shell_job,
}
use crtools.PsTree.Image.{tasks, tasks_all, map-append}
use crtools.PsTree.Bounds.{IsBelow}

mutual
  tasks-migrate : (f : Task → Task) (i : PsItem) → tasks (migrate f i) ≡ map f (tasks i)
  tasks-migrate f (node t cs) = ap (◌∷◌ (f t)) (tasks-migrate_all f cs)

  tasks-migrate_all :
      (f : Task → Task) (cs : PsForest) → tasks_all (migrate_all f cs) ≡ map f (tasks_all cs)
  tasks-migrate_all f nil = refl
  tasks-migrate_all f (cons c cs) =
      ap₂ ◌++◌ (tasks-migrate f c) (tasks-migrate_all f cs)
      ∙ sym (map-append f (tasks c) (tasks_all cs))

-- The old session and process group are those of the root `t0`; the task `t` has become `u`.
pub record IsMigrated (sh : ShellJob) (t0 t u : Task) : Type 0 where
  pub kept : (u.pid ≡ t.pid) × (u.threads ≡ t.threads)
  pub group : t.pgid ≡ t0.pgid → u.pgid ≡ sh.current_gid
  pub other_group : (t.pgid ≡ t0.pgid → ⊥) → u.pgid ≡ t.pgid
  pub session : t.sid ≡ t0.sid → u.sid ≡ sh.current_sid
  pub other_session : (t.sid ≡ t0.sid → ⊥) → u.sid ≡ t.sid

-- Two trees of the same shape, whose tasks are related place by place.
abbrev mutual
  pub AtEach : (Task → Task → Type 0) → PsItem → PsItem → Type 0
  AtEach R (node t cs) (node u ds) = R t u × AtAll R cs ds

  pub AtAll : (Task → Task → Type 0) → PsForest → PsForest → Type 0
  AtAll R nil nil = Unit {0}
  AtAll R nil (cons d ds) = ⊥
  AtAll R (cons c cs) nil = ⊥
  AtAll R (cons c cs) (cons d ds) = AtEach R c d × AtAll R cs ds

-- What becomes of the tree and `max_pid`.
pub data Migration (sh : ShellJob) (root : PsItem) (m : ℕ) : PsItem × ℕ → Type 0 where
  stays :
      (sh.shell_job ≡ false) ⊎ ((task_of root).sid ≡ (task_of root).pid)
      → Migration sh root m (root, m)
  moves :
      (out : PsItem × ℕ)
      → sh.shell_job ≡ true
      → ((task_of root).sid ≡ (task_of root).pid → ⊥)
      → AtEach (IsMigrated sh (task_of root)) root out.0
      → out.1 ≡ max m (max sh.current_sid sh.current_gid)
      → All (IsBelow out.1) (tasks out.0)
      → Migration sh root m out

migrate_task-IsMigrated :
    (sh : ShellJob) (t0 t : Task) → IsMigrated sh t0 t (migrate_task sh t0.sid t0.pgid t)
migrate_task-IsMigrated sh t0 t = record {
  kept = (refl, refl);
  group = λ e. rw ((==_iff t.pgid t0.pgid).1 e) refl;
  other_group = λ n. elim (Bool-cases (t.pgid == t0.pgid)) [
    | inl h ↦ absurd (n ((==_iff t.pgid t0.pgid).0 h))
    | inr h ↦ rw h refl
  ];
  session = λ e. rw ((==_iff t.sid t0.sid).1 e) refl;
  other_session = λ n. elim (Bool-cases (t.sid == t0.sid)) [
    | inl h ↦ absurd (n ((==_iff t.sid t0.sid).0 h))
    | inr h ↦ rw h refl
  ];
}

module _ (R : Task → Task → Type 0) (f : Task → Task) (r : (t : Task) → R t (f t)) where
  mutual
    migrate-AtEach : (i : PsItem) → AtEach R i (migrate f i)
    migrate-AtEach (node t cs) = (r t, migrate_all-AtAll cs)

    migrate_all-AtAll : (cs : PsForest) → AtAll R cs (migrate_all f cs)
    migrate_all-AtAll nil = tt
    migrate_all-AtAll (cons c cs) = (migrate-AtEach c, migrate_all-AtAll cs)

migrated-IsBelow :
    (sh : ShellJob) (old_sid old_gid m : ℕ) (t : Task)
    → IsBelow m t
    → IsBelow (max sh.current_gid (max sh.current_sid m)) (migrate_task sh old_sid old_gid t)
migrated-IsBelow sh old_sid old_gid m t b =
    let b0 = b.0 in
    let b1 = b.1 in
    let b2 = b.2 in
    (
      omega (arith, b0),
      elim (Bool-cases (t.pgid == old_gid)) [
        | inl h ↦ rw h (omega arith)
        | inr h ↦ rw h (omega (arith, b1))
      ],
      elim (Bool-cases (t.sid == old_sid)) [
        | inl h ↦ rw h (omega arith)
        | inr h ↦ rw h (omega (arith, b2))
      ],
    )

All-map :
    (P Q : Task → Type 0) (f : Task → Task)
    → ((t : Task) → P t → Q (f t))
    → (ts : List Task) → All P ts
    → All Q (map f ts)
All-map P Q f h [] a = tt
All-map P Q f h (t ∷ ts) a = (h t a.0, All-map P Q f h ts a.1)

-- For `max_pid` of at least all ids, prepare_pstree_for_shell_job leaves the tree and `max_pid` alone without --shell-job
-- or when the root leads its session. Otherwise every task keeps its place in the tree, its pid and its threads; its
-- process group becomes the current one exactly if it was the root's, and its session likewise; and `max_pid` becomes
-- the greatest of itself and the current ids, and is at least all ids again.
pub prepare_pstree_for_shell_job-Migration :
    (sh : ShellJob) (root : PsItem) (m : ℕ)
    → All (IsBelow m) (tasks root)
    → Migration sh root m (prepare_pstree_for_shell_job sh root m)
unfolding prepare_pstree_for_shell_job
prepare_pstree_for_shell_job-Migration sh root m a =
    choose sh.shell_job ((task_of root).sid == (task_of root).pid) refl refl
  where
    f : Task → Task
    f = migrate_task sh (task_of root).sid (task_of root).pgid

    m2 : ℕ
    m2 = max sh.current_gid (max sh.current_sid m)

    choose :
        (job same : Bool)
        → sh.shell_job ≡ job
        → ((task_of root).sid == (task_of root).pid) ≡ same
        → Migration sh root m
            (if not job then (root, m) else (if same then (root, m) else (migrate f root, m2)))
    choose false same j e = stays (inl j)
    choose true true j e = stays (inr ((==_iff (task_of root).sid (task_of root).pid).0 e))
    choose true false j e =
        moves (migrate f root, m2) j
          (λ q. let t = (==_iff (task_of root).sid (task_of root).pid).1 q in cc)
          (migrate-AtEach (IsMigrated sh (task_of root)) f
            (migrate_task-IsMigrated sh (task_of root)) root)
          (omega arith)
          (rw (tasks-migrate f root) (
            All-map (IsBelow m) (IsBelow m2) f
              (migrated-IsBelow sh (task_of root).sid (task_of root).pgid m) (tasks root) a))
