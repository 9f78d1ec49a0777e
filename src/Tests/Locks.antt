-- ===== src/Tests/Locks.antt =====
-- File locks of two tasks, dumped and taken again.
use crtools.Base.Strings.{strn_eq, atoll}
use crtools.Base.{
  ℕ, ◌*◌, ◌≡◌, refl, List, [], ◌∷◌, Option, none, some, Bool, true, false, map, ok, ◌==◌,
  if◌then◌else◌, arith,
}
use crtools.FileLock.{
  FileLockEntry, get_fd_by_ino, dump_task_file_locks, Call, flock, setlkw, Image,
  restore_file_locks,
}
use crtools.FileLock.Kernel.{
  Held, to_eof, to_byte, posix, bsd, mandatory, reads, writes, share_rw, line,
}
use crtools.FileLock.Dump.{FdResult, get_fd_by_ino-FdResult, dump_task_file_locks-restore}
use crtools.FileLock.Restore.{RestoreResult, restore_file_locks-RestoreResult}

-- Descriptor 3 is open on the inode 30, and so on.
abbrev inodes : ℕ → Option ℕ
inodes fd = if fd == 0 then none else some (fd * 10)

abbrev fds : List ℕ
fds = 0 ∷ 3 ∷ 4 ∷ []

get_fd_by_ino-FdResult_example : FdResult inodes 40 fds (get_fd_by_ino inodes 40 fds)
get_fd_by_ino-FdResult_example = get_fd_by_ino-FdResult inodes 40 fds

-- The bytes 5 to 17, written "17".
abbrev ranged : Held
ranged = record {
  kind = posix false writes;
  owner = 100;
  i_no = 30;
  start = 5;
  last = some 17;
  end = b'1' ∷ b'7' ∷ [];
}

abbrev shared : Held
shared = record {
  kind = mandatory share_rw;
  owner = 100;
  i_no = 40;
  start = 0;
  last = none;
  end = b'E' ∷ b'O' ∷ b'F' ∷ [];
}

abbrev foreign : Held
foreign = record shared { owner = 101; kind = bsd reads; i_no = 99 }

abbrev held : List Held
held = ranged ∷ foreign ∷ shared ∷ []

abbrev writable : FileLockEntry → Bool
writable e = true

abbrev takes_all : Call → Bool
takes_all c = true

dump_task_file_locks-restore_example :
    (es : List FileLockEntry) × (dump_task_file_locks inodes writable fds 100 (map line held)
      ≡ ok es)
    × (restore_file_locks takes_all (record { entries = es; broken = false })
        ≡ record { calls = setlkw 3 1 5 13 100 ∷ flock 4 224 ∷ []; success = true })
unfolding atoll strn_eq
dump_task_file_locks-restore_example =
    dump_task_file_locks-restore inodes writable fds (λ e. refl) takes_all (λ c. refl) 100 held
      (
        (λ e. record {
          end = to_byte 5 17 (b'1' ∷ b'7' ∷ []) refl refl (omega arith) (omega arith);
          fd = 3;
          found = refl;
        }),
        (
          (λ e. absurd (omega (arith, e))),
          ((λ e. record { end = to_eof 0; fd = 4; found = refl }), tt),
        ),
      )

abbrev image : Image
image = record {
  entries =
      record { flag = 2; type = 1; pid = 100; fd = 3; start = 0; len = 0 }
      ∷ record { flag = 4; type = 1; pid = 100; fd = 3; start = 0; len = 0 }
      ∷ [];
  broken = false;
}

restore_file_locks-RestoreResult_example :
    RestoreResult takes_all image.entries (restore_file_locks takes_all image)
restore_file_locks-RestoreResult_example = restore_file_locks-RestoreResult takes_all image
