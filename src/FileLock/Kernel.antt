-- ===== src/FileLock/Kernel.antt =====
-- Locks as the kernel holds them, their lines in /proc/locks (fs/locks.c of Linux), and the calls that
-- take them again.
use crtools.Base.Strings.{Text, strn_eq, atoll}
use crtools.Base.{
  ℕ, suc, ◌+◌, ◌-◌, ◌^◌, ◌≤◌, ◌<◌, ◌≡◌, Bool, true, false, Option, none, some, [], ◌∷◌,
}
use crtools.FileLock.{
  FileLock, posix_text, flock_text, msnfs_text, read_text, rw_text, write_text, unlck_text,
  eof_text, f_rdlck, f_wrlck, f_unlck, lock_sh, lock_ex, lock_un, lock_mand, lock_read, lock_write,
  lock_rw, Call, flock, setlkw,
}

pub data Mode : Type 0 where
  reads : Mode
  writes : Mode
  unlocks : Mode

pub data Share : Type 0 where
  share_read : Share
  share_write : Share
  share_rw : Share

-- A POSIX lock, with whether it is mandatory; one of flock(2); a share of the NFS server.
pub data Kind : Type 0 where
  posix : Bool → Mode → Kind
  bsd : Mode → Kind
  mandatory : Share → Kind

-- A lock on the bytes from `start` to `last`, none for the end of the file.
pub record Held : Type 0 where
  pub kind : Kind
  pub owner : ℕ
  pub i_no : ℕ
  pub start : ℕ
  pub last : Option ℕ
  pub end : Text

-- How `end` prints `last`.
pub data IsEnd : ℕ → Option ℕ → Text → Type 0 where
  to_eof : (start : ℕ) → IsEnd start none eof_text
  to_byte :
      (start last : ℕ) (end : Text)
      → strn_eq 3 end eof_text ≡ false
      → atoll end ≡ last
      → start ≤ last
      → last < 2 ^ 63 - 1
      → IsEnd start (some last) end

abbrev pub mode_text : Mode → Text
mode_text reads = read_text
mode_text writes = write_text
mode_text unlocks = unlck_text

abbrev pub share_text : Share → Text
share_text share_read = read_text
share_text share_write = write_text
share_text share_rw = rw_text

abbrev pub flag_of : Kind → Text
flag_of (posix m mode) = posix_text
flag_of (bsd mode) = flock_text
flag_of (mandatory share) = flock_text

-- "ADVISORY", "MANDATORY" or "MSNFS"
abbrev pub type_of : Kind → Text
type_of (posix true mode) = b'M' ∷ b'A' ∷ b'N' ∷ b'D' ∷ b'A' ∷ b'T' ∷ b'O' ∷ b'R' ∷ b'Y' ∷ []
type_of (posix false mode) = b'A' ∷ b'D' ∷ b'V' ∷ b'I' ∷ b'S' ∷ b'O' ∷ b'R' ∷ b'Y' ∷ []
type_of (bsd mode) = b'A' ∷ b'D' ∷ b'V' ∷ b'I' ∷ b'S' ∷ b'O' ∷ b'R' ∷ b'Y' ∷ []
type_of (mandatory share) = msnfs_text

abbrev pub option_of : Kind → Text
option_of (posix m mode) = mode_text mode
option_of (bsd mode) = mode_text mode
option_of (mandatory share) = share_text share

abbrev pub line : Held → FileLock
line l = record {
  fl_flag = flag_of l.kind;
  fl_type = type_of l.kind;
  fl_option = option_of l.kind;
  fl_owner = l.owner;
  i_no = l.i_no;
  start = l.start;
  end = l.end;
}

-- `l_type` of fcntl(2)
abbrev pub posix_type : Mode → ℕ
posix_type reads = f_rdlck
posix_type writes = f_wrlck
posix_type unlocks = f_unlck

-- The operation of flock(2)
abbrev pub bsd_operation : Mode → ℕ
bsd_operation reads = lock_sh
bsd_operation writes = lock_ex
bsd_operation unlocks = lock_un

abbrev pub share_operation : Share → ℕ
share_operation share_read = lock_mand + lock_read
share_operation share_write = lock_mand + lock_write
share_operation share_rw = lock_mand + lock_rw

-- The number of bytes, 0 for all up to the end of the file.
abbrev pub extent : ℕ → Option ℕ → ℕ
extent start none = 0
extent start (some last) = suc last - start

-- The call that takes the lock through the descriptor `fd`.
abbrev pub recreated : Held → ℕ → Call
recreated l fd = elim l.kind [
  | posix m mode ↦ setlkw fd (posix_type mode) l.start (extent l.start l.last) l.owner
  | bsd mode ↦ flock fd (bsd_operation mode)
  | mandatory share ↦ flock fd (share_operation share)
]
