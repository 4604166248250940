-- ===== src/Posix.antt =====
-- The operating system's calls that fuse/examplefs.cc and fuse/redisfs.cc make, which lie outside
-- the source: a parameter. A call takes the state of the system and the buffer that it may write,
-- and its `Answer` has the value it returns, what the buffer holds then, and the next state.
pub mod Host
use redis_virtual_file_syste.Common.{
  ℕ, ◌≡◌, Bytes, ℤ, pos, negsuc, Option, int_eq, if◌then◌else◌, zero, suc,
}

pub record Answer (World : Type 0) (A : Type 0) : Type 0 where
  pub value : ℤ
  pub out : A
  pub world : World

pub record Posix : Type 1 where
  pub World : Type 0
  -- `struct stat`, `struct statvfs` and `struct utimbuf`
  pub StatBuf : Type 0
  pub StatVfs : Type 0
  pub Times : Type 0
  -- PATH_MAX
  pub path_max : ℕ
  pub errno : World → ℤ
  pub lstat : Bytes → StatBuf → World → Answer World StatBuf
  pub readlink : Bytes → Bytes → ℕ → World → Answer World Bytes
  pub mknod : Bytes → ℕ → ℕ → World → Answer World (Unit {0})
  pub mkdir : Bytes → ℕ → World → Answer World (Unit {0})
  pub unlink : Bytes → World → Answer World (Unit {0})
  pub rmdir : Bytes → World → Answer World (Unit {0})
  pub symlink : Bytes → Bytes → World → Answer World (Unit {0})
  pub rename : Bytes → Bytes → World → Answer World (Unit {0})
  pub link : Bytes → Bytes → World → Answer World (Unit {0})
  pub chmod : Bytes → ℕ → World → Answer World (Unit {0})
  pub chown : Bytes → ℕ → ℕ → World → Answer World (Unit {0})
  pub truncate : Bytes → ℤ → World → Answer World (Unit {0})
  pub utime : Bytes → Times → World → Answer World (Unit {0})
  -- open(path, flags); the value is a descriptor, or -1
  pub open_file : Bytes → ℤ → World → Answer World (Unit {0})
  pub pread : ℤ → Bytes → ℕ → ℤ → World → Answer World Bytes
  pub pwrite : ℤ → Bytes → ℕ → ℤ → World → Answer World (Unit {0})
  pub statvfs : Bytes → StatVfs → World → Answer World StatVfs
  pub fdatasync : ℤ → World → Answer World (Unit {0})
  pub fsync : ℤ → World → Answer World (Unit {0})
  pub lsetxattr : Bytes → Bytes → Bytes → ℕ → ℤ → World → Answer World (Unit {0})
  pub getxattr : Bytes → Bytes → Bytes → ℕ → World → Answer World Bytes
  pub llistxattr : Bytes → Bytes → ℕ → World → Answer World Bytes
  pub lremovexattr : Bytes → Bytes → World → Answer World (Unit {0})
  pub ftruncate : ℤ → ℤ → World → Answer World (Unit {0})
  -- the stream, a pointer, 0 for NULL
  pub opendir : Bytes → World → ℕ × World
  -- the name of the next entry; `none` for NULL
  pub readdir : ℕ → World → Option Bytes × World
  pub closedir : ℕ → World → World

-- `-x`
abbrev pub negated : ℤ → ℤ
negated (pos zero) = pos zero
negated (pos (suc n)) = negsuc n
negated (negsuc n) = pos (suc n)

module _ (p : Posix) where
  open p use {World, errno}

  -- `RETURN_ERRNO`
  unfoldable pub return_errno : {A : Type 0} → Answer World A → Answer World A
  return_errno a = record a {
    value = if int_eq a.value (pos 0) then pos 0 else negated (errno a.world);
  }
