-- ===== src/Fuse/Callbacks.antt =====
-- The callbacks of fuse/redisfs.cc that print their arguments and return a constant. They write no
-- buffer that they are given, and the context, the dataset with the current directory, stays as it
-- is. `Statfs` leaves out the buffer, which it does not touch.
use redis_virtual_file_syste.Common.{ℕ, Bytes, ℤ, pos, minus_one, Bool}
use redis_virtual_file_syste.Posix.{Posix, Answer, return_errno}
use redis_virtual_file_syste.ExampleFs.{FileInfo}

module _ {Context : Type 0} where
  unfoldable pub readlink : Bytes → Bytes → ℕ → Context → ℤ × Context
  readlink path link size context = (pos 0, context)

  unfoldable pub mknod : Bytes → ℕ → ℕ → Context → ℤ × Context
  mknod path mode dev context = (pos 0, context)

  unfoldable pub mkdir : Bytes → ℕ → Context → ℤ × Context
  mkdir path mode context = (pos 0, context)

  unfoldable pub unlink : Bytes → Context → ℤ × Context
  unlink path context = (pos 0, context)

  unfoldable pub rmdir : Bytes → Context → ℤ × Context
  rmdir path context = (pos 0, context)

  unfoldable pub symlink : Bytes → Bytes → Context → ℤ × Context
  symlink path link context = (pos 0, context)

  unfoldable pub rename : Bytes → Bytes → Context → ℤ × Context
  rename path newpath context = (pos 0, context)

  unfoldable pub link : Bytes → Bytes → Context → ℤ × Context
  link path newpath context = (pos 0, context)

  unfoldable pub chmod : Bytes → ℕ → Context → ℤ × Context
  chmod path mode context = (pos 0, context)

  unfoldable pub chown : Bytes → ℕ → ℕ → Context → ℤ × Context
  chown path uid gid context = (pos 0, context)

  unfoldable pub truncate : Bytes → ℤ → Context → ℤ × Context
  truncate path new_size context = (pos 0, context)

  unfoldable pub open_file : Bytes → FileInfo → Context → ℤ × Context
  open_file path file_info context = (pos 0, context)

  unfoldable pub read : Bytes → Bytes → ℕ → ℤ → FileInfo → Context → ℤ × Context
  read path buf size offset file_info context = (minus_one, context)

  unfoldable pub write : Bytes → Bytes → ℕ → ℤ → FileInfo → Context → ℤ × Context
  write path buf size offset file_info context = (pos 0, context)

  unfoldable pub statfs : Bytes → Context → ℤ × Context
  statfs path context = (pos 0, context)

  unfoldable pub flush : Bytes → FileInfo → Context → ℤ × Context
  flush path file_info context = (pos 0, context)

  unfoldable pub release : Bytes → FileInfo → Context → ℤ × Context
  release path file_info context = (pos 0, context)

  unfoldable pub fsync : Bytes → Bool → FileInfo → Context → ℤ × Context
  fsync path datasync fi context = (pos 0, context)

  unfoldable pub setxattr : Bytes → Bytes → Bytes → ℕ → ℤ → Context → ℤ × Context
  setxattr path name value size flags context = (pos 0, context)

  unfoldable pub getxattr : Bytes → Bytes → Bytes → ℕ → Context → ℤ × Context
  getxattr path name value size context = (pos 0, context)

  unfoldable pub listxattr : Bytes → Bytes → ℕ → Context → ℤ × Context
  listxattr path list size context = (pos 0, context)

  unfoldable pub removexattr : Bytes → Bytes → Context → ℤ × Context
  removexattr path name context = (pos 0, context)

  unfoldable pub opendir : Bytes → FileInfo → Context → ℤ × Context
  opendir path file_info context = (pos 0, context)

  unfoldable pub releasedir : Bytes → FileInfo → Context → ℤ × Context
  releasedir path file_info context = (pos 0, context)

  unfoldable pub fsyncdir : Bytes → Bool → FileInfo → Context → ℤ × Context
  fsyncdir path datasync file_info context = (pos 0, context)

  unfoldable pub init : Context → ℤ × Context
  init context = (pos 0, context)

  unfoldable pub truncate_open : Bytes → ℤ → FileInfo → Context → ℤ × Context
  truncate_open path offset file_info context = (pos 0, context)

-- `Utime` calls the host's `utime` on a buffer that it has not filled: `stack` is the text that
-- happens to be there.
module _ (p : Posix) where
  open p use {World, Times}

  unfoldable pub utime : Bytes → Bytes → Times → World → Answer World (Unit {0})
  utime stack path ubuf w = return_errno p (p.utime stack ubuf w)
