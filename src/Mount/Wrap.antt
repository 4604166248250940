-- ===== src/Mount/Wrap.antt =====
-- fuse/wrap.cc: each callback of the table asks for the one `ExampleFS` and calls its method.
use redis_virtual_file_syste.Common.{ℕ, Bytes, ℤ, Bool, Outcome, ok}
use redis_virtual_file_syste.Posix.{Posix, Answer}
use redis_virtual_file_syste.ExampleFs.{FileInfo}
use redis_virtual_file_syste.ExampleFs.Nodes.{
  getattr, readlink, mknod, mkdir, unlink, rmdir, symlink, rename, link, chmod, chown, truncate,
  utime,
}
use redis_virtual_file_syste.ExampleFs.Files.{open_file, read, write, statfs, flush, release, fsync}
use redis_virtual_file_syste.ExampleFs.Attributes.{setxattr, getxattr, listxattr, removexattr}
use redis_virtual_file_syste.ExampleFs.Directories.{opendir, readdir, releasedir, fsyncdir, init}
use redis_virtual_file_syste.Mount.State.{Program, through}

module _ (p : Posix) where
  open p use {World, StatBuf, StatVfs, Times}

  abbrev Effect : Type 0 → Type 0
  Effect A = Program World → Outcome (Answer (Program World) A)

  unfoldable pub wrap_getattr : Bytes → StatBuf → Effect StatBuf
  wrap_getattr path statbuf = through (λ fs w. getattr p fs path statbuf w)

  unfoldable pub wrap_readlink : Bytes → Bytes → ℕ → Effect Bytes
  wrap_readlink path link size = through (λ fs w. readlink p fs path link size w)

  unfoldable pub wrap_mknod : Bytes → ℕ → ℕ → Effect (Unit {0})
  wrap_mknod path mode dev = through (λ fs w. mknod p fs path mode dev w)

  unfoldable pub wrap_mkdir : Bytes → ℕ → Effect (Unit {0})
  wrap_mkdir path mode = through (λ fs w. mkdir p fs path mode w)

  unfoldable pub wrap_unlink : Bytes → Effect (Unit {0})
  wrap_unlink path = through (λ fs w. unlink p fs path w)

  unfoldable pub wrap_rmdir : Bytes → Effect (Unit {0})
  wrap_rmdir path = through (λ fs w. rmdir p fs path w)

  unfoldable pub wrap_symlink : Bytes → Bytes → Effect (Unit {0})
  wrap_symlink path link = through (λ fs w. symlink p fs path link w)

  unfoldable pub wrap_rename : Bytes → Bytes → Effect (Unit {0})
  wrap_rename path newpath = through (λ fs w. rename p fs path newpath w)

  unfoldable pub wrap_link : Bytes → Bytes → Effect (Unit {0})
  wrap_link path newpath = through (λ fs w. link p fs path newpath w)

  unfoldable pub wrap_chmod : Bytes → ℕ → Effect (Unit {0})
  wrap_chmod path mode = through (λ fs w. chmod p fs path mode w)

  unfoldable pub wrap_chown : Bytes → ℕ → ℕ → Effect (Unit {0})
  wrap_chown path uid gid = through (λ fs w. chown p fs path uid gid w)

  unfoldable pub wrap_truncate : Bytes → ℤ → Effect (Unit {0})
  wrap_truncate path new_size = through (λ fs w. truncate p fs path new_size w)

  unfoldable pub wrap_utime : Bytes → Times → Effect (Unit {0})
  wrap_utime path ubuf = through (λ fs w. utime p fs path ubuf w)

  unfoldable pub wrap_open : Bytes → FileInfo → Effect FileInfo
  wrap_open path file_info = through (λ fs w. open_file p fs path file_info w)

  unfoldable pub wrap_read : Bytes → Bytes → ℕ → ℤ → FileInfo → Effect Bytes
  wrap_read path buf size offset file_info =
      through (λ fs w. ok (read p path buf size offset file_info w))

  unfoldable pub wrap_write : Bytes → Bytes → ℕ → ℤ → FileInfo → Effect (Unit {0})
  wrap_write path buf size offset file_info =
      through (λ fs w. ok (write p path buf size offset file_info w))

  unfoldable pub wrap_statfs : Bytes → StatVfs → Effect StatVfs
  wrap_statfs path stat_info = through (λ fs w. statfs p fs path stat_info w)

  unfoldable pub wrap_flush : Bytes → FileInfo → Effect (Unit {0})
  wrap_flush path file_info = through (λ fs w. ok (flush p path file_info w))

  unfoldable pub wrap_release : Bytes → FileInfo → Effect (Unit {0})
  wrap_release path file_info = through (λ fs w. ok (release p path file_info w))

  unfoldable pub wrap_fsync : Bytes → Bool → FileInfo → Effect (Unit {0})
  wrap_fsync path datasync fi = through (λ fs w. ok (fsync p path datasync fi w))

  unfoldable pub wrap_setxattr : Bytes → Bytes → Bytes → ℕ → ℤ → Effect (Unit {0})
  wrap_setxattr path name value size flags =
      through (λ fs w. setxattr p fs path name value size flags w)

  unfoldable pub wrap_getxattr : Bytes → Bytes → Bytes → ℕ → Effect Bytes
  wrap_getxattr path name value size = through (λ fs w. getxattr p fs path name value size w)

  unfoldable pub wrap_listxattr : Bytes → Bytes → ℕ → Effect Bytes
  wrap_listxattr path list size = through (λ fs w. listxattr p fs path list size w)

  unfoldable pub wrap_removexattr : Bytes → Bytes → Effect (Unit {0})
  wrap_removexattr path name = through (λ fs w. removexattr p fs path name w)

  unfoldable pub wrap_opendir : Bytes → FileInfo → Effect FileInfo
  wrap_opendir path file_info = through (λ fs w. opendir p fs path file_info w)

  unfoldable pub wrap_readdir : {B : Type 0} → ℕ → (B → Bytes → ℕ × B) → B → FileInfo → Effect B
  wrap_readdir fuel filler buf file_info = through (λ fs w. readdir p fuel filler buf file_info w)

  unfoldable pub wrap_releasedir : FileInfo → Effect (Unit {0})
  wrap_releasedir file_info = through (λ fs w. ok (releasedir p file_info w))

  unfoldable pub wrap_fsyncdir : Bytes → Bool → FileInfo → Effect (Unit {0})
  wrap_fsyncdir path datasync file_info =
      through (λ fs w. ok (fsyncdir p path datasync file_info w))

  unfoldable pub wrap_init : Effect (Unit {0})
  wrap_init = through (λ fs w. ok (init p w))
