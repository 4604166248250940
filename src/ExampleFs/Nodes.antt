-- ===== src/ExampleFs/Nodes.antt =====
-- The callbacks of fuse/examplefs.cc on names: from `Getattr` to `Utime`.
use redis_virtual_file_syste.Common.{ℕ, Bytes, ℤ, Outcome, ok, ◌>>=◌}
use redis_virtual_file_syste.Posix.{Posix, Answer, return_errno}
use redis_virtual_file_syste.ExampleFs.{ExampleFs, abs_path}

module _ (p : Posix) where
  open p use {World, StatBuf, Times}

  unfoldable pub getattr : ExampleFs → Bytes → StatBuf → World → Outcome (Answer World StatBuf)
  getattr fs path statbuf w = do
    full_path ← abs_path p fs path
    ok (return_errno p (p.lstat full_path statbuf w))

  unfoldable pub readlink : ExampleFs → Bytes → Bytes → ℕ → World → Outcome (Answer World Bytes)
  readlink fs path link size w = do
    full_path ← abs_path p fs path
    ok (return_errno p (p.readlink full_path link size w))

  unfoldable pub mknod : ExampleFs → Bytes → ℕ → ℕ → World → Outcome (Answer World (Unit {0}))
  mknod fs path mode dev w = do
    full_path ← abs_path p fs path
    ok (return_errno p (p.mknod full_path mode dev w))

  unfoldable pub mkdir : ExampleFs → Bytes → ℕ → World → Outcome (Answer World (Unit {0}))
  mkdir fs path mode w = do
    full_path ← abs_path p fs path
    ok (return_errno p (p.mkdir full_path mode w))

  unfoldable pub unlink : ExampleFs → Bytes → World → Outcome (Answer World (Unit {0}))
  unlink fs path w = do full_path ← abs_path p fs path; ok (return_errno p (p.unlink full_path w))

  unfoldable pub rmdir : ExampleFs → Bytes → World → Outcome (Answer World (Unit {0}))
  rmdir fs path w = do full_path ← abs_path p fs path; ok (return_errno p (p.rmdir full_path w))

  -- The second path of `Symlink` and of `Rename` is passed on as it is.
  unfoldable pub symlink : ExampleFs → Bytes → Bytes → World → Outcome (Answer World (Unit {0}))
  symlink fs path link w = do
    full_path ← abs_path p fs path
    ok (return_errno p (p.symlink full_path link w))

  unfoldable pub rename : ExampleFs → Bytes → Bytes → World → Outcome (Answer World (Unit {0}))
  rename fs path newpath w = do
    full_path ← abs_path p fs path
    ok (return_errno p (p.rename full_path newpath w))

  unfoldable pub link : ExampleFs → Bytes → Bytes → World → Outcome (Answer World (Unit {0}))
  link fs path newpath w = do
    full_path ← abs_path p fs path
    full_new_path ← abs_path p fs newpath
    ok (return_errno p (p.link full_path full_new_path w))

  unfoldable pub chmod : ExampleFs → Bytes → ℕ → World → Outcome (Answer World (Unit {0}))
  chmod fs path mode w = do
    full_path ← abs_path p fs path
    ok (return_errno p (p.chmod full_path mode w))

  unfoldable pub chown : ExampleFs → Bytes → ℕ → ℕ → World → Outcome (Answer World (Unit {0}))
  chown fs path uid gid w = do
    full_path ← abs_path p fs path
    ok (return_errno p (p.chown full_path uid gid w))

  unfoldable pub truncate : ExampleFs → Bytes → ℤ → World → Outcome (Answer World (Unit {0}))
  truncate fs path new_size w = do
    full_path ← abs_path p fs path
    ok (return_errno p (p.truncate full_path new_size w))

  unfoldable pub utime : ExampleFs → Bytes → Times → World → Outcome (Answer World (Unit {0}))
  utime fs path ubuf w = do
    full_path ← abs_path p fs path
    ok (return_errno p (p.utime full_path ubuf w))
