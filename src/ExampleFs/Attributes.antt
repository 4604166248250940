-- ===== src/ExampleFs/Attributes.antt =====
-- The callbacks of fuse/examplefs.cc on extended attributes.
use redis_virtual_file_syste.Common.{ℕ, Bytes, ℤ, Outcome, ok, ◌>>=◌}
use redis_virtual_file_syste.Posix.{Posix, Answer, return_errno}
use redis_virtual_file_syste.ExampleFs.{ExampleFs, abs_path}

module _ (p : Posix) where
  open p use {World}

  unfoldable pub setxattr :
      ExampleFs → Bytes → Bytes → Bytes → ℕ → ℤ → World → Outcome (Answer World (Unit {0}))
  setxattr fs path name value size flags w = do
    full_path ← abs_path p fs path
    ok (return_errno p (p.lsetxattr full_path name value size flags w))

  unfoldable pub getxattr :
      ExampleFs → Bytes → Bytes → Bytes → ℕ → World → Outcome (Answer World Bytes)
  getxattr fs path name value size w = do
    full_path ← abs_path p fs path
    ok (return_errno p (p.getxattr full_path name value size w))

  unfoldable pub listxattr : ExampleFs → Bytes → Bytes → ℕ → World → Outcome (Answer World Bytes)
  listxattr fs path list size w = do
    full_path ← abs_path p fs path
    ok (return_errno p (p.llistxattr full_path list size w))

  unfoldable pub removexattr : ExampleFs → Bytes → Bytes → World → Outcome (Answer World (Unit {0}))
  removexattr fs path name w = do
    full_path ← abs_path p fs path
    ok (return_errno p (p.lremovexattr full_path name w))
