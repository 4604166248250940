-- ===== src/Vfs/Unwritten.antt =====
-- The functions of virtualFileSystem/vfs.c whose bodies are empty so far: the dataset stays as it is.
use redis_virtual_file_syste.Common.{Bytes, ℤ, Option}

module _ {Db : Type 0} where
  -- `__deleteFile`
  unfoldable pub delete_file : ℤ → Db → Db
  delete_file file_id d = d

  -- `__deleteDir`
  unfoldable pub delete_dir : ℤ → Db → Db
  delete_dir dir_id d = d

  unfoldable pub vfs_delete : Bytes → Db → Db
  vfs_delete path d = d

  -- `__mv` tests for a NULL name and does nothing in either case.
  unfoldable pub move : ℤ → ℤ → ℤ → Option Bytes → Db → Db
  move file_id old_parent_id new_parent_id new_file_name d = d
