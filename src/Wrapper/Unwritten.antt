-- ===== src/Wrapper/Unwritten.antt =====
-- What virtualFileSystemWrapper.cc, its header and vfs_safe.cc declare and do not carry out yet, and
-- `pwd`. A stub leaves the dataset as it is.
use redis_virtual_file_syste.Common.{Bytes, ℤ, Bool, true, [], Outcome, fault}

abbrev pub pwd : Bytes → Bytes
pwd cwd = cwd

module _ {Db : Type 0} where
  -- `mv` answers true.
  unfoldable pub mv : Bytes → Bytes → Db → Bool × Db
  mv old_path new_path d = (true, d)

  unfoldable pub redis_mv_file_to_folder_with_rename : Bytes → Bytes → Bytes → Db → Db
  redis_mv_file_to_folder_with_rename file_path target_folder_absolute_path new_file_name d = d

  unfoldable pub redis_mv_overwrite_file : Bytes → Bytes → Db → Db
  redis_mv_overwrite_file file_path target_folder_absolute_path d = d

  unfoldable pub redis_mv_overwrite_folder : Bytes → Bytes → Db → Db
  redis_mv_overwrite_folder file_path target_folder_absolute_path d = d

  -- `redis_getDirItemInfo`
  unfoldable pub redis_get_dir_item_info : Db → Db
  redis_get_dir_item_info d = d

  -- `redis_findFileIdInFolder` ends without a `return`, which is undefined.
  unfoldable pub redis_find_file_id_in_folder : Db → ℤ → Bytes → Outcome ℤ
  redis_find_file_id_in_folder d folder_id filename = fault

-- The class `Path`, which drops the text that it is made from.
pub record ItemPath : Type 0 where
  pub text : Bytes

unfoldable pub new_path : Bytes → ItemPath
new_path path = record { text = [] }

unfoldable pub get_path_excluding_name : ItemPath → Bytes
get_path_excluding_name p = []

unfoldable pub get_path_including_name : ItemPath → Bytes
get_path_including_name p = []

unfoldable pub get_name : ItemPath → Bytes
get_name p = []
