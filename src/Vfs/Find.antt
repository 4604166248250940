-- ===== src/Vfs/Find.antt =====
-- `vfs_findFileNameInDir` and `vfs_findDirNameInDir` of virtualFileSystem/vfs.c. The name that is
-- looked for is a pointer into a path and a length: `name` is the text from the pointer to the NUL.
use redis_virtual_file_syste.Common.{
  ℕ, List, [], ◌∷◌, Bytes, codes, ℤ, minus_one, length, ◌==◌, ◌&&◌, if◌then◌else◌, Outcome, ok,
  ◌>>=◌, ltb,
}
use redis_virtual_file_syste.Libc.Decimal.{format_lu, strtol}
use redis_virtual_file_syste.Libc.Compare.{strncmp_eq}
use redis_virtual_file_syste.Redis.{Redis, reply_elements}
use redis_virtual_file_syste.Keys.{folder_key, folders_suffix, files_suffix}
use redis_virtual_file_syste.Vfs.Query.{
  max_filename_size, vfs_get_file_name, vfs_get_folder_name, vfs_get_dir_parent,
}

module _ (r : Redis) where
  open r use {Db, lrange}

  -- The loop over the files: it keeps the last match. Names are compared up to the longer length.
  unfoldable pub find_file_loop : Db → Bytes → ℕ → List Bytes → ℤ → Outcome ℤ
  find_file_loop d name name_length [] match_id = ok match_id
  find_file_loop d name name_length (e ∷ es) match_id = do
    file_name ← vfs_get_file_name r d (strtol e) max_filename_size
    let compared = if ltb (length file_name) name_length then name_length else length file_name
    find_file_loop d name name_length es
        (if strncmp_eq name file_name compared then strtol e else match_id)

  unfoldable pub vfs_find_file_name_in_dir : Db → ℤ → Bytes → ℕ → Outcome ℤ
  vfs_find_file_name_in_dir d dir_id name name_length =
      find_file_loop d name name_length
        (reply_elements (lrange d (folder_key (format_lu dir_id) files_suffix))) minus_one

  -- The loop over the folders: it stops at the first match. Names are compared up to the length of
  -- the name that is looked for.
  unfoldable pub find_dir_loop : Db → Bytes → ℕ → List Bytes → Outcome ℤ
  find_dir_loop d name name_length [] = ok minus_one
  find_dir_loop d name name_length (e ∷ es) =
      let rest = find_dir_loop d name name_length es in
      do
        folder_name ← vfs_get_folder_name r d (strtol e) max_filename_size
        if strncmp_eq name folder_name name_length then ok (strtol e) else rest

  unfoldable pub vfs_find_dir_name_in_dir : Db → ℤ → Bytes → ℕ → Outcome ℤ
  vfs_find_dir_name_in_dir d dir_id name name_length =
      if name_length == 1 && strncmp_eq (codes ".") name 1
      then ok dir_id
      else if name_length == 2 && strncmp_eq (codes "..") name 2
      then vfs_get_dir_parent r d dir_id
      else find_dir_loop d name name_length
          (reply_elements (lrange d (folder_key (format_lu dir_id) folders_suffix)))
