-- ===== src/Vfs/Create.antt =====
-- The functions of virtualFileSystem/vfs.c that write: new ids, folders and files, their lists,
-- names and parents, and the initial database.
use redis_virtual_file_syste.Common.{
  ℕ, List, [], ◌∷◌, ◌++◌, Bytes, codes, ℤ, pos, minus_one, none, some, if◌then◌else◌, take, ◌==◌,
}
use redis_virtual_file_syste.Libc.Decimal.{format_lu, format_ld, strtol}
use redis_virtual_file_syste.Redis.{Redis, reply_str, reply_integer}
use redis_virtual_file_syste.Keys.{
  folder_key, file_key, info_suffix, folders_suffix, files_suffix, current_id_count, is_created,
}

-- `"%s"` in a format: the quotes become part of the stored text.
abbrev pub quoted : Bytes → Bytes
quoted s = codes "\"" ++ (s ++ codes "\"")

abbrev pub created_data : Bytes
created_data = codes "march 7th"

-- The fields of `FOLDER_%lu_info`, in the order that HMSET is given them.
abbrev pub folder_fields : ℤ → Bytes → List (Bytes × Bytes)
folder_fields parent_id name =
    (codes "parent", format_lu parent_id)
    ∷ (codes "name", quoted name)
    ∷ (codes "createdData", quoted created_data)
    ∷ []

-- The fields of `FILE_%lu_info`.
abbrev pub file_fields : Bytes → ℤ → Bytes → Bytes → Bytes → List (Bytes × Bytes)
file_fields name size google_id web_url api_url =
    (codes "name", quoted name)
    ∷ (codes "size", quoted (format_lu size))
    ∷ (codes "createdData", quoted created_data)
    ∷ (codes "id", quoted google_id)
    ∷ (codes "webUrl", quoted web_url)
    ∷ (codes "apiUrl", quoted api_url)
    ∷ []

module _ (r : Redis) where
  open r use {Db, get, exists, set, incr, hset, hmset, lpush, lrem, flushall}

  -- `getNewId`: -1 if there is no counter.
  unfoldable pub get_new_id : Db → ℤ × Db
  get_new_id d = elim (reply_str (get d current_id_count)) [
    | none ↦ (minus_one, d)
    | some s ↦ (strtol s, incr d current_id_count)
  ]

  -- `__mkdir`
  unfoldable pub write_folder : Db → ℤ → ℤ → Bytes → Db
  write_folder d parent_id id name =
      hmset d (folder_key (format_lu id) info_suffix) (folder_fields parent_id name)

  unfoldable pub vfs_mkdir : Db → ℤ → Bytes → ℤ × Db
  vfs_mkdir d parent_id name =
      let (id, d₁) = get_new_id d in
      let d₂ = lpush d₁ (folder_key (format_lu parent_id) folders_suffix) (format_lu id) in
      (id, write_folder d₂ parent_id id name)

  -- `__createFile`
  unfoldable pub write_file : Db → ℤ → Bytes → ℤ → Bytes → Bytes → Bytes → Db
  write_file d id name size google_id web_url api_url =
      hmset d (file_key (format_lu id)) (file_fields name size google_id web_url api_url)

  -- `__addFileToFileList`
  unfoldable pub add_file_to_file_list : Db → ℤ → ℤ → Db
  add_file_to_file_list d folder_id file_id =
      lpush d (folder_key (format_lu folder_id) files_suffix) (format_lu file_id)

  -- `__addDirToFolderList`
  unfoldable pub add_dir_to_folder_list : Db → ℤ → ℤ → Db
  add_dir_to_folder_list d folder_id file_id =
      lpush d (folder_key (format_lu folder_id) folders_suffix) (format_lu file_id)

  -- `__removeIdFromFileList`
  unfoldable pub remove_id_from_file_list : Db → ℤ → ℤ → Db
  remove_id_from_file_list d dir_id remove_id =
      lrem d (folder_key (format_ld dir_id) files_suffix) (format_ld remove_id)

  -- `__removeIdFromFolderList`
  unfoldable pub remove_id_from_folder_list : Db → ℤ → ℤ → Db
  remove_id_from_folder_list d dir_id remove_id =
      lrem d (folder_key (format_ld dir_id) folders_suffix) (format_ld remove_id)

  unfoldable pub vfs_create_file : Db → ℤ → Bytes → ℤ → Bytes → Bytes → Bytes → ℤ × Db
  vfs_create_file d parent_id name size google_id web_url api_url =
      let (id, d₁) = get_new_id d in
      let d₂ = add_file_to_file_list d₁ parent_id id in
      (id, write_file d₂ id name size google_id web_url api_url)

  -- The name is the first `length` bytes of the buffer.
  unfoldable pub vfs_set_file_name : Db → ℤ → Bytes → ℕ → Db
  vfs_set_file_name d id buffer length =
      hset d (file_key (format_lu id)) (codes "name") (quoted (take length buffer))

  unfoldable pub vfs_set_dir_parent : Db → ℤ → ℤ → Db
  vfs_set_dir_parent d dir_id new_parent =
      hset d (folder_key (format_lu dir_id) info_suffix) (codes "parent") (format_ld new_parent)

  unfoldable pub vfs_build_database : Db → Db
  unfolding write_folder
  vfs_build_database d =
      let d₁ = flushall d in
      let d₂ = write_folder d₁ (pos 0) (pos 0) (codes "root") in
      let d₃ = set d₂ current_id_count (codes "1") in set d₃ is_created (codes "yes")

  -- `isVirtualFileSystemCreated`
  unfoldable pub is_virtual_file_system_created : Db → ℕ
  is_virtual_file_system_created d = reply_integer (exists d is_created)

  unfoldable pub build_database_if_required : Db → Db
  build_database_if_required d =
      if is_virtual_file_system_created d == 0 then vfs_build_database d else d
