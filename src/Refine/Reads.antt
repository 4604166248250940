-- ===== src/Refine/Reads.antt =====
-- The getters of vfs.c and vfs_safe.cc on a dataset that represents a file system.
use redis_virtual_file_syste.Common.{
  ℕ, ◌≤◌, ◌<◌, ◌≡◌, ◌∙◌, refl, ap, [], ◌∷◌, ◌++◌, Bytes, codes, map, pos, some, length, arith,
  bytes_eq, ok,
}
use redis_virtual_file_syste.Libc.Decimal.{long_max, decimal, format_lu}
use redis_virtual_file_syste.Libc.RoundTrip.{strtol-decimal}
use redis_virtual_file_syste.Redis.{Redis, IsRedis, str, reply_elements}
use redis_virtual_file_syste.Keys.{folder_info, folder_folders, folder_files, file_info, key_of}
use redis_virtual_file_syste.Vfs.Create.{quoted}
use redis_virtual_file_syste.Vfs.Query.{
  but_last, strip_quotes, in_buffer, vfs_get_file_name, vfs_get_folder_name, vfs_get_dir_parent,
}
use redis_virtual_file_syste.Safe.{
  redis_get_folder_name, redis_get_file_name, redis_get_folder_parent_id, substr_inside,
}
use redis_virtual_file_syste.Spec.{Fs, FolderInfo, FileInfo}
use redis_virtual_file_syste.Refine.Represents.{folder_value, file_value, Represents}

but_last-append : (s : Bytes) (c : ℕ) → but_last (s ++ (c ∷ [])) ≡ s
but_last-append [] c = refl
but_last-append (x ∷ []) c = refl
but_last-append (x ∷ y ∷ s) c = ap (λ t. x ∷ t) (but_last-append (y ∷ s) c)

-- The getters undo the quotes of the formats.
pub strip_quotes-quoted : (s : Bytes) → strip_quotes (quoted s) ≡ ok s
unfolding strip_quotes
strip_quotes-quoted s = ap ok (but_last-append s b'"')

pub substr_inside-quoted : (s : Bytes) → substr_inside (quoted s) ≡ ok s
unfolding substr_inside
substr_inside-quoted s = ap ok (but_last-append s b'"')

pub in_buffer_fits : (size : ℕ) (s : Bytes) → length s < size → in_buffer size s ≡ ok s
unfolding in_buffer
in_buffer_fits size s h = ground arith

module _ (r : Redis) (laws : IsRedis r) (d : r.Db) (fs : Fs) (h : Represents r laws d fs) where
  module _ (n : ℕ) (info : FolderInfo) (found : fs.folder n ≡ some info) where
    folder_name_reply : r.hget d (key_of (folder_info n)) (codes "name") ≡ str (quoted info.name)
    unfolding bytes_eq
    folder_name_reply =
        laws.hget-hash d _ (codes "name") _ (h (folder_info n) ∙ ap folder_value found)

    pub folder_parent_reply :
        r.hget d (key_of (folder_info n)) (codes "parent") ≡ str (decimal info.parent)
    unfolding bytes_eq format_lu
    folder_parent_reply =
        laws.hget-hash d _ (codes "parent") _ (h (folder_info n) ∙ ap folder_value found)

    pub vfs_get_folder_name_lem :
        (size : ℕ) → length info.name < size → vfs_get_folder_name r d (pos n) size ≡ ok info.name
    unfolding vfs_get_folder_name key_of format_lu
    vfs_get_folder_name_lem size fits =
        rw (folder_name_reply, vfs_get_folder_name)
          (rw strip_quotes-quoted (in_buffer_fits size info.name fits))

    pub vfs_get_dir_parent_lem :
        info.parent ≤ long_max → vfs_get_dir_parent r d (pos n) ≡ ok (pos info.parent)
    unfolding vfs_get_dir_parent key_of format_lu
    vfs_get_dir_parent_lem fits =
        rw (folder_parent_reply, vfs_get_dir_parent) (ap ok (strtol-decimal info.parent fits))

    pub redis_get_folder_name_lem : redis_get_folder_name r d (pos n) ≡ ok info.name
    unfolding redis_get_folder_name key_of format_lu
    redis_get_folder_name_lem =
        rw (folder_name_reply, redis_get_folder_name) (substr_inside-quoted info.name)

    pub redis_get_folder_parent_id_lem :
        info.parent ≤ long_max → redis_get_folder_parent_id r d (pos n) ≡ pos info.parent
    unfolding redis_get_folder_parent_id key_of format_lu
    redis_get_folder_parent_id_lem fits =
        rw (folder_parent_reply, redis_get_folder_parent_id) (strtol-decimal info.parent fits)

  module _ (n : ℕ) (info : FileInfo) (found : fs.file n ≡ some info) where
    file_name_reply : r.hget d (key_of (file_info n)) (codes "name") ≡ str (quoted info.name)
    unfolding bytes_eq
    file_name_reply = laws.hget-hash d _ (codes "name") _ (h (file_info n) ∙ ap file_value found)

    pub vfs_get_file_name_lem :
        (size : ℕ) → length info.name < size → vfs_get_file_name r d (pos n) size ≡ ok info.name
    unfolding vfs_get_file_name key_of format_lu
    vfs_get_file_name_lem size fits =
        rw (file_name_reply, vfs_get_file_name)
          (rw strip_quotes-quoted (in_buffer_fits size info.name fits))

    pub redis_get_file_name_lem : redis_get_file_name r d (pos n) ≡ ok info.name
    unfolding redis_get_file_name key_of format_lu
    redis_get_file_name_lem =
        rw (file_name_reply, redis_get_file_name) (substr_inside-quoted info.name)

  -- The elements of the two lists of a folder.
  pub folders_reply :
      (n : ℕ) → reply_elements (r.lrange d (key_of (folder_folders n))) ≡ map decimal (fs.folders n)
  folders_reply n =
      ap reply_elements (laws.lrange-list d _ (map decimal (fs.folders n)) (h (folder_folders n)))

  pub files_reply :
      (n : ℕ) → reply_elements (r.lrange d (key_of (folder_files n))) ≡ map decimal (fs.files n)
  files_reply n =
      ap reply_elements (laws.lrange-list d _ (map decimal (fs.files n)) (h (folder_files n)))
