-- ===== src/Safe.antt =====
-- virtualFileSystem/vfs_safe.cc: getters over `std::string` and `std::vector`. A `std::string` made
-- from NULL is undefined behaviour; `substr` past the end throws.
use redis_virtual_file_syste.Common.{
  ℕ, List, [], ◌∷◌, map, Bytes, codes, ℤ, minus_one, Option, none, some, Outcome, ok, thrown, ◌>>=◌,
}
use redis_virtual_file_syste.Libc.Decimal.{format_lu, format_ld, strtol}
use redis_virtual_file_syste.Redis.{Redis, reply_str, reply_integer, reply_elements}
use redis_virtual_file_syste.Keys.{folder_key, file_key, info_suffix, folders_suffix, files_suffix}
use redis_virtual_file_syste.Vfs.Query.{or_fault, but_last, strtol_behind_first}

pub record File : Type 0 where
  pub id : ℤ
  pub name : Bytes
  pub parent_id : ℤ

pub record Folder : Type 0 where
  pub id : ℤ
  pub name : Bytes
  pub parent_id : ℤ

-- `output.substr(1, output.size() - 2)`
unfoldable pub substr_inside : Bytes → Outcome Bytes
substr_inside [] = thrown
substr_inside (c ∷ s) = ok (but_last s)

abbrev pub strtol_or_minus_one : Option Bytes → ℤ
strtol_or_minus_one none = minus_one
strtol_or_minus_one (some s) = strtol s

module _ (r : Redis) where
  open r use {Db, hget, lrange, exists, hset}

  unfoldable pub redis_get_file_name : Db → ℤ → Outcome Bytes
  redis_get_file_name d id = do
    output ← or_fault (reply_str (hget d (file_key (format_lu id)) (codes "name")))
    substr_inside output

  unfoldable pub redis_get_folder_parent_id : Db → ℤ → ℤ
  redis_get_folder_parent_id d id =
      strtol_or_minus_one
        (reply_str (hget d (folder_key (format_lu id) info_suffix) (codes "parent")))

  unfoldable pub redis_get_file_parent_id : Db → ℤ → ℤ
  redis_get_file_parent_id d id =
      strtol_or_minus_one (reply_str (hget d (file_key (format_lu id)) (codes "parent")))

  -- The stored text with its quotes.
  unfoldable pub redis_get_file_web_url : Db → ℤ → Outcome Bytes
  redis_get_file_web_url d id =
      or_fault (reply_str (hget d (file_key (format_lu id)) (codes "apiUrl")))

  unfoldable pub redis_get_file_size_from_id : Db → ℤ → Outcome ℤ
  redis_get_file_size_from_id d id =
      elim (reply_str (hget d (file_key (format_lu id)) (codes "size"))) [
        | none ↦ ok minus_one
        | some s ↦ strtol_behind_first s
      ]

  unfoldable pub redis_get_folder_ids : Db → ℤ → List ℤ
  redis_get_folder_ids d id =
      map strtol (reply_elements (lrange d (folder_key (format_lu id) folders_suffix)))

  unfoldable pub redis_get_file_ids : Db → ℤ → List ℤ
  redis_get_file_ids d id =
      map strtol (reply_elements (lrange d (folder_key (format_lu id) files_suffix)))

  unfoldable pub redis_get_folder_name : Db → ℤ → Outcome Bytes
  redis_get_folder_name d id = do
    output ← or_fault (reply_str (hget d (folder_key (format_lu id) info_suffix) (codes "name")))
    substr_inside output

  unfoldable pub redis_get_folder : Db → ℤ → Outcome Folder
  redis_get_folder d id = do
    name ← redis_get_folder_name d id
    ok (record { id = id; name = name; parent_id = redis_get_folder_parent_id d id })

  unfoldable pub folders_of_ids : Db → List ℤ → Outcome (List Folder)
  folders_of_ids d [] = ok []
  folders_of_ids d (id ∷ ids) = do
    folder ← redis_get_folder d id
    folders ← folders_of_ids d ids
    ok (folder ∷ folders)

  unfoldable pub redis_get_folders : Db → ℤ → Outcome (List Folder)
  redis_get_folders d id = folders_of_ids d (redis_get_folder_ids d id)

  unfoldable pub redis_get_file : Db → ℤ → Outcome File
  redis_get_file d id = do
    name ← redis_get_file_name d id
    ok (record { id = id; name = name; parent_id = redis_get_file_parent_id d id })

  unfoldable pub files_of_ids : Db → List ℤ → Outcome (List File)
  files_of_ids d [] = ok []
  files_of_ids d (id ∷ ids) = do
    file ← redis_get_file d id
    files ← files_of_ids d ids
    ok (file ∷ files)

  unfoldable pub redis_get_files : Db → ℤ → Outcome (List File)
  redis_get_files d id = files_of_ids d (redis_get_file_ids d id)

  unfoldable pub redis_set_folder_parent : Db → ℤ → ℤ → Db
  redis_set_folder_parent d dir_id new_parent =
      hset d (folder_key (format_lu dir_id) info_suffix) (codes "parent") (format_ld new_parent)

  unfoldable pub redis_is_file : Db → ℤ → ℕ
  redis_is_file d id = reply_integer (exists d (file_key (format_lu id)))

  unfoldable pub redis_is_directory : Db → ℤ → ℕ
  redis_is_directory d id = reply_integer (exists d (folder_key (format_lu id) info_suffix))
