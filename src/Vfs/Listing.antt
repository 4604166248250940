-- ===== src/Vfs/Listing.antt =====
-- `vfs_ls`, `vfs_listUnixStyle` and `vfs_getDirPathFromId` of virtualFileSystem/vfs.c.
use redis_virtual_file_syste.Common.{
  ℕ, zero, suc, ◌-◌, List, [], ◌∷◌, ◌++◌, Bytes, codes, ℤ, pos, int_eq, length, if◌then◌else◌,
  Outcome, ok, unfinished, ◌>>=◌,
}
use redis_virtual_file_syste.Libc.Decimal.{format_lu, strtol}
use redis_virtual_file_syste.Redis.{Redis, reply_str, reply_elements}
use redis_virtual_file_syste.Keys.{folder_key, info_suffix, folders_suffix, files_suffix}
use redis_virtual_file_syste.Vfs.Query.{
  max_filename_size, or_fault, in_buffer, strtol_behind_first, vfs_get_file_name,
  vfs_get_folder_name, vfs_get_file_size_from_id,
}

abbrev pub line_size : ℕ
line_size = 20000

-- `%10lu`
abbrev pub pad_left : ℕ → Bytes → Bytes
pad_left zero s = s
pad_left (suc n) s = 32 ∷ pad_left n s

abbrev pub format_10lu : ℤ → Bytes
format_10lu n = let s = format_lu n in pad_left (10 - length s) s

abbrev pub unix_line : Bytes → ℤ → Bytes → Bytes
unix_line mode size name =
    mode
    ++ (codes "   1 linux linux "
        ++ (format_10lu size ++ (codes " Jan  1  1980 " ++ (name ++ (13 ∷ 10 ∷ [])))))

module _ (r : Redis) where
  open r use {Db, hget, lrange}

  -- The names of the listed folders, in order; the loop of `vfs_ls` prints them.
  unfoldable pub folder_names : Db → List Bytes → Outcome (List Bytes)
  folder_names d [] = ok []
  folder_names d (e ∷ es) = do
    name ← vfs_get_folder_name r d (strtol e) max_filename_size
    names ← folder_names d es
    ok (name ∷ names)

  unfoldable pub file_names : Db → List Bytes → Outcome (List Bytes)
  file_names d [] = ok []
  file_names d (e ∷ es) = do
    name ← vfs_get_file_name r d (strtol e) max_filename_size
    names ← file_names d es
    ok (name ∷ names)

  -- The names that `vfs_ls` prints behind `ls: `, a line each.
  unfoldable pub vfs_ls : Db → ℤ → Outcome (List Bytes)
  unfolding folder_names file_names
  vfs_ls d dir_id = do
    folders ←
        folder_names d (reply_elements (lrange d (folder_key (format_lu dir_id) folders_suffix)))
    files ← file_names d (reply_elements (lrange d (folder_key (format_lu dir_id) files_suffix)))
    ok (folders ++ files)

  unfoldable pub unix_folders : Db → List Bytes → Bytes → Outcome Bytes
  unix_folders d [] line = ok line
  unix_folders d (e ∷ es) line = do
    name ← vfs_get_folder_name r d (strtol e) max_filename_size
    line' ← in_buffer line_size (line ++ unix_line (codes "drwxrwxr-x") (pos 1) name)
    unix_folders d es line'

  unfoldable pub unix_files : Db → List Bytes → Bytes → Outcome Bytes
  unix_files d [] line = ok line
  unix_files d (e ∷ es) line = do
    name ← vfs_get_file_name r d (strtol e) max_filename_size
    size ← vfs_get_file_size_from_id r d (strtol e)
    line' ← in_buffer line_size (line ++ unix_line (codes "-rwxrwxr-x") size name)
    unix_files d es line'

  unfoldable pub vfs_list_unix_style : Db → ℤ → Outcome Bytes
  unfolding unix_folders unix_files
  vfs_list_unix_style d dir_id = do
    line ←
        unix_folders d (reply_elements (lrange d (folder_key (format_lu dir_id) folders_suffix))) []
    unix_files d (reply_elements (lrange d (folder_key (format_lu dir_id) files_suffix))) line

  -- The `while` loop, with a unit of fuel for each round. The parent is read from the second byte
  -- of its print on.
  unfoldable pub dir_path_loop : ℕ → Db → ℤ → Bytes → ℕ → Outcome Bytes
  dir_path_loop zero d current output size = unfinished
  dir_path_loop (suc fuel) d current output size =
      let rest = (do
        name ← vfs_get_folder_name r d current size
        output' ← in_buffer size (codes "/" ++ (name ++ output))
        parent ←
            or_fault
              (reply_str (hget d (folder_key (format_lu current) info_suffix) (codes "parent")))
        next ← strtol_behind_first parent
        dir_path_loop fuel d next output' size) in
      if int_eq current (pos 0) then in_buffer size (output ++ codes "/") else rest

  unfoldable pub vfs_get_dir_path_from_id : ℕ → Db → ℤ → ℕ → Outcome Bytes
  vfs_get_dir_path_from_id fuel d id size = dir_path_loop fuel d id [] size
