-- ===== src/Wrapper/Commands.antt =====
-- The calls of virtualFileSystem/virtualFileSystemWrapper.cc that change the current directory or
-- the dataset, and the listing for a terminal.
use redis_virtual_file_syste.Common.{
  ℕ, List, [], ◌∷◌, ◌++◌, Bytes, codes, pos, minus_one, int_eq, length, drop, ◌==◌, if◌then◌else◌,
  Outcome, ok, ◌>>=◌, Bool, true, false,
}
use redis_virtual_file_syste.Redis.{Redis}
use redis_virtual_file_syste.Vfs.Create.{
  vfs_mkdir, vfs_create_file, vfs_build_database, is_virtual_file_system_created,
}
use redis_virtual_file_syste.PathParser.State.{ParserState}
use redis_virtual_file_syste.PathParser.Walk.{vfs_parse_path}
use redis_virtual_file_syste.Safe.{Folder, File, redis_get_folders, redis_get_files}
use redis_virtual_file_syste.Wrapper.Paths.{
  get_cwd_id, get_folder_id_from_path, format_to_valid_path, get_absolute_path_from_folder_id,
}

-- The names of the folders, then those of the files, a line each.
abbrev pub folder_lines : List Folder → Bytes
folder_lines [] = []
folder_lines (f ∷ fs) = f.name ++ ((10 ∷ []) ++ folder_lines fs)

abbrev pub file_lines : List File → Bytes
file_lines [] = []
file_lines (f ∷ fs) = f.name ++ ((10 ∷ []) ++ file_lines fs)

module _ (r : Redis) where
  open r use {Db}

  -- `getInitialContext` behind the connection: the current directory and the dataset.
  unfoldable pub get_initial_context : Db → Bytes × Db
  get_initial_context d =
      (codes "/", if is_virtual_file_system_created r d == 0 then vfs_build_database r d else d)

  unfoldable pub get_files : Db → Bytes → Bytes → Outcome (List File)
  get_files d cwd path = do id ← get_folder_id_from_path r d cwd path; redis_get_files r d id

  unfoldable pub get_folders : Db → Bytes → Bytes → Outcome (List Folder)
  get_folders d cwd path = do id ← get_folder_id_from_path r d cwd path; redis_get_folders r d id

  unfoldable pub ls_pretty_print : Db → Bytes → Bytes → Outcome Bytes
  unfolding get_files get_folders
  ls_pretty_print d cwd path = do
    files ← get_files d cwd path
    folders ← get_folders d cwd path
    ok (folder_lines folders ++ file_lines files)

  -- `mkdir`; `state` is the uninitialised parser state.
  unfoldable pub mkdir : ℕ → Db → Bytes → ParserState → Bytes → Outcome (Bool × Db)
  mkdir fuel d cwd state init_path = do
    formatted_path ← format_to_valid_path r fuel d cwd init_path
    cwd_id ← get_cwd_id r d cwd
    (result, found) ← vfs_parse_path r d state formatted_path (length formatted_path) cwd_id
    if int_eq result minus_one
        then ok (false, d)
        else ok (true, (vfs_mkdir r d found.parent_id (drop found.name_offset formatted_path)).1)

  -- `createFile`; `state` is the uninitialised parser state.
  unfoldable pub create_file : ℕ → Db → Bytes → ParserState → Bytes → Outcome (Bool × Db)
  create_file fuel d cwd state path = do
    formatted_path ← format_to_valid_path r fuel d cwd path
    cwd_id ← get_cwd_id r d cwd
    (result, found) ← vfs_parse_path r d state formatted_path (length formatted_path) cwd_id
    if int_eq result minus_one
        then ok (false, d)
        else ok (
          true,
          (vfs_create_file r d found.parent_id (drop found.name_offset formatted_path) (pos 1)
              (codes "none") (codes "https://none.com") (codes "http://none")).1,
        )

  -- `cd`: the answer and the new current directory.
  unfoldable pub cd : ℕ → Db → Bytes → Bytes → Outcome (Bool × Bytes)
  cd fuel d cwd path = do
    formatted_path ← format_to_valid_path r fuel d cwd path
    folder_id ← get_folder_id_from_path r d cwd formatted_path
    if int_eq folder_id minus_one
        then ok (false, cwd)
        else do new_cwd ← get_absolute_path_from_folder_id r fuel d folder_id; ok (true, new_cwd)
