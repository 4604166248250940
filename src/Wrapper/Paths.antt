-- ===== src/Wrapper/Paths.antt =====
-- The path helpers of virtualFileSystem/virtualFileSystemWrapper.cc.
use redis_virtual_file_syste.Common.{
  ℕ, zero, suc, [], ◌∷◌, ◌++◌, Bytes, codes, ℤ, pos, minus_one, int_eq, ◌&&◌, length, drop, ◌==◌,
  if◌then◌else◌, Outcome, ok, fault, thrown, unfinished, ◌>>=◌, Bool, true,
}
use redis_virtual_file_syste.Redis.{Redis}
use redis_virtual_file_syste.PathParser.State.{ParserState, root_folder_id}
use redis_virtual_file_syste.PathParser.Scan.{byte_at}
use redis_virtual_file_syste.PathParser.Walk.{vfs_get_dir_id_from_path, vfs_parse_path}
use redis_virtual_file_syste.Safe.{redis_get_folder_name, redis_get_folder_parent_id}

-- `path.back()` of an empty string is undefined.
unfoldable pub with_final_slash : Bytes → Outcome Bytes
with_final_slash [] = fault
with_final_slash (c ∷ s) =
    if byte_at (c ∷ s) (length s) == b'/' then ok (c ∷ s) else ok ((c ∷ s) ++ codes "/")

-- `removeAnyPathPrefix`: `path.at(0)` of an empty string throws.
unfoldable pub remove_any_path_prefix : Bytes → Outcome Bytes
remove_any_path_prefix [] = thrown
remove_any_path_prefix (c ∷ s) =
    if c == b'/'
    then ok s
    else if c == b'.' && byte_at s 0 == b'/'
    then ok (drop 1 s)
    else ok (c ∷ s)

-- `isValidPath`
unfoldable pub is_valid_path : Bytes → Bool
is_valid_path path = true

module _ (r : Redis) where
  open r use {Db}

  -- `getParentIdById`
  unfoldable pub get_parent_id_by_id : Db → ℤ → ℤ
  get_parent_id_by_id d child_id = redis_get_folder_parent_id r d child_id

  -- `getDirIdFromPath`
  unfoldable pub get_dir_id_from_path : Db → ℤ → Bytes → Outcome ℤ
  unfolding with_final_slash
  get_dir_id_from_path d cwd path = do
    path_copy ← with_final_slash path
    vfs_get_dir_id_from_path r d cwd path_copy (length path_copy)

  -- `getCwdId`, through `getFolderIdFromAbsolutePath`
  unfoldable pub get_cwd_id : Db → Bytes → Outcome ℤ
  get_cwd_id d cwd = get_dir_id_from_path d root_folder_id cwd

  -- `getFolderIdFromPath`
  unfoldable pub get_folder_id_from_path : Db → Bytes → Bytes → Outcome ℤ
  get_folder_id_from_path d cwd path = do
    cwd_id ← get_cwd_id d cwd
    get_dir_id_from_path d cwd_id path

  -- `getFileIdFromPath`; `state` is the uninitialised parser state.
  unfoldable pub get_file_id_from_path : Db → Bytes → ParserState → Bytes → Outcome ℤ
  get_file_id_from_path d cwd state path = do
    cwd_id ← get_cwd_id d cwd
    (result, found) ← vfs_parse_path r d state path (length path) cwd_id
    ok (
        if int_eq result minus_one
        then minus_one
        else if found.is_file_path
        then found.id
        else minus_one)

  -- `getNonRootFolderName`
  unfoldable pub get_non_root_folder_name : Db → ℤ → Outcome Bytes
  get_non_root_folder_name d folder_id =
      if int_eq folder_id root_folder_id then thrown else redis_get_folder_name r d folder_id

  -- The loop of `getAbsolutePathFromFolderId`, with a unit of fuel for each round.
  unfoldable pub absolute_path_loop : ℕ → Db → ℤ → Bytes → Outcome Bytes
  unfolding get_non_root_folder_name get_parent_id_by_id
  absolute_path_loop zero d current output = unfinished
  absolute_path_loop (suc fuel) d current output =
      let rest = (do
        folder_name ← get_non_root_folder_name d current
        absolute_path_loop fuel d (get_parent_id_by_id d current)
            (codes "/" ++ (folder_name ++ output))) in
      if int_eq current (pos 0) then ok (output ++ codes "/") else rest

  unfoldable pub get_absolute_path_from_folder_id : ℕ → Db → ℤ → Outcome Bytes
  unfolding absolute_path_loop
  get_absolute_path_from_folder_id fuel d folder_id =
      if int_eq folder_id root_folder_id
      then ok (codes "/")
      else absolute_path_loop fuel d folder_id []

  -- `getParentIdOfLeftSideOfExpression`
  unfoldable pub get_parent_id_of_left_side : Db → Bytes → Bytes → Outcome ℤ
  unfolding is_valid_path
  get_parent_id_of_left_side d cwd [] = thrown
  get_parent_id_of_left_side d cwd (c ∷ s) =
      if is_valid_path (c ∷ s)
      then (if c == b'/' then ok root_folder_id else get_folder_id_from_path d cwd cwd)
      else thrown

  -- `formatToValidPath`
  unfoldable pub format_to_valid_path : ℕ → Db → Bytes → Bytes → Outcome Bytes
  format_to_valid_path fuel d cwd initial_path = do
    parent_id ← get_parent_id_of_left_side d cwd initial_path
    if int_eq parent_id minus_one then thrown else do
      left_side ← get_absolute_path_from_folder_id fuel d parent_id
      right_side ← remove_any_path_prefix initial_path
      ok (left_side ++ right_side)
