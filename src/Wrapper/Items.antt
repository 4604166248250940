-- ===== src/Wrapper/Items.antt =====
-- `dirItemInfo`, `getDirItemInfo` by id and by path, `ls`, `ls_info` and `stat` of
-- virtualFileSystem/virtualFileSystemWrapper.cc. `junk` is what an uninitialised variable holds.
use redis_virtual_file_syste.Common.{
  List, [], ◌∷◌, ◌++◌, Bytes, ℤ, minus_one, int_eq, length, ◌==◌, if◌then◌else◌, Outcome, ok, fault,
  ◌>>=◌, Bool, true, false,
}
use redis_virtual_file_syste.Redis.{Redis}
use redis_virtual_file_syste.PathParser.State.{ParserState}
use redis_virtual_file_syste.PathParser.Scan.{byte_at}
use redis_virtual_file_syste.Safe.{
  redis_get_folder_ids, redis_get_file_ids, redis_is_directory, redis_get_folder_parent_id,
  redis_get_folder_name, redis_get_file_parent_id, redis_get_file_name,
}
use redis_virtual_file_syste.Wrapper.Paths.{get_folder_id_from_path, get_file_id_from_path}

pub data DirItemType : Type 0 where
  dir_item_folder dir_item_file dir_item_unknown dir_item_error : DirItemType

pub record DirItemInfo : Type 0 where
  pub id : ℤ
  pub exists : Bool
  pub type : DirItemType
  pub parent_id : ℤ
  pub name : Bytes

abbrev pub is_file_type : DirItemType → Bool
is_file_type dir_item_file = true
is_file_type _ = false

module _ (r : Redis) where
  open r use {Db}

  unfoldable pub list_dir_file_and_folder_ids : Db → ℤ → List ℤ
  list_dir_file_and_folder_ids d dir_id =
      redis_get_folder_ids r d dir_id ++ redis_get_file_ids r d dir_id

  -- `getDirItemInfo` by id: `exists` stays false on both branches.
  unfoldable pub get_dir_item_info_of_id : Db → ℤ → Outcome DirItemInfo
  get_dir_item_info_of_id d obj_id =
      if redis_is_directory r d obj_id == 0
      then (do
        name ← redis_get_file_name r d obj_id
        ok (record {
          id = obj_id;
          exists = false;
          type = dir_item_file;
          parent_id = redis_get_file_parent_id r d obj_id;
          name = name;
        }))
      else do
        name ← redis_get_folder_name r d obj_id
        ok (record {
          id = obj_id;
          exists = false;
          type = dir_item_folder;
          parent_id = redis_get_folder_parent_id r d obj_id;
          name = name;
        })

  unfoldable pub infos_of_ids : Db → List ℤ → Outcome (List DirItemInfo)
  infos_of_ids d [] = ok []
  infos_of_ids d (id ∷ ids) = do
    info ← get_dir_item_info_of_id d id
    infos ← infos_of_ids d ids
    ok (info ∷ infos)

  unfoldable pub ls_info : Db → ℤ → Outcome (List DirItemInfo)
  ls_info d dir_id = infos_of_ids d (list_dir_file_and_folder_ids d dir_id)

  unfoldable pub names_of_ids : Db → List ℤ → Outcome (List Bytes)
  names_of_ids d [] = ok []
  names_of_ids d (id ∷ ids) = do
    info ← get_dir_item_info_of_id d id
    names ← names_of_ids d ids
    ok (info.name ∷ names)

  -- `ls` of an id
  unfoldable pub ls_of_id : Db → ℤ → Outcome (List Bytes)
  unfolding names_of_ids list_dir_file_and_folder_ids
  ls_of_id d dir_id = names_of_ids d (list_dir_file_and_folder_ids d dir_id)

  -- `ls` of a path
  unfoldable pub ls : Db → Bytes → Bytes → Outcome (List Bytes)
  ls d cwd path = do id ← get_folder_id_from_path r d cwd path; ls_of_id d id

  -- The rest of `getDirItemInfo` once the id and the type are known.
  unfoldable pub named_item : Db → DirItemInfo → Outcome DirItemInfo
  named_item d found =
      if is_file_type found.type
      then (do
        name ← redis_get_file_name r d found.id
        ok (record found { exists = true; name = name }))
      else do
        name ← redis_get_folder_name r d found.id
        ok (record found { exists = true; name = name })

  -- The file's id, or -1 if the path ends in a slash or names no file. `back()` of an empty string
  -- is undefined.
  unfoldable pub file_id_unless_slash : Db → Bytes → ParserState → Bytes → Outcome ℤ
  file_id_unless_slash d cwd state [] = fault
  file_id_unless_slash d cwd state (c ∷ s) =
      if byte_at (c ∷ s) (length s) == b'/'
      then ok minus_one
      else get_file_id_from_path r d cwd state (c ∷ s)

  -- `getDirItemInfo` by path: a file of that path, else a folder.
  unfoldable pub get_dir_item_info :
      Db → Bytes → DirItemInfo → ParserState → Bytes → Outcome DirItemInfo
  unfolding named_item file_id_unless_slash
  get_dir_item_info d cwd junk state absolute_path = do
    file_id ← file_id_unless_slash d cwd state absolute_path
    if int_eq file_id minus_one
        then (do
          folder_id ← get_folder_id_from_path r d cwd absolute_path
          if int_eq folder_id minus_one
              then ok (record junk { id = minus_one; exists = false; name = [] })
              else named_item d (record junk { id = folder_id; type = dir_item_folder }))
        else named_item d (record junk { id = file_id; type = dir_item_file })

  unfoldable pub stat : Db → Bytes → DirItemInfo → ParserState → Bytes → Outcome DirItemInfo
  unfolding get_dir_item_info
  stat d cwd junk state absolute_path = get_dir_item_info d cwd junk state absolute_path
