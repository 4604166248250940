-- ===== src/Tests/Paths.antt =====
-- The theorems on vfs.c and vfsPathParser.c at concrete inputs.
use redis_virtual_file_syste.Common.{
  ◌≡◌, ◌≢◌, refl, ◌++◌, codes, none, pos, minus_one, arith, ok, take, bytes_eq,
}
use redis_virtual_file_syste.Redis.Memory.{memory, memory-IsRedis, Dataset}
use redis_virtual_file_syste.Keys.{folder_info}
use redis_virtual_file_syste.Keys.Injective.{key_of-injective}
use redis_virtual_file_syste.PathParser.State.{ParserState, init_parser_state}
use redis_virtual_file_syste.PathParser.Scan.{
  vfs_seperate_path_and_name, split_behind_slash, last_slash_loop,
}
use redis_virtual_file_syste.PathParser.Walk.{
  vfs_get_dir_id_from_path, vfs_parse_path, vfs_delete_object_with_path,
}
use redis_virtual_file_syste.Vfs.Find.{vfs_find_dir_name_in_dir}
use redis_virtual_file_syste.Vfs.Listing.{vfs_get_dir_path_from_id}
use redis_virtual_file_syste.Spec.Lookup.{
  find_object, find_file, find_folder, first_folder, last_file, resolve_dir, walk, dir_names,
}
use redis_virtual_file_syste.Refine.Keeps.{Keeps}
use redis_virtual_file_syste.Refine.Find.{id_or, vfs_find_dir_name_in_dir-find_folder}
use redis_virtual_file_syste.Refine.Walk.{vfs_get_dir_id_from_path-walk}
use redis_virtual_file_syste.Refine.LastName.{IsLastNameOf, vfs_seperate_path_and_name-IsLastNameOf}
use redis_virtual_file_syste.Refine.Parse.{parsed, LeadsTo, vfs_parse_path-parsed, name_text}
use redis_virtual_file_syste.Refine.Delete.{
  delete_missing_dir, delete_object, delete_status, deleted,
}
use redis_virtual_file_syste.Spec.{unlink_file}
use redis_virtual_file_syste.Refine.Session.{IsSession}
use redis_virtual_file_syste.Tests.Sessions.{root-IsSession}
use redis_virtual_file_syste.Refine.Gone.{
  IsGone, vfs_delete_object_with_path-vfs_parse_path, delete_file-IsSession,
}
use redis_virtual_file_syste.Refine.Defects.{dir_path_one_name}
use redis_virtual_file_syste.Tests.World.{tree_db, tree_fs, tree-Keeps, info_a}

root_found : tree_fs.folder 0 ≢ none
root_found e = cc

key_of-injective_example : folder_info 12 ≡ folder_info 12
key_of-injective_example = key_of-injective (folder_info 12) (folder_info 12) refl

vfs_find_dir_name_in_dir-find_folder_example :
    vfs_find_dir_name_in_dir memory tree_db (pos 0) (codes "a" ++ codes "/x") 1 ≡ ok (pos 1)
unfolding find_folder first_folder bytes_eq
vfs_find_dir_name_in_dir-find_folder_example =
    vfs_find_dir_name_in_dir-find_folder memory memory-IsRedis tree_db tree_fs tree-Keeps.0
      tree-Keeps.1 (codes "a") (codes "/x") refl 0 _ refl

vfs_get_dir_id_from_path-walk_example :
    vfs_get_dir_id_from_path memory tree_db (pos 0) (codes "a/f") 3
    ≡ ok (id_or (resolve_dir tree_fs 0 (take 3 (codes "a/f"))) minus_one)
vfs_get_dir_id_from_path-walk_example =
    vfs_get_dir_id_from_path-walk memory memory-IsRedis tree_db tree_fs tree-Keeps.0 tree-Keeps.1 0
      (codes "a/f") 3 (omega arith) (omega arith) root_found

vfs_seperate_path_and_name-IsLastNameOf_example :
    (s : ParserState) × (vfs_seperate_path_and_name init_parser_state (codes "a/f") 3 ≡ ok s)
    × IsLastNameOf (codes "a/f") 3 s.name_offset s.name_length
    × (s ≡ record init_parser_state { name_offset = s.name_offset; name_length = s.name_length })
vfs_seperate_path_and_name-IsLastNameOf_example =
    vfs_seperate_path_and_name-IsLastNameOf init_parser_state (codes "a/f") 3 (omega arith)

vfs_parse_path-parsed_example :
    vfs_parse_path memory tree_db init_parser_state (codes "a/f") 3 (pos 0)
    ≡ ok (parsed tree_fs 0 (codes "a/f"))
vfs_parse_path-parsed_example =
    vfs_parse_path-parsed memory memory-IsRedis tree_db tree_fs tree-Keeps.0 tree-Keeps.1
      init_parser_state 0 b'a' (codes "/f") root_found

delete_missing_dir_example :
    vfs_delete_object_with_path memory tree_db init_parser_state (codes "x/y") (pos 0)
    ≡ ok (pos 0, tree_db)
unfolding resolve_dir walk dir_names find_object find_file find_folder first_folder last_file
    bytes_eq
delete_missing_dir_example =
    delete_missing_dir memory memory-IsRedis tree_db tree_fs tree-Keeps.0 tree-Keeps.1
      init_parser_state 0 b'x' (codes "/y") root_found refl refl

a_f-LeadsTo : LeadsTo tree_fs 0 (codes "a/f") 1
unfolding resolve_dir walk dir_names find_object find_file find_folder first_folder last_file
    bytes_eq split_behind_slash last_slash_loop
a_f-LeadsTo = record { below_root = refl; resolved = refl; named = refl }

delete_object_example :
    let o = find_object tree_fs 1 (name_text (codes "a/f")) in
    (d' : Dataset) × (vfs_delete_object_with_path memory tree_db init_parser_state
        (codes "a/f")
        (pos 0)
      ≡ ok (delete_status o, d'))
    × Keeps memory memory-IsRedis d' (deleted tree_fs 1 o)
delete_object_example =
    delete_object memory memory-IsRedis tree_db tree_fs tree-Keeps.0 tree-Keeps.1 init_parser_state
      0 b'a' (codes "/f") root_found 1 a_f-LeadsTo

dir_path_one_name_example : vfs_get_dir_path_from_id memory 5 tree_db (pos 1) 100 ≡ ok (codes "/a/")
dir_path_one_name_example =
    dir_path_one_name memory memory-IsRedis tree_db tree_fs tree-Keeps.0 3 1 100 info_a refl
      (λ e. cc) (omega arith) (omega arith)

vfs_delete_object_with_path-vfs_parse_path_example :
    (d' : Dataset) × (vfs_delete_object_with_path memory tree_db init_parser_state
        (codes "a/f")
        (pos 0)
      ≡ ok (pos 0, d'))
    × IsGone memory 0 (codes "a/f") d' init_parser_state 2
unfolding find_object find_file find_folder first_folder last_file bytes_eq split_behind_slash
    last_slash_loop
vfs_delete_object_with_path-vfs_parse_path_example =
    vfs_delete_object_with_path-vfs_parse_path memory memory-IsRedis tree_db tree_fs tree-Keeps.0
      tree-Keeps.1 0 b'a' (codes "/f") root_found 1 a_f-LeadsTo init_parser_state init_parser_state
      2 refl refl refl

delete_file-IsSession_example :
    (d' : Dataset) × (vfs_delete_object_with_path memory tree_db init_parser_state
        (codes "a/f")
        (pos 0)
      ≡ ok (pos 0, d'))
    × IsSession memory memory-IsRedis d' (codes "/") (unlink_file tree_fs 1 2) 0
unfolding find_object find_file find_folder first_folder last_file bytes_eq split_behind_slash
    last_slash_loop
delete_file-IsSession_example =
    delete_file-IsSession memory memory-IsRedis tree_db (codes "/") tree_fs 0 root-IsSession
      init_parser_state b'a' (codes "/f") 1 2 a_f-LeadsTo refl
