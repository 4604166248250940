-- ===== src/Tests/Calls.antt =====
-- The theorems on virtualFileSystemWrapper.cc at concrete inputs.
use redis_virtual_file_syste.Common.{
  ℕ, ◌≡◌, refl, [], ◌∷◌, ◌++◌, Bytes, codes, pos, arith, ok, drop, Bool, true, bytes_eq, List,
}
use redis_virtual_file_syste.Redis.Memory.{memory, memory-IsRedis, Dataset}
use redis_virtual_file_syste.PathParser.State.{init_parser_state}
use redis_virtual_file_syste.PathParser.Scan.{split_behind_slash, last_slash_loop}
use redis_virtual_file_syste.Wrapper.Paths.{
  get_folder_id_from_path, get_absolute_path_from_folder_id,
}
use redis_virtual_file_syste.Wrapper.Commands.{cd, mkdir, create_file}
use redis_virtual_file_syste.Spec.{add_folder, add_file}
use redis_virtual_file_syste.Spec.Lookup.{
  find_object, find_file, find_folder, first_folder, last_file, resolve_dir, walk, dir_names,
}
use redis_virtual_file_syste.Spec.Path.{PathOf, slashed, root}
use redis_virtual_file_syste.Spec.Command.{absolute, folder_at, strip_prefix, slash_ended}
use redis_virtual_file_syste.Refine.Represents.{Represents}
use redis_virtual_file_syste.Refine.AbsolutePath.{get_absolute_path_from_folder_id-PathOf}
use redis_virtual_file_syste.Refine.Parse.{LeadsTo, split_of, name_text}
use redis_virtual_file_syste.Refine.Commands.{
  CdResult, cd_lem, get_folder_id_from_path-get_absolute_path,
}
use redis_virtual_file_syste.Refine.Create.{
  created_file, parent_for, mkdir-add_folder, create_file-add_file,
}
use redis_virtual_file_syste.Refine.Listing.{names_in}
use redis_virtual_file_syste.Refine.Items.{readdir-names_in}
use redis_virtual_file_syste.Fuse.{fill_loop, readdir}
use redis_virtual_file_syste.Refine.Orphans.{is_root, no_parent, mkdir_nameless}
use redis_virtual_file_syste.Spec.Tree.{IsTree}
use redis_virtual_file_syste.Tests.World.{
  tree_db, tree_fs, tree-Keeps, tree-IsNamed, root-IsCwd, a-PathOf, a-IsCwd,
}

get_absolute_path_from_folder_id-PathOf_example :
    (names : List Bytes) × PathOf tree_fs 1 names
    × (get_absolute_path_from_folder_id memory 3 tree_db (pos 1)
        ≡ ok (slashed names ++ (b'/' ∷ [])))
get_absolute_path_from_folder_id-PathOf_example =
    get_absolute_path_from_folder_id-PathOf memory memory-IsRedis tree_db tree_fs tree-Keeps.0
      tree-Keeps.1 3 1 (omega arith) (λ e. cc)

get_folder_id_from_path-get_absolute_path_example :
    (path : Bytes) × (get_absolute_path_from_folder_id memory 3 tree_db (pos 1) ≡ ok path)
    × (get_folder_id_from_path memory tree_db (codes "/a/") path ≡ ok (pos 1))
get_folder_id_from_path-get_absolute_path_example =
    get_folder_id_from_path-get_absolute_path memory memory-IsRedis tree_db tree_fs tree-Keeps.0
      tree-Keeps.1 tree-IsNamed (codes "/a/") 1 a-IsCwd 3 (omega arith) 1 (λ e. cc)

cd_lem_example :
    (answer : Bool) × (cwd' : Bytes) × (cd memory 3 tree_db (codes "/a/") (codes "..")
      ≡ ok (answer, cwd'))
    × CdResult tree_fs (codes "/a/") (folder_at tree_fs 1 (codes "..")) answer cwd'
cd_lem_example =
    cd_lem memory memory-IsRedis tree_db tree_fs tree-Keeps.0 tree-Keeps.1 tree-IsNamed
      (codes "/a/") 1 a-IsCwd 3 (omega arith) b'.' (codes ".") (codes "a" ∷ []) a-PathOf

pub a_b-LeadsTo : LeadsTo tree_fs 0 (absolute [] (codes "a/b")) 1
unfolding resolve_dir walk dir_names find_object find_file find_folder first_folder last_file
    bytes_eq split_behind_slash last_slash_loop strip_prefix
a_b-LeadsTo = record { below_root = refl; resolved = refl; named = refl }

mkdir-add_folder_example :
    let path = absolute [] (codes "a/b") in
    let o = find_object tree_fs 1 (name_text path) in
    (d' : Dataset) × (mkdir memory 3 tree_db (codes "/") init_parser_state (codes "a/b")
      ≡ ok (true, d'))
    × Represents memory memory-IsRedis d'
        (add_folder tree_fs (parent_for tree_fs 1 o) (drop (split_of path).name_offset path))
mkdir-add_folder_example =
    mkdir-add_folder memory memory-IsRedis tree_db tree_fs tree-Keeps.0 tree-Keeps.1 tree-IsNamed
      (codes "/") 0 root-IsCwd 3 (omega arith) b'a' (codes "/b") [] (root refl) init_parser_state 1
      a_b-LeadsTo (omega arith)

create_file-add_file_example :
    let path = absolute [] (codes "a/b") in
    let o = find_object tree_fs 1 (name_text path) in
    (d' : Dataset) × (create_file memory 3 tree_db (codes "/") init_parser_state (codes "a/b")
      ≡ ok (true, d'))
    × Represents memory memory-IsRedis d' (
        add_file tree_fs
          (parent_for tree_fs 1 o)
          (created_file (drop (split_of path).name_offset path)))
create_file-add_file_example =
    create_file-add_file memory memory-IsRedis tree_db tree_fs tree-Keeps.0 tree-Keeps.1
      tree-IsNamed (codes "/") 0 root-IsCwd 3 (omega arith) b'a' (codes "/b") [] (root refl)
      init_parser_state 1 a_b-LeadsTo (omega arith)

-- A callback that has room for every name.
abbrev collect : List Bytes → Bytes → ℕ × List Bytes
collect names name = (0, name ∷ names)

readdir-names_in_example :
    readdir memory collect [] tree_db (codes "/") (codes "/a")
    ≡ ok (fill_loop collect [] (names_in tree_fs 1))
unfolding resolve_dir walk dir_names find_object find_file find_folder first_folder last_file
    bytes_eq slash_ended
readdir-names_in_example =
    readdir-names_in memory memory-IsRedis tree_db tree_fs tree-Keeps.0 tree-Keeps.1 tree-IsNamed
      (codes "/") 0 root-IsCwd b'/' (codes "a") 1 refl collect []

mkdir_nameless_example :
    (d' : Dataset) × (mkdir memory 3 tree_db (codes "/") init_parser_state (codes "/")
      ≡ ok (true, d'))
    × Represents memory memory-IsRedis d' (add_folder tree_fs no_parent (codes "/"))
    × ¬ IsTree (add_folder tree_fs no_parent (codes "/"))
unfolding strip_prefix
mkdir_nameless_example =
    mkdir_nameless memory memory-IsRedis tree_db tree_fs tree-Keeps.0 tree-Keeps.1 tree-IsNamed
      (codes "/") 0 root-IsCwd 3 (omega arith) b'/' [] [] (root refl) init_parser_state
      (omega arith) (is_root refl)
