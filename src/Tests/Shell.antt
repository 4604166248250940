-- ===== src/Tests/Shell.antt =====
-- The theorems on tests/terminalTest.cc, and on the items of virtualFileSystemWrapper.cc by path, at
-- concrete inputs.
use redis_virtual_file_syste.Common.{
  ℕ, ◌≡◌, refl, List, [], ◌∷◌, ◌++◌, Bytes, codes, pos, true, arith, ok, All,
}
use redis_virtual_file_syste.Redis.Memory.{memory, memory-IsRedis}
use redis_virtual_file_syste.PathParser.State.{init_parser_state}
use redis_virtual_file_syste.Wrapper.Items.{DirItemInfo, dir_item_unknown, ls_of_id}
use redis_virtual_file_syste.Vfs.Listing.{vfs_ls}
use redis_virtual_file_syste.Fuse.{getattr, s_ifdir}
use redis_virtual_file_syste.Terminal.Split.{split}
use redis_virtual_file_syste.Terminal.Words.{fields, split-words}
use redis_virtual_file_syste.Terminal.Command.{main_loop, remove}
use redis_virtual_file_syste.Refine.ObjectListing.{vfs_ls-ls_of_id}
use redis_virtual_file_syste.Refine.Listed.{IsFound, ls-getattr}
use redis_virtual_file_syste.Wrapper.Items.{ls}
use redis_virtual_file_syste.Refine.Child.{getattr-get_absolute_path}
use redis_virtual_file_syste.Wrapper.Paths.{get_absolute_path_from_folder_id}
use redis_virtual_file_syste.Refine.Stat.{attributes_of, found_at, getattr-found_at}
use redis_virtual_file_syste.Refine.Session.{IsSession}
use redis_virtual_file_syste.Refine.Script.{Script}
use redis_virtual_file_syste.Refine.Script.Quiet.{IsQuiet, main_loop-Script_quiet}
use redis_virtual_file_syste.Tests.World.{
  tree_db, tree_fs, tree-Keeps, tree-IsNamed, root-IsCwd, info_a,
}
use redis_virtual_file_syste.Tests.Sessions.{root-IsSession}

abbrev pub unset : DirItemInfo
unset = record {
  id = pos 9;
  exists = true;
  type = dir_item_unknown;
  parent_id = pos 9;
  name = codes "?";
}

getattr-found_at_example :
    getattr memory tree_db (codes "/") unset init_parser_state (codes "a/f")
    ≡ ok (pos 0, attributes_of unset (found_at tree_fs 0 (codes "a/f")))
getattr-found_at_example =
    getattr-found_at memory memory-IsRedis tree_db tree_fs tree-Keeps.0 tree-Keeps.1 tree-IsNamed
      (codes "/") 0 root-IsCwd init_parser_state b'a' (codes "/f") unset

vfs_ls-ls_of_id_example : vfs_ls memory tree_db (pos 1) ≡ ls_of_id memory tree_db (pos 1)
vfs_ls-ls_of_id_example =
    vfs_ls-ls_of_id memory memory-IsRedis tree_db tree_fs tree-Keeps.0 tree-Keeps.1 1

split-words_example : split (codes "cd  a ") (codes " ") ≡ ok (codes "cd" ∷ codes "a" ∷ [])
unfolding fields
split-words_example = split-words (codes "cd  a ")

abbrev lines : List Bytes
lines = codes "cd a" ∷ codes " stat f" ∷ codes "pwd" ∷ []

lines-IsQuiet : All IsQuiet lines
unfolding fields remove
lines-IsQuiet = (
  (codes "cd", codes "a" ∷ [], refl, λ e. cc, λ e. cc),
  (
    (codes "stat", codes "f" ∷ [], refl, λ e. cc, λ e. cc),
    ((codes "pwd", [], refl, λ e. cc, λ e. cc), tt),
  ),
)

main_loop-Script_quiet_example :
    (text : Bytes) × (id : ℕ) × (cwd : Bytes) × (main_loop memory 3 init_parser_state unset lines
        tree_db
        (codes "/")
      ≡ ok (text, cwd, tree_db))
    × IsSession memory memory-IsRedis tree_db cwd tree_fs id
    × Script unset tree_fs 0 (codes "/") lines text tree_fs id cwd
main_loop-Script_quiet_example =
    main_loop-Script_quiet memory memory-IsRedis tree_db tree_fs 3 (omega arith) init_parser_state
      unset lines lines-IsQuiet (codes "/") 0 root-IsSession

getattr-get_absolute_path_example :
    (path : Bytes) × (get_absolute_path_from_folder_id memory 3 tree_db (pos 0) ≡ ok path)
    × (getattr memory tree_db (codes "/") unset init_parser_state (path ++ codes "a")
        ≡ ok (pos 0, record { nlink = 1; mode = s_ifdir; size = 0 }))
getattr-get_absolute_path_example =
    getattr-get_absolute_path memory memory-IsRedis tree_db tree_fs tree-Keeps.0 tree-Keeps.1
      tree-IsNamed (codes "/") 0 root-IsCwd init_parser_state unset 3 1 info_a (omega arith) refl
      (λ e. cc) (λ e. cc)

ls-getattr_example :
    (path : Bytes) × (listed : List Bytes) × (get_absolute_path_from_folder_id memory 3 tree_db
        (pos 1)
      ≡ ok path)
    × (ls memory tree_db (codes "/") path ≡ ok listed)
    × All (IsFound memory tree_db (codes "/") init_parser_state unset path) listed
ls-getattr_example =
    ls-getattr memory memory-IsRedis tree_db tree_fs tree-Keeps.0 tree-Keeps.1 tree-IsNamed
      (codes "/") 0 root-IsCwd init_parser_state unset 1 (λ e. cc) 3 (omega arith)
