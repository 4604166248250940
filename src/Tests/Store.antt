-- ===== src/Tests/Store.antt =====
-- The theorems on renamed files, listings and the ids of two clients at concrete inputs.
use redis_virtual_file_syste.Common.{
  ℕ, ◌≡◌, ap, refl, [], codes, pos, arith, ok, fault, if◌then◌else◌, ltb, length,
}
use redis_virtual_file_syste.Redis.{reply_str}
use redis_virtual_file_syste.Redis.Memory.{memory, memory-IsRedis, Dataset}
use redis_virtual_file_syste.Libc.Decimal.{decimal, strtol}
use redis_virtual_file_syste.Keys.{current_id_count, id_count, key_of}
use redis_virtual_file_syste.Vfs.Create.{vfs_set_file_name, get_new_id}
use redis_virtual_file_syste.Vfs.Create.{vfs_set_dir_parent}
use redis_virtual_file_syste.Vfs.Listing.{vfs_list_unix_style}
use redis_virtual_file_syste.Vfs.Clients.{
  Clients, Reach, waiting, asked, returned, here, first_sends, sends_get,
}
use redis_virtual_file_syste.Wrapper.Commands.{ls_pretty_print}
use redis_virtual_file_syste.Spec.{rename_file, set_parent}
use redis_virtual_file_syste.Spec.Lookup.{resolve_dir}
use redis_virtual_file_syste.Spec.Command.{slash_ended}
use redis_virtual_file_syste.Refine.Keeps.{Keeps}
use redis_virtual_file_syste.Refine.Represents.{Represents}
use redis_virtual_file_syste.Refine.Reparent.{vfs_set_dir_parent_stale}
use redis_virtual_file_syste.Spec.Tree.{IsTree}
use redis_virtual_file_syste.Refine.Listing.{names_in}
use redis_virtual_file_syste.Refine.Lines.{lines_of, listed, ls_pretty_print-lines_of}
use redis_virtual_file_syste.Refine.Rename.{vfs_set_file_name-Keeps}
use redis_virtual_file_syste.Refine.UnixListing.{unix_text, vfs_list_unix_style-unix_text}
use redis_virtual_file_syste.Refine.Clients.{Counter, IsBelow, get_new_id-IsBelow, same_id-Reach}
use redis_virtual_file_syste.Tests.World.{
  tree_db, tree_fs, tree-Keeps, tree-IsNamed, root-IsCwd, file_f, info_a,
}

vfs_set_file_name-Keeps_example :
    Keeps memory memory-IsRedis
      (vfs_set_file_name memory tree_db (pos 2) (codes "hi!") 2)
      (rename_file tree_fs 2 (codes "hi"))
vfs_set_file_name-Keeps_example =
    vfs_set_file_name-Keeps memory memory-IsRedis tree_db tree_fs tree-Keeps 2 file_f (codes "hi!")
      2 refl (omega arith) ((λ e. omega arith), ((λ e. omega arith), tt))

ls_pretty_print-lines_of_example :
    ls_pretty_print memory tree_db (codes "/") (codes "a")
    ≡ ok (lines_of (names_in tree_fs (listed (resolve_dir tree_fs 0 (slash_ended (codes "a"))))))
ls_pretty_print-lines_of_example =
    ls_pretty_print-lines_of memory memory-IsRedis tree_db tree_fs tree-Keeps.0 tree-Keeps.1
      tree-IsNamed (codes "/") 0 root-IsCwd b'a' []

vfs_list_unix_style-unix_text_example :
    vfs_list_unix_style memory tree_db (pos 1)
    ≡ (if ltb (length (unix_text tree_fs 1)) 20000 then ok (unix_text tree_fs 1) else fault)
vfs_list_unix_style-unix_text_example =
    vfs_list_unix_style-unix_text memory memory-IsRedis tree_db tree_fs tree-Keeps.0 tree-Keeps.1 1
      (omega arith, tt)

pub tree-Counter : Counter memory memory-IsRedis tree_db 3
unfolding key_of
tree-Counter = tree-Keeps.0 id_count

abbrev both_wait : Clients memory
both_wait = record { db = tree_db; first = waiting; second = waiting }

get_new_id-IsBelow_example :
    (count : ℕ) × ((get_new_id memory tree_db).0 ≡ pos count)
    × IsBelow count (asked (strtol (decimal 3)))
    × IsBelow count waiting
get_new_id-IsBelow_example =
    get_new_id-IsBelow memory memory-IsRedis tree_db 3 tree-Counter (omega arith)
      (record { db = tree_db; first = asked (strtol (decimal 3)); second = waiting })
      (first_sends here (
        sends_get (
          ap reply_str
            (memory-IsRedis.get-string tree_db current_id_count (decimal 3) tree-Counter))))

same_id-Reach_example :
    (d' : Dataset) × Reach memory both_wait
      (record { db = d'; first = returned (pos 3); second = returned (pos 3) })
    × Counter memory memory-IsRedis d' 5
same_id-Reach_example = same_id-Reach memory memory-IsRedis tree_db 3 tree-Counter (omega arith)

vfs_set_dir_parent_stale_example :
    Represents memory memory-IsRedis
      (vfs_set_dir_parent memory tree_db (pos 1) (pos 1))
      (set_parent tree_fs 1 1)
    × ¬ IsTree (set_parent tree_fs 1 1)
vfs_set_dir_parent_stale_example =
    vfs_set_dir_parent_stale memory memory-IsRedis tree_db tree_fs tree-Keeps.0 1 1 info_a [] []
      refl refl (λ e. omega arith)
