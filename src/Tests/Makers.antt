-- ===== src/Tests/Makers.antt =====
-- The theorems on two calls of `vfs_mkdir` at once, at a concrete input: the folders `b` and `c` are
-- made in the folder `a`, with `c` entered and written first.
use redis_virtual_file_syste.Common.{
  ◌≡◌, ◌⊎◌, List, Bytes, ok, ◌++◌, ℤ, pos, codes, arith, fault, ℕ, ◌≢◌, sym, ap, ◌∙◌, some,
}
use redis_virtual_file_syste.Libc.Decimal.{format_lu, decimal, strtol}
use redis_virtual_file_syste.Libc.RoundTrip.{strtol-decimal}
use redis_virtual_file_syste.Redis.{reply_str}
use redis_virtual_file_syste.Refine.Clients.{Counter}
use redis_virtual_file_syste.Tests.Store.{tree-Counter}
use redis_virtual_file_syste.Redis.Memory.{memory, memory-IsRedis, Dataset}
use redis_virtual_file_syste.Keys.{folder_key, folders_suffix, current_id_count}
use redis_virtual_file_syste.Vfs.Create.{write_folder}
use redis_virtual_file_syste.Vfs.Listing.{vfs_ls}
use redis_virtual_file_syste.Vfs.Makers.{
  entered, complete, Leads, idle, nothing_made, first_makes, second_makes, makes_ask, makes_count,
  makes_entry, makes_info,
}
use redis_virtual_file_syste.Spec.{Fs, FolderInfo}
use redis_virtual_file_syste.Refine.Keeps.{Keeps}
use redis_virtual_file_syste.Refine.Makers.Both.{IsMakeable, IsInOrder, vfs_mkdir_both}
use redis_virtual_file_syste.Refine.Makers.Names.{bag, new_in, vfs_mkdir_both-vfs_ls}
use redis_virtual_file_syste.Refine.Makers.Between.{vfs_ls-entered}
use redis_virtual_file_syste.Tests.World.{tree_db, tree_fs, tree-Keeps}

abbrev info_b : FolderInfo
info_b = record { parent = 1; name = codes "b" }

abbrev info_c : FolderInfo
info_c = record { parent = 1; name = codes "c" }

b-IsMakeable : IsMakeable tree_fs info_b
b-IsMakeable = record { exists = λ e. cc; fits = omega arith }

c-IsMakeable : IsMakeable tree_fs info_c
c-IsMakeable = record { exists = λ e. cc; fits = omega arith }

abbrev first_id : ℤ
first_id = strtol (decimal 3)

abbrev first_db : Dataset
first_db = memory.incr tree_db current_id_count

abbrev second_id : ℤ
second_id = strtol (decimal 4)

first-Counter : Counter memory memory-IsRedis first_db 4
first-Counter = memory-IsRedis.value-incr tree_db current_id_count 3 (omega arith) tree-Counter

Counter-reply :
    (d : Dataset) (n : ℕ)
    → Counter memory memory-IsRedis d n
    → reply_str (memory.get d current_id_count) ≡ some (decimal n)
Counter-reply d n counter =
    ap reply_str (memory-IsRedis.get-string d current_id_count (decimal n) counter)

ids_differ : first_id ≢ second_id
ids_differ e =
    let same : pos 3 ≡ pos 4 =
      sym (strtol-decimal 3 (omega arith)) ∙ e ∙ strtol-decimal 4 (omega arith) in
    cc

abbrev enter_in_a : Dataset → ℤ → Dataset
enter_in_a d id = memory.lpush d (folder_key (format_lu (pos 1)) folders_suffix) (format_lu id)

abbrev entered_db : Dataset
entered_db = enter_in_a (memory.incr first_db current_id_count) second_id

abbrev half_db : Dataset
half_db = enter_in_a (write_folder memory entered_db (pos 1) second_id (codes "c")) first_id

abbrev both_db : Dataset
both_db = write_folder memory half_db (pos 1) first_id (codes "b")

half-Leads :
    Leads memory
      (pos 1)
      (codes "b")
      (pos 1)
      (codes "c")
      (idle memory tree_db)
      (record { db = half_db; first = entered first_id; second = complete second_id })
half-Leads =
    first_makes
      (second_makes
        (second_makes
          (second_makes
            (second_makes
              (first_makes
                (first_makes nothing_made (makes_ask (Counter-reply tree_db 3 tree-Counter)))
                makes_count)
              (makes_ask (Counter-reply first_db 4 first-Counter)))
            makes_count)
          makes_entry)
        makes_info)
      makes_entry

vfs_mkdir_both_example :
    (fs : Fs) × Keeps memory memory-IsRedis both_db fs
    × (IsInOrder tree_fs info_b info_c fs first_id second_id
        ⊎ IsInOrder tree_fs info_c info_b fs second_id first_id)
vfs_mkdir_both_example =
    vfs_mkdir_both tree_fs tree-Keeps.1 (omega arith) memory memory-IsRedis tree_db tree-Keeps.0
      info_b info_c b-IsMakeable c-IsMakeable both_db first_id second_id ids_differ
      (first_makes half-Leads makes_info)

vfs_mkdir_both-vfs_ls_example :
    (before : List Bytes) × (after : List Bytes) × (vfs_ls memory tree_db (pos 1) ≡ ok before)
    × (vfs_ls memory both_db (pos 1) ≡ ok after)
    × (bag after ≡ bag (new_in info_b 1 ++ (new_in info_c 1 ++ before)))
vfs_mkdir_both-vfs_ls_example =
    vfs_mkdir_both-vfs_ls tree_fs tree-Keeps.1 (omega arith) memory memory-IsRedis tree_db
      tree-Keeps.0 info_b info_c b-IsMakeable c-IsMakeable both_db first_id second_id ids_differ
      (first_makes half-Leads makes_info) 1

other_id : some second_id ≡ some first_id → first_id ≡ second_id
other_id e = cc

vfs_ls-entered_example : vfs_ls memory half_db (pos 1) ≡ fault
vfs_ls-entered_example =
    vfs_ls-entered tree_fs tree-Keeps.1 (omega arith) memory memory-IsRedis tree_db tree-Keeps.0
      info_b info_c half_db first_id (complete second_id) (λ e. ids_differ (other_id e)) half-Leads
