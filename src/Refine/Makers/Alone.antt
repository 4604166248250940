-- ===== src/Refine/Makers/Alone.antt =====
-- A call of `vfs_mkdir` whose commands come without another's in between.
use redis_virtual_file_syste.Common.{◌≡◌, Bytes, ℤ, some}
use redis_virtual_file_syste.Redis.{Redis, reply_str}
use redis_virtual_file_syste.Keys.{current_id_count}
use redis_virtual_file_syste.Vfs.Create.{get_new_id, vfs_mkdir}
use redis_virtual_file_syste.Vfs.Makers.{
  Maker, unstarted, complete, Makers, Leads, first_makes, makes_ask, makes_count, makes_entry,
  makes_info,
}

-- The steps of one call, from any state in which it has not started and there is a counter, lead to
-- what the function `vfs_mkdir` returns and leaves.
vfs_mkdir-Leads :
    (r : Redis) (parent_id parent_id' : ℤ) (name name' : Bytes) (start : Makers r) (d : r.Db)
    (other : Maker) (s : Bytes)
    → reply_str (r.get d current_id_count) ≡ some s
    → Leads r parent_id name parent_id' name' start
        (record { db = d; first = unstarted; second = other })
    → let (id, d') = vfs_mkdir r d parent_id name in
      Leads r parent_id name parent_id' name' start
        (record { db = d'; first = complete id; second = other })
unfolding vfs_mkdir get_new_id
vfs_mkdir-Leads r parent_id parent_id' name name' start d other s reply before =
    rw (reply, get_new_id)
      (first_makes
        (first_makes (first_makes (first_makes before (makes_ask reply)) makes_count) makes_entry)
        makes_info)
