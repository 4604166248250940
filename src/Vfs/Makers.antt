-- ===== src/Vfs/Makers.antt =====
-- `vfs_mkdir` of virtualFileSystem/vfs.c for two programs on one server: each sends the GET and the
-- INCR of `getNewId`, LPUSH, and the HMSET of `__mkdir`, and the server may take the other's commands
-- in between.
use redis_virtual_file_syste.Common.{◌≡◌, Bytes, ℤ, some}
use redis_virtual_file_syste.Libc.Decimal.{format_lu, strtol}
use redis_virtual_file_syste.Redis.{Redis, reply_str}
use redis_virtual_file_syste.Keys.{folder_key, folders_suffix, current_id_count}
use redis_virtual_file_syste.Vfs.Create.{write_folder}

-- A call of `vfs_mkdir`: before it starts, behind GET with its id, behind INCR, behind LPUSH, and
-- returned.
pub data Maker : Type 0 where
  unstarted : Maker
  asked : ℤ → Maker
  numbered : ℤ → Maker
  entered : ℤ → Maker
  complete : ℤ → Maker

module _ (r : Redis) where
  open r use {Db, get, incr, lpush}

  -- A step of the call of `vfs_mkdir` with this parent and this name.
  pub data Makes (parent_id : ℤ) (name : Bytes) : Db → Maker → Db → Maker → Type 0 where
    makes_ask :
        {d : Db} {s : Bytes}
        → reply_str (get d current_id_count) ≡ some s
        → Makes parent_id name d unstarted d (asked (strtol s))
    makes_count :
        {d : Db} {id : ℤ}
        → Makes parent_id name d (asked id) (incr d current_id_count) (numbered id)
    makes_entry :
        {d : Db} {id : ℤ}
        → Makes parent_id name d
            (numbered id)
            (lpush d (folder_key (format_lu parent_id) folders_suffix) (format_lu id))
            (entered id)
    makes_info :
        {d : Db} {id : ℤ}
        → Makes parent_id name d (entered id) (write_folder r d parent_id id name) (complete id)

  pub record Makers : Type 0 where
    pub db : Db
    pub first : Maker
    pub second : Maker

  -- Two calls before their first steps.
  abbrev pub idle : Db → Makers
  idle d = record { db = d; first = unstarted; second = unstarted }

  -- What the steps of the two calls, in any order, lead to.
  pub data Leads (parent_id : ℤ) (name : Bytes) (parent_id' : ℤ) (name' : Bytes) (start : Makers)
      : Makers → Type 0 where
    nothing_made : Leads parent_id name parent_id' name' start start
    first_makes :
        {d d' : Db} {a a' b : Maker}
        → Leads parent_id name parent_id' name' start (record { db = d; first = a; second = b })
        → Makes parent_id name d a d' a'
        → Leads parent_id name parent_id' name' start (record { db = d'; first = a'; second = b })
    second_makes :
        {d d' : Db} {a b b' : Maker}
        → Leads parent_id name parent_id' name' start (record { db = d; first = a; second = b })
        → Makes parent_id' name' d b d' b'
        → Leads parent_id name parent_id' name' start (record { db = d'; first = a; second = b' })
