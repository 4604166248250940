-- ===== src/Vfs/Clients.antt =====
-- `getNewId` of virtualFileSystem/vfs.c for two programs on one server: each sends GET and then
-- INCR, and the server may take the other's commands in between.
use redis_virtual_file_syste.Common.{◌≡◌, Bytes, ℤ, some}
use redis_virtual_file_syste.Libc.Decimal.{strtol}
use redis_virtual_file_syste.Redis.{Redis, reply_str}
use redis_virtual_file_syste.Keys.{current_id_count}

-- A client before GET, between GET and INCR with what it read, and with what `getNewId` returns.
pub data Client : Type 0 where
  waiting : Client
  asked : ℤ → Client
  returned : ℤ → Client

module _ (r : Redis) where
  open r use {Db, get, incr}

  -- A command of a client.
  pub data Sends : Db → Client → Db → Client → Type 0 where
    sends_get :
        {d : Db} {s : Bytes}
        → reply_str (get d current_id_count) ≡ some s
        → Sends d waiting d (asked (strtol s))
    sends_incr : {d : Db} {id : ℤ} → Sends d (asked id) (incr d current_id_count) (returned id)

  pub record Clients : Type 0 where
    pub db : Db
    pub first : Client
    pub second : Client

  -- What the commands of the two, in any order, lead to.
  pub data Reach (start : Clients) : Clients → Type 0 where
    here : Reach start start
    first_sends :
        {d d' : Db} {a a' b : Client}
        → Reach start (record { db = d; first = a; second = b })
        → Sends d a d' a'
        → Reach start (record { db = d'; first = a'; second = b })
    second_sends :
        {d d' : Db} {a b b' : Client}
        → Reach start (record { db = d; first = a; second = b })
        → Sends d b d' b'
        → Reach start (record { db = d'; first = a; second = b' })
