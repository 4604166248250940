-- ===== src/Redis.antt =====
-- The Redis server behind hiredis' `redisCommand`, which lies outside the source: a parameter of
-- everything that talks to it. `Redis` has the commands that the source sends, and `IsRedis` what
-- the Redis documentation says of them. A command that only reads leaves the dataset alone, so it
-- returns a reply and no new dataset; the source reads no reply of a command that writes.
-- hiredis splits a command's format at its spaces and does not interpret quotes, so `name "%s"`
-- stores the text with its two quotes.
pub mod Memory
use redis_virtual_file_syste.Common.{
  ℕ, ◌+◌, ◌<◌, ◌≡◌, ◌≢◌, Option, none, some, Bool, true, false, List, [], ◌∷◌, Bytes, bytes_eq,
  if◌then◌else◌,
}
use redis_virtual_file_syste.Libc.Decimal.{long_max, decimal}

-- `redisReply`: the types of reply that the source tells apart.
pub data Reply : Type 0 where
  nil : Reply
  str : Bytes → Reply
  error : Bytes → Reply
  integer : ℕ → Reply
  array : List Bytes → Reply

-- `reply->str`, which is NULL for a reply with no text. An error reply has its message there.
abbrev pub reply_str : Reply → Option Bytes
reply_str nil = none
reply_str (str s) = some s
reply_str (error s) = some s
reply_str (integer n) = none
reply_str (array xs) = none

-- `reply->integer`, which is 0 for a reply of another type.
abbrev pub reply_integer : Reply → ℕ
reply_integer (integer n) = n
reply_integer _ = 0

-- `reply->element[i]->str` of an array; the loops of the source skip a reply of another type.
abbrev pub reply_elements : Reply → List Bytes
reply_elements (array xs) = xs
reply_elements _ = []

pub record Redis : Type 1 where
  pub Db : Type 0
  -- GET key
  pub get : Db → Bytes → Reply
  -- HGET key field
  pub hget : Db → Bytes → Bytes → Reply
  -- LRANGE key 0 -1
  pub lrange : Db → Bytes → Reply
  -- EXISTS key
  pub exists : Db → Bytes → Reply
  -- SET key value
  pub set : Db → Bytes → Bytes → Db
  -- INCR key
  pub incr : Db → Bytes → Db
  -- HSET key field value
  pub hset : Db → Bytes → Bytes → Bytes → Db
  -- HMSET key field value …
  pub hmset : Db → Bytes → List (Bytes × Bytes) → Db
  -- LPUSH key value
  pub lpush : Db → Bytes → Bytes → Db
  -- LREM key 0 value
  pub lrem : Db → Bytes → Bytes → Db
  -- FLUSHALL
  pub flushall : Db → Db

-- The value of a key in the documented data model.
pub data Value : Type 0 where
  absent : Value
  string : Bytes → Value
  hash : (Bytes → Option Bytes) → Value
  list : List Bytes → Value

abbrev pub wrong_type : Bytes
wrong_type = []

abbrev pub nil_or_str : Option Bytes → Reply
nil_or_str none = nil
nil_or_str (some s) = str s

abbrev pub set_field : Bytes → Bytes → (Bytes → Option Bytes) → Bytes → Option Bytes
set_field f v h g = if bytes_eq f g then some v else h g

abbrev pub set_fields : List (Bytes × Bytes) → (Bytes → Option Bytes) → Bytes → Option Bytes
set_fields [] h = h
set_fields ((f, v) ∷ fs) h = set_fields fs (set_field f v h)

abbrev pub no_fields : Bytes → Option Bytes
no_fields f = none

-- A list that has become empty is removed with its key.
abbrev pub list_value : List Bytes → Value
list_value [] = absent
list_value (x ∷ xs) = list (x ∷ xs)

-- LREM with count 0 removes every element equal to the text.

unfoldable pub remove_all : Bytes → List Bytes → List Bytes
remove_all v [] = []
remove_all v (x ∷ xs) = let rest = remove_all v xs in if bytes_eq v x then rest else x ∷ rest

-- What the documentation says of the commands, by the value that a key holds.
pub record IsRedis (r : Redis) : Type 1 where
  pub value : r.Db → Bytes → Value
  pub get-absent : (d : r.Db) (k : Bytes) → value d k ≡ absent → r.get d k ≡ nil
  pub get-string : (d : r.Db) (k s : Bytes) → value d k ≡ string s → r.get d k ≡ str s
  pub hget-absent : (d : r.Db) (k f : Bytes) → value d k ≡ absent → r.hget d k f ≡ nil
  pub hget-hash :
      (d : r.Db) (k f : Bytes) (h : Bytes → Option Bytes)
      → value d k ≡ hash h
      → r.hget d k f ≡ nil_or_str (h f)
  pub lrange-list :
      (d : r.Db) (k : Bytes) (xs : List Bytes) → value d k ≡ list_value xs → r.lrange d k ≡ array xs
  pub exists-absent : (d : r.Db) (k : Bytes) → value d k ≡ absent → r.exists d k ≡ integer 0
  pub exists-present : (d : r.Db) (k : Bytes) → value d k ≢ absent → r.exists d k ≡ integer 1
  pub value-set :
      (d : r.Db) (k v j : Bytes)
      → value (r.set d k v) j ≡ (if bytes_eq k j then string v else value d j)
  -- INCR of a number below the greatest signed 64-bit one.
  pub value-incr :
      (d : r.Db) (k : Bytes) (n : ℕ)
      → n < long_max
      → value d k ≡ string (decimal n)
      → value (r.incr d k) k ≡ string (decimal (n + 1))
  pub value-incr_ne :
      (d : r.Db) (k j : Bytes) → bytes_eq k j ≡ false → value (r.incr d k) j ≡ value d j
  pub value-hmset_absent :
      (d : r.Db) (k : Bytes) (fs : List (Bytes × Bytes))
      → value d k ≡ absent
      → value (r.hmset d k fs) k ≡ hash (set_fields fs no_fields)
  pub value-hmset_ne :
      (d : r.Db) (k : Bytes) (fs : List (Bytes × Bytes)) (j : Bytes)
      → bytes_eq k j ≡ false
      → value (r.hmset d k fs) j ≡ value d j
  pub value-hset_hash :
      (d : r.Db) (k f v : Bytes) (h : Bytes → Option Bytes)
      → value d k ≡ hash h
      → value (r.hset d k f v) k ≡ hash (set_field f v h)
  pub value-hset_ne :
      (d : r.Db) (k f v j : Bytes) → bytes_eq k j ≡ false → value (r.hset d k f v) j ≡ value d j
  pub value-lpush_list :
      (d : r.Db) (k v : Bytes) (xs : List Bytes)
      → value d k ≡ list_value xs
      → value (r.lpush d k v) k ≡ list (v ∷ xs)
  pub value-lpush_ne :
      (d : r.Db) (k v j : Bytes) → bytes_eq k j ≡ false → value (r.lpush d k v) j ≡ value d j
  pub value-lrem_list :
      (d : r.Db) (k v : Bytes) (xs : List Bytes)
      → value d k ≡ list_value xs
      → value (r.lrem d k v) k ≡ list_value (remove_all v xs)
  pub value-lrem_ne :
      (d : r.Db) (k v j : Bytes) → bytes_eq k j ≡ false → value (r.lrem d k v) j ≡ value d j
  pub value-flushall : (d : r.Db) (k : Bytes) → value (r.flushall d) k ≡ absent
