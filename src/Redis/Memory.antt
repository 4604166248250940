-- ===== src/Redis/Memory.antt =====
-- A server that keeps its dataset in memory as a function from keys: the documented assumptions
-- can be met, and the tests run on it.
use redis_virtual_file_syste.Common.{
  ℕ, ◌+◌, ◌<◌, ◌≡◌, ◌≢◌, refl, ap, ◌∙◌, false, List, [], ◌∷◌, Bytes, bytes_eq, bytes_eq_refl,
  if◌then◌else◌, ℤ, pos, negsuc, arith,
}
use redis_virtual_file_syste.Libc.Decimal.{long_max, decimal, strtol, format_ld}
use redis_virtual_file_syste.Libc.RoundTrip.{strtol-decimal}
use redis_virtual_file_syste.Redis.{
  Reply, nil, str, error, integer, array, Redis, Value, absent, string, hash, list, wrong_type,
  nil_or_str, set_fields, no_fields, list_value, remove_all, IsRedis,
}

abbrev pub Dataset : Type 0
Dataset = Bytes → Value

abbrev store : Dataset → Bytes → Value → Dataset
store d k v j = if bytes_eq k j then v else d j

abbrev get_reply : Value → Reply
get_reply absent = nil
get_reply (string s) = str s
get_reply (hash h) = error wrong_type
get_reply (list xs) = error wrong_type

abbrev hget_reply : Bytes → Value → Reply
hget_reply f absent = nil
hget_reply f (hash h) = nil_or_str (h f)
hget_reply f (string s) = error wrong_type
hget_reply f (list xs) = error wrong_type

abbrev lrange_reply : Value → Reply
lrange_reply absent = array []
lrange_reply (list xs) = array xs
lrange_reply (string s) = error wrong_type
lrange_reply (hash h) = error wrong_type

abbrev exists_reply : Value → Reply
exists_reply absent = integer 0
exists_reply (string s) = integer 1
exists_reply (hash h) = integer 1
exists_reply (list xs) = integer 1

abbrev successor : ℤ → Bytes
successor (pos n) = decimal (n + 1)
successor (negsuc n) = format_ld (negsuc n)

abbrev incremented : Value → Value
incremented absent = string (decimal 1)
incremented (string s) = string (successor (strtol s))
incremented (hash h) = hash h
incremented (list xs) = list xs

abbrev with_fields : List (Bytes × Bytes) → Value → Value
with_fields fs absent = hash (set_fields fs no_fields)
with_fields fs (hash h) = hash (set_fields fs h)
with_fields fs (string s) = string s
with_fields fs (list xs) = list xs

abbrev pushed : Bytes → Value → Value
pushed v absent = list (v ∷ [])
pushed v (list xs) = list (v ∷ xs)
pushed v (string s) = string s
pushed v (hash h) = hash h

abbrev removed : Bytes → Value → Value
removed v absent = absent
removed v (list xs) = list_value (remove_all v xs)
removed v (string s) = string s
removed v (hash h) = hash h

abbrev pub memory : Redis
memory = record {
  Db = Dataset;
  get = λ d k. get_reply (d k);
  hget = λ d k f. hget_reply f (d k);
  lrange = λ d k. lrange_reply (d k);
  exists = λ d k. exists_reply (d k);
  set = λ d k v. store d k (string v);
  incr = λ d k. store d k (incremented (d k));
  hset = λ d k f v. store d k (with_fields ((f, v) ∷ []) (d k));
  hmset = λ d k fs. store d k (with_fields fs (d k));
  lpush = λ d k v. store d k (pushed v (d k));
  lrem = λ d k v. store d k (removed v (d k));
  flushall = λ d k. absent;
}

abbrev pub nothing : Dataset
nothing k = absent

store_self : (d : Dataset) (k : Bytes) (v : Value) → store d k v k ≡ v
store_self d k v = rw bytes_eq_refl

store_ne : (d : Dataset) (k j : Bytes) (v : Value) → bytes_eq k j ≡ false → store d k v j ≡ d j
store_ne d k j v h = rw h

lrange_reply-list_value : (xs : List Bytes) → lrange_reply (list_value xs) ≡ array xs
lrange_reply-list_value [] = refl
lrange_reply-list_value (x ∷ xs) = refl

pushed-list_value : (v : Bytes) (xs : List Bytes) → pushed v (list_value xs) ≡ list (v ∷ xs)
pushed-list_value v [] = refl
pushed-list_value v (x ∷ xs) = refl

removed-list_value :
    (v : Bytes) (xs : List Bytes) → removed v (list_value xs) ≡ list_value (remove_all v xs)
unfolding remove_all
removed-list_value v [] = refl
removed-list_value v (x ∷ xs) = refl

exists_reply_present : (v : Value) → v ≢ absent → exists_reply v ≡ integer 1
exists_reply_present absent h = absurd (h refl)
exists_reply_present (string s) h = refl
exists_reply_present (hash f) h = refl
exists_reply_present (list xs) h = refl

incremented-decimal :
    (n : ℕ) → n < long_max → incremented (string (decimal n)) ≡ string (decimal (n + 1))
incremented-decimal n h = rw (strtol-decimal n (omega arith))

-- The server in memory behaves as the documentation says.
pub memory-IsRedis : IsRedis memory
memory-IsRedis = record {
  value = λ d k. d k;
  get-absent = λ d k e. ap get_reply e;
  get-string = λ d k s e. ap get_reply e;
  hget-absent = λ d k f e. ap (hget_reply f) e;
  hget-hash = λ d k f h e. ap (hget_reply f) e;
  lrange-list = λ d k xs e. ap lrange_reply e ∙ lrange_reply-list_value xs;
  exists-absent = λ d k e. ap exists_reply e;
  exists-present = λ d k h. exists_reply_present (d k) h;
  value-set = λ d k v j. refl;
  value-incr = λ d k n h e. store_self d k _ ∙ ap incremented e ∙ incremented-decimal n h;
  value-incr_ne = λ d k j h. store_ne d k j _ h;
  value-hmset_absent = λ d k fs e. store_self d k _ ∙ ap (with_fields fs) e;
  value-hmset_ne = λ d k fs j h. store_ne d k j _ h;
  value-hset_hash = λ d k f v h e. store_self d k _ ∙ ap (with_fields ((f, v) ∷ [])) e;
  value-hset_ne = λ d k f v j h. store_ne d k j _ h;
  value-lpush_list = λ d k v xs e. store_self d k _ ∙ ap (pushed v) e ∙ pushed-list_value v xs;
  value-lpush_ne = λ d k v j h. store_ne d k j _ h;
  value-lrem_list = λ d k v xs e. store_self d k _ ∙ ap (removed v) e ∙ removed-list_value v xs;
  value-lrem_ne = λ d k v j h. store_ne d k j _ h;
  value-flushall = λ d k. refl;
}
