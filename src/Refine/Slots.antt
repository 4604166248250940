-- ===== src/Refine/Slots.antt =====
-- What each key holds, and how a write of one key changes that.
use redis_virtual_file_syste.Common.{
  ℕ, ◌+◌, ◌<◌, ◌≡◌, refl, ap, ◌∙◌, List, ◌∷◌, Bytes, Option, Bool, true, false, ◌==◌, ==_iff,
  if◌then◌else◌, inl, inr, Bool-cases, bytes_eq, bytes_eq_refl,
}
use redis_virtual_file_syste.Libc.Decimal.{long_max, decimal}
use redis_virtual_file_syste.Redis.{
  Redis, IsRedis, Value, absent, string, hash, list, set_field, set_fields, no_fields, list_value,
  remove_all,
}
use redis_virtual_file_syste.Keys.{
  Slot, folder_info, folder_folders, folder_files, file_info, id_count, created, key_of,
}
use redis_virtual_file_syste.Keys.Injective.{key_of_ne}

abbrev pub slot_eq : Slot → Slot → Bool
slot_eq (folder_info m) (folder_info n) = m == n
slot_eq (folder_folders m) (folder_folders n) = m == n
slot_eq (folder_files m) (folder_files n) = m == n
slot_eq (file_info m) (file_info n) = m == n
slot_eq id_count id_count = true
slot_eq created created = true
slot_eq _ _ = false

slot_eq→eq : (a b : Slot) → slot_eq a b ≡ true → a ≡ b
slot_eq→eq (folder_info m) (folder_info n) h = ap folder_info ((==_iff m n).0 h)
slot_eq→eq (folder_folders m) (folder_folders n) h = ap folder_folders ((==_iff m n).0 h)
slot_eq→eq (folder_files m) (folder_files n) h = ap folder_files ((==_iff m n).0 h)
slot_eq→eq (file_info m) (file_info n) h = ap file_info ((==_iff m n).0 h)
slot_eq→eq id_count id_count h = refl
slot_eq→eq created created h = refl
slot_eq→eq a b h = cc

slot_eq_refl : (a : Slot) → slot_eq a a ≡ true
slot_eq_refl (folder_info m) = (==_iff m m).1 refl
slot_eq_refl (folder_folders m) = (==_iff m m).1 refl
slot_eq_refl (folder_files m) = (==_iff m m).1 refl
slot_eq_refl (file_info m) = (==_iff m m).1 refl
slot_eq_refl id_count = refl
slot_eq_refl created = refl

abbrev pub put : Slot → Value → (Slot → Value) → Slot → Value
put a w v s = if slot_eq a s then w else v s

module _ (r : Redis) (laws : IsRedis r) where
  -- The dataset holds these values at the keys of the file system.
  abbrev pub Holds : r.Db → (Slot → Value) → Type 0
  Holds d v = (s : Slot) → laws.value d (key_of s) ≡ v s

  -- A write that gives one key a value and leaves the other keys alone.
  Holds-write :
      (d d' : r.Db) (v : Slot → Value) (a : Slot) (w : Value)
      → Holds d v
      → laws.value d' (key_of a) ≡ w
      → ((j : Bytes) → bytes_eq (key_of a) j ≡ false → laws.value d' j ≡ laws.value d j)
      → Holds d' (put a w v)
  Holds-write d d' v a w h new others s = elim (Bool-cases (slot_eq a s)) [
    | inl same ↦ rw (same, ← slot_eq→eq a s same) new
    | inr differ ↦ rw differ (others (key_of s) (key_of_ne a s (λ e. differs a s differ e)) ∙ h s)
  ]
    where
      differs : (a s : Slot) → slot_eq a s ≡ false → a ≡ s → ⊥
      differs a s differ e = cc (differ, e, slot_eq_refl a)

  module _ (d : r.Db) (v : Slot → Value) (h : Holds d v) (a : Slot) where
    pub Holds-set : (s : Bytes) → Holds (r.set d (key_of a) s) (put a (string s) v)
    Holds-set s =
        Holds-write d _ v a (string s) h
          (laws.value-set d (key_of a) s (key_of a) ∙ rw bytes_eq_refl)
          (λ j e. laws.value-set d (key_of a) s j ∙ rw e)

    pub Holds-incr :
        (n : ℕ)
        → n < long_max
        → v a ≡ string (decimal n)
        → Holds (r.incr d (key_of a)) (put a (string (decimal (n + 1))) v)
    Holds-incr n room e =
        Holds-write d _ v a (string (decimal (n + 1))) h
          (laws.value-incr d (key_of a) n room (h a ∙ e)) (laws.value-incr_ne d (key_of a))

    pub Holds-hmset :
        (fs : List (Bytes × Bytes))
        → v a ≡ absent
        → Holds (r.hmset d (key_of a) fs) (put a (hash (set_fields fs no_fields)) v)
    Holds-hmset fs e =
        Holds-write d _ v a (hash (set_fields fs no_fields)) h
          (laws.value-hmset_absent d (key_of a) fs (h a ∙ e)) (laws.value-hmset_ne d (key_of a) fs)

    pub Holds-hset :
        (f s : Bytes) (g : Bytes → Option Bytes)
        → v a ≡ hash g
        → Holds (r.hset d (key_of a) f s) (put a (hash (set_field f s g)) v)
    Holds-hset f s g e =
        Holds-write d _ v a (hash (set_field f s g)) h
          (laws.value-hset_hash d (key_of a) f s g (h a ∙ e)) (laws.value-hset_ne d (key_of a) f s)

    pub Holds-lpush :
        (s : Bytes) (xs : List Bytes)
        → v a ≡ list_value xs
        → Holds (r.lpush d (key_of a) s) (put a (list (s ∷ xs)) v)
    Holds-lpush s xs e =
        Holds-write d _ v a (list (s ∷ xs)) h (laws.value-lpush_list d (key_of a) s xs (h a ∙ e))
          (laws.value-lpush_ne d (key_of a) s)

    pub Holds-lrem :
        (s : Bytes) (xs : List Bytes)
        → v a ≡ list_value xs
        → Holds (r.lrem d (key_of a) s) (put a (list_value (remove_all s xs)) v)
    Holds-lrem s xs e =
        Holds-write d _ v a (list_value (remove_all s xs)) h
          (laws.value-lrem_list d (key_of a) s xs (h a ∙ e)) (laws.value-lrem_ne d (key_of a) s)

  -- Two descriptions of the same values.
  pub Holds-eq : (d : r.Db) (v w : Slot → Value) → Holds d v → ((s : Slot) → v s ≡ w s) → Holds d w
  Holds-eq d v w h e s = h s ∙ e s
