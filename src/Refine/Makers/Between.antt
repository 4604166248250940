-- ===== src/Refine/Makers/Between.antt =====
-- `vfs_ls` of the parent while a call of `vfs_mkdir` is between its LPUSH and its HMSET.
use redis_virtual_file_syste.Common.{
  some, ℕ, ◌+◌, ◌≤◌, ◌≡◌, ◌⊎◌, refl, ap, ◌∙◌, List, [], ◌∷◌, ◌++◌, Bytes, ℤ, pos, none, ==_iff, ltb,
  length, Bool-cases, Option-cases, inl, inr, arith, map, ok, fault, codes, ◌≢◌, sym,
}
use mathlib.Core.List.{Permᴰ, Memᴰ}
use mathlib.Core.List.Permᴰ
use redis_virtual_file_syste.Libc.Decimal.{long_max, decimal, format_lu, strtol}
use redis_virtual_file_syste.Libc.RoundTrip.{strtol-decimal}
use redis_virtual_file_syste.Redis.{Redis, IsRedis, reply_str}
use redis_virtual_file_syste.Keys.{key_of, folder_info, folder_key, info_suffix}
use redis_virtual_file_syste.Vfs.Query.{
  max_filename_size, vfs_get_folder_name, strip_quotes, in_buffer, but_last,
}
use redis_virtual_file_syste.Vfs.Listing.{vfs_ls, folder_names}
use redis_virtual_file_syste.Vfs.Makers.{Maker, entered, Leads, idle}
use redis_virtual_file_syste.Spec.{Fs, FolderInfo}
use redis_virtual_file_syste.Spec.Tree.{IsTree}
use redis_virtual_file_syste.Spec.Order.{entry_in}
use redis_virtual_file_syste.Refine.Represents.{Represents, folder_value}
use redis_virtual_file_syste.Refine.Reads.{folders_reply}
use redis_virtual_file_syste.Refine.Makers.{id_of, IsApart}
use redis_virtual_file_syste.Refine.Makers.Steps.{Leads-Reached, entered-none, taken_bound}

Permᴰ-Memᴰ : (id : ℕ) (xs ys : List ℕ) → Permᴰ xs ys → Memᴰ id xs → Memᴰ id ys
Permᴰ-Memᴰ id _ _ Permᴰ.nil here = elim here [ ]
Permᴰ-Memᴰ id (x ∷ xs) (y ∷ ys) (Permᴰ.cons e same) (Memᴰ.head here) = Memᴰ.head (here ∙ e)
Permᴰ-Memᴰ id (x ∷ xs) (y ∷ ys) (Permᴰ.cons e same) (Memᴰ.tail below) =
    Memᴰ.tail (Permᴰ-Memᴰ id xs ys same below)
Permᴰ-Memᴰ id xs ys (Permᴰ.swap e e') (Memᴰ.head here) = Memᴰ.tail (Memᴰ.head (here ∙ e))
Permᴰ-Memᴰ id xs ys (Permᴰ.swap e e') (Memᴰ.tail (Memᴰ.head here)) = Memᴰ.head (here ∙ e')
Permᴰ-Memᴰ id xs ys (Permᴰ.swap e e') (Memᴰ.tail (Memᴰ.tail below)) = Memᴰ.tail (Memᴰ.tail below)
Permᴰ-Memᴰ id xs zs (Permᴰ.trans {l₂ = ys} same same') here =
    Permᴰ-Memᴰ id ys zs same' (Permᴰ-Memᴰ id xs ys same here)

Memᴰ-append : (id : ℕ) (xs ys : List ℕ) → Memᴰ id xs → Memᴰ id (xs ++ ys)
Memᴰ-append id [] ys here = elim here [ ]
Memᴰ-append id (x ∷ xs) ys (Memᴰ.head e) = Memᴰ.head e
Memᴰ-append id (x ∷ xs) ys (Memᴰ.tail below) = Memᴰ.tail (Memᴰ-append id xs ys below)

module _ (r : Redis) (d : r.Db) where
  in_buffer-ends :
      (size : ℕ) (s : Bytes)
      → ((name : Bytes) × (in_buffer size s ≡ ok name)) ⊎ (in_buffer size s ≡ fault)
  unfolding in_buffer
  in_buffer-ends size s = elim (Bool-cases (ltb (length s) size)) [
    | inl fits ↦ inl (s, rw fits)
    | inr over ↦ inr (rw over)
  ]

  vfs_get_folder_name-ends :
      (z : ℤ) (size : ℕ)
      → ((name : Bytes) × (vfs_get_folder_name r d z size ≡ ok name))
        ⊎ (vfs_get_folder_name r d z size ≡ fault)
  unfolding vfs_get_folder_name strip_quotes
  vfs_get_folder_name-ends z size =
      elim (Option-cases
        (reply_str (r.hget d (folder_key (format_lu z) info_suffix) (codes "name")))) [
          | inl missing ↦ inr (rw missing refl)
          | inr ([], e) ↦ inr (rw e refl)
          | inr (c ∷ s, e) ↦ rw e (in_buffer-ends size (but_last s))
        ]

module _ (r : Redis) (laws : IsRedis r) (d : r.Db) (fs : Fs) (h : Represents r laws d fs) where
  vfs_get_folder_name-none :
      (id size : ℕ) → fs.folder id ≡ none → vfs_get_folder_name r d (pos id) size ≡ fault
  unfolding vfs_get_folder_name key_of format_lu
  vfs_get_folder_name-none id size e =
      rw (laws.hget-absent d _ (codes "name") (h (folder_info id) ∙ ap folder_value e)) refl

  folder_names-none :
      (id : ℕ) (ids : List ℕ)
      → Memᴰ id ids
      → id ≤ long_max
      → fs.folder id ≡ none
      → folder_names r d (map decimal ids) ≡ fault
  unfolding folder_names
  folder_names-none id [] listed fits missing = elim listed [ ]
  folder_names-none id (x ∷ ids) (Memᴰ.head e) fits missing =
      rw (← e, strtol-decimal id fits, vfs_get_folder_name-none id max_filename_size missing) refl
  folder_names-none id (x ∷ ids) (Memᴰ.tail below) fits missing =
      let rest = folder_names-none id ids below fits missing in
      elim (vfs_get_folder_name-ends r d (strtol (decimal x)) max_filename_size) [
        | inl (name, e) ↦ rw (e, rest) refl
        | inr e ↦ rw e refl
      ]

  vfs_ls-none :
      (dir id : ℕ)
      → Memᴰ id (fs.folders dir)
      → id ≤ long_max
      → fs.folder id ≡ none
      → vfs_ls r d (pos dir) ≡ fault
  unfolding vfs_ls key_of format_lu
  vfs_ls-none dir id listed fits missing =
      rw (folders_reply r laws d fs h dir)
        (rw (folder_names-none id (fs.folders dir) listed fits missing) refl)

module _ (start : Fs) (t : IsTree start) (room : start.next + 2 ≤ long_max) (r : Redis)
    (laws : IsRedis r) (d : r.Db) (represents : Represents r laws d start)
    (info info' : FolderInfo) where
  -- On a dataset that represents a well-formed file system, while two more ids fit a `long`:
  -- wherever the commands of two calls of `vfs_mkdir` have led, in any order, if the first is
  -- between its LPUSH and its HMSET and the second has not read the same id, then `vfs_ls` of
  -- its parent reads a NULL reply, which is undefined.
  pub vfs_ls-entered :
      (d' : r.Db) (z : ℤ) (m' : Maker)
      → id_of m' ≢ some z
      → Leads r
          (pos info.parent)
          info.name
          (pos info'.parent)
          info'.name
          (idle r d)
          (record { db = d'; first = entered z; second = m' })
      → vfs_ls r d' (pos info.parent) ≡ fault
  vfs_ls-entered d' z m' other leads =
      let apart : IsApart (entered z) m' = λ w own same. other (same ∙ sym own) in
      let h = Leads-Reached r laws start t room info info' d represents _ leads apart in
      let p = h.progress in
      let own : Memᴰ p.id (entry_in info.parent p.id info.parent) =
        rw ((==_iff info.parent info.parent).1 refl) (Memᴰ.head refl) in
      vfs_ls-none r laws d' h.fs h.represents info.parent p.id
        (Permᴰ-Memᴰ p.id _ _ (Permᴰ.symm (p.folders info.parent)) (Memᴰ-append p.id _ _ own))
        (omega (arith, p.new refl, p.next, taken_bound m'))
        (entered-none r laws start t room info info' d' z m' h)
