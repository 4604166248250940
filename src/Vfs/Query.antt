-- ===== src/Vfs/Query.antt =====
-- The getters of virtualFileSystem/vfs.c. A NULL text, as for a key or field that is missing, and a
-- name that overruns the caller's buffer are undefined behaviour.
use redis_virtual_file_syste.Common.{
  ℕ, [], ◌∷◌, Bytes, codes, ℤ, minus_one, Option, none, some, length, ltb, if◌then◌else◌, Outcome,
  ok, fault, ◌>>=◌,
}
use redis_virtual_file_syste.Libc.Decimal.{format_lu, strtol}
use redis_virtual_file_syste.Redis.{Redis, reply_str}
use redis_virtual_file_syste.Keys.{folder_key, file_key, info_suffix}

abbrev pub max_filename_size : ℕ
max_filename_size = 10000

-- A text that must not be NULL.
abbrev pub or_fault {ℓ} : {A : Type ℓ} → Option A → Outcome A
or_fault none = fault
or_fault (some a) = ok a

abbrev pub but_last : Bytes → Bytes
but_last [] = []
but_last (c ∷ []) = []
but_last (c ∷ e ∷ s) = c ∷ but_last (e ∷ s)

-- `sprintf(out, "%.*s", (int) strlen(s) - 2, s + 1)`: without the first and the last byte. Of an
-- empty text `s + 1` lies behind its end; of a text of one byte nothing is left.
unfoldable pub strip_quotes : Bytes → Outcome Bytes
strip_quotes [] = fault
strip_quotes (c ∷ s) = ok (but_last s)

-- What fits a buffer together with its NUL.
unfoldable pub in_buffer : ℕ → Bytes → Outcome Bytes
in_buffer size s = if ltb (length s) size then ok s else fault

-- `strtol(s + 1, NULL, 10)`
unfoldable pub strtol_behind_first : Bytes → Outcome ℤ
strtol_behind_first [] = fault
strtol_behind_first (c ∷ s) = ok (strtol s)

module _ (r : Redis) where
  open r use {Db, hget}

  unfoldable pub vfs_get_file_name : Db → ℤ → ℕ → Outcome Bytes
  vfs_get_file_name d id size = do
    s ← or_fault (reply_str (hget d (file_key (format_lu id)) (codes "name")))
    name ← strip_quotes s
    in_buffer size name

  -- The source reads the field `apiUrl`.
  unfoldable pub vfs_get_file_web_url : Db → ℤ → ℕ → Outcome Bytes
  vfs_get_file_web_url d id size = do
    s ← or_fault (reply_str (hget d (file_key (format_lu id)) (codes "apiUrl")))
    url ← strip_quotes s
    in_buffer size url

  unfoldable pub vfs_get_file_size_from_id : Db → ℤ → Outcome ℤ
  vfs_get_file_size_from_id d id =
      elim (reply_str (hget d (file_key (format_lu id)) (codes "size"))) [
        | none ↦ ok minus_one
        | some s ↦ strtol_behind_first s
      ]

  unfoldable pub vfs_get_folder_name : Db → ℤ → ℕ → Outcome Bytes
  vfs_get_folder_name d id size = do
    s ← or_fault (reply_str (hget d (folder_key (format_lu id) info_suffix) (codes "name")))
    name ← strip_quotes s
    in_buffer size name

  unfoldable pub vfs_get_dir_parent : Db → ℤ → Outcome ℤ
  vfs_get_dir_parent d id = do
    s ← or_fault (reply_str (hget d (folder_key (format_lu id) info_suffix) (codes "parent")))
    ok (strtol s)
