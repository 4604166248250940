-- ===== src/Fuse.antt =====
-- fuse/redisfs.cc: the callbacks that reach the file system, `Getattr` and `Readdir`. Those that
-- only print and return a constant are in Callbacks.
pub mod Callbacks
pub mod Class
use redis_virtual_file_syste.Common.{
  ℕ, ◌-◌, ◌%◌, List, [], ◌∷◌, Bytes, ℤ, pos, negsuc, if◌then◌else◌, Outcome, ok, ◌>>=◌, ◌==◌,
  Option, none, some,
}
use redis_virtual_file_syste.Libc.Decimal.{ulong_mod}
use redis_virtual_file_syste.Redis.{Redis}
use redis_virtual_file_syste.PathParser.State.{ParserState}
use redis_virtual_file_syste.Wrapper.Commands.{get_initial_context}
use redis_virtual_file_syste.Wrapper.Items.{DirItemType, dir_item_folder, DirItemInfo, stat, ls}

pub data Mode : Type 0 where
  s_ifdir s_ifreg : Mode

-- The fields of `struct stat` that `Getattr` sets.
pub record Attributes : Type 0 where
  pub nlink : ℕ
  pub mode : Mode
  pub size : ℕ

-- A `long` in the unsigned `nlink_t` of 64 bits.
unfoldable pub nlink_of_long : ℤ → ℕ
nlink_of_long (pos n) = n % ulong_mod
nlink_of_long (negsuc n) = ulong_mod - 1 - n % ulong_mod

abbrev pub mode_of : DirItemType → Mode
mode_of dir_item_folder = s_ifdir
mode_of _ = s_ifreg

-- -ENOMEM
abbrev pub enomem : ℤ
enomem = negsuc 11

module _ {B : Type 0} (filler : B → Bytes → ℕ × B) where
  -- The loop of `Readdir`: `filler` is FUSE's callback over its buffer, not 0 when it is full.
  unfoldable pub fill_loop : B → List Bytes → ℤ × B
  fill_loop buf [] = (pos 0, buf)
  fill_loop buf (name ∷ names) =
      let (full, buf') = filler buf name in
      let rest = fill_loop buf' names in if full == 0 then rest else (enomem, buf')

module _ (r : Redis) where
  open r use {Db}

  -- `Instance`: the context of the one object, its current directory, and the dataset. `none` is
  -- NULL, and the constructor makes the context.
  unfoldable pub redis_fs_instance : Option Bytes → Db → Bytes × Db
  redis_fs_instance none d = get_initial_context r d
  redis_fs_instance (some cwd) d = (cwd, d)

  unfoldable pub getattr : Db → Bytes → DirItemInfo → ParserState → Bytes → Outcome (ℤ × Attributes)
  getattr d cwd junk state path = do
    info ← stat r d cwd junk state path
    ok (pos 0, record { nlink = nlink_of_long info.id; mode = mode_of info.type; size = 0 })

  unfoldable pub readdir :
      {B : Type 0} → (B → Bytes → ℕ × B) → B → Db → Bytes → Bytes → Outcome (ℤ × B)
  unfolding fill_loop
  readdir filler buf d cwd path = do names ← ls r d cwd path; ok (fill_loop filler buf names)
