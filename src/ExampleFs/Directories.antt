-- ===== src/ExampleFs/Directories.antt =====
-- The callbacks of fuse/examplefs.cc on directories, and `Init`. `fh` keeps the stream's pointer.
use redis_virtual_file_syste.Common.{
  ℕ, zero, suc, Bytes, pos, Bool, none, some, ◌==◌, if◌then◌else◌, Outcome, ok, unfinished, ◌>>=◌,
}
use redis_virtual_file_syste.Posix.{Posix, Answer, negated}
use redis_virtual_file_syste.ExampleFs.{ExampleFs, FileInfo, abs_path}
use redis_virtual_file_syste.Fuse.{enomem}

module _ (p : Posix) where
  open p use {World, errno}

  unfoldable pub opendir : ExampleFs → Bytes → FileInfo → World → Outcome (Answer World FileInfo)
  opendir fs path file_info w = do
    full_path ← abs_path p fs path
    let opened = p.opendir full_path w
    ok (record {
      value = if opened.0 == 0 then negated (errno opened.1) else pos 0;
      out = record file_info { fh = opened.0 };
      world = opened.1;
    })

  -- The `do` loop of `Readdir`: `filler` is FUSE's callback, not 0 when its buffer is full. A unit
  -- of fuel is one round.
  unfoldable pub readdir_loop :
      {B : Type 0} → ℕ → (B → Bytes → ℕ × B) → ℕ → Bytes → B → World → Outcome (Answer World B)
  readdir_loop zero filler dir name buf w = unfinished
  readdir_loop (suc fuel) filler dir name buf w =
      let filled = filler buf name in
      let next = p.readdir dir w in
      if filled.0 == 0
      then elim next.0 [
        | none ↦ ok (record { value = pos 0; out = filled.1; world = next.1 })
        | some other ↦ readdir_loop fuel filler dir other filled.1 next.1
      ]
      else ok (record { value = enomem; out = filled.1; world = w })

  unfoldable pub readdir :
      {B : Type 0} → ℕ → (B → Bytes → ℕ × B) → B → FileInfo → World → Outcome (Answer World B)
  unfolding readdir_loop
  readdir fuel filler buf file_info w =
      let first = p.readdir file_info.fh w in
      elim first.0 [
        | none ↦ ok (record { value = negated (errno first.1); out = buf; world = first.1 })
        | some name ↦ readdir_loop fuel filler file_info.fh name buf first.1
      ]

  unfoldable pub releasedir : FileInfo → World → Answer World (Unit {0})
  releasedir file_info w = record { value = pos 0; out = tt; world = p.closedir file_info.fh w }

  unfoldable pub fsyncdir : Bytes → Bool → FileInfo → World → Answer World (Unit {0})
  fsyncdir path datasync file_info w = record { value = pos 0; out = tt; world = w }

  unfoldable pub init : World → Answer World (Unit {0})
  init w = record { value = pos 0; out = tt; world = w }
