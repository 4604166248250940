-- ===== src/ExampleFs/Listing.antt =====
-- `Readdir` of fuse/examplefs.cc on a stream that ends.
use redis_virtual_file_syste.Common.{
  ℕ, zero, suc, ◌<◌, ◌≡◌, refl, ap, List, [], ◌∷◌, Bytes, none, some, length, arith, ok, ◌==◌,
  Bool-cases, inl, inr,
}
use redis_virtual_file_syste.Posix.{Posix, Answer}
use redis_virtual_file_syste.ExampleFs.{FileInfo}
use redis_virtual_file_syste.ExampleFs.Directories.{readdir, readdir_loop}
use redis_virtual_file_syste.Fuse.{fill_loop}

module _ (p : Posix) where
  open p use {World, errno}

  -- From a state of the host on, the stream has these names and then NULL, which leaves `end`.
  pub data StreamOf (dir : ℕ) : World → List Bytes → World → Type 0 where
    ended : {w end : World} → p.readdir dir w ≡ (none, end) → StreamOf dir w [] end
    entry :
        {w w' end : World} {name : Bytes} {names : List Bytes}
        → p.readdir dir w ≡ (some name, w')
        → StreamOf dir w' names end
        → StreamOf dir w (name ∷ names) end

  module _ {B : Type 0} (filler : B → Bytes → ℕ × B) (dir : ℕ) where
    readdir_loop-fill_loop :
        (fuel : ℕ) (name : Bytes) (names : List Bytes) (buf : B) (w end : World)
        → length names < fuel
        → StreamOf dir w names end
        → (a : Answer World B) × (readdir_loop p fuel filler dir name buf w ≡ ok a)
          × ((a.value, a.out) ≡ fill_loop filler buf (name ∷ names))
    unfolding readdir_loop fill_loop
    readdir_loop-fill_loop zero name names buf w end enough stream = absurd (omega arith)
    readdir_loop-fill_loop (suc fuel) name [] buf w end enough (ended e) =
        elim (Bool-cases ((filler buf name).0 == 0)) [
          | inl room ↦ rw (room, e) (_, refl, refl)
          | inr full ↦ rw full (_, refl, refl)
        ]
    readdir_loop-fill_loop (suc fuel) name (other ∷ names) buf w end enough
          (entry {w' = w₁} e stream) =
        elim (Bool-cases ((filler buf name).0 == 0)) [
          | inl room ↦
              rw (room, ap (λ x. x.0) e)
                (readdir_loop-fill_loop fuel other names (filler buf name).1 (p.readdir dir w).1 end
                  (omega arith) (rw (ap (λ x. x.1) e) stream))
          | inr full ↦ rw full (_, refl, refl)
        ]

  -- On an open directory whose stream has a first name, further names and then its end, and
  -- with fuel for more rounds than the further names, `Readdir` of ExampleFS returns, and its
  -- status and FUSE's buffer are those of the callback in a loop over the names, which stops
  -- with -ENOMEM where the callback says that it is full.
  pub readdir-fill_loop :
      {B : Type 0} (filler : B → Bytes → ℕ × B) (buf : B) (info : FileInfo) (fuel : ℕ)
      (name : Bytes) (names : List Bytes) (w end : World)
      → length names < fuel
      → StreamOf info.fh w (name ∷ names) end
      → (a : Answer World B) × (readdir p fuel filler buf info w ≡ ok a)
        × ((a.value, a.out) ≡ fill_loop filler buf (name ∷ names))
  unfolding readdir
  readdir-fill_loop filler buf info fuel name names w end enough (entry {w' = w₁} e stream) =
      rw (ap (λ x. x.0) e, readdir)
        (readdir_loop-fill_loop filler info.fh fuel name names buf (p.readdir info.fh w).1 end
          enough (rw (ap (λ x. x.1) e) stream))
