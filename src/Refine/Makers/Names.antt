-- ===== src/Refine/Makers/Names.antt =====
-- What `vfs_ls` lists behind two calls of `vfs_mkdir` at once, without the order of the names.
use redis_virtual_file_syste.Common.{
  ℕ, ◌+◌, ◌≤◌, ◌<◌, ◌≡◌, ◌≢◌, refl, sym, ap, ◌∙◌, List, [], ◌∷◌, ◌++◌, Bytes, map, pos, ℤ, ◌==◌,
  ==_iff, if◌then◌else◌, Bool-cases, false, inl, inr, arith, All, ok,
}
use mathlib.Core.List.{Permᴰ}
use mathlib.Core.List.Permᴰ
use mathlib.Core.Quot
use mathlib.Core.Quot.{Quot}
use redis_virtual_file_syste.Libc.Decimal.{long_max}
use redis_virtual_file_syste.Redis.{Redis, IsRedis}
use redis_virtual_file_syste.Vfs.Listing.{vfs_ls}
use redis_virtual_file_syste.Vfs.Makers.{complete, Leads, idle}
use redis_virtual_file_syste.Spec.{Fs, FolderInfo, add_folder}
use redis_virtual_file_syste.Spec.Tree.{IsTree, IsSubfolder, add_folder-IsTree, folder-lt-next}
use redis_virtual_file_syste.Spec.Order.{SameUpToOrder, append-swap}
use redis_virtual_file_syste.Refine.Represents.{Represents}
use redis_virtual_file_syste.Refine.Listing.{name_of_folder, name_of_file, names_in}
use redis_virtual_file_syste.Refine.ObjectListing.{vfs_ls-names_in}
use redis_virtual_file_syste.Refine.Makers.Both.{IsMakeable, IsInOrder, add_both, vfs_mkdir_both}

-- Names without their order.
abbrev pub Bag : Type 0
Bag = Quot (Permᴰ {A = Bytes})

abbrev pub bag : List Bytes → Bag
bag names = Quot.mk names

-- The name of a new folder, in its parent.
abbrev pub new_in : FolderInfo → ℕ → List Bytes
new_in info dir = if info.parent == dir then info.name ∷ [] else []

Permᴰ-map : (f : ℕ → Bytes) (xs ys : List ℕ) → Permᴰ xs ys → Permᴰ (map f xs) (map f ys)
Permᴰ-map f [] [] Permᴰ.nil = Permᴰ.nil
Permᴰ-map f (x ∷ xs) (y ∷ ys) (Permᴰ.cons e p) = Permᴰ.cons (ap f e) (Permᴰ-map f xs ys p)
Permᴰ-map f (x ∷ y ∷ xs) (y' ∷ x' ∷ ys) (Permᴰ.swap e e') = Permᴰ.swap (ap f e) (ap f e')
Permᴰ-map f xs zs (Permᴰ.trans {l₂ = ys} p p') =
    Permᴰ.trans (Permᴰ-map f xs ys p) (Permᴰ-map f ys zs p')

map_same : (f g : ℕ → Bytes) (xs : List ℕ) → ((n : ℕ) → f n ≡ g n) → map f xs ≡ map g xs
map_same f g [] same = refl
map_same f g (x ∷ xs) same = rw (same x, map_same f g xs same) refl

SameUpToOrder-names_in :
    (fs fs' : Fs) (dir : ℕ) → SameUpToOrder fs fs' → Permᴰ (names_in fs dir) (names_in fs' dir)
SameUpToOrder-names_in fs fs' dir same =
    rw
      (
        map_same (name_of_folder fs) (name_of_folder fs') (fs.folders dir)
            (λ n. rw (same.folder n, name_of_folder) refl),
        map_same (name_of_file fs) (name_of_file fs') (fs.files dir)
            (λ n. rw (same.file n, name_of_file) refl),
      )
      (Permᴰ.trans
        (Permᴰ.append_right (map (name_of_file fs') (fs.files dir))
          (Permᴰ-map (name_of_folder fs') (fs.folders dir) (fs'.folders dir) (same.folders dir)))
        (Permᴰ.append_left (map (name_of_folder fs') (fs'.folders dir))
          (Permᴰ-map (name_of_file fs') (fs.files dir) (fs'.files dir) (same.files dir))))

module _ (fs : Fs) (t : IsTree fs) (info : FolderInfo) where
  new_name : name_of_folder (add_folder fs info.parent info.name) fs.next ≡ info.name
  new_name = rw ((==_iff fs.next fs.next).1 refl, name_of_folder) refl

  other_name :
      (id : ℕ)
      → id < fs.next
      → name_of_folder (add_folder fs info.parent info.name) id ≡ name_of_folder fs id
  other_name id old =
      let apart : (fs.next == id) ≡ false = ground arith in rw (apart, name_of_folder) refl

  -- The names of folders that are there stay.
  map-add_folder :
      (dir : ℕ) (ids : List ℕ)
      → All (IsSubfolder fs dir) ids
      → map (name_of_folder (add_folder fs info.parent info.name)) ids ≡ map (name_of_folder fs) ids
  map-add_folder dir [] all = refl
  map-add_folder dir (id ∷ ids) (sub, all) =
      rw (map-add_folder dir ids all, other_name id (folder-lt-next fs t id sub.info sub.found))
        refl

  names_in-add_folder :
      (dir : ℕ)
      → names_in (add_folder fs info.parent info.name) dir ≡ new_in info dir ++ names_in fs dir
  names_in-add_folder dir = elim (Bool-cases (info.parent == dir)) [
    | inl same ↦
        rw
          (
            same,
            sym ((==_iff info.parent dir).0 same),
            new_name,
            map-add_folder info.parent (fs.folders info.parent) (t.subfolders info.parent),
          )
          refl
    | inr differ ↦ rw (differ, map-add_folder dir (fs.folders dir) (t.subfolders dir)) refl
  ]

module _ (start : Fs) (t : IsTree start) (room : start.next + 2 ≤ long_max) where
  IsInOrder-names_in :
      (info info' : FolderInfo) (can : IsMakeable start info) (fs : Fs) (dir : ℕ) (z z' : ℤ)
      → IsInOrder start info info' fs z z'
      → bag (names_in fs dir) ≡ bag (new_in info' dir ++ (new_in info dir ++ names_in start dir))
  IsInOrder-names_in info info' can fs dir z z' in_order =
      let first =
        add_folder-IsTree start info.parent info.name t can.exists (omega arith) can.fits in
      Quot.sound (SameUpToOrder-names_in fs (add_both start info info') dir in_order.2)
      ∙ ap bag (
          names_in-add_folder (add_folder start info.parent info.name) first info' dir
          ∙ ap (λ names. new_in info' dir ++ names) (names_in-add_folder start t info dir))

  module _ (r : Redis) (laws : IsRedis r) (d : r.Db) (represents : Represents r laws d start)
      (info info' : FolderInfo) (can : IsMakeable start info) (can' : IsMakeable start info') where
    -- On a dataset that represents a well-formed file system, while two more ids fit a `long`:
    -- when the commands of two calls of `vfs_mkdir` have come in any order, each under a folder
    -- that existed before, of a name that fits the buffers, and both calls have returned, with
    -- ids that differ, then `vfs_ls` of any id that is not negative returns, up to the order of
    -- the names, the names that it returned before both calls and those of the new folders with
    -- that id for a parent.
    pub vfs_mkdir_both-vfs_ls :
        (d' : r.Db) (z z' : ℤ)
        → z ≢ z'
        → Leads r
            (pos info.parent)
            info.name
            (pos info'.parent)
            info'.name
            (idle r d)
            (record { db = d'; first = complete z; second = complete z' })
        → (dir : ℕ)
        → (before : List Bytes) × (after : List Bytes) × (vfs_ls r d (pos dir) ≡ ok before)
          × (vfs_ls r d' (pos dir) ≡ ok after)
          × (bag after ≡ bag (new_in info dir ++ (new_in info' dir ++ before)))
    vfs_mkdir_both-vfs_ls d' z z' differ leads dir =
        let outcome =
          vfs_mkdir_both start t room r laws d represents info info' can can' d' z z' differ
            leads in
        let fs = outcome.0 in
        let keeps = outcome.1 in
        let same : bag (names_in fs dir)
            ≡ bag (new_in info dir ++ (new_in info' dir ++ names_in start dir)) =
          elim outcome.2 [
            | inl in_order ↦
                IsInOrder-names_in info info' can fs dir z z' in_order
                ∙ Quot.sound (append-swap (new_in info' dir) (new_in info dir) (names_in start dir))
            | inr in_order ↦ IsInOrder-names_in info' info can' fs dir z' z in_order
          ] in
        (
          names_in start dir,
          names_in fs dir,
          vfs_ls-names_in r laws d start represents t dir,
          vfs_ls-names_in r laws d' fs keeps.0 keeps.1 dir,
          same,
        )
