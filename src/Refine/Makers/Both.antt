-- ===== src/Refine/Makers/Both.antt =====
-- Two calls of `vfs_mkdir` at once, as against one after the other, and a listing in between.
use redis_virtual_file_syste.Common.{
  ℕ, ◌+◌, ◌≤◌, ◌<◌, ◌≡◌, ◌≢◌, ◌⊎◌, refl, ap, ◌∙◌, ◌++◌, pos, ℤ, none, arith, Bool-cases, inl, inr,
  length, ltb,
}
use mathlib.Core.List.{Permᴰ}
use mathlib.Core.List.Permᴰ
use redis_virtual_file_syste.Libc.Decimal.{long_max}
use redis_virtual_file_syste.Redis.{Redis, IsRedis}
use redis_virtual_file_syste.Vfs.Query.{max_filename_size}
use redis_virtual_file_syste.Vfs.Makers.{complete, Leads, idle}
use redis_virtual_file_syste.Spec.{Fs, FolderInfo, add_folder}
use redis_virtual_file_syste.Spec.Tree.{IsTree, add_folder-IsTree, add_folder-exists}
use redis_virtual_file_syste.Spec.Order.{
  SameUpToOrder, SameUpToOrder-IsTree, entry_in, update-entry_in, append-swap,
}
use redis_virtual_file_syste.Refine.Keeps.{Keeps}
use redis_virtual_file_syste.Refine.Represents.{Represents}
use redis_virtual_file_syste.Refine.Makers.{IsApart, Progress, Progress-swap}
use redis_virtual_file_syste.Refine.Makers.Steps.{Leads-Reached}

-- A folder with this parent and this name can be made.
pub record IsMakeable (fs : Fs) (info : FolderInfo) : Type 0 where
  pub exists : fs.folder info.parent ≢ none
  pub fits : length info.name < max_filename_size

-- One folder and then another.
abbrev pub add_both : Fs → FolderInfo → FolderInfo → Fs
add_both fs info info' = add_folder (add_folder fs info.parent info.name) info'.parent info'.name

-- The first call has the lower id, and the outcome is that of the first call before the second.
abbrev pub IsInOrder : Fs → FolderInfo → FolderInfo → Fs → ℤ → ℤ → Type 0
IsInOrder start info info' fs z z' =
    (z ≡ pos start.next)
    × (z' ≡ pos (start.next + 1))
    × SameUpToOrder fs (add_both start info info')

module _ (start : Fs) (info info' : FolderInfo) where
  folders-add_both :
      (n : ℕ)
      → (add_both start info info').folders n
        ≡ entry_in info'.parent (start.next + 1) n
          ++ (entry_in info.parent start.next n ++ start.folders n)
  folders-add_both n =
      update-entry_in (add_folder start info.parent info.name).folders info'.parent (start.next + 1)
        n
      ∙ ap (λ ids. entry_in info'.parent (start.next + 1) n ++ ids)
          (update-entry_in start.folders info.parent start.next n)

  Progress-IsInOrder :
      (fs : Fs) (z z' : ℤ) (p : Progress start info info' fs (complete z) (complete z'))
      → p.id < p.id'
      → IsInOrder start info info' fs z z'
  Progress-IsInOrder fs z z' p before =
      let low : p.id ≡ start.next = omega (arith, p.new refl, p.new' refl, p.next) in
      let high : p.id' ≡ start.next + 1 = omega (arith, p.new refl, p.new' refl, p.next) in
      (
        p.has_id ∙ ap pos low,
        p.has_id' ∙ ap pos high,
        record {
          next = omega (arith, p.next);
          folder = λ n. p.folder n ∙ ground (arith, low, high);
          file = p.file;
          folders = λ n. rw (folders-add_both n) (
              rw (low, high) at
                (Permᴰ.trans (p.folders n) (
                  append-swap (entry_in info.parent p.id n) (entry_in info'.parent p.id' n)
                    (start.folders n))));
          files = λ n. rw (p.files n) (Permᴰ.refl (start.files n));
        },
      )

lt-cases : (a b : ℕ) → a ≢ b → a < b ⊎ b < a
lt-cases a b differ = elim (Bool-cases (ltb a b)) [
  | inl less ↦ inl (ground arith)
  | inr more ↦ inr (ground arith)
]

module _ (start : Fs) (t : IsTree start) (room : start.next + 2 ≤ long_max) where
  add_both-IsTree :
      (info info' : FolderInfo)
      → IsMakeable start info
      → IsMakeable start info'
      → IsTree (add_both start info info')
  add_both-IsTree info info' can can' =
      add_folder-IsTree (add_folder start info.parent info.name) info'.parent info'.name
        (add_folder-IsTree start info.parent info.name t can.exists (omega arith) can.fits)
        (add_folder-exists start info.parent info.name t info'.parent can'.exists) (omega arith)
        can'.fits

  module _ (r : Redis) (laws : IsRedis r) (d : r.Db) (represents : Represents r laws d start)
      (info info' : FolderInfo) (can : IsMakeable start info) (can' : IsMakeable start info') where
    -- On a dataset that represents a well-formed file system, while two more ids fit a `long`:
    -- when the commands of two calls of `vfs_mkdir` have come in any order, each under a folder
    -- that existed before, of a name that fits the buffers, and both calls have returned, with
    -- ids that differ, then the dataset represents a well-formed file system, which is, up to
    -- the order in which a folder lists its folders, the one after the call with the lower id
    -- and then the other; the two ids are the next two.
    pub vfs_mkdir_both :
        (d' : r.Db) (z z' : ℤ)
        → z ≢ z'
        → Leads r
            (pos info.parent)
            info.name
            (pos info'.parent)
            info'.name
            (idle r d)
            (record { db = d'; first = complete z; second = complete z' })
        → (fs : Fs) × Keeps r laws d' fs
          × (IsInOrder start info info' fs z z' ⊎ IsInOrder start info' info fs z' z)
    unfolding Progress-swap
    vfs_mkdir_both d' z z' differ leads =
        let apart : IsApart (complete z) (complete z') =
          λ w own other. let same : z ≡ z' = cc in differ same in
        let h = Leads-Reached r laws start t room info info' d represents _ leads apart in
        let p = h.progress in
        let whole = add_both-IsTree info info' can can' in
        let whole' = add_both-IsTree info' info can' can in
        elim (lt-cases p.id p.id' (p.differ refl refl)) [
          | inl before ↦
              let in_order = Progress-IsInOrder start info info' h.fs z z' p before in
              (h.fs, (h.represents, SameUpToOrder-IsTree _ h.fs in_order.2 whole), inl in_order)
          | inr behind ↦
              let in_order =
                Progress-IsInOrder start info' info h.fs z' z
                  (Progress-swap start info info' h.fs (complete z) (complete z') p) behind in
              (h.fs, (h.represents, SameUpToOrder-IsTree _ h.fs in_order.2 whole'), inr in_order)
        ]
