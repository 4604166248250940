-- ===== src/Spec/Tree.antt =====
-- Well-formed file systems, and that the operations keep them so.
use redis_virtual_file_syste.Common.{
  ℕ, ◌≤◌, ◌<◌, ◌≡◌, ◌≢◌, ◌⊎◌, inl, inr, refl, List, [], ◌∷◌, Bytes, codes, none, some, ◌==◌, length,
  All, arith, Bool-cases, ==_iff,
}
use mathlib.Core.Path.{subst}
use redis_virtual_file_syste.Libc.Decimal.{long_max}
use redis_virtual_file_syste.Vfs.Query.{max_filename_size}
use redis_virtual_file_syste.Spec.{
  FolderInfo, FileInfo, Fs, update, initial, add_folder, add_file, without, unlink_folder,
  unlink_file,
}

-- A listed folder exists, has the folder that lists it for parent, and is newer than it; its name
-- fits the buffers.
pub record IsSubfolder (fs : Fs) (dir : ℕ) (id : ℕ) : Type 0 where
  pub info : FolderInfo
  pub found : fs.folder id ≡ some info
  pub parent_dir : info.parent ≡ dir
  pub newer : dir < id
  pub name_fits : length info.name < max_filename_size

-- A byte that does not end a name in a path.
abbrev pub IsPlain : ℕ → Type 0
IsPlain c = c ≢ b'/'

-- A listed file exists, and its name fits the buffers and has no slash.
pub record IsFileEntry (fs : Fs) (id : ℕ) : Type 0 where
  pub info : FileInfo
  pub found : fs.file id ≡ some info
  pub name_fits : length info.name < max_filename_size
  pub name_plain : All IsPlain info.name

pub record IsTree (fs : Fs) : Type 0 where
  pub ids_fit : fs.next ≤ long_max
  pub root : fs.folder 0 ≡ some (record { parent = 0; name = codes "root" })
  pub fresh_folder : (n : ℕ) → fs.next ≤ n → fs.folder n ≡ none
  pub fresh_file : (n : ℕ) → fs.next ≤ n → fs.file n ≡ none
  pub subfolders : (dir : ℕ) → All (IsSubfolder fs dir) (fs.folders dir)
  pub entries : (dir : ℕ) → All (IsFileEntry fs) (fs.files dir)
  -- Every folder but the root is newer than its parent.
  pub parents : (n : ℕ) (info : FolderInfo) → fs.folder n ≡ some info → info.parent < n ⊎ (n ≡ 0)
  pub parent_exists :
      (n : ℕ) (info : FolderInfo) → fs.folder n ≡ some info → fs.folder info.parent ≢ none
  -- No id is both a file's and a folder's.
  pub apart : (n : ℕ) (info : FileInfo) → fs.file n ≡ some info → fs.folder n ≡ none

pub initial-IsTree : IsTree initial
initial-IsTree = record {
  ids_fit = omega arith;
  root = refl;
  fresh_folder = λ n h. ground arith;
  fresh_file = λ n h. refl;
  subfolders = λ dir. tt;
  entries = λ dir. tt;
  parents = λ n info e. ground arith;
  parent_exists = λ n info e. ground arith;
  apart = λ n info e. cc;
}

module _ (fs : Fs) (t : IsTree fs) where
  pub folder-lt-next : (n : ℕ) (info : FolderInfo) → fs.folder n ≡ some info → n < fs.next
  folder-lt-next n info e = ground (arith, t.fresh_folder n)

  pub file-lt-next : (n : ℕ) (info : FileInfo) → fs.file n ≡ some info → n < fs.next
  file-lt-next n info e = ground (arith, t.fresh_file n)

  pub existing-lt-next : (n : ℕ) → fs.folder n ≢ none → n < fs.next
  existing-lt-next n h = ground (arith, t.fresh_folder n)

  pub parent-lt-next : (n : ℕ) (info : FolderInfo) → fs.folder n ≡ some info → info.parent < fs.next
  parent-lt-next n info e = existing-lt-next info.parent (t.parent_exists n info e)

-- What is listed stays well-formed when folders and files keep what they have.
module _ (fs fs' : Fs) where
  pub All-IsSubfolder :
      (dir : ℕ) (ids : List ℕ)
      → ((n : ℕ) (info : FolderInfo) → fs.folder n ≡ some info → fs'.folder n ≡ some info)
      → All (IsSubfolder fs dir) ids
      → All (IsSubfolder fs' dir) ids
  All-IsSubfolder dir [] keep h = tt
  All-IsSubfolder dir (id ∷ ids) keep h = (
    record {
      info = h.0.info;
      found = keep id h.0.info h.0.found;
      parent_dir = h.0.parent_dir;
      newer = h.0.newer;
      name_fits = h.0.name_fits;
    },
    All-IsSubfolder dir ids keep h.1,
  )

  pub All-IsFileEntry :
      (ids : List ℕ)
      → ((n : ℕ) (info : FileInfo) → fs.file n ≡ some info → fs'.file n ≡ some info)
      → All (IsFileEntry fs) ids
      → All (IsFileEntry fs') ids
  All-IsFileEntry [] keep h = tt
  All-IsFileEntry (id ∷ ids) keep h = (
    record {
      info = h.0.info;
      found = keep id h.0.info h.0.found;
      name_fits = h.0.name_fits;
      name_plain = h.0.name_plain;
    },
    All-IsFileEntry ids keep h.1,
  )

-- A list that one key is given anew, in a family of lists.
All-update {ℓ} :
    {A : Type ℓ} (P : ℕ → A → Type ℓ) (f : ℕ → A) (n : ℕ) (a : A) (m : ℕ)
    → P n a
    → P m (f m)
    → P m (update f n a m)
All-update P f n a m new old = elim (Bool-cases (n == m)) [
  | inl same ↦ rw same (subst (λ k. P k a) ((==_iff n m).0 same) new)
  | inr differ ↦ rw differ old
]

module _ (fs : Fs) (parent : ℕ) (name : Bytes) (t : IsTree fs) where
  add_folder-keeps :
      (n : ℕ) (info : FolderInfo)
      → fs.folder n ≡ some info
      → (add_folder fs parent name).folder n ≡ some info
  add_folder-keeps n info e = ground (arith, folder-lt-next fs t n info)

  pub add_folder-exists : (n : ℕ) → fs.folder n ≢ none → (add_folder fs parent name).folder n ≢ none
  add_folder-exists n exists = ground arith

  add_folder-subfolders :
      fs.folder parent ≢ none
      → length name < max_filename_size
      → (dir : ℕ)
      → All (IsSubfolder (add_folder fs parent name) dir) ((add_folder fs parent name).folders dir)
  add_folder-subfolders exists fits dir =
      let kept = λ (d : ℕ).
        All-IsSubfolder fs (add_folder fs parent name) d (fs.folders d) add_folder-keeps
          (t.subfolders d) in
      All-update (λ d ids. All (IsSubfolder (add_folder fs parent name) d) ids) fs.folders parent
        (fs.next ∷ fs.folders parent) dir
        (
          record {
            info = record { parent = parent; name = name };
            found = ground arith;
            parent_dir = refl;
            newer = existing-lt-next fs t parent exists;
            name_fits = fits;
          },
          kept parent,
        )
        (kept dir)

  -- A new folder in an existing one keeps the tree well-formed.
  pub add_folder-IsTree :
      fs.folder parent ≢ none
      → fs.next < long_max
      → length name < max_filename_size
      → IsTree (add_folder fs parent name)
  add_folder-IsTree exists room fits = record {
    ids_fit = omega arith;
    root = add_folder-keeps 0 _ t.root;
    fresh_folder = λ n h. ground (arith, t.fresh_folder n);
    fresh_file = λ n h. t.fresh_file n (omega arith);
    subfolders = add_folder-subfolders exists fits;
    entries = λ dir.
        All-IsFileEntry fs (add_folder fs parent name) (fs.files dir) (λ n info e. e)
          (t.entries dir);
    parents = λ n info e. ground (arith, t.parents n info, existing-lt-next fs t parent exists);
    parent_exists = λ n info e. ground (arith, t.parent_exists n info, t.fresh_folder info.parent);
    apart = λ n info e. ground (arith, t.apart n info, t.fresh_file n);
  }

module _ (fs : Fs) (parent : ℕ) (new : FileInfo) (t : IsTree fs) where
  add_file-keeps :
      (n : ℕ) (info : FileInfo)
      → fs.file n ≡ some info
      → (add_file fs parent new).file n ≡ some info
  add_file-keeps n info e = ground (arith, file-lt-next fs t n info)

  add_file-entries :
      length new.name < max_filename_size
      → All IsPlain new.name
      → (dir : ℕ) → All (IsFileEntry (add_file fs parent new)) ((add_file fs parent new).files dir)
  add_file-entries fits plain dir =
      let kept = λ (d : ℕ).
        All-IsFileEntry fs (add_file fs parent new) (fs.files d) add_file-keeps (t.entries d) in
      All-update (λ d ids. All (IsFileEntry (add_file fs parent new)) ids) fs.files parent
        (fs.next ∷ fs.files parent) dir
        (
          record { info = new; found = ground arith; name_fits = fits; name_plain = plain },
          kept parent,
        )
        (kept dir)

  -- A new file keeps the tree well-formed.
  pub add_file-IsTree :
      fs.next < long_max
      → length new.name < max_filename_size
      → All IsPlain new.name
      → IsTree (add_file fs parent new)
  add_file-IsTree room fits plain = record {
    ids_fit = omega arith;
    root = t.root;
    fresh_folder = λ n h. t.fresh_folder n (omega arith);
    fresh_file = λ n h. ground (arith, t.fresh_file n);
    subfolders = λ dir.
        All-IsSubfolder fs (add_file fs parent new) dir (fs.folders dir) (λ n info e. e)
          (t.subfolders dir);
    entries = add_file-entries fits plain;
    parents = t.parents;
    parent_exists = t.parent_exists;
    apart = λ n info e. ground (arith, t.apart n info, t.fresh_folder n);
  }

All-without {ℓ} : (P : ℕ → Type ℓ) (id : ℕ) (ids : List ℕ) → All P ids → All P (without id ids)
All-without P id [] h = tt
All-without P id (x ∷ ids) h = elim (Bool-cases (id == x)) [
  | inl same ↦ rw same (All-without P id ids h.1)
  | inr differ ↦ rw differ (h.0, All-without P id ids h.1)
]

module _ (fs : Fs) (dir id : ℕ) (t : IsTree fs) where
  -- Taking an id off a list keeps the tree well-formed.
  pub unlink_folder-IsTree : IsTree (unlink_folder fs dir id)
  unlink_folder-IsTree =
      let same = λ (d : ℕ).
        All-IsSubfolder fs (unlink_folder fs dir id) d (fs.folders d) (λ n info e. e)
          (t.subfolders d) in
      record {
        ids_fit = t.ids_fit;
        root = t.root;
        fresh_folder = t.fresh_folder;
        fresh_file = t.fresh_file;
        subfolders = λ d.
            All-update (λ k ids. All (IsSubfolder (unlink_folder fs dir id) k) ids) fs.folders dir
              (without id (fs.folders dir)) d
              (All-without (IsSubfolder (unlink_folder fs dir id) dir) id (fs.folders dir)
                (same dir))
              (same d);
        entries = λ d.
            All-IsFileEntry fs (unlink_folder fs dir id) (fs.files d) (λ n info e. e) (t.entries d);
        parents = t.parents;
        parent_exists = t.parent_exists;
        apart = t.apart;
      }

  pub unlink_file-IsTree : IsTree (unlink_file fs dir id)
  unlink_file-IsTree =
      let same = λ (d : ℕ).
        All-IsFileEntry fs (unlink_file fs dir id) (fs.files d) (λ n info e. e) (t.entries d) in
      record {
        ids_fit = t.ids_fit;
        root = t.root;
        fresh_folder = t.fresh_folder;
        fresh_file = t.fresh_file;
        subfolders = λ d.
            All-IsSubfolder fs (unlink_file fs dir id) d (fs.folders d) (λ n info e. e)
              (t.subfolders d);
        entries = λ d.
            All-update (λ k ids. All (IsFileEntry (unlink_file fs dir id)) ids) fs.files dir
              (without id (fs.files dir)) d
              (All-without (IsFileEntry (unlink_file fs dir id)) id (fs.files dir) (same dir))
              (same d);
        parents = t.parents;
        parent_exists = t.parent_exists;
        apart = t.apart;
      }
