-- ===== src/Spec/Rename.antt =====
-- A file system in which a file was given another name.
use redis_virtual_file_syste.Common.{
  ℕ, ◌<◌, ◌≡◌, refl, List, [], ◌∷◌, Bytes, some, ◌==◌, ==_iff, ap, sym, ◌∙◌, length, All, arith,
  Bool-cases, inl, inr,
}
use redis_virtual_file_syste.Vfs.Query.{max_filename_size}
use redis_virtual_file_syste.Spec.{Fs, FileInfo, rename_file, with_name}
use redis_virtual_file_syste.Spec.Tree.{IsTree, IsPlain, IsFileEntry, IsSubfolder}

module _ (fs : Fs) (id : ℕ) (name : Bytes) (info : FileInfo) (found : fs.file id ≡ some info)
    (fits : length name < max_filename_size) (plain : All IsPlain name) where
  renamed-found : (rename_file fs id name).file id ≡ some (record info { name = name })
  renamed-found = ground (arith, found)

  rename_file-IsFileEntry : (n : ℕ) → IsFileEntry fs n → IsFileEntry (rename_file fs id name) n
  rename_file-IsFileEntry n entry = elim (Bool-cases (id == n)) [
    | inl same ↦ record {
      info = record info { name = name };
      found = rw (same, found) refl;
      name_fits = fits;
      name_plain = plain;
    }
    | inr differ ↦ record {
      info = entry.info;
      found = rw differ entry.found;
      name_fits = entry.name_fits;
      name_plain = entry.name_plain;
    }
  ]

  rename_file-entries :
      (ids : List ℕ) → All (IsFileEntry fs) ids → All (IsFileEntry (rename_file fs id name)) ids
  rename_file-entries [] all = tt
  rename_file-entries (n ∷ ids) (entry, all) =
      (rename_file-IsFileEntry n entry, rename_file-entries ids all)

  rename_file-subfolders :
      (dir : ℕ) (ids : List ℕ)
      → All (IsSubfolder fs dir) ids
      → All (IsSubfolder (rename_file fs id name) dir) ids
  rename_file-subfolders dir [] all = tt
  rename_file-subfolders dir (n ∷ ids) (sub, all) = (
    record {
      info = sub.info;
      found = sub.found;
      parent_dir = sub.parent_dir;
      newer = sub.newer;
      name_fits = sub.name_fits;
    },
    rename_file-subfolders dir ids all,
  )

  pub rename_file-IsTree : IsTree fs → IsTree (rename_file fs id name)
  rename_file-IsTree t = record {
    ids_fit = t.ids_fit;
    root = t.root;
    fresh_folder = t.fresh_folder;
    fresh_file = λ n above. elim (Bool-cases (id == n)) [
      | inl same ↦
          rw (same) (ap (with_name name) (ap fs.file ((==_iff id n).0 same) ∙ t.fresh_file n above))
      | inr differ ↦ rw differ (t.fresh_file n above)
    ];
    subfolders = λ d. rename_file-subfolders d (fs.folders d) (t.subfolders d);
    entries = λ d. rename_file-entries (fs.files d) (t.entries d);
    parents = t.parents;
    parent_exists = t.parent_exists;
    apart = λ n other e. elim (Bool-cases (id == n)) [
      | inl same ↦ t.apart n info (ap fs.file (sym ((==_iff id n).0 same)) ∙ found)
      | inr differ ↦ t.apart n other (rw differ at e)
    ];
  }
