-- ===== src/Spec.antt =====
-- The file system that the database stands for: numbered folders and files, with no keys, prints or
-- replies. The modules under Refine relate it to the code.
pub mod Tree
pub mod Lookup
pub mod Path
pub mod Command
pub mod Fresh
pub mod FreshFile
pub mod Rename
pub mod Order
pub mod Unlink
use redis_virtual_file_syste.Common.{
  ℕ, zero, suc, ◌+◌, List, [], ◌∷◌, Bytes, codes, Option, none, some, ◌==◌, if◌then◌else◌, take,
}

pub record FolderInfo : Type 0 where
  pub parent : ℕ
  pub name : Bytes

pub record FileInfo : Type 0 where
  pub name : Bytes
  pub size : ℕ
  pub google_id : Bytes
  pub web_url : Bytes
  pub api_url : Bytes

pub record Fs : Type 0 where
  -- the id that the next folder or file is given
  pub next : ℕ
  pub folder : ℕ → Option FolderInfo
  pub file : ℕ → Option FileInfo
  -- the ids listed in a folder, the newest first
  pub folders : ℕ → List ℕ
  pub files : ℕ → List ℕ

-- A table with another entry under one id.
abbrev pub update {ℓ} : {Entry : Type ℓ} (table : ℕ → Entry) (id : ℕ) (entry : Entry) → (ℕ → Entry)
update table id entry m = if id == m then entry else table m

-- Only a root, which is its own parent.
abbrev pub initial : Fs
initial = record {
  next = 1;
  folder = update (λ n. none) 0 (some (record { parent = 0; name = codes "root" }));
  file = λ n. none;
  folders = λ n. [];
  files = λ n. [];
}

-- The three writes that make a folder: an id is used up, it is entered in the parent's list, and the
-- folder is put under it.
abbrev pub take_id : Fs → Fs
take_id fs = record fs { next = fs.next + 1 }

abbrev pub enter_folder : Fs → ℕ → ℕ → Fs
enter_folder fs parent id = record fs {
  folders = update fs.folders parent (id ∷ fs.folders parent);
}

abbrev pub put_folder : Fs → ℕ → FolderInfo → Fs
put_folder fs id info = record fs { folder = update fs.folder id (some info) }

abbrev pub add_folder : Fs → ℕ → Bytes → Fs
add_folder fs parent name =
    put_folder (enter_folder (take_id fs) parent fs.next) fs.next
      (record { parent = parent; name = name })

abbrev pub add_file : Fs → ℕ → FileInfo → Fs
add_file fs parent info = record fs {
  next = fs.next + 1;
  file = update fs.file fs.next (some info);
  files = update fs.files parent (fs.next ∷ fs.files parent);
}

abbrev pub without : ℕ → List ℕ → List ℕ
without n [] = []
without n (m ∷ ms) = let rest = without n ms in if n == m then rest else m ∷ rest

abbrev pub unlink_folder : Fs → ℕ → ℕ → Fs
unlink_folder fs dir id = record fs {
  folders = update fs.folders dir (without id (fs.folders dir));
}

abbrev pub unlink_file : Fs → ℕ → ℕ → Fs
unlink_file fs dir id = record fs { files = update fs.files dir (without id (fs.files dir)) }

-- A file under another name; an id that is no file's stays none's.
abbrev pub with_name : Bytes → Option FileInfo → Option FileInfo
with_name name none = none
with_name name (some info) = some (record info { name = name })

abbrev pub rename_file : Fs → ℕ → Bytes → Fs
rename_file fs id name = record fs { file = update fs.file id (with_name name (fs.file id)) }

-- A folder under another parent; the lists stay.
abbrev pub with_parent : ℕ → Option FolderInfo → Option FolderInfo
with_parent parent none = none
with_parent parent (some info) = some (record info { parent = parent })

abbrev pub set_parent : Fs → ℕ → ℕ → Fs
set_parent fs id parent = record fs {
  folder = update fs.folder id (with_parent parent (fs.folder id));
}
