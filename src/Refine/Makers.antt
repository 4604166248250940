-- ===== src/Refine/Makers.antt =====
-- Two calls of `vfs_mkdir` at once, on the abstract file system: what each of their steps leaves.
pub mod Steps
pub mod Both
pub mod Between
pub mod Alone
pub mod Names
use redis_virtual_file_syste.Common.{
  ℕ, ◌+◌, ◌≤◌, ◌<◌, ◌≡◌, ◌≢◌, refl, sym, ap, ◌∙◌, List, [], ◌∷◌, ◌++◌, ℤ, pos, Option, none, some,
  ◌==◌, ==_iff, if◌then◌else◌, Bool-cases, inl, inr, arith,
}
use mathlib.Core.List.{Permᴰ}
use mathlib.Core.List.Permᴰ
use redis_virtual_file_syste.Vfs.Makers.{Maker, unstarted, asked, numbered, entered, complete}
use redis_virtual_file_syste.Spec.{Fs, FolderInfo, take_id, enter_folder, put_folder}
use redis_virtual_file_syste.Spec.Order.{entry_in, append-swap, update-entry_in}

-- The ids that a call has read, and those that it has taken from the counter.
abbrev pub started : Maker → ℕ
started unstarted = 0
started _ = 1

abbrev pub taken : Maker → ℕ
taken unstarted = 0
taken (asked z) = 0
taken _ = 1

abbrev pub id_of : Maker → Option ℤ
id_of unstarted = none
id_of (asked z) = some z
id_of (numbered z) = some z
id_of (entered z) = some z
id_of (complete z) = some z

-- Two calls have not read the same id.
abbrev pub IsApart : Maker → Maker → Type 0
IsApart m m' = (z : ℤ) → id_of m ≡ some z → id_of m' ≢ some z

-- The call has this id, if it has one.
abbrev pub HasId : Maker → ℕ → Type 0
HasId unstarted id = Unit {0}
HasId (asked z) id = z ≡ pos id
HasId (numbered z) id = z ≡ pos id
HasId (entered z) id = z ≡ pos id
HasId (complete z) id = z ≡ pos id

-- What the call has put into a folder's list.
abbrev pub entry_of : Maker → ℕ → ℕ → ℕ → List ℕ
entry_of (entered z) parent id n = entry_in parent id n
entry_of (complete z) parent id n = entry_in parent id n
entry_of _ parent id n = []

-- The folder under an id, once the call has written its own.
abbrev pub written : Maker → ℕ → FolderInfo → ℕ → Option FolderInfo → Option FolderInfo
written (complete z) id info n old = if id == n then some info else old
written _ id info n old = old

-- Two calls have brought `start` to `fs`, in the order in which their steps came.
pub record Progress (start : Fs) (info info' : FolderInfo) (fs : Fs) (m m' : Maker) : Type 0 where
  pub id : ℕ
  pub id' : ℕ
  pub has_id : HasId m id
  pub has_id' : HasId m' id'
  pub next : fs.next ≡ start.next + (taken m + taken m')
  pub new : started m ≡ 1 → (start.next ≤ id) × (id + taken m ≤ fs.next)
  pub new' : started m' ≡ 1 → (start.next ≤ id') × (id' + taken m' ≤ fs.next)
  pub differ : started m ≡ 1 → started m' ≡ 1 → id ≢ id'
  pub folder : (n : ℕ) → fs.folder n ≡ written m id info n (written m' id' info' n (start.folder n))
  pub file : (n : ℕ) → fs.file n ≡ start.file n
  pub folders :
      (n : ℕ)
      → Permᴰ
          (fs.folders n)
          (entry_of m info.parent id n ++ (entry_of m' info'.parent id' n ++ start.folders n))
  pub files : (n : ℕ) → fs.files n ≡ start.files n

written-swap :
    (info info' : FolderInfo) (m m' : Maker) (id id' n : ℕ) (old : Option FolderInfo)
    → (started m ≡ 1 → started m' ≡ 1 → id ≢ id')
    → written m id info n (written m' id' info' n old)
      ≡ written m' id' info' n (written m id info n old)
written-swap info info' (complete z) (complete z') id id' n old differ =
    let apart = differ refl refl in ground (arith, apart)
written-swap info info' (complete z) unstarted id id' n old differ = refl
written-swap info info' (complete z) (asked z') id id' n old differ = refl
written-swap info info' (complete z) (numbered z') id id' n old differ = refl
written-swap info info' (complete z) (entered z') id id' n old differ = refl
written-swap info info' m m' id id' n old differ = refl

module _ (start : Fs) (info info' : FolderInfo) (fs : Fs) where
  pub Progress-swap :
      (m m' : Maker) → Progress start info info' fs m m' → Progress start info' info fs m' m
  Progress-swap m m' p = record {
    id = p.id';
    id' = p.id;
    has_id = p.has_id';
    has_id' = p.has_id;
    next = omega (arith, p.next);
    new = p.new';
    new' = p.new;
    differ = λ e e' same. p.differ e' e (sym same);
    folder = λ n. p.folder n ∙ written-swap info info' m m' p.id p.id' n (start.folder n) p.differ;
    file = p.file;
    folders = λ n. Permᴰ.trans (p.folders n) (
        append-swap (entry_of m info.parent p.id n) (entry_of m' info'.parent p.id' n)
          (start.folders n));
    files = p.files;
  }

  module _ (m' : Maker) where
    -- The id is read.
    pub Progress-ask :
        (p : Progress start info info' fs unstarted m')
        → (started m' ≡ 1 → fs.next ≢ p.id')
        → Progress start info info' fs (asked (pos fs.next)) m'
    Progress-ask p apart = record {
      id = fs.next;
      id' = p.id';
      has_id = refl;
      has_id' = p.has_id';
      next = p.next;
      new = λ e. (omega (arith, p.next), omega arith);
      new' = p.new';
      differ = λ e e'. apart e';
      folder = p.folder;
      file = p.file;
      folders = p.folders;
      files = p.files;
    }

    -- The counter goes up.
    pub Progress-count :
        (z : ℤ)
        → Progress start info info' fs (asked z) m'
        → Progress start info info' (take_id fs) (numbered z) m'
    Progress-count z p = record {
      id = p.id;
      id' = p.id';
      has_id = p.has_id;
      has_id' = p.has_id';
      next = omega (arith, p.next);
      new = λ e. omega (arith, p.new e);
      new' = λ e. omega (arith, p.new' e);
      differ = p.differ;
      folder = p.folder;
      file = p.file;
      folders = p.folders;
      files = p.files;
    }

    -- The id is put into the parent's list.
    pub Progress-entry :
        (z : ℤ) (p : Progress start info info' fs (numbered z) m')
        → Progress start info info' (enter_folder fs info.parent p.id) (entered z) m'
    Progress-entry z p = record {
      id = p.id;
      id' = p.id';
      has_id = p.has_id;
      has_id' = p.has_id';
      next = p.next;
      new = p.new;
      new' = p.new';
      differ = p.differ;
      folder = p.folder;
      file = p.file;
      folders = λ n.
          rw (update-entry_in fs.folders info.parent p.id n)
            (Permᴰ.append_left (entry_in info.parent p.id n) (p.folders n));
      files = p.files;
    }

    -- The folder is written.
    pub Progress-info :
        (z : ℤ) (p : Progress start info info' fs (entered z) m')
        → Progress start info info' (put_folder fs p.id info) (complete z) m'
    Progress-info z p = record {
      id = p.id;
      id' = p.id';
      has_id = p.has_id;
      has_id' = p.has_id';
      next = p.next;
      new = p.new;
      new' = p.new';
      differ = p.differ;
      folder = λ n. ap (λ old. if p.id == n then some info else old) (p.folder n);
      file = p.file;
      folders = p.folders;
      files = p.files;
    }
