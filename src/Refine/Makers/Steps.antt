-- ===== src/Refine/Makers/Steps.antt =====
-- The steps of two calls of `vfs_mkdir` at once, each with its effect on the abstract file system.
use redis_virtual_file_syste.Common.{
  ℕ, ◌+◌, ◌≤◌, ◌<◌, ◌≡◌, refl, ◌∙◌, ℤ, pos, none, arith, some, sym, ap, Bytes,
}
use mathlib.Core.List.Permᴰ
use redis_virtual_file_syste.Libc.Decimal.{long_max, format_lu}
use redis_virtual_file_syste.Redis.{Redis, IsRedis}
use redis_virtual_file_syste.Keys.{key_of, id_count, current_id_count}
use redis_virtual_file_syste.Redis.{reply_str}
use redis_virtual_file_syste.Libc.Decimal.{strtol}
use redis_virtual_file_syste.Libc.RoundTrip.{strtol-decimal}
use redis_virtual_file_syste.Refine.Clients.{get-Counter}
use redis_virtual_file_syste.Vfs.Makers.{
  Maker, unstarted, asked, numbered, entered, complete, Makes, makes_ask, makes_count, makes_entry,
  makes_info, Makers, Leads, idle, nothing_made, first_makes, second_makes,
}
use redis_virtual_file_syste.Spec.{Fs, FolderInfo, take_id, enter_folder, put_folder}
use redis_virtual_file_syste.Spec.Tree.{IsTree}
use redis_virtual_file_syste.Refine.Represents.{Represents}
use redis_virtual_file_syste.Refine.Writes.{
  incr-take_id, lpush-enter_folder, write_folder-put_folder,
}
use redis_virtual_file_syste.Refine.Makers.{
  taken, written, Progress, Progress-ask, Progress-count, started, id_of, HasId, IsApart,
  Progress-entry, Progress-info, Progress-swap,
}

pub taken_bound : (m : Maker) → taken m ≤ 1
taken_bound unstarted = omega arith
taken_bound (asked z) = omega arith
taken_bound (numbered z) = omega arith
taken_bound (entered z) = omega arith
taken_bound (complete z) = omega arith

id_of-HasId : (m : Maker) (id : ℕ) → HasId m id → started m ≡ 1 → id_of m ≡ some (pos id)
id_of-HasId unstarted id has begun = absurd (omega arith)
id_of-HasId (asked z) id has begun = ap some has
id_of-HasId (numbered z) id has begun = ap some has
id_of-HasId (entered z) id has begun = ap some has
id_of-HasId (complete z) id has begun = ap some has

module _ (r : Redis) (laws : IsRedis r) (start : Fs) (t : IsTree start)
    (room : start.next + 2 ≤ long_max) where
  -- A dataset that two calls have brought this far.
  pub record Reached (info info' : FolderInfo) (d : r.Db) (m m' : Maker) : Type 0 where
    pub fs : Fs
    pub represents : Represents r laws d fs
    pub progress : Progress start info info' fs m m'

  Reached-swap :
      (info info' : FolderInfo) (d : r.Db) (m m' : Maker)
      → Reached info info' d m m'
      → Reached info' info d m' m
  Reached-swap info info' d m m' h = record {
    fs = h.fs;
    represents = h.represents;
    progress = Progress-swap start info info' h.fs m m' h.progress;
  }

  written-none :
      (info : FolderInfo) (m : Maker) (id n : ℕ)
      → (started m ≡ 1 → (n ≡ id → ⊥))
      → start.next ≤ n
      → written m id info n (start.folder n) ≡ none
  written-none info (complete z) id n apart old =
      let apart' = apart refl in ground (arith, t.fresh_folder n old, apart')
  written-none info unstarted id n apart old = t.fresh_folder n old
  written-none info (asked z) id n apart old = t.fresh_folder n old
  written-none info (numbered z) id n apart old = t.fresh_folder n old
  written-none info (entered z) id n apart old = t.fresh_folder n old

  -- Between its LPUSH and its HMSET the call's folder is not there.
  pub entered-none :
      (info info' : FolderInfo) (d : r.Db) (z : ℤ) (m' : Maker)
      (h : Reached info info' d (entered z) m')
      → h.fs.folder h.progress.id ≡ none
  entered-none info info' d z m' h =
      let p = h.progress in
      p.folder p.id ∙ written-none info' m' p.id' p.id (p.differ refl) (p.new refl).0

  -- What GET reads.
  strtol-next :
      (d : r.Db) (fs : Fs) (s : Bytes)
      → Represents r laws d fs
      → fs.next ≤ long_max
      → reply_str (r.get d current_id_count) ≡ some s
      → strtol s ≡ pos fs.next
  unfolding key_of
  strtol-next d fs s h fits reply =
      ap strtol (sym (get-Counter r laws d fs.next s (h id_count) reply))
      ∙ strtol-decimal fs.next fits

  Makes-Reached :
      (info info' : FolderInfo) (d d' : r.Db) (m n m' : Maker)
      → Makes r (pos info.parent) info.name d m d' n
      → IsApart n m'
      → Reached info info' d m m'
      → Reached info info' d' n m'
  unfolding key_of format_lu
  Makes-Reached info info' d d' m n m' (makes_ask {s = s} reply) apart h =
      let fits : h.fs.next ≤ long_max = omega (arith, h.progress.next, taken_bound m') in
      let e = strtol-next d h.fs s h.represents fits reply in
      rw e (record {
        fs = h.fs;
        represents = h.represents;
        progress = Progress-ask start info info' h.fs m' h.progress (λ begun same.
            apart (pos h.fs.next) (ap some e) (
              id_of-HasId m' h.progress.id' h.progress.has_id' begun
              ∙ ap (λ k. some (pos k)) (sym same)));
      })
  Makes-Reached info info' d d' m n m' (makes_count {id = z}) apart h =
      let fits : h.fs.next < long_max = omega (arith, h.progress.next, taken_bound m') in
      record {
        fs = take_id h.fs;
        represents = incr-take_id r laws d h.fs h.represents fits;
        progress = Progress-count start info info' h.fs m' z h.progress;
      }
  Makes-Reached info info' d d' m n m' (makes_entry {id = z}) apart h = record {
    fs = enter_folder h.fs info.parent h.progress.id;
    represents =
        rw h.progress.has_id
          (lpush-enter_folder r laws d h.fs h.represents info.parent h.progress.id);
    progress = Progress-entry start info info' h.fs m' z h.progress;
  }
  Makes-Reached info info' d d' m n m' (makes_info {id = z}) apart h =
      let p = h.progress in
      record {
        fs = put_folder h.fs p.id info;
        represents = rw p.has_id (
            write_folder-put_folder r laws d h.fs h.represents p.id info
              (entered-none info info' d z m' h));
        progress = Progress-info start info info' h.fs m' z p;
      }

  Makes-IsApart :
      (parent_id : ℤ) (name : Bytes) (d d' : r.Db) (m n m' : Maker)
      → Makes r parent_id name d m d' n
      → IsApart n m'
      → IsApart m m'
  Makes-IsApart parent_id name d d' m n m' (makes_ask reply) apart = λ z e. cc
  Makes-IsApart parent_id name d d' m n m' makes_count apart = apart
  Makes-IsApart parent_id name d d' m n m' makes_entry apart = apart
  Makes-IsApart parent_id name d d' m n m' makes_info apart = apart

  pub Leads-Reached :
      (info info' : FolderInfo) (d : r.Db)
      → Represents r laws d start
      → (s : Makers r)
      → Leads r (pos info.parent) info.name (pos info'.parent) info'.name (idle r d) s
      → IsApart s.first s.second
      → Reached info info' s.db s.first s.second
  Leads-Reached info info' d h s nothing_made apart = record {
    fs = start;
    represents = h;
    progress = record {
      id = 0;
      id' = 0;
      has_id = tt;
      has_id' = tt;
      next = omega arith;
      new = λ e. absurd (omega arith);
      new' = λ e. absurd (omega arith);
      differ = λ e. absurd (omega arith);
      folder = λ n. refl;
      file = λ n. refl;
      folders = λ n. Permᴰ.refl (start.folders n);
      files = λ n. refl;
    };
  }
  Leads-Reached info info' d h s
        (first_makes {d = e} {d' = e'} {a = a} {a' = a'} {b = b} before makes) apart =
      let apart' = Makes-IsApart (pos info.parent) info.name e e' a a' b makes apart in
      Makes-Reached info info' e e' a a' b makes apart
        (Leads-Reached info info' d h (record { db = e; first = a; second = b }) before apart')
  Leads-Reached info info' d h s
        (second_makes {d = e} {d' = e'} {a = a} {b = b} {b' = b'} before makes) apart =
      let flipped : IsApart b' a = λ z own other. apart z other own in
      let flipped' = Makes-IsApart (pos info'.parent) info'.name e e' b b' a makes flipped in
      Reached-swap info' info e' b' a (
        Makes-Reached info' info e e' b b' a makes flipped (
          Reached-swap info info' e a b (
            Leads-Reached info info' d h (record { db = e; first = a; second = b }) before
              (λ z own other. flipped' z other own))))
