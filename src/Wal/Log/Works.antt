-- ===== src/Wal/Log/Works.antt =====
-- src/wal.rs: `save` and `set_height` on a device that works, whatever files are open.
use consensus_bft.Prelude.{
  ℕ, ◌%◌, ◌≡◌, refl, List, [], ◌∷◌, ok, length, ltb, ◌==◌, nat_eq, Bool-cases, Option-cases, inl,
  inr,
}
use consensus_bft.Prelude.Exec.{pure, modify, ◌>>=◌, ◌>>◌}
use consensus_bft.Prelude.Exec.Succeeds.{
  Succeeds, Succeeds-bind, Succeeds-pure, Succeeds-modify, succeeds_rules,
}
use consensus_bft.Prelude.Words.{Bytes, bytes_eq, add_u64, u32_mod, le_bytes}
use consensus_bft.Wal.Disk.{
  IoError, Disk, Io, open_file, seek, set_len, write_start, append_all, append_some, sync,
  remove_file,
}
use consensus_bft.Wal.Log.{
  delete_file_interval, Wal, Method, on_disk, ignore, remove_files, prune, set_height,
  append_record, save, find_height, insert_height, get_file_path,
}
use consensus_bft.Wal.Decimal.{to_string}
use consensus_bft.Wal.Log.Append.{NeverFails}

pub Succeeds-ignore :
    {P : Wal → Type 0} {A : Type 0} (m : Method A) → Succeeds P m → Succeeds P (ignore m)
Succeeds-ignore m sm = record { at = λ w p. (tt, refl, (sm.at w p).2) }

-- The device works, and the log is at the height.
pub record IsAt (h : ℕ) (w : Wal) : Type 0 where
  pub works : NeverFails w.disk.device
  pub now : w.current_height ≡ h

module _ {h : ℕ} where
  -- An operation that leaves the device as it is.
  Succeeds-on_disk :
      {A : Type 0} (m : Io A)
      → ((d : Disk)
          → NeverFails d.device
          → (a : A) × ((m d).0 ≡ ok a) × ((m d).1.device ≡ d.device))
      → Succeeds (IsAt h) (on_disk m)
  Succeeds-on_disk m runs = record {
    at = λ w p.
        let (a, e, same) = runs w.disk p.works in
        (a, e, record { works = rw same p.works; now = p.now });
  }

  Succeeds-seek : Succeeds (IsAt h) (on_disk seek)
  unfolding seek
  Succeeds-seek = Succeeds-on_disk _ λ d works. rw (works.fails d.tick) (tt, refl, refl)

  Succeeds-sync : Succeeds (IsAt h) (on_disk sync)
  unfolding sync
  Succeeds-sync = Succeeds-on_disk _ λ d works. rw (works.fails d.tick) (tt, refl, refl)

  Succeeds-set_len : (p : Bytes) (n : ℕ) → Succeeds (IsAt h) (on_disk (set_len p n))
  unfolding set_len
  Succeeds-set_len p n = Succeeds-on_disk _ λ d works. rw (works.fails d.tick) (tt, refl, refl)

  Succeeds-write_start : (p bs : Bytes) → Succeeds (IsAt h) (on_disk (write_start p bs))
  unfolding write_start
  Succeeds-write_start p bs = Succeeds-on_disk _ λ d works. rw (works.fails d.tick) (tt, refl, refl)

  Succeeds-append_all : (p bs : Bytes) → Succeeds (IsAt h) (on_disk (append_all p bs))
  unfolding append_all
  Succeeds-append_all p bs = Succeeds-on_disk _ λ d works. rw (works.fails d.tick) (tt, refl, refl)

  Succeeds-append_some : (p bs : Bytes) → Succeeds (IsAt h) (on_disk (append_some p bs))
  unfolding append_some
  Succeeds-append_some p bs = Succeeds-on_disk _ λ d works. rw (works.fails d.tick) (_, refl, refl)

  Succeeds-open_file : (p : Bytes) → Succeeds (IsAt h) (on_disk (open_file p))
  unfolding open_file
  Succeeds-open_file p = Succeeds-on_disk _ λ d works. rw (works.fails d.tick) (tt, refl, refl)

  Succeeds-remove_file : (p : Bytes) → Succeeds (IsAt h) (on_disk (remove_file p))
  unfolding remove_file
  Succeeds-remove_file p = Succeeds-on_disk _ λ d works. rw (works.fails d.tick) (tt, refl, refl)

  Succeeds-remove_files :
      (dir : Bytes) (l : List (ℕ × Bytes)) → Succeeds (IsAt h) (remove_files dir l)
  unfolding remove_files
  Succeeds-remove_files dir [] = Succeeds-pure tt
  Succeeds-remove_files dir ((k, f) ∷ l) =
      Succeeds-bind _ _ (Succeeds-ignore _ (Succeeds-remove_file _))
        λ _. Succeeds-remove_files dir l

  Succeeds-open_height :
      (n : ℕ) (fs : Bytes)
      → Succeeds {E = IoError}
          (IsAt h)
          (modify (λ w. record w { height_fs = insert_height n fs w.height_fs }))
  Succeeds-open_height n fs = Succeeds-modify _ λ w p. record { works = p.works; now = p.now }

  Succeeds-prune : (n : ℕ) → Succeeds (IsAt h) (prune n)
  unfolding prune
  Succeeds-prune n = record {
    at = λ w p. elim (Bool-cases (ltb delete_file_interval n)) [
      | inl e ↦ rw e (
          (Succeeds-bind _ _ (Succeeds-remove_files w.dir _)
              λ _. Succeeds-modify _ λ v q. record { works = q.works; now = q.now }).at
            w p)
      | inr e ↦ rw e (tt, refl, p)
    ];
  }

  Succeeds-record :
      (fs : Bytes) (t : ℕ) (msg : Bytes)
      → Succeeds (IsAt h) (do
        on_disk seek
        on_disk (append_all fs (le_bytes 4 (length msg % u32_mod)))
        on_disk (append_all fs (t ∷ []))
        hlen ← on_disk (append_some fs msg)
        on_disk sync
        pure hlen)
  Succeeds-record fs t msg =
      search
        (succeeds_rules, Succeeds-seek, Succeeds-append_all, Succeeds-append_some, Succeeds-sync)
        depth 16

  -- Whatever is open, `append_record` succeeds.
  Succeeds-append_record : (n t : ℕ) (msg : Bytes) → Succeeds (IsAt h) (append_record n t msg)
  unfolding append_record
  Succeeds-append_record n t [] = record { at = λ w p. (0, refl, p) }
  Succeeds-append_record n t (b ∷ bs) = record {
    at = λ w p. elim (Option-cases (find_height n w.height_fs)) [
      | inl e ↦ rw (e, append_record) (0, refl, p)
      | inr (fs, e) ↦ rw (e, append_record) ((Succeeds-record fs t (b ∷ bs)).at w p)
    ];
  }

  pub Succeeds-save : (n t : ℕ) (msg : Bytes) → Succeeds (IsAt h) (save n t msg)
  unfolding save
  Succeeds-save n t msg = record {
    at = λ w p.
        let write = (Succeeds-append_record n t msg).at w p in
        let open_and_write =
          (Succeeds-bind _ _ (Succeeds-open_file (get_file_path w.dir n)) λ _.
              Succeeds-bind _ _ (Succeeds-open_height n (get_file_path w.dir n))
                λ _. Succeeds-append_record n t msg).at
            w p in
        elim (Option-cases (find_height n w.height_fs)) [
          | inr (fs, e) ↦ rw (e, save) write
          | inl e ↦
              rw (e, save)
                (elim (Bool-cases (ltb (add_u64 w.current_height 1) n)) [
                  | inl far ↦ rw far (0, refl, p)
                  | inr near ↦ rw near (elim (Bool-cases (n == add_u64 w.current_height 1)) [
                    | inl next ↦ rw next open_and_write
                    | inr other ↦ rw other write
                  ])
                ])
        ];
  }

  -- What follows the write of the height in `set_height`.
  Succeeds-set_index :
      (n : ℕ) (ifile dir content : Bytes)
      → Succeeds (IsAt h) (do
        on_disk seek
        ignore (on_disk (set_len ifile (length content)))
        on_disk (write_start ifile content)
        on_disk sync
        on_disk (open_file (get_file_path dir n))
        modify (λ w. record w { height_fs = insert_height n (get_file_path dir n) w.height_fs })
        prune n)
  Succeeds-set_index n ifile dir content =
      search
        (
          succeeds_rules, Succeeds-seek, Succeeds-ignore, Succeeds-set_len, Succeeds-write_start,
          Succeeds-sync, Succeeds-open_file, Succeeds-open_height, Succeeds-prune,
        )
        depth 24

-- Whatever is open, `set_height` succeeds, and the log is at the height.
pub Succeeds-set_height :
    (n : ℕ) (w : Wal)
    → NeverFails w.disk.device
    → ((set_height n w).0 ≡ ok tt) × IsAt n (set_height n w).1
unfolding set_height ◌>>=◌
Succeeds-set_height n w works =
    let (a, e, q) =
      (Succeeds-set_index n w.ifile w.dir (to_string n)).at (record w { current_height = n })
        (record { works = works; now = refl }) in
    (e, q)
