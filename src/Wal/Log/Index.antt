-- ===== src/Wal/Log/Index.antt =====
-- src/wal.rs: what leaves the index file of a log as it is, on a device that works.
use consensus_bft.Prelude.{
  ℕ, ◌-◌, ◌≡◌, ◌≢◌, refl, ap, sym, ◌∙◌, true, List, [], ◌∷◌, ◌++◌, length, length-append, ok, arith,
  ltb, Bool-cases, inl, inr,
}
use consensus_bft.Prelude.Exec.{modify, ◌>>◌}
use consensus_bft.Prelude.Exec.Succeeds.{Succeeds, Succeeds-bind, Succeeds-pure, Succeeds-modify}
use consensus_bft.Prelude.Map
use consensus_bft.Prelude.Map.{or_keep, get-insert, get-or_insert, get-remove_ne}
use consensus_bft.Prelude.Words.{Bytes, bytes_eq}
use consensus_bft.Wal.Decimal.{to_string}
use consensus_bft.Wal.Disk.{IoError, Disk, Io, contents, open_file, sync, remove_file}
use consensus_bft.Wal.Log.{
  delete_file_interval, Wal, Method, on_disk, remove_files, prune, index_name, get_file_path,
  insert_height, from,
}
use consensus_bft.Wal.Log.Works.{Succeeds-ignore}
use consensus_bft.Wal.Log.Append.{NeverFails}

-- A name that ends in `.log` is not `index`.
log-ne-index :
    (s : Bytes) → s ++ b'.' ∷ b'l' ∷ b'o' ∷ b'g' ∷ [] ≢ b'i' ∷ b'n' ∷ b'd' ∷ b'e' ∷ b'x' ∷ []
log-ne-index [] e = ground arith
log-ne-index (a ∷ []) e = ground arith
log-ne-index (a ∷ b ∷ s) e =
    omega (arith, ap length e, length-append s (b'.' ∷ b'l' ∷ b'o' ∷ b'g' ∷ []))

cancel : (l r s : Bytes) → l ++ r ≡ l ++ s → r ≡ s
cancel [] r s e = e
cancel (x ∷ l) r s e = cancel l r s (cc e)

get_file_path-ne-index_name : (dir : Bytes) (h : ℕ) → index_name dir ≢ get_file_path dir h
unfolding get_file_path
get_file_path-ne-index_name dir h e = log-ne-index (to_string h) (cc (sym (cancel dir _ _ e)))

-- What follows the write of the index file in `set_height`.
abbrev pub finish : ℕ → Bytes → Method (Unit {0})
finish h filename = do
  on_disk sync
  on_disk (open_file filename)
  modify (λ w. record w { height_fs = insert_height h filename w.height_fs })
  prune h

-- The device works, the index file holds the height, and the directory is there.
pub record Holds (dir : Bytes) (n : ℕ) (d : Disk) : Type 0 where
  pub works : NeverFails d.device
  pub index : contents (index_name dir) d ≡ to_string n
  pub has_dir : d.has_dir ≡ true

abbrev LogHolds : Bytes → ℕ → Wal → Type 0
LogHolds dir n w = (w.dir ≡ dir) × Holds dir n w.disk

contents-touched :
    (j p : Bytes) (m : Map.Map Bytes Bytes)
    → or_keep (Map.get j (Map.or_insert p [] m)) [] ≡ or_keep (Map.get j m) []
contents-touched j p m = ground (arith, get-or_insert j p [] m, bytes_eq.beq_iff p j)

module _ {dir : Bytes} {n : ℕ} where
  -- An operation that leaves the index file as it is.
  Succeeds-operation :
      {A : Type 0} (m : Io A)
      → ((d : Disk) → Holds dir n d → (a : A) × ((m d).0 ≡ ok a) × Holds dir n (m d).1)
      → Succeeds (LogHolds dir n) (on_disk m)
  Succeeds-operation m runs = record {
    at = λ w p. let (a, e, q) = runs w.disk p.1 in (a, e, (p.0, q));
  }

  Succeeds-sync : Succeeds (LogHolds dir n) (on_disk sync)
  unfolding sync
  Succeeds-sync = Succeeds-operation _ λ d p.
      rw (p.works.fails d.tick)
        (tt, refl, record { works = p.works; index = p.index; has_dir = p.has_dir })

  pub open-Holds :
      (d : Disk) (p : Bytes)
      → Holds dir n d
      → ((open_file p d).0 ≡ ok tt) × Holds dir n (open_file p d).1
  unfolding open_file
  open-Holds d p h = rw (h.works.fails d.tick) (
    refl,
    record {
      works = h.works;
      index = contents-touched (index_name dir) p d.files ∙ h.index;
      has_dir = h.has_dir;
    },
  )

  Succeeds-open_file : (p : Bytes) → Succeeds (LogHolds dir n) (on_disk (open_file p))
  Succeeds-open_file p = Succeeds-operation _ λ d h. let (e, q) = open-Holds d p h in (tt, e, q)

  Succeeds-remove_file :
      (h : ℕ) → Succeeds (LogHolds dir n) (on_disk (remove_file (get_file_path dir h)))
  unfolding remove_file
  Succeeds-remove_file h = Succeeds-operation _ λ d p. rw (p.works.fails d.tick) (
    tt,
    refl,
    record {
      works = p.works;
      index =
          ap (λ z. or_keep z [])
            (get-remove_ne (index_name dir) (get_file_path dir h) d.files
              (get_file_path-ne-index_name dir h))
          ∙ p.index;
      has_dir = p.has_dir;
    },
  )

  Succeeds-remove_file_of :
      (d : Bytes) (h : ℕ)
      → d ≡ dir
      → Succeeds (LogHolds dir n) (on_disk (remove_file (get_file_path d h)))
  Succeeds-remove_file_of d h e = rw e (Succeeds-remove_file h)

  Succeeds-remove_files :
      (d : Bytes) (l : List (ℕ × Bytes)) → d ≡ dir → Succeeds (LogHolds dir n) (remove_files d l)
  unfolding remove_files
  Succeeds-remove_files d [] e = Succeeds-pure tt
  Succeeds-remove_files d ((k, f) ∷ l) e =
      Succeeds-bind _ _ (Succeeds-ignore _ (Succeeds-remove_file_of d k e))
        λ _. Succeeds-remove_files d l e

  Succeeds-heights :
      (f : List (ℕ × Bytes) → List (ℕ × Bytes))
      → Succeeds {E = IoError}
          (LogHolds dir n)
          (modify (λ w. record w { height_fs = f w.height_fs }))
  Succeeds-heights f = Succeeds-modify _ λ w p. p

  Succeeds-prune : (h : ℕ) → Succeeds (LogHolds dir n) (prune h)
  unfolding prune
  Succeeds-prune h = record {
    at = λ w p. elim (Bool-cases (ltb delete_file_interval h)) [
      | inl e ↦ rw e (
          (Succeeds-bind _ _ (Succeeds-remove_files w.dir _ p.0)
              λ _. Succeeds-heights (λ m. from (h - delete_file_interval) w.height_fs)).at
            w p)
      | inr e ↦ rw e (tt, refl, p)
    ];
  }

  pub Succeeds-finish : (h : ℕ) (filename : Bytes) → Succeeds (LogHolds dir n) (finish h filename)
  Succeeds-finish h filename = Succeeds-bind _ _ Succeeds-sync λ _.
      Succeeds-bind _ _ (Succeeds-open_file filename)
        λ _. Succeeds-bind _ _ (Succeeds-heights (insert_height h filename)) λ _. Succeeds-prune h
