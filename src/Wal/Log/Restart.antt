-- ===== src/Wal/Log/Restart.antt =====
-- src/wal.rs: `new` on the disk that `set_height` leaves, as after a restart of the node.
use consensus_bft.Prelude.{
  ℕ, zero, suc, ◌-◌, ◌<◌, ◌≤◌, ◌≡◌, refl, ap, sym, ◌∙◌, true, false, not, none, some, subst, [],
  ◌∷◌, ◌++◌, take, drop, length, ok, arith,
}
use mathlib.Core.List.{append-nil}
use consensus_bft.Prelude.Exec.{continue, pure, raise, ◌>>=◌, ◌>>◌}
use consensus_bft.Prelude.Map.{get-insert}
use consensus_bft.Prelude.Words.{Bytes, bytes_eq, u64_mod}
use consensus_bft.Wal.Decimal.{to_string, parse_u64, parse_u64-to_string}
use consensus_bft.Wal.Disk.{
  invalid_data, Disk, Io, contents, store, keep, taken, overwrite, resize, zeros, read_dir,
  open_file, seek, read_file, set_len, write_start,
}
use consensus_bft.Wal.Log.{
  no_dir, expect_io, Wal, on_disk, set_height, new_wal, index_name, get_file_path,
}
use consensus_bft.Wal.Log.Append.{NeverFails, later, operate_works, step}
use consensus_bft.Wal.Log.Index.{Holds, finish, open-Holds, Succeeds-finish}

drop-zeros : (n k : ℕ) → k ≤ n → drop n (zeros k) ≡ []
drop-zeros zero zero h = refl
drop-zeros zero (suc k) h = absurd (omega arith)
drop-zeros (suc n) zero h = refl
drop-zeros (suc n) (suc k) h = drop-zeros n k (omega arith)

drop-filled : (n k : ℕ) (bs : Bytes) → k ≤ n - length bs → drop n (take n bs ++ zeros k) ≡ []
drop-filled zero k bs h = drop-zeros zero k (omega arith)
drop-filled (suc n) k [] h = drop-zeros (suc n) k (omega arith)
drop-filled (suc n) k (b ∷ bs) h = drop-filled n k bs (omega arith)

overwrite-resize : (new old : Bytes) → overwrite new (resize (length new) old) ≡ new
overwrite-resize new old =
    ap (λ z. new ++ z) (drop-filled (length new) (length new - length old) old (omega arith))
    ∙ append-nil new

-- The disk after the index file is written.
abbrev written : Bytes → Bytes → Disk → Disk
written path content d =
    let cut = store path (resize (length content) (contents path (later d))) (later (later d)) in
    store path (overwrite content (contents path cut)) (later cut)

set_height_runs :
    (n : ℕ) (w : Wal)
    → NeverFails w.disk.device
    → set_height n w
      ≡ finish n
          (get_file_path w.dir n)
          (record w { current_height = n; disk = written w.ifile (to_string n) w.disk })
unfolding set_height ◌>>=◌
set_height_runs n w works =
    let content = to_string n in
    let w1 : Wal = record w { current_height = n } in
    let d1 = later w.disk in
    let cut = store w.ifile (resize (length content) (contents w.ifile d1)) (later d1) in
    let set : set_len w.ifile (length content) d1 ≡ (ok tt, cut) =
      unfold set_len in
      operate_works (λ d. store w.ifile (resize (length content) (contents w.ifile d)) d) keep
        (λ d. tt) d1 works in
    let wrote : write_start w.ifile content cut ≡ (ok tt, written w.ifile content w.disk) =
      unfold write_start in
      operate_works (λ d. store w.ifile (overwrite content (contents w.ifile d)) d)
        (λ d. store w.ifile (overwrite (taken d content) (contents w.ifile d)) d) (λ d. tt) cut
        works in
    let write = on_disk (write_start w.ifile content) in
    let rest = finish n (get_file_path w.dir n) in
    step seek _ w1 tt d1 (unfold seek in operate_works keep keep (λ e. tt) w.disk works)
    ∙ ap (λ z. (write >> rest) (record w1 { disk = z.1 })) set
    ∙ step (write_start w.ifile content) (λ _. rest) (record w1 { disk = cut }) tt
        (written w.ifile content w.disk) wrote

contents-store : (p bytes : Bytes) (d : Disk) → contents p (store p bytes d) ≡ bytes
contents-store p bytes d = ground (arith, get-insert p p bytes d.files, bytes_eq.beq_iff p p)

written-Holds :
    (dir : Bytes) (n : ℕ) (d : Disk)
    → NeverFails d.device
    → d.has_dir ≡ true
    → Holds dir n (written (index_name dir) (to_string n) d)
written-Holds dir n d works there = record {
  works = works;
  index =
      let content = to_string n in
      let filled = resize (length content) (contents (index_name dir) d) in
      let cut = store (index_name dir) filled (later (later d)) in
      contents-store (index_name dir) _ (later cut)
      ∙ ap (overwrite content) (contents-store (index_name dir) filled (later (later d)))
      ∙ overwrite-resize content (contents (index_name dir) d);
  has_dir = there;
}

set_height-Holds :
    (n : ℕ) (w : Wal)
    → w.ifile ≡ index_name w.dir
    → NeverFails w.disk.device
    → w.disk.has_dir ≡ true
    → Holds w.dir n (set_height n w).1.disk
set_height-Holds n w index works there =
    let file = get_file_path w.dir n in
    let now : Wal = record w { current_height = n; disk = written w.ifile (to_string n) w.disk } in
    let held : Holds w.dir n now.disk =
      subst (λ p. Holds w.dir n (written p (to_string n) w.disk)) (sym index)
        (written-Holds w.dir n w.disk works there) in
    let (a, e, q) = (Succeeds-finish n file).at now (refl, held) in
    subst (λ z. Holds w.dir n z.1.disk) (sym (set_height_runs n w works)) q.1

-- A text that parses is read as its number.
read_height :
    (s : Bytes) (n : ℕ) (d : Disk)
    → parse_u64 s ≡ some n
    → (elim s as (λ _. Io ℕ) [
      | [] ↦ pure 0
      | c ∷ r ↦ elim (parse_u64 (c ∷ r)) as (λ _. Io ℕ) [
        | some h ↦ pure h
        | none ↦ raise invalid_data
      ]
    ])
        d
      ≡ (ok n, d)
unfolding parse_u64 ◌>>=◌
read_height [] n d e = ground arith
read_height (c ∷ r) n d e = rw e refl

bind_ok :
    {A B : Type 0} (m : Io A) (f : A → Io B) (d t : Disk) (a : A)
    → m d ≡ (ok a, t)
    → (m >>= f) d ≡ f a t
unfolding ◌>>=◌
bind_ok m f d t a e = ap (λ z. continue z.0 f z.1) e

no_dir-Holds : {dir : Bytes} {n : ℕ} (d : Disk) → Holds dir n d → no_dir d ≡ (ok false, later d)
unfolding read_dir
no_dir-Holds d h = rw (h.works.fails d.tick) (ap (λ b. (ok (not b), later d)) h.has_dir)

new_wal-Holds :
    (dir : Bytes) (n : ℕ) (d : Disk)
    → n < u64_mod
    → Holds dir n d
    → (v : Wal) × ((new_wal dir d).0 ≡ ok v)
      × (v.current_height ≡ n)
      × (v.height_fs ≡ (n, get_file_path dir n) ∷ [])
unfolding new_wal
new_wal-Holds dir n d fits h =
    let ifs = index_name dir in
    let file = get_file_path dir n in
    let d1 = later d in
    let d2 = (open_file ifs d1).1 in
    let d3 = later d2 in
    let d4 = later d3 in
    let (e1, h1) =
      open-Holds d1 ifs (record { works = h.works; index = h.index; has_dir = h.has_dir }) in
    let (e2, h2) =
      open-Holds d4 file (record { works = h1.works; index = h1.index; has_dir = h1.has_dir }) in
    let d5 = (open_file file d4).1 in
    let v : Wal = record {
      height_fs = (n, file) ∷ [];
      dir = dir;
      current_height = n;
      ifile = ifs;
      disk = d5;
    } in
    let sought : expect_io seek d2 ≡ (ok tt, d3) =
      unfold seek in rw (h1.works.fails d2.tick) refl in
    let read : read_file ifs d3 ≡ (ok (to_string n), d4) =
      unfold read_file in
      operate_works keep keep (contents ifs) d3 h1.works ∙ ap (λ z. (ok z, d4)) h1.index in
    let runs : new_wal dir d ≡ (ok v, d5) =
      bind_ok no_dir _ d d1 false (no_dir-Holds d h)
      ∙ bind_ok (pure tt) _ d1 d1 tt (unfold ◌>>=◌ in refl)
      ∙ bind_ok (open_file ifs) _ d1 d2 tt (ap (λ z. (z, d2)) e1)
      ∙ bind_ok (expect_io seek) _ d2 d3 tt sought
      ∙ bind_ok (read_file ifs) _ d3 d4 (to_string n) read
      ∙ bind_ok _ _ d4 d4 n (read_height (to_string n) n d4 (parse_u64-to_string n fits))
      ∙ bind_ok (open_file file) _ d4 d5 tt (ap (λ z. (z, d5)) e2) in
    (v, ap (λ z. z.0) runs, refl, refl)

-- A restart takes up the height that was set: on a device that works, for a log whose directory is
-- there and whose index file is that of its directory, and a height that fits a `u64`, `new` on the
-- disk that `set_height` leaves succeeds with a log that is at this height, and has the file of this
-- height open and no other.
pub new_wal-set_height :
    (n : ℕ) (w : Wal)
    → n < u64_mod
    → w.ifile ≡ index_name w.dir
    → w.disk.has_dir ≡ true
    → NeverFails w.disk.device
    → let d = (set_height n w).1.disk in
      (v : Wal) × ((new_wal w.dir d).0 ≡ ok v)
      × (v.current_height ≡ n)
      × (v.height_fs ≡ (n, get_file_path w.dir n) ∷ [])
new_wal-set_height n w fits index there works =
    new_wal-Holds w.dir n (set_height n w).1.disk fits (set_height-Holds n w index works there)
