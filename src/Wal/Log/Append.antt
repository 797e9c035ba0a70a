-- ===== src/Wal/Log/Append.antt =====
-- src/wal.rs: `save` on a device that works.
use consensus_bft.Prelude.{
  ℕ, suc, ◌-◌, ◌%◌, ◌≡◌, refl, ap, ◌∙◌, false, some, List, [], ◌∷◌, ◌++◌, ok, length, take, arith,
}
use mathlib.Core.List.{append_assoc}
use consensus_bft.Prelude.Exec.{continue, ◌>>=◌}
use consensus_bft.Prelude.Map.{get-insert}
use consensus_bft.Prelude.Words.{Bytes, bytes_eq, u32_mod, le_bytes}
use consensus_bft.Wal.Disk.{
  Io, Device, Disk, operate, contents, store, taken, seek, append_all, append_some, sync, keep,
}
use consensus_bft.Wal.Log.{Wal, find_height, frame, append_record, save, on_disk, Method}

-- No operation fails, and no write stops early.
pub record NeverFails (d : Device) : Type 0 where
  pub fails : (n : ℕ) → d.fails n ≡ false
  pub leaves_out : (n : ℕ) → d.leaves_out n ≡ 0

pub take-length : {A : Type 0} (xs : List A) → take (length xs) xs ≡ xs
take-length [] = refl
take-length (x ∷ xs) = ap (◌∷◌ x) (take-length xs)

pub operate_works :
    {A : Type 0} (good bad : Disk → Disk) (result : Disk → A) (d : Disk)
    → NeverFails d.device
    → operate good bad result d ≡ (ok (result d), good (record d { tick = suc d.tick }))
operate_works good bad result d works = rw (works.fails d.tick) refl

take_all : {A : Type 0} (xs : List A) (n : ℕ) → n ≡ 0 → take (length xs - n) xs ≡ xs
take_all xs n z = ap (λ k. take k xs) (omega (arith, z)) ∙ take-length xs

abbrev pub later : Disk → Disk
later d = record d { tick = suc d.tick }

-- The disk after a write at the end of a file.
abbrev pub appended : Bytes → Bytes → Disk → Disk
appended p bytes d = store p (contents p d ++ bytes) (later d)

contents-appended :
    (p bytes : Bytes) (d : Disk) → contents p (appended p bytes d) ≡ contents p d ++ bytes
contents-appended p bytes d =
    ground (arith, get-insert p p (contents p d ++ bytes) d.files, bytes_eq.beq_iff p p)

append_all_works :
    (p bytes : Bytes) (d : Disk)
    → NeverFails d.device
    → append_all p bytes d ≡ (ok tt, appended p bytes d)
unfolding append_all
append_all_works p bytes d works =
    operate_works (λ e. store p (contents p e ++ bytes) e)
      (λ e. store p (contents p e ++ taken e bytes) e) (λ e. tt) d works

append_some_works :
    (p bytes : Bytes) (d : Disk)
    → NeverFails d.device
    → append_some p bytes d ≡ (ok (length bytes), appended p bytes d)
unfolding append_some
append_some_works p bytes d works =
    operate_works (λ e. store p (contents p e ++ taken e bytes) e) keep
      (λ e. length (taken e bytes)) d works
    ∙ (λ i. (
      ok (length (take_all bytes (d.device.leaves_out d.tick) (works.leaves_out d.tick) i)),
      store p
          (contents p d
            ++ take_all bytes (d.device.leaves_out (suc d.tick)) (works.leaves_out (suc d.tick)) i)
          (later d),
    ))

-- An operation on the disk that succeeds, and what follows it.
pub step :
    {A B : Type 0} (m : Io A) (f : A → Method B) (w : Wal) (a : A) (d : Disk)
    → m w.disk ≡ (ok a, d)
    → (on_disk m >>= f) w ≡ f a (record w { disk = d })
unfolding ◌>>=◌
step m f w a d e = ap (λ z. continue z.0 f (record w { disk = z.1 })) e

-- What the disk is after the second half of `save`.
abbrev pub saved : Bytes → ℕ → Bytes → Disk → Disk
saved fs t msg d = later (
    appended fs msg
      (appended fs (t ∷ []) (appended fs (le_bytes 4 (length msg % u32_mod)) (later d))))

append_record_works :
    (h t b : ℕ) (bs fs : Bytes) (w : Wal)
    → find_height h w.height_fs ≡ some fs
    → NeverFails w.disk.device
    → append_record h t (b ∷ bs) w
      ≡ (ok (length (b ∷ bs)), record w { disk = saved fs t (b ∷ bs) w.disk })
unfolding append_record
append_record_works h t b bs fs w found works =
    let msg = b ∷ bs in
    let d1 = later w.disk in
    let d2 = appended fs (le_bytes 4 (length msg % u32_mod)) d1 in
    let d3 = appended fs (t ∷ []) d2 in
    let d4 = appended fs msg d3 in
    rw (found, append_record)
      (step seek _ w tt d1 (unfold seek in operate_works keep keep (λ e. tt) w.disk works)
        ∙ step (append_all fs (le_bytes 4 (length msg % u32_mod))) _ (record w { disk = d1 }) tt d2
            (append_all_works fs _ d1 works)
        ∙ step (append_all fs (t ∷ [])) _ (record w { disk = d2 }) tt d3
            (append_all_works fs _ d2 works)
        ∙ step (append_some fs msg) _ (record w { disk = d3 }) (length msg) d4
            (append_some_works fs msg d3 works)
        ∙ step sync _ (record w { disk = d4 }) tt (later d4)
            (unfold sync in operate_works keep keep (λ e. tt) d4 works)
        ∙ (unfold ◌>>=◌ in refl))

pub contents-saved :
    (fs : Bytes) (t : ℕ) (msg : Bytes) (d : Disk)
    → contents fs (saved fs t msg d) ≡ contents fs d ++ frame (t, msg)
contents-saved fs t msg d =
    let mark = le_bytes 4 (length msg % u32_mod) in
    let d2 = appended fs mark (later d) in
    contents-appended fs msg (appended fs (t ∷ []) d2)
    ∙ ap (λ z. z ++ msg)
        (contents-appended fs (t ∷ []) d2
          ∙ ap (λ z. z ++ t ∷ []) (contents-appended fs mark (later d)))
    ∙ append_assoc (contents fs d ++ mark) (t ∷ []) msg
    ∙ append_assoc (contents fs d) mark (t ∷ msg)

pub save_runs :
    (h t b : ℕ) (bs fs : Bytes) (w : Wal)
    → find_height h w.height_fs ≡ some fs
    → NeverFails w.disk.device
    → save h t (b ∷ bs) w ≡ (ok (length (b ∷ bs)), record w { disk = saved fs t (b ∷ bs) w.disk })
unfolding save
save_runs h t b bs fs w found works =
    rw (found, save) (append_record_works h t b bs fs w found works)

-- On a device that works, `save` of a message that is not empty, at a height whose file is open,
-- returns the length of the message and adds its record to the end of this file.
pub save_works :
    (h t b : ℕ) (bs fs : Bytes) (w : Wal)
    → find_height h w.height_fs ≡ some fs
    → NeverFails w.disk.device
    → let (r, v) = save h t (b ∷ bs) w in
      (r ≡ ok (length (b ∷ bs)))
      × (v.height_fs ≡ w.height_fs)
      × (contents fs v.disk ≡ contents fs w.disk ++ frame (t, b ∷ bs))
save_works h t b bs fs w found works =
    rw (save_runs h t b bs fs w found works) (refl, refl, contents-saved fs t (b ∷ bs) w.disk)
