-- ===== src/Wal/Log/Reload.antt =====
-- src/wal.rs: `load` after `save`.
use consensus_bft.Prelude.{
  ℕ, suc, ◌<◌, ◌≡◌, ◌≢◌, ap, sym, ◌∙◌, some, List, [], ◌∷◌, ◌++◌, ok, length, arith, nat_eq,
  length-append,
}
use mathlib.Core.List.{append-nil}
use consensus_bft.Prelude.Exec.{◌>>=◌}
use consensus_bft.Prelude.Words.{Bytes, bytes_eq}
use consensus_bft.Wal.Disk.{contents, seek, read_file}
use consensus_bft.Wal.Log.{Wal, find_height, frame, save, load, load_files, read_frames}
use consensus_bft.Wal.Log.Frames.{frames, TextsFit, length-frame, read_frames-frames, frames-append}
use consensus_bft.Wal.Log.Append.{NeverFails, take-length, saved, contents-saved, save_runs}

load_one :
    (h : ℕ) (fs : Bytes) (w : Wal)
    → w.height_fs ≡ (h, fs) ∷ []
    → w.current_height ≡ h
    → h ≢ 0
    → NeverFails w.disk.device
    → 5 < length (contents fs w.disk)
    → (load w).0 ≡ ok (read_frames (length (contents fs w.disk)) (contents fs w.disk))
unfolding load load_files seek read_file ◌>>=◌
load_one h fs w files now nz works long = ground (
  arith,
  files,
  now,
  works.fails w.disk.tick,
  works.fails (suc w.disk.tick),
  take-length (contents fs w.disk),
)

-- The records of the file, with the one that is saved.
frames_snoc : (ms : List (ℕ × Bytes)) (m : ℕ × Bytes) → frames ms ++ frame m ≡ frames (ms ++ m ∷ [])
frames_snoc ms m =
    ap (λ z. frames ms ++ z) (sym (append-nil (frame m))) ∙ sym (frames-append ms (m ∷ []))

frame_long : (t b : ℕ) (bs : Bytes) → 5 < length (frame (t, b ∷ bs))
frame_long t b bs = omega (arith, length-frame (t, b ∷ bs))

find_open :
    (h : ℕ) (fs : Bytes) (w : Wal)
    → w.height_fs ≡ (h, fs) ∷ []
    → find_height h w.height_fs ≡ some fs
unfolding find_height
find_open h fs w files = rw files (ground arith)

-- On a device that works, a log whose one open file is that of the present height, which is not 0,
-- and holds records whose texts fit a `u32` length: after `save` of a message that is not empty and
-- fits too, `load` gives the messages of these records and then the one that was saved.
pub load-save :
    (h t b : ℕ) (bs fs : Bytes) (ms : List (ℕ × Bytes)) (w : Wal)
    → w.height_fs ≡ (h, fs) ∷ []
    → w.current_height ≡ h
    → h ≢ 0
    → NeverFails w.disk.device
    → contents fs w.disk ≡ frames ms
    → TextsFit (ms ++ (t, b ∷ bs) ∷ [])
    → (load (save h t (b ∷ bs) w).1).0 ≡ ok (ms ++ (t, b ∷ bs) ∷ [])
load-save h t b bs fs ms w files now nz works held fit =
    let msg = b ∷ bs in
    let v : Wal = record w { disk = saved fs t msg w.disk } in
    let whole : contents fs v.disk ≡ frames (ms ++ (t, msg) ∷ []) =
      contents-saved fs t msg w.disk
      ∙ ap (λ z. z ++ frame (t, msg)) held
      ∙ frames_snoc ms (t, msg) in
    let long : 5 < length (contents fs v.disk) =
      rw (contents-saved fs t msg w.disk)
        (omega (arith, length-append (contents fs w.disk) (frame (t, msg)), frame_long t b bs)) in
    ap (λ z. (load z.1).0) (save_runs h t b bs fs w (find_open h fs w files) works)
    ∙ load_one h fs v files now nz works long
    ∙ ap (λ z. ok (read_frames (length z) z)) whole
    ∙ ap ok (
        read_frames-frames (length (frames (ms ++ (t, msg) ∷ []))) (ms ++ (t, msg) ∷ []) fit
          (omega arith))
