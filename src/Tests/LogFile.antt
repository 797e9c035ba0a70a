-- ===== src/Tests/LogFile.antt =====
-- A log at height 5 with two records in its file, on a device that works.
use consensus_bft.Prelude.{ℕ, ◌≡◌, refl, List, [], ◌∷◌, ◌++◌, ok, arith, nat_eq}
use consensus_bft.Prelude.Words.{Bytes, bytes_eq}
use consensus_bft.Wal.Disk.{contents}
use consensus_bft.Wal.Log.{
  Wal, frame, save, load, find_height, set_height, new_wal, index_name, get_file_path,
}
use consensus_bft.Wal.Log.Frames.{frames}
use consensus_bft.Wal.Log.Append.{NeverFails, save_works}
use consensus_bft.Wal.Log.Reload.{load-save}
use consensus_bft.Wal.Log.Restart.{new_wal-set_height}
use consensus_bft.Tests.NodeCase.{empty_disk, log}

abbrev messages : List (ℕ × Bytes)
messages = (6, 1 ∷ 2 ∷ []) ∷ (7, 9 ∷ []) ∷ []

-- The name of the file of height 5.
abbrev file : Bytes
file = 53 ∷ []

abbrev with_file : Wal
with_file = record log {
  height_fs = (5, file) ∷ [];
  current_height = 5;
  disk = record empty_disk { files = (file, frames messages) ∷ [] };
}

works : NeverFails with_file.disk.device
works = record { fails = λ n. refl; leaves_out = λ n. refl }

save_works_example :
    let (r, v) = save 5 7 (8 ∷ []) with_file in
    (r ≡ ok 1)
    × (v.height_fs ≡ with_file.height_fs)
    × (contents file v.disk ≡ contents file with_file.disk ++ frame (7, 8 ∷ []))
unfolding find_height
save_works_example = save_works 5 7 8 [] file with_file refl works

load-save_example : (load (save 5 7 (8 ∷ []) with_file).1).0 ≡ ok (messages ++ (7, 8 ∷ []) ∷ [])
load-save_example =
    load-save 5 7 8 [] file messages with_file refl refl (omega arith) works refl
      (omega arith, (omega arith, (omega arith, tt)))

-- The same log with an index file that holds more digits, and files of heights that are far below.
abbrev indexed : Wal
indexed = record with_file {
  height_fs = (1, get_file_path [] 1) ∷ (2, get_file_path [] 2) ∷ (5, get_file_path [] 5) ∷ [];
  ifile = index_name [];
  disk = record empty_disk {
    files =
        (index_name [], b'1' ∷ b'0' ∷ b'0' ∷ [])
        ∷ (get_file_path [] 1, [])
        ∷ (get_file_path [] 5, frames messages)
        ∷ [];
  };
}

new_wal-set_height_example :
    (v : Wal) × ((new_wal [] (set_height 6 indexed).1.disk).0 ≡ ok v)
    × (v.current_height ≡ 6)
    × (v.height_fs ≡ (6, get_file_path [] 6) ∷ [])
new_wal-set_height_example =
    new_wal-set_height 6 indexed (omega arith) refl refl
      (record { fails = λ n. refl; leaves_out = λ n. refl })
