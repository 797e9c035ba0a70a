-- ===== src/Wal/Log.antt =====
-- src/wal.rs: `Wal` and its methods. The record has the fields of the struct, a file handle as the
-- name under which it was opened, and the disk beside them.
pub mod Frames
pub mod Append
pub mod Works
pub mod Index
pub mod Restart
pub mod Reload
use consensus_bft.Prelude.{
  ℕ, zero, suc, ◌+◌, ◌-◌, ◌%◌, ◌<◌, Bool, true, false, Option, none, some, List, [], ◌∷◌, ◌++◌,
  take, drop, length, Outcome, ok, err, panic, ltb, leb, ◌==◌, nat_eq, not, if◌then◌else◌,
  get_elem?,
}
use consensus_bft.Prelude.Exec.{Exec, pure, raise, modify, ◌>>=◌, ◌>>◌}
use consensus_bft.Prelude.Map
use consensus_bft.Prelude.Map.{Map, or_keep}
use consensus_bft.Prelude.Words.{Bytes, bytes_eq, add_u64, u32_mod, le_bytes, of_le_bytes}
use consensus_bft.Wal.Decimal.{to_string, parse_u64}
use consensus_bft.Wal.Disk.{
  IoError, invalid_data, Disk, Io, read_dir, create_dir, open_file, seek, read_file, set_len,
  write_start, append_all, append_some, sync, remove_file,
}

abbrev pub delete_file_interval : ℕ
delete_file_interval = 3

pub record Wal : Type 0 where
  -- a `BTreeMap`: the heights in ascending order
  pub height_fs : List (ℕ × Bytes)
  pub dir : Bytes
  pub current_height : ℕ
  pub ifile : Bytes
  pub disk : Disk

abbrev pub Method : Type 0 → Type 0
Method A = Exec Wal IoError A

abbrev pub on_disk : {A : Type 0} → Io A → Method A
on_disk m w = let (r, d) = m w.disk in (r, record w { disk = d })

-- `let _ = ...`
abbrev ignore : {A : Type 0} → Method A → Method (Unit {0})
ignore m w = (ok tt, (m w).1)

-- `.expect(..)`
abbrev expect : {A : Type 0} → Outcome IoError A → Outcome IoError A
expect (ok a) = ok a
expect (err e) = panic
expect panic = panic

-- `"/" + "index"`, and `get_file_path`: `dir + "/" + height + ".log"`
abbrev pub index_name : Bytes → Bytes
index_name dir = dir ++ b'/' ∷ b'i' ∷ b'n' ∷ b'd' ∷ b'e' ∷ b'x' ∷ []

unfoldable pub get_file_path : Bytes → ℕ → Bytes
get_file_path dir height = dir ++ b'/' ∷ (to_string height ++ b'.' ∷ b'l' ∷ b'o' ∷ b'g' ∷ [])

-- `BTreeMap::insert`
unfoldable pub insert_height : ℕ → Bytes → List (ℕ × Bytes) → List (ℕ × Bytes)
insert_height h fs [] = (h, fs) ∷ []
insert_height h fs ((k, f) ∷ m) =
    if k == h
    then (h, fs) ∷ m
    else if ltb h k
    then (h, fs) ∷ (k, f) ∷ m
    else (k, f) ∷ insert_height h fs m

-- `BTreeMap::split_off(&at)`: what stays, and what is from `at` on.
unfoldable pub below : ℕ → List (ℕ × Bytes) → List (ℕ × Bytes)
below at [] = []
below at ((k, f) ∷ m) = if ltb k at then (k, f) ∷ below at m else below at m

unfoldable pub from : ℕ → List (ℕ × Bytes) → List (ℕ × Bytes)
from at [] = []
from at ((k, f) ∷ m) = if ltb k at then from at m else (k, f) ∷ from at m

unfoldable pub find_height : ℕ → List (ℕ × Bytes) → Option Bytes
find_height h [] = none
find_height h ((k, f) ∷ m) = if k == h then some f else find_height h m

-- `read_dir(&dir).is_err()`
abbrev pub no_dir : Io Bool
no_dir d = let (r, d') = read_dir d in (ok (elim r [ ok found ↦ not found | _ ↦ true ]), d')

abbrev pub expect_io : {A : Type 0} → Io A → Io A
expect_io m d = let (r, d') = m d in (expect r, d')

-- `Wal::new`
unfoldable pub new_wal : Bytes → Io Wal
unfolding read_dir create_dir open_file seek read_file
new_wal dir = do
  missing ← no_dir
  if missing then expect_io create_dir else pure tt
  let ifs = index_name dir
  open_file ifs
  expect_io seek
  string_buf ← read_file ifs
  cur_height ← elim string_buf [
    | [] ↦ pure 0
    | c ∷ s ↦ elim (parse_u64 (c ∷ s)) [ some hi ↦ pure hi | none ↦ raise invalid_data ]
  ]
  let last_file_path = get_file_path dir cur_height
  open_file last_file_path
  λ d. (
    ok (record {
      height_fs = (cur_height, last_file_path) ∷ [];
      dir = dir;
      current_height = cur_height;
      ifile = ifs;
      disk = d;
    }),
    d,
  )

-- `for (height, _) in self.height_fs.iter() { let _ = remove_file(..) }`
unfoldable pub remove_files : Bytes → List (ℕ × Bytes) → Method (Unit {0})
unfolding remove_file
remove_files dir [] = pure tt
remove_files dir ((k, f) ∷ m) = do
  ignore (on_disk (remove_file (get_file_path dir k)))
  remove_files dir m

-- The `if` of `set_height`: the files below the interval go.
unfoldable pub prune : ℕ → Method (Unit {0})
unfolding remove_files below from
prune height w =
    if ltb delete_file_interval height
    then (do
      remove_files w.dir (below (height - delete_file_interval) w.height_fs)
      modify (λ w'. record w' { height_fs = from (height - delete_file_interval) w.height_fs }))
        w
    else (ok tt, w)

-- `Wal::set_height`
unfoldable pub set_height : ℕ → Method (Unit {0})
unfolding prune open_file seek set_len write_start sync insert_height
set_height height w =
    (do
      modify (λ w. record w { current_height = height })
      on_disk seek
      let content = to_string height
      ignore (on_disk (set_len w.ifile (length content)))
      on_disk (write_start w.ifile content)
      on_disk sync
      let filename = get_file_path w.dir height
      on_disk (open_file filename)
      modify (λ w. record w { height_fs = insert_height height filename w.height_fs })
      prune height)
      w

-- What `save` writes for a message: the length, the type and the text.
abbrev pub frame : ℕ × Bytes → Bytes
frame (mtype, msg) = le_bytes 4 (length msg % u32_mod) ++ mtype ∷ msg

-- The second half of `save`.
unfoldable pub append_record : ℕ → ℕ → Bytes → Method ℕ
unfolding seek append_all append_some sync find_height
append_record height mtype [] w = (ok 0, w)
append_record height mtype (b ∷ bs) w = elim (find_height height w.height_fs) [
  | none ↦ (ok 0, w)
  | some fs ↦
      (do
        on_disk seek
        on_disk (append_all fs (le_bytes 4 (length (b ∷ bs) % u32_mod)))
        on_disk (append_all fs (mtype ∷ []))
        hlen ← on_disk (append_some fs (b ∷ bs))
        on_disk sync
        pure hlen)
        w
]

-- `Wal::save`
unfoldable pub save : ℕ → ℕ → Bytes → Method ℕ
unfolding append_record find_height open_file insert_height
save height mtype msg w = elim (find_height height w.height_fs) [
  | some _ ↦ append_record height mtype msg w
  | none ↦
      if ltb (add_u64 w.current_height 1) height
      then (ok 0, w)
      else if height == add_u64 w.current_height 1
      then (do
        let filename = get_file_path w.dir height
        on_disk (open_file filename)
        modify (λ w. record w { height_fs = insert_height height filename w.height_fs })
        append_record height mtype msg)
          w
      else append_record height mtype msg w
]

-- The inner loop of `load`, over the bytes `vec_buf[index..fsize]`. A round reads five bytes or more,
-- so a fuel of their number is enough.
unfoldable pub read_frames : ℕ → Bytes → List (ℕ × Bytes)
read_frames zero window = []
read_frames (suc fuel) window = elim (get_elem? window 4) [
  | none ↦ []
  | some mtype ↦
      let bodylen = of_le_bytes (take 4 window) in
      let rest = read_frames fuel (drop bodylen (drop 5 window)) in
      if ltb (length (drop 5 window)) bodylen
      then []
      else (mtype, take bodylen (drop 5 window)) ∷ rest
]

-- The outer loop of `load`: `vec_buf` and `vec_out` are carried from file to file.
unfoldable pub load_files :
    ℕ → List (ℕ × Bytes) → Bytes → List (ℕ × Bytes) → Method (List (ℕ × Bytes))
unfolding read_frames seek read_file
load_files current [] vec_buf vec_out w = (ok vec_out, w)
load_files current ((height, fs) ∷ files) vec_buf vec_out w =
    let later =
      λ (buf : Bytes) (out : List (ℕ × Bytes)) (w : Wal). load_files current files buf out w in
    elim (ltb height current) [
      | true ↦ later vec_buf vec_out w
      | false ↦
          (do
            λ w. let (r, w') = on_disk seek w in (expect r, w')
            λ w.
                let (r, w') = on_disk (read_file fs) w in
                elim r [
                  | ok bytes ↦
                      if leb (length bytes) 5
                      then (ok vec_out, w')
                      else later (vec_buf ++ bytes)
                          (vec_out
                            ++ read_frames (length bytes) (take (length bytes) (vec_buf ++ bytes)))
                          w'
                  | _ ↦ (ok vec_out, w')
                ])
            w
    ]

-- `Wal::load`
unfoldable pub load : Method (List (ℕ × Bytes))
unfolding load_files
load w = elim w.height_fs [
  | [] ↦ (ok [], w)
  | e ∷ files ↦
      if w.current_height == 0 then (ok [], w) else load_files w.current_height (e ∷ files) [] [] w
]
