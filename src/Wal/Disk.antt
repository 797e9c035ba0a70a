-- ===== src/Wal/Disk.antt =====
-- The part of `std::fs` and `std::io` that src/wal.rs uses: files by name, and operations that may
-- fail or write a part only. A handle stands for the name under which it was opened, since src/wal.rs
-- drops the handle of a file that it removes. How an operation ends is an oracle over a counter, so
-- that every behaviour of the device is covered.
use consensus_bft.Prelude.{
  ℕ, zero, suc, ◌-◌, Bool, true, [], ◌∷◌, ◌++◌, take, drop, length, ok, err, if◌then◌else◌,
}
use consensus_bft.Prelude.Exec.{Exec}
use consensus_bft.Prelude.Map
use consensus_bft.Prelude.Map.{Map, or_keep}
use consensus_bft.Prelude.Words.{Bytes, bytes_eq}

pub data IoError : Type 0 where
  device invalid_data : IoError

-- Whether an operation fails, and how many of the last bytes a write that stops early leaves out.
pub record Device : Type 0 where
  pub fails : ℕ → Bool
  pub leaves_out : ℕ → ℕ

pub record Disk : Type 0 where
  pub device : Device
  pub tick : ℕ
  pub has_dir : Bool
  pub files : Map Bytes Bytes

abbrev pub Io : Type 0 → Type 0
Io A = Exec Disk IoError A

-- One operation: it changes the files by `good`, or fails after it has changed them by `bad`.
abbrev pub operate : {A : Type 0} → (Disk → Disk) → (Disk → Disk) → (Disk → A) → Io A
operate good bad result d =
    let later : Disk = record d { tick = suc d.tick } in
    if d.device.fails d.tick then (err device, bad later) else (ok (result d), good later)

abbrev pub keep : Disk → Disk
keep d = d

abbrev pub contents : Bytes → Disk → Bytes
contents path d = or_keep (Map.get path d.files) []

abbrev pub store : Bytes → Bytes → Disk → Disk
store path bytes d = record d { files = Map.insert path bytes d.files }

-- `read_dir(&dir)`, and `DirBuilder::create`
unfoldable pub read_dir : Io Bool
read_dir = operate keep keep (λ d. d.has_dir)

unfoldable pub create_dir : Io (Unit {0})
create_dir = operate (λ d. record d { has_dir = true }) keep (λ d. tt)

-- `OpenOptions::new().read(true).create(true).write(true).open(path)`
unfoldable pub open_file : Bytes → Io (Unit {0})
open_file path = operate (λ d. record d { files = Map.or_insert path [] d.files }) keep (λ d. tt)

unfoldable pub seek : Io (Unit {0})
seek = operate keep keep (λ d. tt)

-- `read_to_string`, `read_to_end` from the start
unfoldable pub read_file : Bytes → Io Bytes
read_file path = operate keep keep (contents path)

-- What a write that stops early takes.
abbrev pub taken : Disk → Bytes → Bytes
taken d bytes = take (length bytes - d.device.leaves_out d.tick) bytes

-- The bytes `new` over the first bytes of `old`.
abbrev pub overwrite : Bytes → Bytes → Bytes
overwrite new old = new ++ drop (length new) old

-- `n` zeros
abbrev pub zeros : ℕ → Bytes
zeros zero = []
zeros (suc n) = 0 ∷ zeros n

-- The first `n` bytes, with zeros after them where there are fewer.
abbrev pub resize : ℕ → Bytes → Bytes
resize n bytes = take n bytes ++ zeros (n - length bytes)

-- `file.set_len(n)`
unfoldable pub set_len : Bytes → ℕ → Io (Unit {0})
set_len path n = operate (λ d. store path (resize n (contents path d)) d) keep (λ d. tt)

-- `write_all` at the start of a file, and at its end
unfoldable pub write_start : Bytes → Bytes → Io (Unit {0})
write_start path bytes =
    operate (λ d. store path (overwrite bytes (contents path d)) d)
      (λ d. store path (overwrite (taken d bytes) (contents path d)) d) (λ d. tt)

unfoldable pub append_all : Bytes → Bytes → Io (Unit {0})
append_all path bytes =
    operate (λ d. store path (contents path d ++ bytes) d)
      (λ d. store path (contents path d ++ taken d bytes) d) (λ d. tt)

-- `write` at the end of a file: how many bytes it took
unfoldable pub append_some : Bytes → Bytes → Io ℕ
append_some path bytes =
    operate (λ d. store path (contents path d ++ taken d bytes) d) keep
      (λ d. length (taken d bytes))

-- `sync_data`, `flush`
unfoldable pub sync : Io (Unit {0})
sync = operate keep keep (λ d. tt)

unfoldable pub remove_file : Bytes → Io (Unit {0})
remove_file path = operate (λ d. record d { files = Map.remove path d.files }) keep (λ d. tt)
