-- ===== src/Wal/Log/Frames.antt =====
-- src/wal.rs: the records of a log file, as `save` writes them and `load` reads them.
use consensus_bft.Prelude.{
  ℕ, zero, suc, ◌+◌, ◌%◌, ◌<◌, ◌≤◌, ◌≡◌, refl, ap, sym, ◌∙◌, some, List, [], ◌∷◌, ◌++◌, take, drop,
  length, arith, All, get_elem?, length-append, take-length-append, drop-length-append,
}
use mathlib.Core.List.{append_assoc}
use consensus_bft.Prelude.Words.{
  Bytes, u32_mod, le_bytes, of_le_bytes, of_le_bytes-le_bytes, length-le_bytes,
}
use consensus_bft.Wal.Log.{frame, read_frames}

abbrev pub frames : List (ℕ × Bytes) → Bytes
frames [] = []
frames (m ∷ ms) = frame m ++ frames ms

-- Each text fits in a `u32` length.
abbrev pub TextsFit : List (ℕ × Bytes) → Type 0
TextsFit = All (λ m. length m.1 < u32_mod)

get_elem?-after : (n x : ℕ) (m r : Bytes) → n ≡ length m → get_elem? (m ++ x ∷ r) n ≡ some x
get_elem?-after zero x [] r h = refl
get_elem?-after zero x (b ∷ m) r h = absurd (omega arith)
get_elem?-after (suc n) x [] r h = absurd (omega arith)
get_elem?-after (suc n) x (b ∷ m) r h = get_elem?-after n x m r (omega arith)

drop-after : (n x : ℕ) (m r : Bytes) → n ≡ length m → drop (suc n) (m ++ x ∷ r) ≡ r
drop-after zero x [] r h = refl
drop-after zero x (b ∷ m) r h = absurd (omega arith)
drop-after (suc n) x [] r h = absurd (omega arith)
drop-after (suc n) x (b ∷ m) r h = drop-after n x m r (omega arith)

-- One round of `load`.
read_frames-some :
    (fuel mtype : ℕ) (window msg rest : Bytes)
    → get_elem? window 4 ≡ some mtype
    → of_le_bytes (take 4 window) ≡ length msg
    → drop 5 window ≡ msg ++ rest
    → read_frames (suc fuel) window ≡ (mtype, msg) ∷ read_frames fuel rest
unfolding read_frames
read_frames-some fuel mtype window msg rest e size cut =
    rw (e, read_frames)
      (rw
        (
          size,
          cut,
          take-length-append (length msg) msg rest refl,
          drop-length-append (length msg) msg rest refl,
        )
        (ground (arith, length-append msg rest)))

read_frames-step :
    (fuel mtype : ℕ) (msg rest : Bytes)
    → length msg < u32_mod
    → read_frames (suc fuel) (frame (mtype, msg) ++ rest) ≡ (mtype, msg) ∷ read_frames fuel rest
read_frames-step fuel mtype msg rest fits =
    let n = length msg % u32_mod in
    let mark = le_bytes 4 n in
    let four : 4 ≡ length mark = sym (length-le_bytes 4 n) in
    let grouped : frame (mtype, msg) ++ rest ≡ mark ++ (mtype ∷ (msg ++ rest)) =
      append_assoc mark (mtype ∷ msg) rest in
    let size : of_le_bytes mark ≡ length msg =
      of_le_bytes-le_bytes 4 n (omega arith) ∙ omega arith in
    ap (read_frames (suc fuel)) grouped
    ∙ read_frames-some fuel mtype (mark ++ (mtype ∷ (msg ++ rest))) msg rest
        (get_elem?-after 4 mtype mark (msg ++ rest) four)
        (ap of_le_bytes (take-length-append 4 mark (mtype ∷ (msg ++ rest)) four) ∙ size)
        (drop-after 4 mtype mark (msg ++ rest) four)

pub length-frame : (m : ℕ × Bytes) → length (frame m) ≡ 5 + length m.1
length-frame (mtype, msg) = omega (
  arith,
  length-append (le_bytes 4 (length msg % u32_mod)) (mtype ∷ msg),
  length-le_bytes 4 (length msg % u32_mod),
)

-- The records of a log file whose texts fit a `u32` length are read as they were framed, in order,
-- when the fuel is the length of the file or more.
pub read_frames-frames :
    (fuel : ℕ) (ms : List (ℕ × Bytes))
    → TextsFit ms
    → length (frames ms) ≤ fuel
    → read_frames fuel (frames ms) ≡ ms
read_frames-frames zero [] fit enough = unfold read_frames in refl
read_frames-frames (suc fuel) [] fit enough = unfold read_frames in refl
read_frames-frames zero (m ∷ ms) fit enough =
    absurd (omega (arith, length-append (frame m) (frames ms), length-frame m))
read_frames-frames (suc fuel) ((mtype, msg) ∷ ms) fit enough =
    read_frames-step fuel mtype msg (frames ms) fit.0
    ∙ ap (◌∷◌ (mtype, msg)) (
        read_frames-frames fuel ms fit.1 (
          omega (arith, length-append (frame (mtype, msg)) (frames ms), length-frame (mtype, msg))))

pub frames-append : (ms ns : List (ℕ × Bytes)) → frames (ms ++ ns) ≡ frames ms ++ frames ns
frames-append [] ns = refl
frames-append (m ∷ ms) ns =
    ap (◌++◌ (frame m)) (frames-append ms ns) ∙ sym (append_assoc (frame m) (frames ms) (frames ns))
