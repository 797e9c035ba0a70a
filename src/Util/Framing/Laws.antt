-- ===== src/Util/Framing/Laws.antt =====
-- src/util.rs: `extract` and `decode_block` against `combine` and `encode_block`.
use consensus_bft.Prelude.{
  ℕ, zero, suc, ◌∷◌, ◌+◌, ◌%◌, ◌<◌, ◌≤◌, ◌^◌, ◌≡◌, refl, ap, sym, ◌∙◌, [], ◌++◌, Outcome, ok, err,
  panic, length, take, drop, length-append, length-take, length-drop, take-append-drop,
  take-length-append, drop-length-append, arith,
}
use mathlib.Core.List.{append_assoc}
use native.Mathlib.Decide.{dec_lt}
use consensus_bft.Prelude.Words.{
  Bytes, AllBytes, u64_mod, add_u64, add_u64-eq-add, be_bytes, of_be_bytes, length-be_bytes,
  of_be_bytes-be_bytes, be_bytes-of_be_bytes, of_be_bytes-lt,
}
use consensus_bft.Error.{ConsensusError, decode_err}
use consensus_bft.Util.Framing.{split_at, combine, encode_block, extract, decode_block}

split_at-append : (n : ℕ) (xs ys : Bytes) → n ≡ length xs → split_at n (xs ++ ys) ≡ ok (xs, ys)
unfolding split_at
split_at-append n xs ys h =
    rw (take-length-append n xs ys h, drop-length-append n xs ys h)
      (ground (arith, length-append xs ys))

mark-lt : (n : ℕ) → n < u64_mod → of_be_bytes (be_bytes 8 n) ≡ n
mark-lt n h = of_be_bytes-be_bytes 8 n h

length-combine : (a b : Bytes) → length (combine a b) ≡ 8 + length a + length b
unfolding combine
length-combine a b = rw (length-append, length-append, length-be_bytes) (omega arith)

-- A length mark that the message covers.
extract_long :
    (e : Bytes)
    → of_be_bytes (take 8 e) + 8 < u64_mod
    → of_be_bytes (take 8 e) + 8 ≤ length e
    → let n = of_be_bytes (take 8 e) + 8 in extract e ≡ ok (drop 8 (take n e), drop n e)
unfolding extract split_at
extract_long e fits covered =
    rw (add_u64-eq-add (of_be_bytes (take 8 e)) 8 fits)
      (ground (arith, length-take (of_be_bytes (take 8 e) + 8) e))

extract_short :
    (e : Bytes)
    → of_be_bytes (take 8 e) + 8 < u64_mod
    → length e < of_be_bytes (take 8 e) + 8
    → extract e ≡ err (decode_err "Bytes is too short")
unfolding extract
extract_short e fits short = rw (add_u64-eq-add (of_be_bytes (take 8 e)) 8 fits) (ground arith)

AllBytes-take : (n : ℕ) (e : Bytes) → AllBytes e → AllBytes (take n e)
AllBytes-take zero e h = tt
AllBytes-take (suc n) [] h = tt
AllBytes-take (suc n) (b ∷ e) h = (h.0, AllBytes-take n e h.1)

mark-bound : (e : Bytes) → AllBytes e → 8 ≤ length e → of_be_bytes (take 8 e) < u64_mod
mark-bound e h long =
    let eight : length (take 8 e) ≡ 8 = omega (arith, length-take 8 e) in
    let bound : of_be_bytes (take 8 e) < 256 ^ length (take 8 e) =
      of_be_bytes-lt (take 8 e) (AllBytes-take 8 e h) in
    rw eight at bound

-- A message of eight bytes or more whose length mark is within eight of 2 ^ 64 makes `extract`
-- panic: the sum wraps, the first cut succeeds, and the second is out of range.
pub extract-panic :
    (e : Bytes)
    → AllBytes e
    → 8 ≤ length e
    → u64_mod ≤ of_be_bytes (take 8 e) + 8
    → extract e ≡ panic
unfolding extract split_at add_u64
extract-panic e bytes long wraps =
    let n = (of_be_bytes (take 8 e) + 8) % u64_mod in
    let small : n < 8 = omega (arith, mark-bound e bytes long) in ground (arith, length-take n e)

-- A framed pair is taken apart into its parts, if the first with its length mark is shorter than
-- 2 ^ 64.
pub extract-combine : (a b : Bytes) → length a + 8 < u64_mod → extract (combine a b) ≡ ok (a, b)
extract-combine a b h =
    let e = combine a b in
    let marked : take 8 e ≡ be_bytes 8 (length a) =
      unfold combine in
      take-length-append 8 (be_bytes 8 (length a)) (a ++ b) (sym (length-be_bytes 8 _)) in
    let mark : of_be_bytes (take 8 e) ≡ length a = rw marked (mark-lt (length a) (omega arith)) in
    let grouped : e ≡ (be_bytes 8 (length a) ++ a) ++ b =
      unfold combine in sym (append_assoc (be_bytes 8 (length a)) a b) in
    let front : length a + 8 ≡ length (be_bytes 8 (length a) ++ a) =
      omega (arith, length-append (be_bytes 8 (length a)) a, length-be_bytes 8 (length a)) in
    let cut : take (of_be_bytes (take 8 e) + 8) e ≡ be_bytes 8 (length a) ++ a =
      rw (mark, grouped) (take-length-append (length a + 8) (be_bytes 8 (length a) ++ a) b front) in
    let rest : drop (of_be_bytes (take 8 e) + 8) e ≡ b =
      rw (mark, grouped) (drop-length-append (length a + 8) (be_bytes 8 (length a) ++ a) b front) in
    let inner : drop 8 (be_bytes 8 (length a) ++ a) ≡ a =
      drop-length-append 8 (be_bytes 8 (length a)) a (sym (length-be_bytes 8 _)) in
    extract_long e (omega arith) (omega (arith, length-combine a b))
    ∙ (λ i. ok (((ap (drop 8) cut) ∙ inner) i, rest i))

extract_tiny : (e : Bytes) → length e < 8 → extract e ≡ err (decode_err "Bytes is too short")
unfolding extract
extract_tiny e h = ground arith

-- What `extract` accepts has a length mark that does not wrap and that the message covers.
extract_accepts :
    (e a b : Bytes)
    → AllBytes e
    → extract e ≡ ok (a, b)
    → (8 ≤ length e)
      × (of_be_bytes (take 8 e) + 8 < u64_mod)
      × (of_be_bytes (take 8 e) + 8 ≤ length e)
extract_accepts e a b bytes h = elim (dec_lt (length e) 8) [
  | yes tiny ↦ cc (extract_tiny e tiny)
  | no long ↦ elim (dec_lt (of_be_bytes (take 8 e) + 8) u64_mod) [
    | no wraps ↦ cc (extract-panic e bytes (omega arith) (omega arith))
    | yes fits ↦ elim (dec_lt (length e) (of_be_bytes (take 8 e) + 8)) [
      | yes short ↦ cc (extract_short e fits short)
      | no covered ↦ omega arith
    ]
  ]
]

ok_parts :
    (a b c d : Bytes) (r : Outcome ConsensusError (Bytes × Bytes))
    → r ≡ ok (a, b)
    → r ≡ ok (c, d)
    → (a ≡ c) × (b ≡ d)
ok_parts a b c d r h k = ground arith

take-take : (m n : ℕ) (e : Bytes) → m ≤ n → take m (take n e) ≡ take m e
take-take zero n e h = refl
take-take (suc m) zero e h = absurd (omega arith)
take-take (suc m) (suc n) [] h = refl
take-take (suc m) (suc n) (x ∷ e) h = ap (◌∷◌ x) (take-take m n e (omega arith))

-- Whatever `extract` accepts, of fewer than 2 ^ 64 bytes, is the frame of what it returns.
pub combine-extract :
    (e a b : Bytes) → AllBytes e → length e < u64_mod → extract e ≡ ok (a, b) → combine a b ≡ e
combine-extract e a b bytes small h =
    let (long, fits, covered) = extract_accepts e a b bytes h in
    let n = of_be_bytes (take 8 e) + 8 in
    let parts =
      ok_parts a b (drop 8 (take n e)) (drop n e) (extract e) h (extract_long e fits covered) in
    let one : a ≡ drop 8 (take n e) = parts.0 in
    let two : b ≡ drop n e = parts.1 in
    let size : length a ≡ of_be_bytes (take 8 e) =
      rw one (omega (arith, length-drop 8 (take n e), length-take n e)) in
    let eight : length (take 8 e) ≡ 8 = omega (arith, length-take 8 e) in
    let mark : be_bytes 8 (length a) ≡ take 8 e =
      rw size (rw eight at (be_bytes-of_be_bytes (take 8 e) (AllBytes-take 8 e bytes))) in
    let front : take 8 e ++ drop 8 (take n e) ≡ take n e =
      ap (λ (t : Bytes). t ++ drop 8 (take n e)) (sym (take-take 8 n e (omega arith)))
      ∙ take-append-drop 8 (take n e) in
    unfold combine in
    rw (mark, one, two, ← append_assoc (take 8 e) (drop 8 (take n e)) (drop n e), front)
      (take-append-drop n e)

-- A block comes back with its height and its hash, if the height is a `u64` and the hash with its
-- length mark is shorter than 2 ^ 64.
pub decode_block-encode_block :
    (height : ℕ) (block block_hash : Bytes)
    → height < u64_mod
    → length block_hash + 8 < u64_mod
    → decode_block (encode_block height block block_hash) ≡ ok (height, block, block_hash)
unfolding decode_block encode_block
decode_block-encode_block height block block_hash fits short = rw (
  split_at-append 8 (be_bytes 8 height) (combine block_hash block) (sym (length-be_bytes 8 height)),
  extract-combine block_hash block short,
  mark-lt height fits,
)

-- A block message of fewer than eight bytes makes `decode_block` panic.
pub decode_block-panic : (e : Bytes) → length e < 8 → decode_block e ≡ panic
unfolding decode_block split_at
decode_block-panic e h = ground arith
