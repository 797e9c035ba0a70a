-- ===== src/Prelude/Words.antt =====
-- `u64` as native numbers below 2 ^ 64: arithmetic wraps, as in a release build, and the big-endian
-- and little-endian bytes of a number.
use Prim.Native.Nat.{ℕ, zero, suc, ◌+◌, ◌-◌, ◌*◌, ◌/◌, ◌%◌, ◌^◌, ◌<◌}
use mathlib.Core.Path.{◌≡◌, refl, ap, ◌∙◌}
use mathlib.Core.List.{List, [], ◌∷◌, ◌++◌, reverse, reverse-append, reverse-reverse}
use native.Mathlib.Omega.{arith}
use native.Mathlib.Nat.{pow-suc}
use consensus_bft.Prelude.Equality.{Eq, nat_eq, list_eq}
use consensus_bft.Prelude.Lists.{length, All, length-append}

abbrev pub Bytes : Type 0
Bytes = List ℕ

instance abbrev pub bytes_eq : Eq Bytes
bytes_eq = list_eq

abbrev pub u64_mod : ℕ
u64_mod = 2 ^ 64

abbrev pub u32_mod : ℕ
u32_mod = 2 ^ 32

-- `a + b`, `a - 1` on `u64` (and on `usize` of a 64-bit target).
unfoldable pub add_u64 : ℕ → ℕ → ℕ
add_u64 a b = (a + b) % u64_mod

unfoldable pub dec_u64 : ℕ → ℕ
dec_u64 a = (a + (u64_mod - 1)) % u64_mod

unfoldable pub mul_u64 : ℕ → ℕ → ℕ
mul_u64 a b = (a * b) % u64_mod

pub add_u64-eq-add : (a b : ℕ) → a + b < u64_mod → add_u64 a b ≡ a + b
unfolding add_u64
add_u64-eq-add a b h = omega arith

pub mul_u64-eq-mul : (a b : ℕ) → a * b < u64_mod → mul_u64 a b ≡ a * b
unfolding mul_u64
mul_u64-eq-mul a b h = omega arith

pub dec_u64-eq-sub : (a : ℕ) → 0 < a → a < u64_mod → dec_u64 a ≡ a - 1
unfolding dec_u64
dec_u64-eq-sub a p h = omega arith

pub dec_u64-zero : dec_u64 0 ≡ u64_mod - 1
unfolding dec_u64
dec_u64-zero = refl

abbrev pub AllBytes : Bytes → Type 0
AllBytes = All (λ b. b < 256)

-- The first byte is the least significant one (`from_le_bytes`).
unfoldable pub of_le_bytes : Bytes → ℕ
of_le_bytes [] = 0
of_le_bytes (b ∷ bs) = b + 256 * of_le_bytes bs

unfoldable pub le_bytes : ℕ → ℕ → Bytes
le_bytes zero n = []
le_bytes (suc k) n = n % 256 ∷ le_bytes k (n / 256)

-- The most significant byte comes first (`from_be_bytes`, `to_be_bytes` of `k` bytes).
unfoldable pub of_be_bytes : Bytes → ℕ
unfolding of_le_bytes
of_be_bytes bs = of_le_bytes (reverse bs)

unfoldable pub be_bytes : ℕ → ℕ → Bytes
unfolding le_bytes
be_bytes k n = reverse (le_bytes k n)

pub length-le_bytes : (k n : ℕ) → length (le_bytes k n) ≡ k
unfolding le_bytes
length-le_bytes zero n = refl
length-le_bytes (suc k) n = ap suc (length-le_bytes k (n / 256))

pub of_le_bytes-le_bytes : (k n : ℕ) → n < 256 ^ k → of_le_bytes (le_bytes k n) ≡ n
unfolding le_bytes of_le_bytes
of_le_bytes-le_bytes zero n h = omega arith
of_le_bytes-le_bytes (suc k) n h =
    let fits : n / 256 < 256 ^ k = omega (arith, pow-suc 256 k) in
    omega (arith, of_le_bytes-le_bytes k (n / 256) fits)

pub le_bytes-of_le_bytes : (bs : Bytes) → AllBytes bs → le_bytes (length bs) (of_le_bytes bs) ≡ bs
unfolding le_bytes of_le_bytes
le_bytes-of_le_bytes [] h = refl
le_bytes-of_le_bytes (b ∷ bs) h =
    let low : (b + 256 * of_le_bytes bs) % 256 ≡ b = omega arith in
    let high : (b + 256 * of_le_bytes bs) / 256 ≡ of_le_bytes bs = omega arith in
    rw (low, high) (ap (◌∷◌ b) (le_bytes-of_le_bytes bs h.1))

pub le_bytes-AllBytes : (k n : ℕ) → AllBytes (le_bytes k n)
unfolding le_bytes
le_bytes-AllBytes zero n = tt
le_bytes-AllBytes (suc k) n = (omega arith, le_bytes-AllBytes k (n / 256))

pub of_le_bytes-lt : (bs : Bytes) → AllBytes bs → of_le_bytes bs < 256 ^ length bs
unfolding of_le_bytes
of_le_bytes-lt [] h = omega arith
of_le_bytes-lt (b ∷ bs) h = omega (arith, of_le_bytes-lt bs h.1, pow-suc 256 (length bs))

length-reverse {ℓ} : {A : Type ℓ} (xs : List A) → length (reverse xs) ≡ length xs
length-reverse [] = refl
length-reverse (x ∷ xs) =
    rw (reverse-append (x ∷ []) xs, length-append) (omega (arith, length-reverse xs))

All-append : (xs ys : Bytes) → AllBytes xs → AllBytes ys → AllBytes (xs ++ ys)
All-append [] ys hx hy = hy
All-append (x ∷ xs) ys hx hy = (hx.0, All-append xs ys hx.1 hy)

All-reverse : (xs : Bytes) → AllBytes xs → AllBytes (reverse xs)
All-reverse [] h = tt
All-reverse (x ∷ xs) h =
    rw (reverse-append (x ∷ []) xs)
      (All-append (reverse xs) (x ∷ []) (All-reverse xs h.1) (h.0, tt))

pub length-be_bytes : (k n : ℕ) → length (be_bytes k n) ≡ k
unfolding be_bytes
length-be_bytes k n = length-reverse (le_bytes k n) ∙ length-le_bytes k n

pub of_be_bytes-be_bytes : (k n : ℕ) → n < 256 ^ k → of_be_bytes (be_bytes k n) ≡ n
unfolding be_bytes of_be_bytes
of_be_bytes-be_bytes k n h = rw reverse-reverse (of_le_bytes-le_bytes k n h)

pub be_bytes-of_be_bytes : (bs : Bytes) → AllBytes bs → be_bytes (length bs) (of_be_bytes bs) ≡ bs
unfolding be_bytes of_be_bytes
be_bytes-of_be_bytes bs h =
    rw (← length-reverse bs, le_bytes-of_le_bytes (reverse bs) (All-reverse bs h))
      (reverse-reverse bs)

pub of_be_bytes-lt : (bs : Bytes) → AllBytes bs → of_be_bytes bs < 256 ^ length bs
unfolding of_be_bytes
of_be_bytes-lt bs h = rw (← length-reverse bs) (of_le_bytes-lt (reverse bs) (All-reverse bs h))
