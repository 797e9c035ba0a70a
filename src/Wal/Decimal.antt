-- ===== src/Wal/Decimal.antt =====
-- `u64::to_string` and `str::parse::<u64>`, by which src/wal.rs names its files and keeps the height
-- in the index file. Twenty digits are enough for a `u64`.
use consensus_bft.Prelude.{
  ℕ, zero, suc, ◌+◌, ◌-◌, ◌*◌, ◌/◌, ◌%◌, ◌^◌, ◌<◌, ◌≤◌, ◌≡◌, ◌≢◌, refl, ap, sym, ◌∙◌, Bool, ◌&&◌,
  Option, none, some, [], ◌∷◌, ◌++◌, ltb, leb, arith, ◌==◌, nat_eq, if◌then◌else◌, some_eq,
  Option-cases, inl, inr,
}
use native.Mathlib.Nat.{pow-suc}
use native.Mathlib.Decide.{dec_lt}
use consensus_bft.Prelude.Words.{Bytes, u64_mod}

unfoldable pub digits_of : ℕ → ℕ → Bytes
digits_of zero n = []
digits_of (suc f) n =
    let rest = digits_of f (n / 10) in
    if ltb n 10 then (48 + n) ∷ [] else rest ++ (48 + n % 10) ∷ []

unfoldable pub to_string : ℕ → Bytes
unfolding digits_of
to_string n = digits_of 20 n

abbrev is_digit : ℕ → Bool
is_digit c = leb 48 c && leb c 57

-- One more digit, if the number still fits.
abbrev push_digit : ℕ → ℕ → Option ℕ
push_digit acc c =
    if is_digit c && ltb (acc * 10 + (c - 48)) u64_mod then some (acc * 10 + (c - 48)) else none

abbrev bind : {A B : Type 0} → Option A → (A → Option B) → Option B
bind none f = none
bind (some a) f = f a

unfoldable pub scan : ℕ → Bytes → Option ℕ
scan acc [] = some acc
scan acc (c ∷ s) = bind (push_digit acc c) (λ n. scan n s)

abbrev scan_some : Bytes → Option ℕ
scan_some [] = none
scan_some (c ∷ s) = scan 0 (c ∷ s)

-- A leading `+` is accepted.
unfoldable pub parse_u64 : Bytes → Option ℕ
unfolding scan
parse_u64 [] = none
parse_u64 (c ∷ s) = if c == b'+' then scan_some s else scan 0 (c ∷ s)

scan-snoc :
    (acc : ℕ) (s : Bytes) (c : ℕ) → scan acc (s ++ c ∷ []) ≡ bind (scan acc s) (λ n. push_digit n c)
unfolding scan
scan-snoc acc [] c = ground arith
scan-snoc acc (b ∷ s) c = elim (Option-cases (push_digit acc b)) [
  | inl e ↦ rw e
  | inr (m, e) ↦ rw e (scan-snoc m s c)
]

digits_of_small : (f n : ℕ) → n < 10 → digits_of (suc f) n ≡ (48 + n) ∷ []
unfolding digits_of
digits_of_small f n h = ground arith

digits_of_large :
    (f n : ℕ) → 10 ≤ n → digits_of (suc f) n ≡ digits_of f (n / 10) ++ (48 + n % 10) ∷ []
unfolding digits_of
digits_of_large f n h = ground arith

push_digit_lem :
    (m d : ℕ) → d < 10 → m * 10 + d < u64_mod → push_digit m (48 + d) ≡ some (m * 10 + d)
push_digit_lem m d h k = ground arith

scan-digits_of : (f n : ℕ) → n < 10 ^ f → n < u64_mod → 0 < f → scan 0 (digits_of f n) ≡ some n
unfolding scan
scan-digits_of zero n h k p = absurd (omega arith)
scan-digits_of (suc zero) n h k p =
    rw (digits_of_small 0 n (omega arith), push_digit_lem 0 n (omega arith) (omega arith))
      (ap some (omega arith))
scan-digits_of (suc (suc f)) n h k p = elim (dec_lt n 10) [
  | yes small ↦
      rw (digits_of_small (suc f) n small, push_digit_lem 0 n small (omega arith))
        (ap some (omega arith))
  | no large ↦
      let tenth : n / 10 < 10 ^ suc f = omega (arith, pow-suc 10 (suc f)) in
      let joined : n / 10 * 10 + n % 10 ≡ n = omega arith in
      rw (
        digits_of_large (suc f) n (omega arith),
        scan-snoc 0 (digits_of (suc f) (n / 10)) (48 + n % 10),
        scan-digits_of (suc f) (n / 10) tenth (omega arith) (omega arith),
        push_digit_lem (n / 10) (n % 10) (omega arith) (omega arith),
        joined,
      )
]

-- A scanned text begins with a digit.
scan_digit : (c n : ℕ) (s : Bytes) → scan 0 (c ∷ s) ≡ some n → 48 ≤ c
unfolding scan
scan_digit c n s h = ground arith

parse_of_scan : (s : Bytes) (n : ℕ) → s ≢ [] → scan 0 s ≡ some n → parse_u64 s ≡ some n
unfolding parse_u64
parse_of_scan [] n ne h = absurd (ne refl)
parse_of_scan (c ∷ s) n ne h = ground (arith, scan_digit c n s h)

digits_of-ne-nil : (f n : ℕ) → digits_of (suc f) n ≢ []
unfolding digits_of
digits_of-ne-nil f n h = elim (dec_lt n 10) [
  | yes small ↦ cc (digits_of_small f n small)
  | no large ↦
      snoc-ne-nil (digits_of f (n / 10)) (48 + n % 10) (sym (digits_of_large f n (omega arith)) ∙ h)
]
  where
    snoc-ne-nil : (xs : Bytes) (x : ℕ) → xs ++ x ∷ [] ≢ []
    snoc-ne-nil [] x h = cc
    snoc-ne-nil (y ∷ xs) x h = cc

-- A printed `u64` is read back.
pub parse_u64-to_string : (n : ℕ) → n < u64_mod → parse_u64 (to_string n) ≡ some n
unfolding to_string
parse_u64-to_string n h =
    parse_of_scan (digits_of 20 n) n (digits_of-ne-nil 19 n)
      (scan-digits_of 20 n (omega arith) h (omega arith))

pub to_string_injective : (m n : ℕ) → m < u64_mod → n < u64_mod → to_string m ≡ to_string n → m ≡ n
to_string_injective m n hm hn h =
    some_eq (sym (parse_u64-to_string m hm) ∙ ap parse_u64 h ∙ parse_u64-to_string n hn)
