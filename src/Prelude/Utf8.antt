-- ===== src/Prelude/Utf8.antt =====
-- `String::from_utf8` succeeds exactly on well-formed UTF-8.
use consensus_bft.Prelude.Tests.{ltb, leb, nat_beq}
use Prim.Native.Nat.{ℕ, zero, suc}
use mathlib.Core.List.{[], ◌∷◌}
use mathlib.Core.Bool.{Bool, true, false, ◌&&◌}
use consensus_bft.Prelude.Words.{Bytes}

abbrev between : ℕ → ℕ → ℕ → Bool
between lo hi b = leb lo b && leb b hi

-- How many continuation bytes a first byte announces, with the range of the next byte; a byte that
-- begins no character announces none and has the empty range.
pub data Lead : Type 0 where
  ascii invalid : Lead
  more : ℕ → ℕ → ℕ → Lead

abbrev if_lead : Bool → Lead → Lead → Lead
if_lead true a b = a
if_lead false a b = b

lead : ℕ → Lead
lead b = if_lead (ltb b 0x80) ascii (
    if_lead (between 0xc2 0xdf b) (more 0 0x80 0xbf) (
      if_lead (nat_beq b 0xe0) (more 1 0xa0 0xbf) (
        if_lead (nat_beq b 0xed) (more 1 0x80 0x9f) (
          if_lead (between 0xe1 0xef b) (more 1 0x80 0xbf) (
            if_lead (nat_beq b 0xf0) (more 2 0x90 0xbf) (
              if_lead (between 0xf1 0xf3 b) (more 2 0x80 0xbf)
                (if_lead (nat_beq b 0xf4) (more 2 0x80 0x8f) invalid)))))))

-- What is awaited: a first byte, or a byte in a range with so many continuation bytes behind it.
pub data Awaits : Type 0 where
  first : Awaits
  within : ℕ → ℕ → ℕ → Awaits

abbrev awaits_more : ℕ → Awaits
awaits_more zero = first
awaits_more (suc n) = within n 0x80 0xbf

abbrev begin : Lead → (Awaits → Bool) → Bool
begin ascii go = go first
begin invalid go = false
begin (more n lo hi) go = go (within n lo hi)

utf8_from : Bytes → Awaits → Bool
unfolding lead
utf8_from [] first = true
utf8_from [] (within n lo hi) = false
utf8_from (b ∷ bs) first = begin (lead b) (utf8_from bs)
utf8_from (b ∷ bs) (within n lo hi) = between lo hi b && utf8_from bs (awaits_more n)

unfoldable pub is_utf8 : Bytes → Bool
unfolding utf8_from
is_utf8 bs = utf8_from bs first
