-- ===== src/BitMap/Links.antt =====
-- A bit of a layer is set exactly while the word that it stands for is not zero.
use flow_bundler.Common.{
  ℕ, ◌+◌, ◌-◌, ◌*◌, ◌/◌, ◌^◌, ◌%◌, ◌<◌, ◌≡◌, ap, ◌∙◌, List, [], ◌∷◌, length, get_or, u64, sub64,
  bit_and, ◌==◌, if◌then◌else◌, arith,
}
use flow_bundler.Common.Bits.Digits.{bit}
use flow_bundler.Common.Bits.Masks.{bit_and_ones}
use flow_bundler.BitMap.{locate}

abbrev pub flag : ℕ → ℕ
flag x = if x == 0 then 0 else 1

-- Bit `j` of a layer.
abbrev pub bit_at : List ℕ → ℕ → ℕ
bit_at layer j = bit (j % 64) (get_or layer (j / 64) 0)

abbrev pub Above : List ℕ → List (List ℕ) → Type 0
Above layer [] = length layer ≡ 1
Above layer (u ∷ above) =
    (length layer ≡ 64 * length u)
    × ((w : ℕ) → w < length layer → bit_at u w ≡ flag (get_or layer w 0))

abbrev pub IsLinked : List (List ℕ) → Type 0
IsLinked [] = Unit {0}
IsLinked (layer ∷ above) =
    ((w : ℕ) → get_or layer w 0 < 2 ^ 64) × Above layer above × IsLinked above

-- The slots of a bitmap.
abbrev pub slots : List (List ℕ) → ℕ
slots [] = 0
slots (layer ∷ above) = 64 * length layer

abbrev pub slot : List (List ℕ) → ℕ → ℕ
slot [] j = 0
slot (layer ∷ above) j = bit_at layer j

pub locate_lem : (i : ℕ) → i < 2 ^ 63 → locate i ≡ (i / 64, i % 64)
unfolding locate
locate_lem i h =
    let tail : bit_and (u64 (i + 1)) 63 ≡ (i + 1) % 64 =
      bit_and_ones 6 (u64 (i + 1)) ∙ omega arith in
    let word : (if (i + 1) % 64 == 0 then sub64 (u64 (i + 1) / 2 ^ 6) 1 else u64 (i + 1) / 2 ^ 6)
        ≡ i / 64 =
      ground arith in
    let seq : (if (i + 1) % 64 == 0 then 63 else (i + 1) % 64 - 1) ≡ i % 64 = ground arith in
    rw (tail) (
      ap (λ a. (a, (if (i + 1) % 64 == 0 then 63 else (i + 1) % 64 - 1))) word
      ∙ ap (λ a. (i / 64, a)) seq)
