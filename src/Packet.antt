-- ===== src/Packet.antt =====
-- The parts of bess/core/packet.h and pktbatch.h that the shapers use. A packet is known by the index
-- of its buffer; the addresses are the `src` and `dst` fields of its IPv4 header.
use flow_bundler.Common.{
  ℕ, zero, suc, ◌+◌, ◌<◌, ◌≡◌, List, [], ◌∷◌, ◌++◌, length, take, set, refl, ap, arith,
}

pub record Packet : Type 0 where
  pub buffer : ℕ
  pub total_len : ℕ
  pub src : ℕ  -- be32_t
  pub dst : ℕ  -- be32_t

-- The array keeps the packets of earlier rounds behind the first `cnt`.
pub record PacketBatch : Type 0 where
  pub cnt : ℕ
  pub pkts : List Packet

abbrev pub max_burst : ℕ
max_burst = 32

abbrev pub clear : PacketBatch → PacketBatch
clear b = record b { cnt = 0 }

abbrev pub set_cnt : PacketBatch → ℕ → PacketBatch
set_cnt b n = record b { cnt = n }

-- `add` has no bounds check: the array must have a slot left.
unfoldable pub add : PacketBatch → Packet → PacketBatch
add b p = record b { pkts = set b.pkts b.cnt p; cnt = b.cnt + 1 }

-- The packets of a batch.
abbrev pub live : PacketBatch → List Packet
live b = take b.cnt b.pkts

take-set {ℓ} :
    {A : Type ℓ} (xs : List A) (n : ℕ) (v : A)
    → n < length xs
    → take (suc n) (set xs n v) ≡ take n xs ++ v ∷ []
take-set [] n v h = absurd (omega arith)
take-set (x ∷ xs) zero v h = refl
take-set (x ∷ xs) (suc n) v h = ap (◌∷◌ x) (take-set xs n v (omega arith))

pub live-add :
    (b : PacketBatch) (p : Packet) → b.cnt < length b.pkts → live (add b p) ≡ live b ++ p ∷ []
unfolding add
live-add b p h = let e : b.cnt + 1 ≡ suc b.cnt = omega arith in rw e (take-set b.pkts b.cnt p h)
