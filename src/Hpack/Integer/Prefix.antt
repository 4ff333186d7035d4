-- ===== src/Hpack/Integer/Prefix.antt =====
-- The masks that the four prefix lengths of HPACK give, as arithmetic.
use h2pp.Prelude.{
  ℕ, zero, suc, ◌+◌, ◌-◌, ◌*◌, ◌/◌, ◌%◌, ◌^◌, ◌≤◌, ◌<◌, ◌≡◌, refl, bit_and, bit_or, arith,
}
use h2pp.Prelude.Bytes.{make_mask, all_below, agree_below}
use h2pp.Hpack.Integer.{prefix_mask}

-- `m` is 2 to the number of bits that a prefix of `bitlen` flag bits leaves in a byte.
pub record IsPrefix (bitlen m : ℕ) : Type 0 where
  pub allowed : (1 ≤ bitlen) × (bitlen ≤ 4)
  pub power : m ≡ 2 ^ (8 - bitlen)
  pub size : (16 ≤ m) × (m ≤ 128)
  pub mask : prefix_mask bitlen ≡ m - 1
  pub low : (x : ℕ) → x < 256 → bit_and x (m - 1) ≡ x % m
  pub strip : (init x : ℕ) → init % m ≡ 0 → x < m → (init + x) % m ≡ x
  pub room : (init : ℕ) → init < 256 → init % m ≡ 0 → init + m ≤ 256
  pub join : (init x : ℕ) → init < 256 → init % m ≡ 0 → x < m → bit_or init x ≡ init + x

-- Flag bits and a prefix are joined by addition, once this holds of every byte cut at `m`.
disjoint_or :
    (m : ℕ)
    → ((x : ℕ) → x < 256 → bit_or (x / m * m) (x % m) ≡ x)
    → (init x : ℕ) → init + x < 256
    → (init + x) / m * m ≡ init
    → (init + x) % m ≡ x
    → bit_or init x ≡ init + x
disjoint_or m table init x h high low = ground (arith, table (init + x))

pub one_bit : IsPrefix 1 128
unfolding prefix_mask all_below
one_bit = record {
  allowed = omega arith;
  power = refl;
  size = omega arith;
  mask = refl;
  low = agree_below 256 _ _ refl;
  strip = λ init x z h. omega arith;
  room = λ init h z. omega arith;
  join = λ init x h z hx.
      disjoint_or 128 (agree_below 256 _ _ refl) init x (omega arith) (omega arith) (omega arith);
}

pub two_bits : IsPrefix 2 64
unfolding prefix_mask all_below
two_bits = record {
  allowed = omega arith;
  power = refl;
  size = omega arith;
  mask = refl;
  low = agree_below 256 _ _ refl;
  strip = λ init x z h. omega arith;
  room = λ init h z. omega arith;
  join = λ init x h z hx.
      disjoint_or 64 (agree_below 256 _ _ refl) init x (omega arith) (omega arith) (omega arith);
}

pub three_bits : IsPrefix 3 32
unfolding prefix_mask all_below
three_bits = record {
  allowed = omega arith;
  power = refl;
  size = omega arith;
  mask = refl;
  low = agree_below 256 _ _ refl;
  strip = λ init x z h. omega arith;
  room = λ init h z. omega arith;
  join = λ init x h z hx.
      disjoint_or 32 (agree_below 256 _ _ refl) init x (omega arith) (omega arith) (omega arith);
}

pub four_bits : IsPrefix 4 16
unfolding prefix_mask all_below
four_bits = record {
  allowed = omega arith;
  power = refl;
  size = omega arith;
  mask = refl;
  low = agree_below 256 _ _ refl;
  strip = λ init x z h. omega arith;
  room = λ init h z. omega arith;
  join = λ init x h z hx.
      disjoint_or 16 (agree_below 256 _ _ refl) init x (omega arith) (omega arith) (omega arith);
}

-- `decode` accepts the lengths 1 to 4, and each of them is a prefix.
pub prefix_of : (bitlen : ℕ) → 1 ≤ bitlen → bitlen ≤ 4 → (m : ℕ) × IsPrefix bitlen m
prefix_of zero p q = absurd (omega arith)
prefix_of (suc zero) p q = (128, one_bit)
prefix_of (suc (suc zero)) p q = (64, two_bits)
prefix_of (suc (suc (suc zero))) p q = (32, three_bits)
prefix_of (suc (suc (suc (suc zero)))) p q = (16, four_bits)
prefix_of (suc (suc (suc (suc (suc n))))) p q = absurd (omega arith)

pub prefix_mask-lt : (bitlen : ℕ) → prefix_mask bitlen < 256
unfolding prefix_mask make_mask
prefix_mask-lt bitlen = omega arith
