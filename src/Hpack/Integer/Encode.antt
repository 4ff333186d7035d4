-- ===== src/Hpack/Integer/Encode.antt =====
-- What `encode` writes: one to five bytes, inside `value[5]`.
use native.Mathlib.Nat.{pow-suc, mod-eq_of_lt}
use h2pp.Prelude.{
  ℕ, zero, suc, ◌+◌, ◌-◌, ◌/◌, ◌%◌, ◌^◌, ◌≤◌, ◌<◌, ◌≡◌, arith, List, [], ◌∷◌, length, ok, ltb,
  ltb→lt, leb, inl, inr, Bool-cases, first_returned, ◌⊎◌, All, bit_and, bit_or,
}
use h2pp.Prelude.Bytes.{IsByte, and_0x7f, or_0x80}
use h2pp.Hpack.Integer.{encode_groups, encode, max_hpack_int}
use h2pp.Hpack.Integer.Prefix.{IsPrefix, prefix_of}

-- The two kinds of bytes that the loop writes.
pub last_group : (v : ℕ) → bit_and (v % 256) 0x7f ≡ v % 128
last_group v = omega (arith, and_0x7f (v % 256) (omega arith))

pub inner_group : (v : ℕ) → bit_or (bit_and (v % 256) 0x7f) 0x80 ≡ v % 128 + 128
inner_group v = rw last_group (or_0x80 (v % 128) (omega arith))

pub encode_groups_last : (k v : ℕ) → v < 128 → encode_groups (suc k) v ≡ ok (v ∷ [])
unfolding encode_groups
encode_groups_last k v h = ground (arith, last_group v)

pub encode_groups_more :
    (k v : ℕ) (gs : List ℕ)
    → 128 ≤ v
    → encode_groups k (v / 128) ≡ ok gs
    → encode_groups (suc k) v ≡ ok ((v % 128 + 128) ∷ gs)
unfolding encode_groups
encode_groups_more k v gs h e = ground (arith, inner_group v)

-- The two ways in which the loop may have ended.
pub encode_groups_inv :
    (k v : ℕ) (gs : List ℕ)
    → encode_groups (suc k) v ≡ ok gs
    → ((v < 128) × (gs ≡ v ∷ []))
      ⊎ ((more : List ℕ) × (encode_groups k (v / 128) ≡ ok more) × (gs ≡ (v % 128 + 128) ∷ more))
unfolding encode_groups
encode_groups_inv k v gs e = elim (Bool-cases (leb 0x80 v)) [
  | inr done ↦ inl (ground arith, ground (arith, last_group v))
  | inl more ↦
      let (gs', f, g) = first_returned _ (encode_groups k (v / 128)) (rw more at e) in
      inr (gs', f, ground (arith, inner_group v))
]

-- The bytes that the loop writes are bytes, and fit in the slots.
abbrev pub GroupsFit : ℕ → ℕ → Type 0
GroupsFit slots v =
    (gs : List ℕ) × (encode_groups slots v ≡ ok gs)
    × All IsByte gs
    × (1 ≤ length gs)
    × (length gs ≤ slots)

next_bound : (k v : ℕ) → v < 128 ^ suc (suc k) → v / 128 < 128 ^ suc k
next_bound k v h = omega (arith, pow-suc 128 (suc k))

pub encode_groups-GroupsFit : (k v : ℕ) → v < 128 ^ suc k → GroupsFit (suc k) v
encode_groups-GroupsFit zero v h =
    (v ∷ [], encode_groups_last zero v h, omega arith, omega arith, omega arith)
encode_groups-GroupsFit (suc k) v h = elim (Bool-cases (leb 0x80 v)) [
  | inl more ↦
      let (gs, e, b, l, u) = encode_groups-GroupsFit k (v / 128) (next_bound k v h) in
      (
        (v % 128 + 128) ∷ gs,
        encode_groups_more (suc k) v gs (ground arith) e,
        (omega arith, b),
        omega arith,
        omega arith,
      )
  | inr done ↦
      (v ∷ [], encode_groups_last (suc k) v (ground arith), ground arith, omega arith, omega arith)
]

-- The two forms of an encoding: all in the prefix, or a full prefix and groups.
pub encode_short :
    {bitlen m : ℕ} (p : IsPrefix bitlen m) (init v : ℕ)
    → init < 256
    → init % m ≡ 0
    → v < m - 1
    → encode init bitlen v ≡ ok ((init + v) ∷ [])
unfolding encode
encode_short {m = m} p init v h z hv = ground (
  arith,
  p.mask,
  p.size,
  p.low v,
  p.join init v,
  mod-eq_of_lt {n = v} {m = m},
  mod-eq_of_lt {n = v} {m = 256},
)

pub encode_long :
    {bitlen m : ℕ} (p : IsPrefix bitlen m) (init v : ℕ) (gs : List ℕ)
    → init < 256
    → init % m ≡ 0
    → m - 1 ≤ v
    → v ≤ max_hpack_int
    → encode_groups 4 (v - (m - 1)) ≡ ok gs
    → encode init bitlen v ≡ ok ((init + (m - 1)) ∷ gs)
unfolding encode
encode_long {m = m} p init v gs h z lo hi e = ground (arith, p.mask, p.size, p.join init (m - 1), e)

-- The two ways in which `encode` may have ended.
pub encode_inv :
    {bitlen m : ℕ} (p : IsPrefix bitlen m) (init v : ℕ) (bs : List ℕ)
    → init < 256
    → init % m ≡ 0
    → encode init bitlen v ≡ ok bs
    → (v ≤ max_hpack_int)
      × (((v < m - 1) × (bs ≡ (init + v) ∷ []))
          ⊎ ((gs : List ℕ) × (m - 1 ≤ v)
              × (encode_groups 4 (v - (m - 1)) ≡ ok gs)
              × (bs ≡ (init + (m - 1)) ∷ gs)))
encode_inv {m = m} p init v bs h z e = elim (Bool-cases (ltb max_hpack_int v)) [
  | inl big ↦ unfold encode in cc big
  | inr fits ↦ elim (Bool-cases (ltb v (m - 1))) [
    | inl short ↦ (ground arith, inl (ground arith, cc (encode_short p init v h z (ground arith))))
    | inr long ↦
        let (gs, f, b, l, u) = encode_groups-GroupsFit 3 (v - (m - 1)) (ground arith) in
        (
          ground arith,
          inr (
            gs,
            ground arith,
            f,
            cc (encode_long p init v gs h z (ground arith) (ground arith) f),
          ),
        )
  ]
]

-- Every integer that HPACK allows is encoded, in one to five bytes.
pub encode_total :
    (init bitlen v : ℕ)
    → init < 256
    → 1 ≤ bitlen
    → bitlen ≤ 4
    → init % 2 ^ (8 - bitlen) ≡ 0
    → v ≤ max_hpack_int
    → (bs : List ℕ) × (encode init bitlen v ≡ ok bs)
      × All IsByte bs
      × (1 ≤ length bs)
      × (length bs ≤ 5)
encode_total init bitlen v hi lo up z hv =
    let (m, p) = prefix_of bitlen lo up in
    let z' : init % m ≡ 0 = rw p.power z in
    elim (Bool-cases (ltb v (m - 1))) [
      | inl short ↦ (
        (init + v) ∷ [],
        encode_short p init v hi z' (ground arith),
        omega (arith, p.room init hi z', ltb→lt _ _ short),
        omega arith,
        omega arith,
      )
      | inr long ↦
          let (gs, e, b, l, u) = encode_groups-GroupsFit 3 (v - (m - 1)) (omega arith) in
          (
            (init + (m - 1)) ∷ gs,
            encode_long p init v gs hi z' (ground arith) hv e,
            (omega (arith, p.room init hi z', p.size), b),
            omega arith,
            omega arith,
          )
    ]
