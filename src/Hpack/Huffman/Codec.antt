-- ===== src/Hpack/Huffman/Codec.antt =====
-- `decode` is the inverse of `encode`, and no code is a prefix of another. The facts about the
-- tables are checked over all of their entries.
use mathlib.Core.Path.{subst, ap₂}
use h2pp.Prelude.{
  ℕ, ◌*◌, ◌/◌, ◌^◌, ◌-◌, ◌<◌, ◌≤◌, ◌≡◌, ◌↔◌, refl, sym, ap, ◌∙◌, arith, List, [], ◌∷◌, Option, none,
  some, Bool, true, false, ◌&&◌, ◌||◌, ◌==◌, ==_iff, ltb, leb, length, get_elem?, get_elem?-lt,
  get_elem?-total, Bool-cases, ltb→lt, inl, inr,
}
use h2pp.Prelude.Bytes.{all_below, all_below-true}
use h2pp.Hpack.Huffman.{encode, decode, checked}
use h2pp.Hpack.Huffman.Codes.{HuffmanCode, code, huffman_table}
use h2pp.Hpack.Huffman.Hash.{code_len_array, find}

-- The first `len` bits of a left-aligned word of 32 bits.
abbrev pub truncated : ℕ → ℕ → ℕ
truncated w len = w / 2 ^ (32 - len) * 2 ^ (32 - len)

abbrev decodes_to : Option ℕ → ℕ → Bool
decodes_to none v = false
decodes_to (some w) v = w == v

abbrev pub is_missing : Option ℕ → Bool
is_missing none = true
is_missing (some w) = false

-- No prefix of an allowed length below `c.bit_length` decodes.
abbrev pub no_prefix : List ℕ → HuffmanCode → Bool
no_prefix [] c = true
no_prefix (len ∷ lens) c =
    (leb c.bit_length len || is_missing (decode (code (truncated c.huffman_code len) len)))
    && no_prefix lens c

abbrev pub is_member : ℕ → List ℕ → Bool
is_member x [] = false
is_member x (y ∷ ys) = (x == y) || is_member x ys

-- What is checked of the table's entry for `v`.
abbrev entry_test : Option HuffmanCode → ℕ → Bool
entry_test none v = false
entry_test (some c) v =
    decodes_to (decode c) v
    && (no_prefix code_len_array c
        && (is_member c.bit_length code_len_array
            && ((truncated c.huffman_code c.bit_length == c.huffman_code)
                && ltb c.huffman_code (2 ^ 32))))

table_test : all_below 257 (λ v. entry_test (encode v) v) ≡ true
unfolding all_below encode decode huffman_table find code_len_array
table_test = refl

length-huffman_table : length huffman_table ≡ 257
unfolding huffman_table
length-huffman_table = refl

pub encode-lt : (v : ℕ) {c : HuffmanCode} → encode v ≡ some c → v < 257
unfolding encode
encode-lt v e = omega (arith, get_elem?-lt huffman_table v e, length-huffman_table)

pub encode_total : (v : ℕ) → v < 257 → (c : HuffmanCode) × (encode v ≡ some c)
unfolding encode
encode_total v h = get_elem?-total huffman_table v (omega (arith, length-huffman_table))

entry_of : (v : ℕ) {c : HuffmanCode} → encode v ≡ some c → entry_test (some c) v ≡ true
entry_of v {c} e =
    subst (λ o. entry_test o v ≡ true) e
      (all_below-true 257 (λ w. entry_test (encode w) w) v table_test (encode-lt v e))

checked_inv :
    (o : Option ℕ) (c : HuffmanCode) (v : ℕ)
    → checked o c ≡ some v
    → get_elem? huffman_table v ≡ some c
checked_inv none c v e = cc
checked_inv (some index) c v e = ground arith

decode_inv : (c : HuffmanCode) (v : ℕ) → decode c ≡ some v → encode v ≡ some c
unfolding decode encode
decode_inv c v e = checked_inv (find c.huffman_code) c v e

-- What the table says of the code of `v`.
pub record IsCodeOf (c : HuffmanCode) (v : ℕ) : Type 0 where
  pub decodes : decode c ≡ some v
  pub no_shorter : no_prefix code_len_array c ≡ true
  pub allowed : is_member c.bit_length code_len_array ≡ true
  pub aligned : truncated c.huffman_code c.bit_length ≡ c.huffman_code
  pub word : c.huffman_code < 2 ^ 32

decodes_to→eq : (o : Option ℕ) (v : ℕ) → decodes_to o v ≡ true → o ≡ some v
decodes_to→eq none v h = cc
decodes_to→eq (some w) v h = ap some ((==_iff w v).0 h)

IsCodeOf-of_test : (c : HuffmanCode) (v : ℕ) → entry_test (some c) v ≡ true → IsCodeOf c v
IsCodeOf-of_test c v h = record {
  decodes = decodes_to→eq (decode c) v (ground arith);
  no_shorter = ground arith;
  allowed = ground arith;
  aligned = ground arith;
  word = ground arith;
}

pub encode-IsCodeOf : (v : ℕ) (c : HuffmanCode) → encode v ≡ some c → IsCodeOf c v
encode-IsCodeOf v c e = IsCodeOf-of_test c v (entry_of v e)

-- `decode` finds a symbol for a code exactly where `encode` gives that code for the symbol.
pub decode-encode_iff : (c : HuffmanCode) (v : ℕ) → (decode c ≡ some v) ↔ (encode v ≡ some c)
decode-encode_iff c v = (decode_inv c v, λ e. (encode-IsCodeOf v c e).decodes)

-- The prefixes of a code that are shorter than it do not decode, at the lengths that the reader tries.
pub no_prefix-missing :
    (lens : List ℕ) (c : HuffmanCode) (len : ℕ)
    → no_prefix lens c ≡ true
    → is_member len lens ≡ true
    → len < c.bit_length
    → decode (code (truncated c.huffman_code len) len) ≡ none
no_prefix-missing [] c len n m h = cc
no_prefix-missing (l ∷ lens) c len n m h = ground (arith, no_prefix-missing lens c len)

-- The code is prefix-free: a code whose first bits are another one is that one, and belongs to the
-- same symbol.
pub encode_prefix_free :
    (v w : ℕ) (c d : HuffmanCode)
    → encode v ≡ some c
    → encode w ≡ some d
    → c.bit_length ≤ d.bit_length
    → truncated d.huffman_code c.bit_length ≡ c.huffman_code
    → v ≡ w
encode_prefix_free v w c d ec ed h e =
    let f = encode-IsCodeOf v c ec in
    let g = encode-IsCodeOf w d ed in
    elim (Bool-cases (ltb c.bit_length d.bit_length)) [
      | inl shorter ↦
          let missing : decode (code (truncated d.huffman_code c.bit_length) c.bit_length) ≡ none =
            no_prefix-missing code_len_array d c.bit_length g.no_shorter f.allowed
              (ltb→lt _ _ shorter) in
          cc (f.decodes, missing, ap (λ x. decode (code x c.bit_length)) e)
      | inr same_length ↦
          let len : c.bit_length ≡ d.bit_length = ground arith in
          let word : c.huffman_code ≡ d.huffman_code = sym e ∙ rw len g.aligned in
          cc (f.decodes, g.decodes, ap₂ (λ x y. decode (code x y)) word len)
    ]
