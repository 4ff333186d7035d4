-- ===== src/Hpack/Encoder/NewNames.antt =====
-- A literal with a new name: `encode` of lib/hpack/encoder.cpp and the commands of lib/hpack/decoder.cpp.
use h2pp.Prelude.{
  ℕ, zero, suc, ◌+◌, ◌<◌, ◌≤◌, List, [], ◌∷◌, ◌++◌, append_assoc, ok, ◌≡◌, refl, sym, ap, ◌∙◌,
  length, length-append, take, drop, All, All-append, arith,
}
use mathlib.Core.Path.{ap₂}
use h2pp.Prelude.Bytes.{IsByte, make_mask}
use h2pp.Hpack.Integer as Integer
use h2pp.Hpack.Integer.{prefix_mask}
use h2pp.Hpack.Bitstream.{Span, subspan}
use h2pp.Hpack.HpackString as HpackString
use h2pp.Hpack.HeaderField.{
  IndexType, default, without_index, never_index, HeaderField, header_field,
}
use h2pp.Hpack.DynamicTable.{DynamicTable}
use h2pp.Hpack.Command.{info}
use h2pp.Hpack.EncoderStream.{StringFlag}
use h2pp.Hpack.Decoder.{literal_name, literal_impl}
use h2pp.Hpack.Encoder.{encode_size, literal_command}
use h2pp.Hpack.Encoder.Sizes.{payload}
use h2pp.Hpack.Encoder.Decoded.{IsText, decode-placed}

-- The first byte of the literals with a new name.
abbrev pub first_byte : IndexType → ℕ
first_byte type = (info (literal_command type)).value

zero_index :
    (type : IndexType) (rest : List ℕ)
    → Integer.decode (info (literal_command type)).bitlen (first_byte type ∷ rest)
      ≡ ok (record { used_bytes = 1; value = 0 })
unfolding Integer.decode prefix_mask make_mask
zero_index default rest = refl
zero_index without_index rest = refl
zero_index never_index rest = refl

-- A string with its size, as it stands in a block.
pub record Written : Type 0 where
  pub flag : StringFlag
  pub size : List ℕ
  pub text : List ℕ
  pub is_text : IsText text
  pub size_of : encode_size flag (length (payload flag text)) ≡ ok size
  pub size_bytes : All IsByte size
  pub text_bytes : All IsByte (payload flag text)

abbrev pub stored : Written → List ℕ
stored w = w.size ++ payload w.flag w.text

-- A block with one literal after `front`.
abbrev pub block : List ℕ → IndexType → Written → Written → List ℕ → List ℕ
block front type name value after =
    front ++ (first_byte type ∷ (stored name ++ (stored value ++ after)))

pub drop-front : (xs ys : List ℕ) → drop (length xs) (xs ++ ys) ≡ ys
drop-front [] ys = refl
drop-front (x ∷ xs) ys = drop-front xs ys

pub take-all : (n : ℕ) (xs : List ℕ) → length xs ≡ n → take n xs ≡ xs
take-all zero [] e = refl
take-all zero (x ∷ xs) e = absurd (omega (arith, e))
take-all (suc n) [] e = refl
take-all (suc n) (x ∷ xs) e = ap (◌∷◌ x) (take-all n xs (omega (arith, e)))

first_byte-lt : (type : IndexType) → IsByte (first_byte type)
first_byte-lt default = omega arith
first_byte-lt without_index = omega arith
first_byte-lt never_index = omega arith

stored-IsByte : (w : Written) → All IsByte (stored w)
stored-IsByte w = All-append IsByte w.size (payload w.flag w.text) w.size_bytes w.text_bytes

-- The literal is read as the field that it was written for, up to the end of its value.
pub literal_impl-block :
    (t : DynamicTable) (front after : List ℕ) (type : IndexType) (name value : Written)
    (f : HeaderField)
    → header_field name.text value.text type ≡ ok f
    → All IsByte front
    → All IsByte after
    → 6 ≤ length front
    → 0 < length after
    → literal_impl t
        (record {
          memory = block front type name value after;
          first = length front;
          count = 1 + (length (stored name) + (length (stored value) + length after));
        })
        type
        (info (literal_command type)).bitlen
      ≡ ok (record {
        field = f;
        behind = record {
          memory = block front type name value after;
          first = length front + 1 + length (stored name) + length (stored value);
          count = length after;
        };
      })
unfolding literal_impl literal_name
literal_impl-block t front after type name value f e front_bytes after_bytes before behind =
    rw (bytes, zero_index type rest, name_read, value_read, e)
      (ap ok (
        ap₂
          (λ (n : ℕ) (k : ℕ). record {
            field = f;
            behind = record { memory = block front type name value after; first = n; count = k };
          })
          (omega (arith, of_name, of_value)) (omega (arith, of_name, of_value))))
  where
    rest : List ℕ
    rest = stored name ++ (stored value ++ after)

    s : Span
    s = record {
      memory = block front type name value after;
      first = length front;
      count = 1 + (length (stored name) + (length (stored value) + length after));
    }

    s1 : Span
    s1 = subspan s 1

    s2 : Span
    s2 = subspan s1 (length name.size + length (payload name.flag name.text))

    of_name : length (stored name) ≡ length name.size + length (payload name.flag name.text)
    of_name = length-append name.size (payload name.flag name.text)

    of_value : length (stored value) ≡ length value.size + length (payload value.flag value.text)
    of_value = length-append value.size (payload value.flag value.text)

    of_rest : length rest ≡ length (stored name) + (length (stored value) + length after)
    of_rest = omega (
      arith,
      length-append (stored name) (stored value ++ after),
      length-append (stored value) after,
    )

    bytes : take s.count (drop s.first s.memory) ≡ first_byte type ∷ rest
    bytes =
        ap (take s.count) (drop-front front (first_byte type ∷ rest))
        ∙ take-all s.count (first_byte type ∷ rest) (omega (arith, of_rest))

    name_read :
        HpackString.decode s1
        ≡ ok (record {
          used_bytes = length name.size + length (payload name.flag name.text);
          value = name.text;
        })
    name_read =
        decode-placed name.flag s1 (front ++ (first_byte type ∷ [])) name.size name.text
          (stored value ++ after) (sym (append_assoc front (first_byte type ∷ []) rest))
          (omega (arith, length-append front (first_byte type ∷ []))) name.is_text
          (All-append IsByte front (first_byte type ∷ []) front_bytes (first_byte-lt type, tt))
          (All-append IsByte (stored value) after (stored-IsByte value) after_bytes)
          (omega (arith, length-append front (first_byte type ∷ []), before))
          (omega (arith, length-append (stored value) after, behind)) name.size_of
          (omega (arith, of_name))

    value_read :
        HpackString.decode s2
        ≡ ok (record {
          used_bytes = length value.size + length (payload value.flag value.text);
          value = value.text;
        })
    value_read =
        decode-placed value.flag s2 (front ++ (first_byte type ∷ stored name)) value.size value.text
          after (sym (append_assoc front (first_byte type ∷ stored name) (stored value ++ after)))
          (omega (arith, length-append front (first_byte type ∷ stored name), of_name))
          value.is_text
          (All-append IsByte front (first_byte type ∷ stored name) front_bytes
            (first_byte-lt type, stored-IsByte name))
          after_bytes (omega (arith, length-append front (first_byte type ∷ stored name), before))
          behind value.size_of (omega (arith, of_name, of_value))
