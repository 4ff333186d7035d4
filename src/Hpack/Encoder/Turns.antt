-- ===== src/Hpack/Encoder/Turns.antt =====
-- A turn of the decoder's loop on a literal with a new name that the encoder wrote.
use h2pp.Prelude.{
  ℕ, ◌+◌, ◌-◌, ◌<◌, ◌≤◌, List, [], ◌∷◌, ◌++◌, append_assoc, some, Result, ok, ok-injective,
  first_returned, ◌≡◌, refl, sym, ap, ◌∙◌, length, length-append, take, All, get_or, if◌then◌else◌,
  arith,
}
use mathlib.Core.Path.{ap₂}
use h2pp.Prelude.Bytes.{IsByte}
use h2pp.Hpack.Bitstream.{Span, bytes_of}
use h2pp.Hpack.HeaderField.{
  IndexType, default, without_index, never_index, HeaderField, header_field,
}
use h2pp.Hpack.DynamicTable.{DynamicTable}
use h2pp.Hpack.DynamicTable as Dynamic
use h2pp.Hpack.Command.{info, decode_cmd}
use h2pp.Hpack.EncoderStream.{EncoderStream, push_back, write_string}
use h2pp.Hpack.Decoder.{
  literal_impl, without_index_cmd, never_index_cmd, incremental_index_cmd, invoke, turn,
}
use h2pp.Hpack.Encoder.{
  EncoderConfig, literal_command, is_default, Measured, measure, State, written, write_both,
  write_new,
}
use h2pp.Hpack.Encoder.Sizes.{payload}
use h2pp.Hpack.Encoder.Decoded.{IsText, write_string-stream, measure-IsMeasured}
use h2pp.Hpack.Encoder.NewNames.{
  first_byte, Written, stored, block, literal_impl-block, take-all, drop-front,
}
use h2pp.Hpack.Encoder.Wrote.{written_string, Wrote, write_new-Wrote, some-injective}

-- The span from the end of `front` on in a memory that starts with it.
abbrev pub span_behind : List ℕ → List ℕ → Span
span_behind front memory = record {
  memory = memory;
  first = length front;
  count = length memory - length front;
}

decode_cmd_first : (type : IndexType) → decode_cmd (first_byte type) ≡ literal_command type
unfolding decode_cmd
decode_cmd_first default = refl
decode_cmd_first without_index = refl
decode_cmd_first never_index = refl

-- What the decoder's table is after a literal of the type.
abbrev pub literal_table : IndexType → DynamicTable → List ℕ → List ℕ → Result DynamicTable
literal_table type t name value = if is_default type then Dynamic.insert t name value else ok t

invoke-literal :
    (type : IndexType) (t t' : DynamicTable) (src behind : Span) (fields : List HeaderField)
    (f : HeaderField)
    → literal_impl t src type (info (literal_command type)).bitlen
      ≡ ok (record { field = f; behind = behind })
    → literal_table type t f.name f.value ≡ ok t'
    → invoke (literal_command type) t src fields
      ≡ ok (record { table = t'; src = behind; fields = fields ++ (f ∷ []) })
unfolding invoke without_index_cmd never_index_cmd incremental_index_cmd
invoke-literal default t t' src behind fields f e k = rw (e, k) refl
invoke-literal without_index t t' src behind fields f e k = rw (e) (
    ap (λ u. ok (record { table = u; src = behind; fields = fields ++ (f ∷ []) })) (ok-injective k))
invoke-literal never_index t t' src behind fields f e k = rw (e) (
    ap (λ u. ok (record { table = u; src = behind; fields = fields ++ (f ∷ []) })) (ok-injective k))

module _ (out : EncoderStream) (b : ℕ) (name value : Measured) (name_text value_text : List ℕ) where
  abbrev literal_stream : EncoderStream
  literal_stream =
      write_string (write_string (push_back out (b ∷ [])).0 name.flag name.encoded_size name_text)
        value.flag value.encoded_size value_text

  pushed : 1 ≤ out.left → (push_back out (b ∷ [])).0.stream ≡ out.stream ++ (b ∷ [])
  unfolding push_back
  pushed h = ground (arith, h)

  literal_stream-stream :
      1 ≤ out.left
      → literal_stream.stream
        ≡ ((out.stream ++ (b ∷ [])) ++ (name.encoded_size ++ payload name.flag name_text))
          ++ (value.encoded_size ++ payload value.flag value_text)
  literal_stream-stream h =
      write_string-stream
        (write_string (push_back out (b ∷ [])).0 name.flag name.encoded_size name_text) value.flag
        value.encoded_size value_text
      ∙ ap (λ m. m ++ (value.encoded_size ++ payload value.flag value_text))
          (write_string-stream (push_back out (b ∷ [])).0 name.flag name.encoded_size name_text
            ∙ ap (λ m. m ++ (name.encoded_size ++ payload name.flag name_text)) (pushed h))

-- A literal behind `front` in a memory that is a block.
turn-block :
    (t t' : DynamicTable) (memory front after : List ℕ) (type : IndexType) (name value : Written)
    (f : HeaderField) (fields : List HeaderField) (n : ℕ)
    → memory ≡ block front type name value after
    → n ≡ length front + 1 + length (stored name) + length (stored value)
    → header_field name.text value.text type ≡ ok f
    → literal_table type t f.name f.value ≡ ok t'
    → All IsByte front
    → All IsByte after
    → 6 ≤ length front
    → 0 < length after
    → turn t (span_behind front memory) fields
      ≡ ok (record {
        table = t';
        src = record { memory = memory; first = n; count = length after };
        fields = fields ++ (f ∷ []);
      })
turn-block t t' memory front after type name value f fields n at ends e k front_bytes after_bytes
      before behind =
    ap (λ u. turn t u fields) same_span
    ∙ ap (λ c. invoke c t s fields)
        (ap (λ bs. decode_cmd (get_or bs 0 0)) bytes ∙ decode_cmd_first type)
    ∙ invoke-literal type t t' s behind_it fields f
        (literal_impl-block t front after type name value f e front_bytes after_bytes before behind)
        k
    ∙ ap₂
        (λ (m : List ℕ) (i : ℕ). ok (record {
          table = t';
          src = record { memory = m; first = i; count = length after };
          fields = fields ++ (f ∷ []);
        }))
        (sym at) (sym ends)
  where
    rest : List ℕ
    rest = stored name ++ (stored value ++ after)

    of_rest : length rest ≡ length (stored name) + (length (stored value) + length after)
    of_rest = omega (
      arith,
      length-append (stored name) (stored value ++ after),
      length-append (stored value) after,
    )

    s : Span
    s = record {
      memory = block front type name value after;
      first = length front;
      count = 1 + (length (stored name) + (length (stored value) + length after));
    }

    behind_it : Span
    behind_it = record {
      memory = block front type name value after;
      first = length front + 1 + length (stored name) + length (stored value);
      count = length after;
    }

    same_span : span_behind front memory ≡ s
    same_span =
        ap₂ (λ (m : List ℕ) (c : ℕ). record { memory = m; first = length front; count = c }) at
          (omega (arith, ap length at, length-append front (first_byte type ∷ rest), of_rest))

    bytes : bytes_of s ≡ first_byte type ∷ rest
    bytes =
        ap (take s.count) (drop-front front (first_byte type ∷ rest))
        ∙ take-all s.count (first_byte type ∷ rest) (omega (arith, of_rest))

-- A literal with a new name that `encode` writes, for a name and a value that are texts and an output
-- with a byte left, is read back by one turn of the decoder's loop, from a memory with six bytes or
-- more in front of the literal and one at least behind it. For the default type the decoder inserts
-- the field, where that returns, while the encoder's table stays as it is.
pub turn-write_new :
    (config : EncoderConfig) (s s' : State) (f : HeaderField) (t t' : DynamicTable) (after : List ℕ)
    (fields : List HeaderField)
    → write_new config s f ≡ ok (some s')
    → 1 ≤ s.out.left
    → IsText f.name
    → IsText f.value
    → header_field f.name f.value f.type ≡ ok f
    → literal_table f.type t f.name f.value ≡ ok t'
    → All IsByte s.out.stream
    → All IsByte after
    → 6 ≤ length s.out.stream
    → 0 < length after
    → (turn t (span_behind s.out.stream (s'.out.stream ++ after)) fields
        ≡ ok (record {
          table = t';
          src = record {
            memory = s'.out.stream ++ after;
            first = length s'.out.stream;
            count = length after;
          };
          fields = fields ++ (f ∷ []);
        }))
      × (s'.table ≡ s.table)
unfolding write_new write_both written_string
turn-write_new config s s' f t t' after fields e room nt vt fe k front_bytes after_bytes before
      behind =
    (
      turn-block t t' (s'.out.stream ++ after) front after f.type name value f fields
          (length s'.out.stream) (ap (λ m. m ++ after) at ∙ reordered)
          (omega (
            arith,
            ap length at,
            length-append ((front ++ (b ∷ [])) ++ stored name) (stored value),
            length-append (front ++ (b ∷ [])) (stored name),
            length-append front (b ∷ []),
          ))
          fe k front_bytes after_bytes before behind,
      sym (ap (λ (u : State). u.table) same),
    )
  where
    front : List ℕ
    front = s.out.stream

    b : ℕ
    b = first_byte f.type

    w : Wrote config s f s'
    w =
        let (name, en, e1) = first_returned _ (measure config s.bytes_left 0 f.name) e in
        write_new-Wrote config s s' f name en e1

    name : Written
    name =
        written_string s.bytes_left 0 f.name w.name nt
          (measure-IsMeasured config s.bytes_left 0 f.name w.name nt w.of_name)

    value : Written
    value =
        written_string s.bytes_left w.name.field_size f.value w.value vt
          (measure-IsMeasured config s.bytes_left w.name.field_size f.value w.value vt w.of_value)

    same : written s (literal_stream s.out b w.name w.value f.name f.value) w.value.field_size ≡ s'
    same = some-injective w.result

    at : s'.out.stream ≡ ((front ++ (b ∷ [])) ++ stored name) ++ stored value
    at =
        sym (ap (λ (u : State). u.out.stream) same)
        ∙ literal_stream-stream s.out b w.name w.value f.name f.value room

    reordered :
        (((front ++ (b ∷ [])) ++ stored name) ++ stored value) ++ after
        ≡ block front f.type name value after
    reordered =
        append_assoc ((front ++ (b ∷ [])) ++ stored name) (stored value) after
        ∙ append_assoc (front ++ (b ∷ [])) (stored name) (stored value ++ after)
        ∙ append_assoc front (b ∷ []) (stored name ++ (stored value ++ after))
