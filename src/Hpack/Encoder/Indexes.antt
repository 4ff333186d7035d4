-- ===== src/Hpack/Encoder/Indexes.antt =====
-- A field that the encoder writes as an index, read by a turn of the decoder's loop.
use mathlib.Core.Path.{ap₂}
use h2pp.Prelude.{
  ℕ, ◌+◌, ◌-◌, ◌≤◌, List, [], ◌∷◌, ◌++◌, append_assoc, Bool, true, false, Option, none, some,
  Result, ok, ok-injective, first_returned, ◌≡◌, refl, sym, ap, subst, ◌∙◌, length, length-append,
  take, get_or, not, bit_and, ltb, ◌==◌, if◌then◌else◌, arith,
}
use h2pp.Hpack.Integer as Integer
use h2pp.Hpack.Integer.RoundTrip.{decode-encode}
use h2pp.Hpack.Bitstream.{bytes_of}
use h2pp.Hpack.HpackString.Prefixed.{flag_lem}
use h2pp.Hpack.HeaderField.{default, HeaderField, header_field}
use h2pp.Hpack.DynamicTable.{DynamicTable}
use h2pp.Hpack.HpackTable.{table_at}
use h2pp.Hpack.Command.{index_cmd, decode_cmd}
use h2pp.Hpack.EncoderStream.{EncoderStream, push_back}
use h2pp.Hpack.Decoder.{Turn, index, invoke, turn}
use h2pp.Hpack.Encoder.{State, encode_index, written, write_index}
use h2pp.Hpack.Encoder.NewNames.{take-all, drop-front}
use h2pp.Hpack.Encoder.Turns.{span_behind}

decode_cmd-index : (byte : ℕ) → not (bit_and byte 0x80 == 0) ≡ true → decode_cmd byte ≡ index_cmd
unfolding decode_cmd
decode_cmd-index byte h = rw (h) refl

bytes_behind : (front bytes : List ℕ) → bytes_of (span_behind front (front ++ bytes)) ≡ bytes
bytes_behind front bytes =
    ap (take (length (front ++ bytes) - length front)) (drop-front front bytes)
    ∙ take-all (length (front ++ bytes) - length front) bytes
        (omega (arith, length-append front bytes))

turn-index :
    (t : DynamicTable) (front e after : List ℕ) (i : ℕ) (entry : List ℕ × List ℕ) (f : HeaderField)
    (fields : List HeaderField)
    → Integer.encode 0x80 1 i ≡ ok e
    → (i == 0) ≡ false
    → table_at t i ≡ ok entry
    → header_field entry.0 entry.1 default ≡ ok f
    → turn t (span_behind front (front ++ (e ++ after))) fields
      ≡ ok (record {
        table = t;
        src = record {
          memory = front ++ (e ++ after);
          first = length front + length e;
          count = length (front ++ (e ++ after)) - length front - length e;
        };
        fields = fields ++ (f ∷ []);
      })
unfolding index invoke
turn-index t front e after i entry f fields enc some_index found accepted =
    ap (λ c. invoke c t (span_behind front (front ++ (e ++ after))) fields) command
    ∙ rw
        (
          bytes_behind front (e ++ after),
          decode-encode 0x80 1 i e after (omega arith) (omega arith) (omega arith) (omega arith)
              enc,
          some_index,
          found,
          accepted,
        )
        refl
  where
    command :
        decode_cmd (get_or (bytes_of (span_behind front (front ++ (e ++ after)))) 0 0) ≡ index_cmd
    command =
        ap (λ bs. decode_cmd (get_or bs 0 0)) (bytes_behind front (e ++ after))
        ∙ decode_cmd-index (get_or (e ++ after) 0 0)
            (flag_lem 0x80 i e after (omega arith) (omega arith) enc)

if_some :
    (b : Bool) (x s' : State)
    → ◌≡◌ {A = Option State} (if b then none else some x) (some s')
    → (b ≡ false) × (x ≡ s')
if_some true x s' e = cc
if_some false x s' e = (refl, cc)

pushed_all :
    (out : EncoderStream) (e : List ℕ)
    → length e ≤ out.left
    → (push_back out e).0.stream ≡ out.stream ++ e
unfolding push_back
pushed_all out e room = ground (arith, room)

-- A field that `encode` writes as an index, which is not 0, in an output with room for it, is read by
-- one turn of the decoder's loop as the field at that index of the decoder's table, where the field
-- is not too big, with the default type. Neither table changes.
pub turn-write_index :
    (s s' : State) (i : ℕ) (t : DynamicTable) (entry : List ℕ × List ℕ) (f : HeaderField)
    (after : List ℕ) (fields : List HeaderField)
    → write_index s i ≡ ok (some s')
    → (i == 0) ≡ false
    → s.bytes_left ≤ s.out.left
    → table_at t i ≡ ok entry
    → header_field entry.0 entry.1 default ≡ ok f
    → (turn t (span_behind s.out.stream (s'.out.stream ++ after)) fields
        ≡ ok (record {
          table = t;
          src = record {
            memory = s'.out.stream ++ after;
            first = length s'.out.stream;
            count = length after;
          };
          fields = fields ++ (f ∷ []);
        }))
      × (s'.table ≡ s.table)
unfolding write_index
turn-write_index s s' i t entry f after fields written_ok some_index room found accepted =
    let (e, enc, result) = first_returned _ (encode_index index_cmd i) written_ok in
    let (fits, same) =
      if_some (ltb s.bytes_left (length e)) (written s (push_back s.out e).0 (length e)) s'
        (ok-injective result) in
    let at : s'.out.stream ≡ s.out.stream ++ e =
      sym (ap (λ (u : State). u.out.stream) same)
      ∙ pushed_all s.out e (ground (arith, fits, room)) in
    (subst Read (sym at) (read e enc), sym (ap (λ (u : State). u.table) same))
  where
    front : List ℕ
    front = s.out.stream

    outcome : List ℕ → ℕ → ℕ → Result Turn
    outcome m n k = ok (record {
      table = t;
      src = record { memory = m; first = n; count = k };
      fields = fields ++ (f ∷ []);
    })

    Read : List ℕ → Type 0
    Read m =
        turn t (span_behind front (m ++ after)) fields
        ≡ outcome (m ++ after) (length m) (length after)

    read : (e : List ℕ) → encode_index index_cmd i ≡ ok e → Read (front ++ e)
    read e enc =
        ap (λ m. turn t (span_behind front m) fields) (append_assoc front e after)
        ∙ turn-index t front e after i entry f fields enc some_index found accepted
        ∙ ap₂ (outcome (front ++ (e ++ after))) (sym (length-append front e))
            (omega (arith, length-append front (e ++ after), length-append e after))
        ∙ ap (λ m. outcome m (length (front ++ e)) (length after))
            (sym (append_assoc front e after))
