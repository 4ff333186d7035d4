-- ===== src/Hpack/Encoder/Wrote.antt =====
-- What `write_new` of the model of lib/hpack/encoder.cpp has written where it writes a field.
use h2pp.Prelude.{
  ℕ, List, Option, none, some, Result, ok, ok-injective, first_returned, ◌≡◌, ◌≢◌, All, arith,
}
use h2pp.Prelude.Bytes.{IsByte}
use h2pp.Hpack.HpackString.Prefixed.{size_lem}
use h2pp.Hpack.EncoderStream.Pack.Pushed.{encode_loop-IsByte}
use h2pp.Hpack.HeaderField.{HeaderField}
use h2pp.Hpack.EncoderStream.{StringFlag, inplace, encoded}
use h2pp.Hpack.Encoder.{EncoderConfig, encode_size, Measured, measure, State, write_both, with_name}
use h2pp.Hpack.Encoder.Sizes.{payload}
use h2pp.Hpack.Encoder.Decoded.{IsText, IsMeasured}
use h2pp.Hpack.Encoder.NewNames.{Written}

pub payload-IsByte :
    (flag : StringFlag) (src : List ℕ) → All IsByte src → All IsByte (payload flag src)
payload-IsByte inplace src all = all
payload-IsByte encoded src all = encode_loop-IsByte src 0 0

pub some-injective {ℓ} : {A : Type ℓ} {a b : A} → some a ≡ some b → a ≡ b
some-injective e = cc

-- A string that was measured, as it is written.
unfoldable pub written_string :
    (bytes_left field_size : ℕ) (src : List ℕ) (m : Measured)
    → IsText src
    → IsMeasured bytes_left field_size src m
    → Written
written_string bytes_left field_size src m t k = record {
  flag = m.flag;
  size = m.encoded_size;
  text = src;
  is_text = t;
  size_of = k.size_bytes;
  size_bytes = of_size m.flag _ m.encoded_size k.size_bytes;
  text_bytes = payload-IsByte m.flag src t.bytes;
}
  where
    of_size :
        (flag : StringFlag) (n : ℕ) (size : List ℕ) → encode_size flag n ≡ ok size → All IsByte size
    of_size inplace n size e = (size_lem 0 n size (omega arith) (omega arith) e).3
    of_size encoded n size e = (size_lem 128 n size (omega arith) (omega arith) e).3

-- What `write_new` does where it writes the field.
pub record Wrote (config : EncoderConfig) (s : State) (f : HeaderField) (s' : State) : Type 0 where
  pub name : Measured
  pub value : Measured
  pub of_name : measure config s.bytes_left 0 f.name ≡ ok (some name)
  pub of_value : measure config s.bytes_left name.field_size f.value ≡ ok (some value)
  pub result : write_both s f name (some value) ≡ some s'

no_field : {s : State} → ◌≢◌ {A = Result (Option State)} (ok none) (ok (some s))
no_field e = cc

value-Wrote :
    (config : EncoderConfig) (s s' : State) (f : HeaderField) (name : Measured)
    (value : Option Measured)
    → measure config s.bytes_left 0 f.name ≡ ok (some name)
    → measure config s.bytes_left name.field_size f.value ≡ ok value
    → write_both s f name value ≡ some s'
    → Wrote config s f s'
unfolding write_both
value-Wrote config s s' f name none en ev e = cc
value-Wrote config s s' f name (some value) en ev e = record {
  name = name;
  value = value;
  of_name = en;
  of_value = ev;
  result = e;
}

pub write_new-Wrote :
    (config : EncoderConfig) (s s' : State) (f : HeaderField) (name : Option Measured)
    → measure config s.bytes_left 0 f.name ≡ ok name
    → with_name config s f name ≡ ok (some s')
    → Wrote config s f s'
unfolding with_name
write_new-Wrote config s s' f none en e = absurd (no_field e)
write_new-Wrote config s s' f (some name) en e =
    let (value, ev, e1) =
      first_returned _ (measure config s.bytes_left name.field_size f.value) e in
    value-Wrote config s s' f name value en ev (ok-injective e1)
