-- ===== src/Hpack/Encoder/Decoded.antt =====
-- What lib/hpack/encoder.cpp writes of one literal, read by lib/hpack/decoder.cpp.
use mathlib.Core.Path.{ap₂}
use h2pp.Prelude.{
  ℕ, ◌+◌, ◌%◌, ◌^◌, ◌<◌, ◌≤◌, List, ◌++◌, append_assoc, Bool, true, false, Bool-cases, Option, none,
  some, Result, ok, ok-injective, first_returned, ◌≡◌, refl, sym, ap, subst, ◌∙◌, inl, inr, length,
  All, ltb, if◌then◌else◌, arith,
}
use h2pp.Prelude.Bytes.{IsByte}
use h2pp.Hpack.Bitstream.{Span}
use h2pp.Hpack.HpackString as HpackString
use h2pp.Hpack.HpackString.RoundTrip.{HasShortCode}
use h2pp.Hpack.HpackString.Written.{span_of, decode-write_string, decode-write_inplace}
use h2pp.Hpack.EncoderStream.{EncoderStream, StringFlag, inplace, encoded, write_string}
use h2pp.Hpack.Encoder.{EncoderConfig, estimate_string_size, encode_size, Measured, measure}
use h2pp.Hpack.Encoder.Sizes.{payload, estimate_string_size-payload}

-- A text that the encoder can write and the decoder read in either form.
pub record IsText (src : List ℕ) : Type 0 where
  pub bytes : All IsByte src
  pub short : All HasShortCode src
  pub size : length src < 2 ^ 25

-- What `write_string` appends.
pub write_string-stream :
    (out : EncoderStream) (flag : StringFlag) (size src : List ℕ)
    → (write_string out flag size src).stream ≡ out.stream ++ (size ++ payload flag src)
unfolding write_string
write_string-stream out inplace size src = refl
write_string-stream out encoded size src = refl

-- A string written in either form is decoded.
decode-written :
    (flag : StringFlag) (out : EncoderStream) (size src after : List ℕ) (count : ℕ)
    → IsText src
    → All IsByte out.stream
    → All IsByte after
    → 7 ≤ length out.stream
    → 0 < length after
    → encode_size flag (length (payload flag src)) ≡ ok size
    → length size + length (payload flag src) ≤ count
    → HpackString.decode (span_of out flag size src after count)
      ≡ ok (record { used_bytes = length size + length (payload flag src); value = src })
decode-written inplace out size src after count t front_bytes after_bytes before behind e fits =
    decode-write_inplace out size src after count e fits
decode-written encoded out size src after count t front_bytes after_bytes before behind e fits =
    decode-write_string out size src after count t.bytes t.short front_bytes after_bytes before
      behind e fits

-- What `measure` has found of a string that fits.
pub record IsMeasured (bytes_left field_size : ℕ) (src : List ℕ) (m : Measured) : Type 0 where
  pub size_bytes : encode_size m.flag (length (payload m.flag src)) ≡ ok m.encoded_size
  pub whole :
      m.field_size ≡ (field_size + length (payload m.flag src) + length m.encoded_size) % 2 ^ 32
  pub fits : m.field_size ≤ bytes_left

pub measure-IsMeasured :
    (config : EncoderConfig) (bytes_left field_size : ℕ) (src : List ℕ) (m : Measured)
    → IsText src
    → measure config bytes_left field_size src ≡ ok (some m)
    → IsMeasured bytes_left field_size src m
unfolding measure
measure-IsMeasured config bytes_left field_size src m t e =
    elim (Bool-cases
      (ltb bytes_left ((field_size + (estimate_string_size config src).0) % 2 ^ 32))) [
        | inl over ↦ no_break (rw (over) at e)
        | inr room ↦
            let (encoded_size, es, e1) =
              first_returned _
                (encode_size (estimate_string_size config src).1
                  (estimate_string_size config src).0)
                (rw (room) at e) in
            let (small, same) = kept _ _ (ok-injective e1) in
            subst (IsMeasured bytes_left field_size src) same (record {
              size_bytes =
                  ap (encode_size (estimate_string_size config src).1) (sym estimated) ∙ es;
              whole = omega (arith, estimated);
              fits = ground (arith, small);
            })
      ]
  where
    estimated :
        (estimate_string_size config src).0
        ≡ length (payload (estimate_string_size config src).1 src)
    estimated = (estimate_string_size-payload config src t.bytes t.size).0

    no_break :
        ◌≡◌ {A = Result (Option Measured)} (ok none) (ok (some m))
        → IsMeasured bytes_left field_size src m
    no_break e = cc

    kept : (b : Bool) (x : Measured) → (if b then none else some x) ≡ some m → (b ≡ false) × (x ≡ m)
    kept true x e = cc
    kept false x e = (refl, cc)

-- A string in either form is decoded wherever it stands behind seven bytes or more.
pub decode-placed :
    (flag : StringFlag) (s : Span) (front size src after : List ℕ)
    → s.memory ≡ front ++ ((size ++ payload flag src) ++ after)
    → s.first ≡ length front
    → IsText src
    → All IsByte front
    → All IsByte after
    → 7 ≤ length front
    → 0 < length after
    → encode_size flag (length (payload flag src)) ≡ ok size
    → length size + length (payload flag src) ≤ s.count
    → HpackString.decode s
      ≡ ok (record { used_bytes = length size + length (payload flag src); value = src })
decode-placed flag s front size src after at of_first t front_bytes after_bytes before behind e
      fits =
    ap HpackString.decode same_span
    ∙ decode-written flag out size src after s.count t front_bytes after_bytes before behind e fits
  where
    out : EncoderStream
    out = record { stream = front; max_size = 0; left = 0 }

    same_memory : s.memory ≡ (write_string out flag size src).stream ++ after
    same_memory =
        at
        ∙ sym (append_assoc front (size ++ payload flag src) after)
        ∙ ap (λ m. m ++ after) (sym (write_string-stream out flag size src))

    same_span : s ≡ span_of out flag size src after s.count
    same_span =
        ap₂ (λ (m : List ℕ) (n : ℕ). record { memory = m; first = n; count = s.count }) same_memory
          of_first
