-- ===== src/Hpack/Decoder/Progress.antt =====
-- Every turn of the loop of lib/hpack/decoder.cpp takes a byte, and the fuel given is enough.
use h2pp.Prelude.{
  ℕ, ◌<◌, ◌≤◌, List, [], ◌∷◌, ◌++◌, append-nil, ok, first_returned, ok-injective, require,
  runtime_error, ◌≡◌, refl, sym, ap, subst, not, Bool-cases, inl, inr, ◌==◌, arith,
}
use h2pp.Hpack.Integer as Integer
use h2pp.Hpack.Integer.{Decoded}
use h2pp.Hpack.Integer.Decode.{decode_takes}
use h2pp.Hpack.HpackString as HpackString
use h2pp.Hpack.Bitstream.{Span, bytes_of, subspan}
use h2pp.Hpack.HeaderField.{
  IndexType, default, without_index, never_index, HeaderField, check_max_size, header_field,
}
use h2pp.Hpack.DynamicTable.{DynamicTable, insert, update_size}
use h2pp.Hpack.HpackTable.{table_at}
use h2pp.Hpack.Command.{
  Command, index_cmd, literal_incremental_index, change_table_size, literal_without_index,
  literal_never_index,
}
use h2pp.Hpack.Decoder.{
  Turn, Literal, index, change_size, literal_name, literal_impl, without_index_cmd, never_index_cmd,
  incremental_index_cmd, invoke,
}

-- What a turn does to the table: nothing, or one of its operations, and an insertion is that of the
-- last field, which then has the default type.
pub data Change (t : DynamicTable) (fields : List HeaderField) (t' : DynamicTable) : Type 0 where
  same : t' ≡ t → Change t fields t'
  inserted :
      (earlier : List HeaderField) (name value : List ℕ)
      → fields ≡ earlier ++ (record { name = name; value = value; type = default } ∷ [])
      → insert t name value ≡ ok t'
      → Change t fields t'
  resized : (size : ℕ) → update_size t size ≡ ok t' → Change t fields t'

-- What a turn that returns has done.
pub record Stepped (t : DynamicTable) (src : Span) (fields : List HeaderField) (after : Turn)
    : Type 0 where
  pub shorter : after.src.count < src.count
  pub longer : (more : List HeaderField) × (after.fields ≡ fields ++ more)
  pub change : Change t after.fields after.table

taken :
    (n : ℕ) (src : Span) (d : Decoded) → Integer.decode n (bytes_of src) ≡ ok d → 1 ≤ d.used_bytes
taken n src d e = (decode_takes n (bytes_of src) d e).1

index-Stepped :
    (t : DynamicTable) (src : Span) (fields : List HeaderField) (after : Turn)
    → 0 < src.count
    → index t src fields ≡ ok after
    → Stepped t src fields after
unfolding index
index-Stepped t src fields after some e =
    let (i, ei, e1) = first_returned _ (Integer.decode 1 (bytes_of src)) e in
    let (done, ed, e2) = first_returned _ (require (not (i.value == 0)) runtime_error) e1 in
    let (entry, en, e3) = first_returned _ (table_at t i.value) e2 in
    let (field, ef, e4) = first_returned _ (header_field entry.0 entry.1 default) e3 in
    subst (Stepped t src fields) (ok-injective e4) (record {
      shorter = omega (arith, taken 1 src i ei, some);
      longer = (field ∷ [], refl);
      change = same refl;
    })

change_size-Stepped :
    (t : DynamicTable) (src : Span) (fields : List HeaderField) (after : Turn)
    → 0 < src.count
    → change_size t src fields ≡ ok after
    → Stepped t src fields after
unfolding change_size
change_size-Stepped t src fields after some e =
    let (m, em, e1) = first_returned _ (Integer.decode 3 (bytes_of src)) e in
    let (t', et, e2) = first_returned _ (update_size t m.value) e1 in
    subst (Stepped t src fields) (ok-injective e2) (record {
      shorter = omega (arith, taken 3 src m em, some);
      longer = ([], sym (append-nil fields));
      change = resized m.value et;
    })

literal_name-shorter :
    (t : DynamicTable) (src : Span) (i : ℕ) (r : List ℕ × Span)
    → literal_name t src i ≡ ok r
    → r.1.count ≤ src.count
unfolding literal_name
literal_name-shorter t src i r e = elim (Bool-cases (i == 0)) [
  | inl new ↦
      let (d, ed, e1) = first_returned _ (HpackString.decode src) (rw (new) at e) in
      subst (λ (q : List ℕ × Span). q.1.count ≤ src.count) (ok-injective e1) (omega arith)
  | inr known ↦
      let (entry, en, e1) = first_returned _ (table_at t i) (rw (known) at e) in
      subst (λ (q : List ℕ × Span). q.1.count ≤ src.count) (ok-injective e1) (omega arith)
]

header_field_lem :
    (name value : List ℕ) (type : IndexType) (f : HeaderField)
    → header_field name value type ≡ ok f
    → f ≡ record { name = name; value = value; type = type }
unfolding header_field
header_field_lem name value type f e =
    let (done, ed, e1) = first_returned _ (check_max_size name value) e in sym (ok-injective e1)

literal_impl-shorter :
    (t : DynamicTable) (src : Span) (type : IndexType) (n : ℕ) (l : Literal)
    → 0 < src.count
    → literal_impl t src type n ≡ ok l
    → (l.behind.count < src.count) × (l.field.type ≡ type)
unfolding literal_impl
literal_impl-shorter t src type n l some e =
    let (i, ei, e1) = first_returned _ (Integer.decode n (bytes_of src)) e in
    let (name, en, e2) = first_returned _ (literal_name t (subspan src i.used_bytes) i.value) e1 in
    let (v, ev, e3) = first_returned _ (HpackString.decode name.1) e2 in
    let (f, ef, e4) = first_returned _ (header_field name.0 v.value type) e3 in
    subst (λ (q : Literal). (q.behind.count < src.count) × (q.field.type ≡ type)) (ok-injective e4)
      (
        omega (
          arith,
          literal_name-shorter t (subspan src i.used_bytes) i.value name en,
          taken n src i ei,
          some,
        ),
        ap (λ (q : HeaderField). q.type) (header_field_lem name.0 v.value type f ef),
      )

without_index_cmd-Stepped :
    (t : DynamicTable) (src : Span) (fields : List HeaderField) (after : Turn)
    → 0 < src.count
    → without_index_cmd t src fields ≡ ok after
    → Stepped t src fields after
unfolding without_index_cmd
without_index_cmd-Stepped t src fields after some e =
    let (l, el, e1) = first_returned _ (literal_impl t src without_index 4) e in
    subst (Stepped t src fields) (ok-injective e1) (record {
      shorter = (literal_impl-shorter t src without_index 4 l some el).0;
      longer = (l.field ∷ [], refl);
      change = same refl;
    })

never_index_cmd-Stepped :
    (t : DynamicTable) (src : Span) (fields : List HeaderField) (after : Turn)
    → 0 < src.count
    → never_index_cmd t src fields ≡ ok after
    → Stepped t src fields after
unfolding never_index_cmd
never_index_cmd-Stepped t src fields after some e =
    let (l, el, e1) = first_returned _ (literal_impl t src never_index 4) e in
    subst (Stepped t src fields) (ok-injective e1) (record {
      shorter = (literal_impl-shorter t src never_index 4 l some el).0;
      longer = (l.field ∷ [], refl);
      change = same refl;
    })

of_default :
    (f : HeaderField)
    → f.type ≡ default
    → f ≡ record { name = f.name; value = f.value; type = default }
of_default f e = ap (λ y. record { name = f.name; value = f.value; type = y }) e

incremental_index_cmd-Stepped :
    (t : DynamicTable) (src : Span) (fields : List HeaderField) (after : Turn)
    → 0 < src.count
    → incremental_index_cmd t src fields ≡ ok after
    → Stepped t src fields after
unfolding incremental_index_cmd
incremental_index_cmd-Stepped t src fields after some e =
    let (l, el, e1) = first_returned _ (literal_impl t src default 2) e in
    let (t', et, e2) = first_returned _ (insert t l.field.name l.field.value) e1 in
    let facts = literal_impl-shorter t src default 2 l some el in
    subst (Stepped t src fields) (ok-injective e2) (record {
      shorter = facts.0;
      longer = (l.field ∷ [], refl);
      change =
          inserted fields l.field.name l.field.value
            (ap (λ f. fields ++ (f ∷ [])) (of_default l.field facts.1)) et;
    })

pub invoke-Stepped :
    (c : Command) (t : DynamicTable) (src : Span) (fields : List HeaderField) (after : Turn)
    → 0 < src.count
    → invoke c t src fields ≡ ok after
    → Stepped t src fields after
unfolding invoke
invoke-Stepped index_cmd = index-Stepped
invoke-Stepped literal_incremental_index = incremental_index_cmd-Stepped
invoke-Stepped change_table_size = change_size-Stepped
invoke-Stepped literal_without_index = without_index_cmd-Stepped
invoke-Stepped literal_never_index = never_index_cmd-Stepped
