-- ===== src/Hpack/Decoder/Runs.antt =====
-- The loop of lib/hpack/decoder.cpp: its fuel, and what it does to the table.
use h2pp.Prelude.{
  ℕ, zero, suc, ◌+◌, ◌<◌, List, [], ◌∷◌, ◌++◌, append-nil, append_assoc, Result, ok, throw,
  undefined, ok-injective, All, ◌≡◌, refl, sym, ap, subst, ◌∙◌, Bool, true, false, ◌==◌,
  if◌then◌else◌, arith,
}
use h2pp.Hpack.Bitstream.{Span}
use h2pp.Hpack.HeaderField.{default, HeaderField}
use h2pp.Hpack.DynamicTable.{DynamicTable, insert, update_size}
use h2pp.Hpack.DynamicTable.History.{Operation, inserts, updates, step, run}
use h2pp.Hpack.Decoder.{Turn, turn, after_turn, decode_loop, decode}
use h2pp.Hpack.Decoder.Progress.{same, inserted, resized, Stepped, invoke-Stepped}

abbrev Outcome : Type 0
Outcome = DynamicTable × Result (List HeaderField)

same_after :
    (r : Result Turn) (table : DynamicTable) (f g : Turn → Outcome)
    → ((t : Turn) → r ≡ ok t → f t ≡ g t)
    → after_turn r table f ≡ after_turn r table g
same_after undefined table f g h = refl
same_after (throw e) table f g h = refl
same_after (ok t) table f g h = h t refl

if_same :
    (t : Bool) (a x y : Outcome) → (t ≡ false → x ≡ y) → (if t then a else x) ≡ (if t then a else y)
if_same true a x y h = refl
if_same false a x y h = h refl

decode_loop_fuel :
    (exhausted other : Result (List HeaderField)) (m n : ℕ) (table : DynamicTable) (src : Span)
    (fields : List HeaderField)
    → src.count < m
    → src.count < n
    → decode_loop exhausted m table src fields ≡ decode_loop other n table src fields
unfolding decode_loop
decode_loop_fuel x y zero n table src fields h k = absurd (omega (arith, h))
decode_loop_fuel x y (suc m) zero table src fields h k = absurd (omega (arith, k))
decode_loop_fuel x y (suc m) (suc n) table src fields h k =
    if_same (src.count == 0) (table, ok fields) _ _
      (λ open_end. same_after (turn table src fields) table _ _ (λ t e.
        let shorter : t.src.count < src.count =
          (invoke-Stepped _ table src fields t (ground (arith, open_end)) e).shorter in
        decode_loop_fuel x y m n t.table t.src t.fields (omega (arith, shorter, h))
          (omega (arith, shorter, k))))

-- The loop of `decode` ends before any fuel above the number of bytes of the block is used up:
-- whatever a run that uses it up would give, the loop gives what `decode` gives.
pub decode-ends :
    (exhausted : Result (List HeaderField)) (fuel : ℕ) (table : DynamicTable) (src : Span)
    → src.count < fuel
    → decode_loop exhausted fuel table src [] ≡ decode table src
unfolding decode
decode-ends exhausted fuel table src h =
    decode_loop_fuel exhausted undefined fuel (src.count + 1) table src [] h (omega arith)

-- That a list has the field.
abbrev pub Contains : List HeaderField → HeaderField → Type 0
Contains fields f = (xs : List HeaderField) × (ys : List HeaderField) × (fields ≡ xs ++ (f ∷ ys))

-- An operation on the table which, if it inserts, inserts a field of the list with the default type.
abbrev pub IsOfFields : List HeaderField → Operation → Type 0
IsOfFields fields (inserts name value) =
    Contains fields (record { name = name; value = value; type = default })
IsOfFields fields (updates size) = Unit {0}

-- What a run over a block comes to, from a table and the fields so far.
pub record Traced (table : DynamicTable) (fields : List HeaderField)
    (outcome : DynamicTable × Result (List HeaderField)) : Type 0 where
  pub operations : List Operation
  pub performed : run table operations ≡ ok outcome.0
  pub of_fields :
      (final : List HeaderField)
      → outcome.1 ≡ ok final
      → ((more : List HeaderField) × (final ≡ fields ++ more)) × All (IsOfFields final) operations

-- A turn before a run.
turn-Traced :
    (table : DynamicTable) (src : Span) (fields : List HeaderField) (t : Turn)
    (o : DynamicTable × Result (List HeaderField))
    → Stepped table src fields t
    → Traced t.table t.fields o
    → Traced table fields o
unfolding run step
turn-Traced table src fields t o s r = elim s.change [
  | same e ↦ record {
    operations = r.operations;
    performed = subst (λ u. run u r.operations ≡ ok o.0) e r.performed;
    of_fields = λ final e. (longer_still final e, (r.of_fields final e).1);
  }
  | inserted earlier name value at e ↦ record {
    operations = inserts name value ∷ r.operations;
    performed = run_insert name value e;
    of_fields = λ final e.
        (longer_still final e, (contained earlier name value at final e, (r.of_fields final e).1));
  }
  | resized size e ↦ record {
    operations = updates size ∷ r.operations;
    performed = run_update size e;
    of_fields = λ final e. (longer_still final e, (tt, (r.of_fields final e).1));
  }
]
  where
    longer_still :
        (final : List HeaderField)
        → o.1 ≡ ok final
        → (more : List HeaderField) × (final ≡ fields ++ more)
    longer_still final e =
        let (first, at) = s.longer in
        let (more, at') = (r.of_fields final e).0 in
        (first ++ more, at' ∙ ap (λ x. x ++ more) at ∙ append_assoc fields first more)

    contained :
        (earlier : List HeaderField) (name value : List ℕ)
        → t.fields ≡ earlier ++ (record { name = name; value = value; type = default } ∷ [])
        → (final : List HeaderField) → o.1 ≡ ok final
        → Contains final (record { name = name; value = value; type = default })
    contained earlier name value at final e =
        let (more, at') = (r.of_fields final e).0 in
        (earlier, more, at' ∙ ap (λ x. x ++ more) at ∙ append_assoc earlier _ more)

    run_insert :
        (name value : List ℕ)
        → insert table name value ≡ ok t.table
        → run table (inserts name value ∷ r.operations) ≡ ok o.0
    run_insert name value e = rw (e) r.performed

    run_update :
        (size : ℕ)
        → update_size table size ≡ ok t.table
        → run table (updates size ∷ r.operations) ≡ ok o.0
    run_update size e = rw (e) r.performed

untouched :
    (table : DynamicTable) (fields : List HeaderField) (o : Result (List HeaderField))
    → ((final : List HeaderField) → o ≡ ok final → final ≡ fields)
    → Traced table fields (table, o)
unfolding run
untouched table fields o h = record {
  operations = [];
  performed = refl;
  of_fields = λ final e. (([], h final e ∙ sym (append-nil fields)), tt);
}

after_turn-Traced :
    (r : Result Turn) (table : DynamicTable) (fields : List HeaderField)
    (more : Turn → DynamicTable × Result (List HeaderField))
    → ((t : Turn) → r ≡ ok t → Traced table fields (more t))
    → Traced table fields (after_turn r table more)
after_turn-Traced undefined table fields more h = untouched table fields undefined (λ final e. cc)
after_turn-Traced (throw x) table fields more h = untouched table fields (throw x) (λ final e. cc)
after_turn-Traced (ok t) table fields more h = h t refl

if-Traced :
    (t : Bool) (table : DynamicTable) (fields : List HeaderField)
    (o : DynamicTable × Result (List HeaderField))
    → (t ≡ false → Traced table fields o)
    → Traced table fields (if t then (table, ok fields) else o)
if-Traced true table fields o h =
    untouched table fields (ok fields) (λ final e. sym (ok-injective e))
if-Traced false table fields o h = h refl

decode_loop-Traced :
    (fuel : ℕ) (table : DynamicTable) (src : Span) (fields : List HeaderField)
    → Traced table fields (decode_loop undefined fuel table src fields)
unfolding decode_loop
decode_loop-Traced zero table src fields = untouched table fields undefined (λ final e. cc)
decode_loop-Traced (suc fuel) table src fields =
    if-Traced (src.count == 0) table fields _ (λ open_end.
      after_turn-Traced (turn table src fields) table fields _ (λ t e.
        turn-Traced table src fields t _
          (invoke-Stepped _ table src fields t (ground (arith, open_end)) e)
          (decode_loop-Traced fuel t.table t.src t.fields)))

-- A call of `decode` changes the table by insertions and changes of the limit alone, also one that
-- throws; where it returns the fields, each insertion is that of one of them whose type is the
-- default, so that no field of the types `without_index` and `never_index` is stored.
pub decode-Traced : (table : DynamicTable) (src : Span) → Traced table [] (decode table src)
unfolding decode
decode-Traced table src = decode_loop-Traced (src.count + 1) table src []
