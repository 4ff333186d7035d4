-- ===== src/Hpack/StaticTable/Search.antt =====
-- The perfect hash of lib/hpack/static_table.cpp against a search through the whole table.
use h2pp.Prelude.{
  ℕ, zero, suc, ◌+◌, ◌-◌, ◌<◌, List, [], ◌∷◌, Bool, true, false, Bool-cases, Option-cases, ◌&&◌,
  ◌||◌, Option, none, some, ok, ◌≡◌, ◌≢◌, ◌⊎◌, inl, inr, refl, sym, ap, subst, ◌∙◌, length, get_or,
  ltb, ltb→lt, leb, leb→le, ◌==◌, ==_iff, if◌then◌else◌, arith,
}
use h2pp.Prelude.Bytes.{all_below-true}
use h2pp.Hpack.StaticTable.Tables.{lengthtable, wordlist}
use h2pp.Hpack.StaticTable.{
  size, name_at, value_at, bytes_equal, same_bytes, hash, index, name_index, find_value,
  field_index,
}
use h2pp.Hpack.StaticTable.Positions.{
  positions, first_value, name_answer, field_answer, bytes_equal-eq, bytes_equal_self,
  same_bytes-same_length, bytes_equal-length, positions_head, positions_none, lengths_fit,
  lengths_fit-all, range, ranges_fit, ranges_fit-all, lengths_fit-some, ranges_fit-some,
  ranges_fit-none,
}

guarded :
    (p q : Bool) (w : Option (ℕ × ℕ)) {v : ℕ × ℕ}
    → (if p then none else if q then w else none) ≡ some v
    → (q ≡ true) × (w ≡ some v)
guarded true q w e = cc
guarded false true w e = (refl, e)
guarded false false w e = cc

and_both : (p q : Bool) → (p && q) ≡ true → (p ≡ true) × (q ≡ true)
and_both true q h = (refl, h)
and_both false q h = cc

-- What `index` finds is a position in the table, of a name as long as the one looked for.
index-fits :
    (name : List ℕ) (start end : ℕ)
    → index name ≡ some (start, end)
    → (start < 61) × (length (name_at start) ≡ length name)
unfolding index
index-fits name start end e =
    let (tests, entry) =
      guarded (ltb (length name) 3 || ltb 27 (length name))
        (leb (hash name) 65 && (length name == get_or lengthtable (hash name) 0))
        (get_or wordlist (hash name) none) e in
    let (in_table, same_length) = and_both (leb (hash name) 65) _ tests in
    let fits =
      all_below-true 66 lengths_fit (hash name) lengths_fit-all
        (omega (arith, leb→le (hash name) 65 in_table)) in
    let (before, lengths) =
      and_both (ltb start 61) _ (sym (lengths_fit-some (hash name) entry) ∙ fits) in
    (ltb→lt start 61 before, (==_iff _ _).0 lengths ∙ sym ((==_iff _ _).0 same_length))

List-cases {ℓ} : {A : Type ℓ} (xs : List A) → (xs ≡ []) ⊎ ((y : A) × (ys : List A) × (xs ≡ y ∷ ys))
List-cases [] = inl refl
List-cases (y ∷ ys) = inr (y, ys, refl)

-- What `index` and the comparison after it find out of a name.
data Verdict (name : List ℕ) : Type 0 where
  no_entry : index name ≡ none → positions size 0 name ≡ [] → Verdict name
  other_name :
      (start end : ℕ)
      → index name ≡ some (start, end)
      → same_bytes (name_at start) name ≡ ok false
      → positions size 0 name ≡ []
      → Verdict name
  same_name :
      (start end n : ℕ)
      → index name ≡ some (start, end)
      → same_bytes (name_at start) name ≡ ok true
      → end + 1 - start ≡ suc n
      → positions size 0 name ≡ range (suc n) start
      → Verdict name

absent : (name : List ℕ) → positions 61 0 name ≡ [] → Verdict name
absent name e = elim (Option-cases (index name)) [
  | inl i ↦ no_entry i e
  | inr ((start, end), i) ↦
      (let (before, lengths) = index-fits name start end i in
        other_name start end i
          (same_bytes-same_length (name_at start) name lengths
            ∙ ap ok (positions_none 61 0 name start e (omega arith) (omega arith)))
          e)
]

hit :
    (k start end m : ℕ) {ks : List ℕ}
    → positions 61 0 (name_at k) ≡ k ∷ ks
    → index (name_at k) ≡ some (start, end)
    → end + 1 - start ≡ m
    → range m start ≡ positions 61 0 (name_at k)
    → Verdict (name_at k)
unfolding range
hit k start end zero e i d r = absurd (not_nil (r ∙ e))
  where
    not_nil : {k : ℕ} {ks : List ℕ} → [] ≢ k ∷ ks
    not_nil e = cc
hit k start end (suc n) e i d r =
    same_name start end n i
      (same_bytes-same_length (name_at start) (name_at k) (ap length same)
        ∙ ap ok (rw same (bytes_equal_self (name_at k))))
      d (sym r)
  where
    head_eq : {a b : ℕ} {xs ys : List ℕ} → a ∷ xs ≡ b ∷ ys → a ≡ b
    head_eq e = cc

    same : name_at start ≡ name_at k
    same = ap name_at (head_eq (r ∙ e))

present : (k : ℕ) {ks : List ℕ} → k < 61 → positions 61 0 (name_at k) ≡ k ∷ ks → Verdict (name_at k)
present k lt e =
    let fits = all_below-true 61 ranges_fit k ranges_fit-all lt in
    elim (Option-cases (index (name_at k))) [
      | inl i ↦ absurd (clash (sym (ranges_fit-none k i) ∙ fits))
      | inr ((start, end), i) ↦
          hit k start end _ e i refl (bytes_equal-eq _ _ (sym (ranges_fit-some k i) ∙ fits))
    ]
  where
    clash : false ≢ true
    clash e = cc

verdict : (name : List ℕ) → Verdict name
verdict name = elim (List-cases (positions 61 0 name)) [
  | inl e ↦ absent name e
  | inr (k, ks, e) ↦
      (let (same, lt) = positions_head 61 0 name e in
        let names = bytes_equal-eq (name_at k) name same in
        subst Verdict names (present k lt (ap (positions 61 0) names ∙ e)))
]

-- For every name `name_index` is defined, and gives the first position in the table, counted from
-- one, of a field with that name, or -1 if there is none.
pub name_index-positions :
    (name : List ℕ) → name_index name ≡ ok (name_answer (positions size 0 name))
unfolding name_index range
name_index-positions name = elim (verdict name) [
  | no_entry i e ↦ rw (e, i)
  | other_name start end i s e ↦ rw (e, i, s)
  | same_name start end n i s d e ↦ rw (e, i, s)
]

find_value-range :
    (n it : ℕ) (value : List ℕ) → find_value n it value ≡ ok (first_value (range n it) value)
unfolding find_value range first_value
find_value-range zero it value = refl
find_value-range (suc n) it value = elim (Bool-cases (length (value_at it) == length value)) [
  | inl t ↦
      (rw
        (
          t,
          same_bytes-same_length (value_at it) value ((==_iff _ _).0 t),
          find_value-range n (suc it) value,
        )
        (chosen _ _ (bytes_equal (value_at it) value)))
  | inr f ↦ (rw (f, other f, find_value-range n (suc it) value))
]
  where
    chosen :
        (a b : Option ℕ) (same : Bool) → (if same then ok a else ok b) ≡ ok (if same then a else b)
    chosen a b true = refl
    chosen a b false = refl

    other : (length (value_at it) == length value) ≡ false → bytes_equal (value_at it) value ≡ false
    other f = elim (Bool-cases (bytes_equal (value_at it) value)) [
      | inl t ↦ absurd (ground (arith, f, bytes_equal-length (value_at it) value t))
      | inr e ↦ e
    ]

-- For every name and value `field_index` is defined: it gives the first position, counted from one,
-- of a field with both, and true; else that of the first field with the name, or -1, and false.
pub field_index-positions :
    (name value : List ℕ) → field_index name value ≡ ok (field_answer (positions size 0 name) value)
unfolding field_index range
field_index-positions name value = elim (verdict name) [
  | no_entry i e ↦ rw (e, i)
  | other_name start end i s e ↦ rw (e, i, s)
  | same_name start end n i s d e ↦ (rw (e, i, s, d, find_value-range (suc n) start value))
]
