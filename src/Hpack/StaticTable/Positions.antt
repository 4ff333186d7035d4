-- ===== src/Hpack/StaticTable/Positions.antt =====
-- Searches through the whole static table of lib/hpack/static_table.cpp, and what its tables agree on.
use h2pp.Prelude.{
  ℕ, zero, suc, ◌+◌, ◌-◌, ◌<◌, ◌≤◌, List, [], ◌∷◌, Bool, true, false, Bool-cases, ◌&&◌, Option,
  none, some, ok, ◌≡◌, ◌≢◌, inl, inr, refl, ap, subst, ◌∙◌, length, take, get_or, ltb, ◌==◌, ==_iff,
  if◌then◌else◌, arith,
}
use h2pp.Prelude.Bytes.{all_below}
use h2pp.Hpack.StaticTable.Tables.{lengthtable, wordlist}
use h2pp.Hpack.StaticTable.{name_at, value_at, bytes_equal, same_bytes, hash, index, found}

-- The positions of the fields with this name, in order, among `n` positions from `i` on.
unfoldable pub positions : ℕ → ℕ → List ℕ → List ℕ
positions zero i name = []
positions (suc n) i name =
    let rest = positions n (suc i) name in if bytes_equal (name_at i) name then i ∷ rest else rest

-- The first of these positions at which the value stands.
unfoldable pub first_value : List ℕ → List ℕ → Option ℕ
first_value [] value = none
first_value (i ∷ is) value = if bytes_equal (value_at i) value then some i else first_value is value

-- The answers that the positions of a name give.
abbrev pub name_answer : List ℕ → Option ℕ
name_answer [] = none
name_answer (i ∷ is) = some (i + 1)

abbrev pub field_answer : List ℕ → List ℕ → Option ℕ × Bool
field_answer [] value = (none, false)
field_answer (i ∷ is) value = found i (first_value (i ∷ is) value)

pub bytes_equal-eq : (xs ys : List ℕ) → bytes_equal xs ys ≡ true → xs ≡ ys
unfolding bytes_equal
bytes_equal-eq [] [] e = refl
bytes_equal-eq [] (y ∷ ys) e = cc
bytes_equal-eq (x ∷ xs) [] e = cc
bytes_equal-eq (x ∷ xs) (y ∷ ys) e =
    let (head, tail) = both (x == y) (bytes_equal xs ys) e in
    ap (λ z. z ∷ xs) ((==_iff x y).0 head) ∙ ap (◌∷◌ y) (bytes_equal-eq xs ys tail)
  where
    both : (p q : Bool) → (p && q) ≡ true → (p ≡ true) × (q ≡ true)
    both true q h = (refl, h)
    both false q h = cc

pub bytes_equal_self : (xs : List ℕ) → bytes_equal xs xs ≡ true
unfolding bytes_equal
bytes_equal_self [] = refl
bytes_equal_self (x ∷ xs) = rw (bytes_equal_self xs) (ground arith)

take-length : (xs : List ℕ) (n : ℕ) → length xs ≡ n → take n xs ≡ xs
take-length [] zero e = refl
take-length [] (suc n) e = refl
take-length (x ∷ xs) zero e = absurd (omega (arith, e))
take-length (x ∷ xs) (suc n) e = ap (◌∷◌ x) (take-length xs n (omega (arith, e)))

-- A comparison of texts of one length is defined.
pub same_bytes-same_length :
    (xs ys : List ℕ) → length xs ≡ length ys → same_bytes xs ys ≡ ok (bytes_equal xs ys)
unfolding same_bytes
same_bytes-same_length xs ys e = rw (take-length xs (length ys) e) (ground (arith, e))

pub bytes_equal-length : (xs ys : List ℕ) → bytes_equal xs ys ≡ true → length xs ≡ length ys
bytes_equal-length xs ys e = ap length (bytes_equal-eq xs ys e)

pub positions_head :
    (n i : ℕ) (name : List ℕ) {k : ℕ} {ks : List ℕ}
    → positions n i name ≡ k ∷ ks
    → (bytes_equal (name_at k) name ≡ true) × (k < i + n)
unfolding positions
positions_head zero i name e = cc
positions_head (suc n) i name {k = k} e = elim (Bool-cases (bytes_equal (name_at i) name)) [
  | inl t ↦
      (subst (λ j. (bytes_equal (name_at j) name ≡ true) × (j < i + suc n)) (head_eq (rw t at e))
        (t, omega arith))
  | inr t ↦
      (let (same, lt) = positions_head n (suc i) name (rw t at e) in (same, omega (arith, lt)))
]
  where
    head_eq : {k i : ℕ} {ks is : List ℕ} → i ∷ is ≡ k ∷ ks → i ≡ k
    head_eq e = cc

pub positions_none :
    (n i : ℕ) (name : List ℕ) (k : ℕ)
    → positions n i name ≡ []
    → i ≤ k
    → k < i + n
    → bytes_equal (name_at k) name ≡ false
unfolding positions
positions_none zero i name k e le lt = absurd (omega arith)
positions_none (suc n) i name k e le lt = elim (Bool-cases (bytes_equal (name_at i) name)) [
  | inl t ↦ absurd (not_nil (rw t at e))
  | inr t ↦ elim (Bool-cases (i == k)) [
    | inl same ↦ subst (λ j. bytes_equal (name_at j) name ≡ false) ((==_iff i k).0 same) t
    | inr other ↦ positions_none n (suc i) name k (rw t at e) (ground arith) (omega arith)
  ]
]
  where
    not_nil : {i : ℕ} {is : List ℕ} → i ∷ is ≢ []
    not_nil e = cc

-- What the tables agree on: an entry of `wordlist` is a position in the table whose name has the
-- length that stands in `lengthtable`.
unfoldable pub lengths_fit : ℕ → Bool
lengths_fit key = elim (get_or wordlist key none) [
  | none ↦ true
  | some (start, end) ↦ ltb start 61 && (length (name_at start) == get_or lengthtable key 0)
]

pub lengths_fit-all : all_below 66 lengths_fit ≡ true
unfolding all_below lengths_fit name_at
lengths_fit-all = refl

unfoldable pub range : ℕ → ℕ → List ℕ
range zero i = []
range (suc n) i = i ∷ range n (suc i)

abbrev range_fits : Option (ℕ × ℕ) → List ℕ → Bool
range_fits none name = false
range_fits (some (start, end)) name =
    bytes_equal (range (end + 1 - start) start) (positions 61 0 name)

-- The hash of a field's name gives the range of the positions of that name.
unfoldable pub ranges_fit : ℕ → Bool
ranges_fit i = range_fits (index (name_at i)) (name_at i)

pub ranges_fit-all : all_below 61 ranges_fit ≡ true
unfolding all_below ranges_fit range index hash positions bytes_equal name_at
ranges_fit-all = refl

pub lengths_fit-some :
    (key : ℕ) {start end : ℕ}
    → get_or wordlist key none ≡ some (start, end)
    → lengths_fit key ≡ (ltb start 61 && (length (name_at start) == get_or lengthtable key 0))
unfolding lengths_fit
lengths_fit-some key e = rw e

pub ranges_fit-some :
    (i : ℕ) {start end : ℕ}
    → index (name_at i) ≡ some (start, end)
    → ranges_fit i ≡ bytes_equal (range (end + 1 - start) start) (positions 61 0 (name_at i))
unfolding ranges_fit
ranges_fit-some i e = rw e

pub ranges_fit-none : (i : ℕ) → index (name_at i) ≡ none → ranges_fit i ≡ false
unfolding ranges_fit
ranges_fit-none i e = rw e
