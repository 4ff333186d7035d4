-- ===== src/Http2/Stream/Body.antt =====
-- The loop of `prepare_body` of lib/stream.cpp: what it copies and what is left.
use h2pp.Prelude.{
  ℕ, zero, suc, ◌+◌, ◌-◌, ◌<◌, ◌≤◌, List, [], ◌∷◌, ◌++◌, true, false, inl, inr, ok, ◌≡◌, refl, sym,
  ap, ◌∙◌, length, length-append, length-drop, take, drop, min, ltb, ◌==◌, le-or-lt, arith,
}
use h2pp.Http2.Response.Body.{joined}
use h2pp.Http2.Request.{Block}
use h2pp.Http2.Stream.Send.{Copied, copy_loop}

-- The first of the bytes, where a list stands before them.
take-append_more :
    {A : Type 0} (xs ys : List A) (n k : ℕ)
    → n ≡ length xs + k
    → take n (xs ++ ys) ≡ xs ++ take k ys
take-append_more [] ys n k e = ap (λ m. take m ys) (omega (arith, e))
take-append_more (x ∷ xs) ys zero k e = absurd (omega (arith, e))
take-append_more (x ∷ xs) ys (suc n) k e =
    ap (◌∷◌ x) (take-append_more xs ys n k (omega (arith, e)))

take-append_less :
    {A : Type 0} (xs ys : List A) (n : ℕ) → n ≤ length xs → take n (xs ++ ys) ≡ take n xs
take-append_less xs ys zero h = refl
take-append_less [] ys (suc n) h = absurd (omega (arith, h))
take-append_less (x ∷ xs) ys (suc n) h = ap (◌∷◌ x) (take-append_less xs ys n (omega (arith, h)))

drop-append_less :
    {A : Type 0} (xs ys : List A) (n : ℕ) → n ≤ length xs → drop n (xs ++ ys) ≡ drop n xs ++ ys
drop-append_less xs ys zero h = refl
drop-append_less [] ys (suc n) h = absurd (omega (arith, h))
drop-append_less (x ∷ xs) ys (suc n) h = drop-append_less xs ys n (omega (arith, h))

drop-append_more :
    {A : Type 0} (xs ys : List A) (n k : ℕ) → n ≡ length xs + k → drop n (xs ++ ys) ≡ drop k ys
drop-append_more [] ys n k e = ap (λ m. drop m ys) (omega (arith, e))
drop-append_more (x ∷ xs) ys zero k e = absurd (omega (arith, e))
drop-append_more (x ∷ xs) ys (suc n) k e = drop-append_more xs ys n k (omega (arith, e))

pub take-all : {A : Type 0} (xs : List A) (n : ℕ) → length xs ≤ n → take n xs ≡ xs
take-all [] zero h = refl
take-all [] (suc n) h = refl
take-all (x ∷ xs) zero h = absurd (omega (arith, h))
take-all (x ∷ xs) (suc n) h = ap (◌∷◌ x) (take-all xs n (omega (arith, h)))

-- What `copy_loop` gives: the first bytes as the payload, and behind them the bytes not copied.
pub record Copies (bytes : List ℕ) (left : ℕ) (c : Copied) : Type 0 where
  pub payload : c.payload ≡ take left bytes
  pub rest : drop c.offset (joined c.spans) ≡ drop left bytes
  pub in_step : length c.blocks ≡ length c.spans

drop-drop : {A : Type 0} (m n k : ℕ) (xs : List A) → k ≡ m + n → drop k xs ≡ drop n (drop m xs)
drop-drop zero n k xs e = ap (λ i. drop i xs) (omega (arith, e))
drop-drop (suc m) n zero xs e = absurd (omega (arith, e))
drop-drop (suc m) zero (suc k) [] e = refl
drop-drop (suc m) (suc n) (suc k) [] e = refl
drop-drop (suc m) n (suc k) (x ∷ xs) e = drop-drop m n k xs (omega (arith, e))

-- A payload that ends within a span, or with it, or behind it.
module _ (s tail : List ℕ) (offset left : ℕ) (within : offset ≤ length s) where
  front : take left (drop offset (s ++ tail)) ≡ take left (drop offset s ++ tail)
  front = ap (take left) (drop-append_less s tail offset within)

  inside_payload :
      left ≤ length s - offset → take left (drop offset s) ≡ take left (drop offset (s ++ tail))
  inside_payload h =
      sym (
        front ∙ take-append_less (drop offset s) tail left (omega (arith, h, length-drop offset s)))

  through_payload :
      (k : ℕ)
      → left ≡ (length s - offset) + k
      → drop offset s ++ take k tail ≡ take left (drop offset (s ++ tail))
  through_payload k e = sym (
      front ∙ take-append_more (drop offset s) tail left k (omega (arith, e, length-drop offset s)))

  through_rest :
      (k : ℕ) → left ≡ (length s - offset) + k → drop k tail ≡ drop left (drop offset (s ++ tail))
  through_rest k e = sym (
      ap (drop left) (drop-append_less s tail offset within)
      ∙ drop-append_more (drop offset s) tail left k (omega (arith, e, length-drop offset s)))

-- What the loop gives for a payload of as many bytes as it asks for.
abbrev pub Copying : List (List ℕ) → List Block → ℕ → ℕ → Type 0
Copying spans blocks offset left =
    (c : Copied) × (copy_loop spans blocks offset left ≡ ok c)
    × Copies (drop offset (joined spans)) left c

module _ (s : List ℕ) (spans : List (List ℕ)) (b : Block) (blocks : List Block) (offset left : ℕ)
    (steps : length blocks ≡ length spans) (within : offset ≤ length s) where
  no_overrun : ltb (length s) offset ≡ false
  no_overrun = ground (arith, within)

  copy_loop-inside : offset + left < length s → Copying (s ∷ spans) (b ∷ blocks) offset left
  unfolding copy_loop
  copy_loop-inside h = (
    record {
      payload = take left (drop offset s);
      offset = offset + left;
      blocks = b ∷ blocks;
      spans = s ∷ spans;
    },
    rw (no_overrun, asked, inside) refl,
    record {
      payload = inside_payload s (joined spans) offset left within (omega (arith, h));
      rest = drop-drop offset left (offset + left) (s ++ joined spans) refl;
      in_step = ap suc steps;
    },
  )
    where
      asked : min left (length s - offset) ≡ left
      asked = omega (arith, h)

      inside : (offset + left == length s) ≡ false
      inside = ground (arith, h)

  copy_loop-end : offset + left ≡ length s → Copying (s ∷ spans) (b ∷ blocks) offset left
  unfolding copy_loop
  copy_loop-end h = (
    record { payload = take left (drop offset s); offset = 0; blocks = blocks; spans = spans },
    rw (no_overrun, asked, ends, finished) refl,
    record {
      payload = inside_payload s (joined spans) offset left within (omega (arith, h));
      rest = through_rest s (joined spans) offset left within 0 (omega (arith, h));
      in_step = steps;
    },
  )
    where
      asked : min left (length s - offset) ≡ left
      asked = omega (arith, h)

      ends : (offset + left == length s) ≡ true
      ends = ground (arith, h)

      finished : (left - left == 0) ≡ true
      finished = ground arith

  copy_loop-through :
      (more : ℕ)
      → left ≡ (length s - offset) + more
      → 0 < more
      → Copying spans blocks 0 more
      → Copying (s ∷ spans) (b ∷ blocks) offset left
  unfolding copy_loop
  copy_loop-through more h positive (c, e, copies) = (
    record c { payload = drop offset s ++ c.payload },
    rw (no_overrun, asked, ends, unfinished, others, e, whole) refl,
    record {
      payload =
          ap (λ t. drop offset s ++ t) copies.payload
          ∙ through_payload s (joined spans) offset left within more h;
      rest = copies.rest ∙ through_rest s (joined spans) offset left within more h;
      in_step = copies.in_step;
    },
  )
    where
      asked : min left (length s - offset) ≡ length s - offset
      asked = omega (arith, h)

      ends : (offset + (length s - offset) == length s) ≡ true
      ends = ground (arith, within)

      unfinished : (left - (length s - offset) == 0) ≡ false
      unfinished = ground (arith, h, positive)

      others : left - (length s - offset) ≡ more
      others = omega (arith, h)

      whole : take (length s - offset) (drop offset s) ≡ drop offset s
      whole = take-all (drop offset s) (length s - offset) (omega (arith, length-drop offset s))

  -- The three ways a span is left.
  copy_loop-cases :
      (0 < left - (length s - offset) → Copying spans blocks 0 (left - (length s - offset)))
      → Copying (s ∷ spans) (b ∷ blocks) offset left
  copy_loop-cases rest = elim (le-or-lt left (length s - offset)) [
    | inr through ↦
        copy_loop-through _ (omega (arith, through)) (omega (arith, through))
          (rest (omega (arith, through)))
    | inl stays ↦ elim (le-or-lt (length s) (offset + left)) [
      | inl end ↦ copy_loop-end (omega (arith, end, stays, within))
      | inr inside ↦ copy_loop-inside inside
    ]
  ]

-- The loop copies the first bytes that were not sent, over as many spans as they take, and what it
-- leaves of the spans and blocks are the bytes behind them.
pub copy_loop-Copies :
    (s : List ℕ) (spans : List (List ℕ)) (b : Block) (blocks : List Block) (offset left : ℕ)
    → length blocks ≡ length spans
    → offset ≤ length s
    → offset + left ≤ length (joined (s ∷ spans))
    → Copying (s ∷ spans) (b ∷ blocks) offset left
copy_loop-Copies s [] b [] offset left steps within h =
    copy_loop-cases s [] b [] offset left steps within
      (λ more. absurd (omega (arith, more, h, length-append s [])))
copy_loop-Copies s [] b (b' ∷ blocks) offset left steps within h = absurd (omega (arith, steps))
copy_loop-Copies s (s' ∷ spans) b [] offset left steps within h = absurd (omega (arith, steps))
copy_loop-Copies s (s' ∷ spans) b (b' ∷ blocks) offset left steps within h =
    copy_loop-cases s (s' ∷ spans) b (b' ∷ blocks) offset left steps within (λ more.
      copy_loop-Copies s' spans b' blocks 0 (left - (length s - offset)) (omega (arith, steps))
        (omega arith) (omega (arith, h, within, more, length-append s (joined (s' ∷ spans)))))
