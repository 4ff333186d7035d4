-- ===== src/Http2/Response/Body.antt =====
-- The body of lib/response.cpp, put together from the data of its frames.
use h2pp.Prelude.{
  ℕ, ◌+◌, ◌-◌, ◌%◌, ◌^◌, ◌<◌, ◌≤◌, List, [], ◌∷◌, ◌++◌, append-nil, append_assoc, Bool-cases,
  Result, ok, ◌>>=◌, first_returned, ok-injective, ◌≡◌, refl, sym, ap, ◌∙◌, inl, inr, length,
  length-append, min, take, ◌==◌, arith,
}
use h2pp.Http2.Response.{Response, data_of, insert_body, copy_loop, body_as}

-- `body_range`: the bytes of the blocks, one after another.
abbrev pub joined : List (List ℕ) → List ℕ
joined [] = []
joined (s ∷ blocks) = s ++ joined blocks

pub joined-append : (xs : List (List ℕ)) (s : List ℕ) → joined (xs ++ (s ∷ [])) ≡ joined xs ++ s
joined-append [] s = append-nil s
joined-append (x ∷ xs) s =
    ap (λ t. x ++ t) (joined-append xs s) ∙ sym (append_assoc x (joined xs) s)

-- A response whose size is that of its blocks.
abbrev pub IsSized : Response → Type 0
IsSized r = r.size ≡ length (joined r.body_blocks)

take-whole : (n : ℕ) (s : List ℕ) → length s ≤ n → take (min (length s) n) s ≡ s
take-whole n s h = ap (λ k. take k s) least ∙ take-length s
  where
    least : min (length s) n ≡ length s
    least = omega (arith, h)

    take-length : (s : List ℕ) → take (length s) s ≡ s
    take-length [] = refl
    take-length (x ∷ s) = ap (◌∷◌ x) (take-length s)

-- The loop copies all the bytes that there is room for.
copy_loop-joined :
    (blocks : List (List ℕ)) (offset len : ℕ)
    → offset + length (joined blocks) ≡ len
    → copy_loop blocks offset len ≡ joined blocks
unfolding copy_loop
copy_loop-joined [] offset len h = refl
copy_loop-joined (s ∷ blocks) offset len h = elim (Bool-cases (offset == len)) [
  | inl full ↦ rw (full) (sym (empty_list (s ++ joined blocks) (ground (arith, h))))
  | inr room ↦ rw (room) (
      ap (λ t. t ++ copy_loop blocks (offset + min (length s) (len - offset)) len)
        (take-whole (len - offset) s (omega (arith, h, length-append s (joined blocks))))
      ∙ ap (λ t. s ++ t)
          (copy_loop-joined blocks (offset + min (length s) (len - offset)) len
            (omega (arith, h, length-append s (joined blocks)))))
]
  where
    empty_list : (xs : List ℕ) → length xs ≡ 0 → xs ≡ []
    empty_list [] e = refl
    empty_list (x ∷ xs) e = absurd (omega (arith, e))

-- The body is the blocks, one after another, where the size is theirs: no element stays zero.
body_as-joined : (r : Response) → IsSized r → body_as r ≡ joined r.body_blocks
unfolding body_as
body_as-joined r sized = rw (copied, none_left) (append-nil (joined r.body_blocks))
  where
    copied : copy_loop r.body_blocks 0 r.size ≡ joined r.body_blocks
    copied = copy_loop-joined r.body_blocks 0 r.size (omega (arith, sized))

    none_left : r.size - length (joined r.body_blocks) ≡ 0
    none_left = omega (arith, sized)

-- The data of a DATA frame are added at the end of the body, which stays sized while the size fits
-- 64 bits.
pub insert_body-body_as :
    (r : Response) (b data_bytes : List ℕ)
    → IsSized r
    → data_of b ≡ ok data_bytes
    → length (joined r.body_blocks) + length data_bytes < 2 ^ 64
    → (r' : Response) × (insert_body r b ≡ ok r')
      × IsSized r'
      × (joined r'.body_blocks ≡ joined r.body_blocks ++ data_bytes)
      × (body_as r' ≡ joined r.body_blocks ++ data_bytes)
unfolding insert_body
insert_body-body_as r b data_bytes sized e fits = (
  r',
  rw (e) refl,
  still,
  joined-append r.body_blocks data_bytes,
  body_as-joined r' still ∙ joined-append r.body_blocks data_bytes,
)
  where
    r' : Response
    r' = record r {
      body_blocks = r.body_blocks ++ (data_bytes ∷ []);
      size = (r.size + length data_bytes) % 2 ^ 64;
    }

    still :
        (r.size + length data_bytes) % 2 ^ 64 ≡ length (joined (r.body_blocks ++ (data_bytes ∷ [])))
    still = omega (
      arith,
      sized,
      fits,
      ap length (joined-append r.body_blocks data_bytes),
      length-append (joined r.body_blocks) data_bytes,
    )

-- The frames of a body inserted in their order, and the data of all of them.
pub insert_bodies : Response → List (List ℕ) → Result Response
insert_bodies r [] = ok r
insert_bodies r (b ∷ bs) = do r' ← insert_body r b; insert_bodies r' bs

unfoldable pub data_of_all : List (List ℕ) → Result (List ℕ)
data_of_all [] = ok []
data_of_all (b ∷ bs) = do first ← data_of b; rest ← data_of_all bs; ok (first ++ rest)

then_rest :
    {x y all : List ℕ} (front first rest : List ℕ)
    → x ≡ y ++ rest
    → y ≡ front ++ first
    → first ++ rest ≡ all
    → x ≡ front ++ all
then_rest front first rest e f g =
    e ∙ ap (λ t. t ++ rest) f ∙ append_assoc front first rest ∙ ap (λ t. front ++ t) g

-- Where `data_of` gives the data of every one of some buffers, their insertion in that order
-- returns, and `body_as` gives the body there was and then all these data, as long as that body has
-- the size of its blocks and the whole has less than 2^64 bytes.
pub insert_bodies-body_as :
    (r : Response) (bs : List (List ℕ)) (data_bytes : List ℕ)
    → IsSized r
    → data_of_all bs ≡ ok data_bytes
    → length (joined r.body_blocks) + length data_bytes < 2 ^ 64
    → (r' : Response) × (insert_bodies r bs ≡ ok r')
      × IsSized r'
      × (body_as r' ≡ joined r.body_blocks ++ data_bytes)
unfolding insert_bodies data_of_all
insert_bodies-body_as r [] data_bytes sized e fits = (
  r,
  refl,
  sized,
  body_as-joined r sized
      ∙ sym (append-nil (joined r.body_blocks))
      ∙ ap (λ x. joined r.body_blocks ++ x) (ok-injective e),
)
insert_bodies-body_as r (b ∷ bs) data_bytes sized e fits =
    let (first, e1, rest_of) = first_returned _ (data_of b) e in
    let (rest, e2, whole) = first_returned _ (data_of_all bs) rest_of in
    let whole' : first ++ rest ≡ data_bytes = ok-injective whole in
    let parts : length first + length rest ≡ length data_bytes =
      sym (length-append first rest) ∙ ap length whole' in
    let (r1, inserted, sized1, joined1, body1) =
      insert_body-body_as r b first sized e1 (omega (arith, fits, parts)) in
    let before : length (joined r1.body_blocks) ≡ length (joined r.body_blocks) + length first =
      ap length joined1 ∙ length-append (joined r.body_blocks) first in
    let (r', all, sized', body) =
      insert_bodies-body_as r1 bs rest sized1 e2 (omega (arith, fits, parts, before)) in
    (r', rw (inserted) all, sized', then_rest (joined r.body_blocks) first rest body joined1 whole')
