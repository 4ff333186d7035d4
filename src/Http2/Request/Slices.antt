-- ===== src/Http2/Request/Slices.antt =====
-- The body of lib/request.cpp: its blocks, the spans over them, and their size.
use h2pp.Prelude.{
  ℕ, zero, suc, ◌+◌, ◌^◌, ◌<◌, ◌≤◌, List, [], ◌∷◌, ◌++◌, append_assoc, append-nil, map, ◌≡◌, refl,
  sym, ap, ◌∙◌, ok, length, length-append, drop, arith,
}
use h2pp.Hpack.HeaderField.{HeaderField}
use h2pp.Http2.Response.Body.{joined, joined-append}
use h2pp.Http2.Request.{Request, Block, bytes_of, body, bodies, commit_headers}

-- The spans are those of the blocks, and the size is that of their bytes.
pub record IsInStep (r : Request) : Type 0 where
  pub spans : r.span_list ≡ map bytes_of r.body_list
  pub sized : r.size ≡ length (joined r.span_list)

map-append :
    (xs : List Block) (b : Block)
    → map bytes_of (xs ++ (b ∷ [])) ≡ map bytes_of xs ++ (bytes_of b ∷ [])
map-append [] b = refl
map-append (x ∷ xs) b = ap (◌∷◌ (bytes_of x)) (map-append xs b)

body-IsInStep :
    (r : Request) (b : Block)
    → IsInStep r
    → length (joined r.span_list) + length (bytes_of b) < 2 ^ 64
    → IsInStep (body r b)
unfolding body
body-IsInStep r b h fits = record {
  spans = ap (λ s. s ++ (bytes_of b ∷ [])) h.spans ∙ sym (map-append r.body_list b);
  sized = omega (
    arith,
    h.sized,
    fits,
    ap length (joined-append r.span_list (bytes_of b)),
    length-append (joined r.span_list) (bytes_of b),
  );
}

joined-body :
    (r : Request) (b : Block) (rest : List Block)
    → joined (body r b).span_list ++ joined (map bytes_of rest)
      ≡ joined r.span_list ++ joined (map bytes_of (b ∷ rest))
unfolding body
joined-body r b rest =
    ap (λ t. t ++ joined (map bytes_of rest)) (joined-append r.span_list (bytes_of b))
    ∙ append_assoc (joined r.span_list) (bytes_of b) (joined (map bytes_of rest))

-- Blocks that are added stand behind the body in their order, and the spans and the size stay those
-- of the blocks while the size fits 64 bits.
pub bodies-joined :
    (r : Request) (bs : List Block)
    → IsInStep r
    → length (joined r.span_list) + length (joined (map bytes_of bs)) < 2 ^ 64
    → IsInStep (bodies r bs)
      × (joined (bodies r bs).span_list ≡ joined r.span_list ++ joined (map bytes_of bs))
unfolding bodies
bodies-joined r [] h fits = (h, sym (append-nil (joined r.span_list)))
bodies-joined r (b ∷ bs) h fits =
    let (kept, there) = bodies-joined (body r b) bs (body-IsInStep r b h sizes) both in
    (kept, there ∙ joined-body r b bs)
  where
    sizes : length (joined r.span_list) + length (bytes_of b) < 2 ^ 64
    sizes = omega (arith, fits, length-append (bytes_of b) (joined (map bytes_of bs)))

    both : length (joined (body r b).span_list) + length (joined (map bytes_of bs)) < 2 ^ 64
    both = omega (
      arith,
      fits,
      ap length (joined-body r b bs),
      length-append (joined (body r b).span_list) (joined (map bytes_of bs)),
      length-append (joined r.span_list) (joined (map bytes_of (b ∷ bs))),
    )

-- `commit_headers` of as many fields as there are at most removes the first of them.
pub commit_headers-drop :
    (r : Request) (xs : List HeaderField) (n : ℕ)
    → n ≤ length xs
    → commit_headers (record r { header_list = xs }) n ≡ ok (record r { header_list = drop n xs })
unfolding commit_headers
commit_headers-drop r xs zero h = refl
commit_headers-drop r [] (suc n) h = absurd (omega (arith, h))
commit_headers-drop r (x ∷ xs) (suc n) h = commit_headers-drop r xs n (omega (arith, h))
