-- ===== src/Hpack/DynamicTable/Shrink.antt =====
-- Eviction: what `shrink_to` keeps, and the eviction of RFC 7541, section 4.3.
use mathlib.Core.List.{reverse, reverse-cons}
use h2pp.Prelude.{
  ℕ, ◌+◌, ◌^◌, ◌<◌, ◌≡◌, ◌≢◌, refl, sym, ap, ◌∙◌, arith, inl, inr, List, [], ◌∷◌, ◌++◌, ok,
  append_assoc, ltb, lt→ltb, ltb→lt, Bool-cases, if◌then◌else◌, ◌==◌,
}
use h2pp.Hpack.DynamicTable.{Entry, hpack_size, Shrunk, sub64, shrink_loop}

abbrev pub total : List Entry → ℕ
total [] = 0
total (r ∷ rs) = hpack_size r + total rs

pub total-append : (xs ys : List Entry) → total (xs ++ ys) ≡ total xs + total ys
total-append [] ys = omega arith
total-append (x ∷ xs) ys = omega (arith, total-append xs ys)

pub total-reverse : (xs : List Entry) → total (reverse xs) ≡ total xs
total-reverse [] = refl
total-reverse (x ∷ xs) =
    rw (reverse-cons x xs) (omega (arith, total-append (reverse xs) (x ∷ []), total-reverse xs))

-- One round of the loop, which goes on or stops.
loop_more :
    (r r' : Entry) (before behind : List Entry) (ev ts : ℕ)
    → 0 < sub64 ev (hpack_size r)
    → shrink_loop (r ∷ r' ∷ before) behind ev ts
      ≡ shrink_loop (r' ∷ before) (r ∷ behind) (sub64 ev (hpack_size r)) (sub64 ts (hpack_size r))
unfolding shrink_loop
loop_more r r' before behind ev ts h = rw (lt→ltb _ _ h)

loop_stop :
    (r r' : Entry) (before behind : List Entry) (ev ts : ℕ)
    → sub64 ev (hpack_size r) ≡ 0
    → shrink_loop (r ∷ r' ∷ before) behind ev ts
      ≡ ok (record {
        kept = reverse (r' ∷ before);
        evicted = r ∷ behind;
        left_size = sub64 ts (hpack_size r);
      })
unfolding shrink_loop
loop_stop r r' before behind ev ts h = rw h

-- The entries before the first position, counted from the back, at which exactly `rq` is left.
unfoldable pub cut_exact : ℕ → List Entry → List Entry
cut_exact rq [] = []
cut_exact rq (r ∷ before) = if total before == rq then before else cut_exact rq before

pub cut_exact_skip :
    (rq : ℕ) (r : Entry) (before : List Entry)
    → total before ≢ rq
    → cut_exact rq (r ∷ before) ≡ cut_exact rq before
unfolding cut_exact
cut_exact_skip rq r before h = ground arith

pub cut_exact_take :
    (rq : ℕ) (r : Entry) (before : List Entry)
    → total before ≡ rq
    → cut_exact rq (r ∷ before) ≡ before
unfolding cut_exact
cut_exact_take rq r before h = ground arith

reverse_split :
    (r : Entry) (xs behind : List Entry) → reverse xs ++ r ∷ behind ≡ reverse (r ∷ xs) ++ behind
reverse_split r xs behind =
    sym (ap (λ ys. ys ++ behind) (reverse-cons r xs) ∙ append_assoc (reverse xs) (r ∷ []) behind)

-- What `shrink_loop` comes to with the entries `before` the iterator, last first: it evicts down to
-- exactly `rq`, or evicts everything.
pub record Cut (before behind : List Entry) (rq : ℕ) (s : Shrunk) : Type 0 where
  pub split : s.kept ++ s.evicted ≡ reverse before ++ behind
  pub left : s.left_size ≡ total s.kept
  pub cut : s.kept ≡ reverse (cut_exact rq before)
  pub shorter : total s.kept < total before

pub shrink_loop-Cut :
    (r : Entry) (before behind : List Entry) (rq ev ts : ℕ)
    → rq < 2 ^ 64
    → ts ≡ total (r ∷ before)
    → ts < 2 ^ 64
    → ev ≡ sub64 ts rq
    → (s : Shrunk) × (shrink_loop (r ∷ before) behind ev ts ≡ ok s) × Cut (r ∷ before) behind rq s
shrink_loop-Cut r [] behind rq ev ts hq ht hw he = (
  record { kept = []; evicted = r ∷ behind; left_size = sub64 ts (hpack_size r) },
  unfold shrink_loop in refl,
  record {
    split = refl;
    left = omega arith;
    cut = unfold cut_exact in ground arith;
    shorter = omega arith;
  },
)
shrink_loop-Cut r (r' ∷ before) behind rq ev ts hq ht hw he =
    elim (Bool-cases (ltb 0 (sub64 ev (hpack_size r)))) [
      | inl more ↦
          let (s, e, c) =
            shrink_loop-Cut r' before (r ∷ behind) rq (sub64 ev (hpack_size r))
              (sub64 ts (hpack_size r)) hq (omega arith) (omega arith) (omega arith) in
          (
            s,
            loop_more r r' before behind ev ts (ltb→lt _ _ more) ∙ e,
            record {
              split = c.split ∙ reverse_split r (r' ∷ before) behind;
              left = c.left;
              cut = c.cut ∙ ap reverse (sym (cut_exact_skip rq r (r' ∷ before) (ground arith)));
              shorter = omega (arith, c.shorter);
            },
          )
      | inr done ↦ (
        record {
          kept = reverse (r' ∷ before);
          evicted = r ∷ behind;
          left_size = sub64 ts (hpack_size r);
        },
        loop_stop r r' before behind ev ts (ground arith),
        record {
          split = reverse_split r (r' ∷ before) behind;
          left = omega (arith, total-reverse (r' ∷ before));
          cut = ap reverse (sym (cut_exact_take rq r (r' ∷ before) (ground arith)));
          shorter = omega (arith, total-reverse (r' ∷ before));
        },
      )
    ]
