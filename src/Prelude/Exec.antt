-- ===== src/Prelude/Exec.antt =====
-- Calls that change a state: the state after the call stands beside what the call comes to, since an
-- exception leaves what was changed before it.
use h2pp.Prelude.Outcome.{Result, undefined, throw, ok}

abbrev pub Exec : Type 0 → Type 0 → Type 0
Exec S A = S → S × Result A

module _ {S A : Type 0} where
  abbrev pub pure : A → Exec S A
  pure a s = (s, ok a)

  -- A call that changes nothing.
  abbrev pub lift : Result A → Exec S A
  lift r s = (s, r)

  -- What the state gives.
  abbrev pub gets : (S → A) → Exec S A
  gets f s = (s, ok (f s))

abbrev pub modify : {S : Type 0} → (S → S) → Exec S (Unit {0})
modify f s = (f s, ok tt)

module _ {S A B : Type 0} where
  abbrev pub and_then : S × Result A → (A → Exec S B) → S × Result B
  and_then (s, undefined) next = (s, undefined)
  and_then (s, throw exception) next = (s, throw exception)
  and_then (s, ok a) next = next a s

  infixl 5 ◌>>=◌
  abbrev pub ◌>>=◌ : Exec S A → (A → Exec S B) → Exec S B
  ◌>>=◌ first next s = and_then (first s) next

infixl 5 ◌>>◌
abbrev pub ◌>>◌ : {S B : Type 0} → Exec S (Unit {0}) → Exec S B → Exec S B
◌>>◌ first next s = and_then (first s) (λ _. next)
