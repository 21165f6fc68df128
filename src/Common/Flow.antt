-- ===== src/Common/Flow.antt =====
-- Go code with early returns over a mutable state: a step goes on with a value or has returned.
use mathlib.Core.Bool.{Bool, true, false}

pub data Flow (S R A : Type 0) : Type 0 where
  next : A → S → Flow S R A
  done : R → S → Flow S R A

-- `A` is what the rest of the function reads, `R` is what the function returns.
abbrev pub Code : Type 0 → Type 0 → Type 0 → Type 0
Code S R A = S → Flow S R A

module _ {S R : Type 0} where
  infixl 5 ◌>>=◌ ◌>>◌
  abbrev pub ◌>>=◌ : {A B : Type 0} → Code S R A → (A → Code S R B) → Code S R B
  ◌>>=◌ m f s = elim (m s) [ next a s' ↦ f a s' | done r s' ↦ done r s' ]

  abbrev pub ◌>>◌ : {A B : Type 0} → Code S R A → Code S R B → Code S R B
  m >> k = m >>= λ _. k

  abbrev pub pure : {A : Type 0} → A → Code S R A
  pure a s = next a s

  abbrev pub skip : Code S R (Unit {0})
  skip s = next tt s

  -- `return r`
  abbrev pub return : {A : Type 0} → R → Code S R A
  return r s = done r s

  abbrev pub gets : {A : Type 0} → (S → A) → Code S R A
  gets f s = next (f s) s

  abbrev pub modify : (S → S) → Code S R (Unit {0})
  modify f s = next tt (f s)

  -- A call of a function that returns to this one.
  abbrev pub call : {A : Type 0} → (S → A × S) → Code S R A
  call f s = let (a, s') = f s in next a s'

  abbrev pub when : Bool → Code S R (Unit {0}) → Code S R (Unit {0})
  when true m = m
  when false m = skip

-- Runs a function body to its end.
abbrev pub run : {S R : Type 0} → Code S R R → S → R × S
run m s = elim (m s) [ next r s' ↦ (r, s') | done r s' ↦ (r, s') ]
