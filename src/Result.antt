-- ===== src/Result.antt =====
-- A call that returns a value or raises. `E` holds the exceptions of the component.
use muti_agent.Prelude.{◌≡◌, ◌⊎◌, inl, inr, refl, ap, Bool, true, false, List, [], ◌∷◌}

pub data Result (E A : Type 0) : Type 0 where
  ok : A → Result E A
  err : E → Result E A

module _ {E A B : Type 0} where
  infixl 5 ◌>>=◌ ◌>>◌
  abbrev pub ◌>>=◌ : Result E A → (A → Result E B) → Result E B
  ok a >>= f = f a
  err e >>= f = err e

  abbrev pub ◌>>◌ : Result E A → Result E B → Result E B
  m >> k = m >>= λ _. k

  -- What a call that returned went through.
  pub >>=-eq-ok :
      (call : Result E A) (rest : A → Result E B) {value : B}
      → (call >>= rest) ≡ ok value
      → (first : A) × (call ≡ ok first) × (rest first ≡ ok value)
  >>=-eq-ok (err raised) rest h = cc
  >>=-eq-ok (ok first) rest h = (first, refl, h)

pub Result-cases :
    {E A : Type 0} (r : Result E A) → ((a : A) × (r ≡ ok a)) ⊎ ((e : E) × (r ≡ err e))
Result-cases (ok a) = inl (a, refl)
Result-cases (err e) = inr (e, refl)

module _ {E A : Type 0} where
  or_else : A → Result E A → A
  or_else d (ok c) = c
  or_else d (err e) = d

  pub ok-injective : (a b : A) → ◌≡◌ {A = Result E A} (ok a) (ok b) → a ≡ b
  unfolding or_else
  ok-injective a b h = ap (or_else a) h

module _ {E : Type 0} where
  -- `if bad: raise e`
  abbrev pub raise_if : Bool → E → Result E (Unit {0})
  raise_if true e = err e
  raise_if false e = ok tt

  pub raise_if-eq-ok : (b : Bool) (e : E) → raise_if b e ≡ ok tt → b ≡ false
  raise_if-eq-ok true e h = cc
  raise_if-eq-ok false e h = refl

module _ {E A B : Type 0} where
  -- `[f(x) for x in xs]`, where `f` may raise.
  unfoldable pub traverse : (A → Result E B) → List A → Result E (List B)
  traverse f [] = ok []
  traverse f (x ∷ xs) = do y ← f x; ys ← traverse f xs; ok (y ∷ ys)
