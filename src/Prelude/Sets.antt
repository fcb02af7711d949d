-- ===== src/Prelude/Sets.antt =====
-- Lists read as Python's lists, tuples and sets: membership, distinctness, length.
use Prim.Native.Nat.{ℕ, suc, ◌+◌, ◌≤◌}
use mathlib.Core.Path.{◌≡◌, refl}
use mathlib.Core.Logic.{◌⊎◌, inl, inr}
use mathlib.Core.Bool.{Bool, true, false, not, ◌&&◌, ◌||◌}
use mathlib.Core.List.{List, [], ◌∷◌, ◌++◌}
use native.Mathlib.Omega.{arith}
use muti_agent.Prelude.Tests.{Eq, ◌==◌, if◌then◌else◌, Bool-cases}

module _ {ℓ} {A : Type ℓ} where
  abbrev pub length : List A → ℕ
  length [] = 0
  length (x ∷ xs) = suc (length xs)

  pub length-append : (xs ys : List A) → length (xs ++ ys) ≡ length xs + length ys
  length-append [] ys = omega arith
  length-append (x ∷ xs) ys = omega (arith, length-append xs ys)

  pub List-cases : (xs : List A) → (xs ≡ []) ⊎ ((x : A) × (rest : List A) × (xs ≡ x ∷ rest))
  List-cases [] = inl refl
  List-cases (x ∷ xs) = inr (x, xs, refl)

  -- `[x for x in xs if test(x)]`
  abbrev pub select : (A → Bool) → List A → List A
  select test [] = []
  select test (x ∷ xs) = if test x then x ∷ select test xs else select test xs

  abbrev pub any : (A → Bool) → List A → Bool
  any test [] = false
  any test (x ∷ xs) = test x || any test xs

  abbrev pub all : (A → Bool) → List A → Bool
  all test [] = true
  all test (x ∷ xs) = test x && all test xs

-- An item of a list.
pub data Member {A : Type 0} (a : A) : List A → Type 0 where
  here : {xs : List A} → Member a (a ∷ xs)
  there : {x : A} {xs : List A} → Member a xs → Member a (x ∷ xs)

module _ {ℓ} {A : Type ℓ} ⦃e : Eq A⦄ where
  -- `a in xs`
  abbrev pub elem : A → List A → Bool
  elem a [] = false
  elem a (x ∷ xs) = a == x || elem a xs

  -- `len(xs) == len(set(xs))`
  abbrev pub distinct : List A → Bool
  distinct [] = true
  distinct (x ∷ xs) = not (elem x xs) && distinct xs

  -- `set(xs).issubset(ys)`
  abbrev pub subset : List A → List A → Bool
  subset xs ys = all (λ x. elem x ys) xs

  -- `s.add(a)`
  abbrev pub set_add : A → List A → List A
  set_add a xs = if elem a xs then xs else xs ++ a ∷ []

  abbrev pub remove : A → List A → List A
  remove a xs = select (λ x. not (x == a)) xs

  pub beq_refl : (a : A) → (a == a) ≡ true
  beq_refl a = (e.beq_iff a a).1 refl

  pub beq_sym : (a b : A) → (a == b) ≡ (b == a)
  beq_sym a b = ground (arith, e.beq_iff a b, e.beq_iff b a)

  pub elem-append : (a : A) (xs ys : List A) → elem a (xs ++ ys) ≡ (elem a xs || elem a ys)
  elem-append a [] ys = refl
  elem-append a (x ∷ xs) ys = ground (arith, elem-append a xs ys)

  pub elem-select :
      (test : A → Bool) (a : A) (xs : List A) → elem a (select test xs) ≡ (elem a xs && test a)
  elem-select test a [] = refl
  elem-select test a (x ∷ xs) = ground (arith, elem-select test a xs, e.beq_iff a x)

  pub distinct-select :
      (test : A → Bool) (xs : List A) → distinct xs ≡ true → distinct (select test xs) ≡ true
  distinct-select test [] d = refl
  distinct-select test (x ∷ xs) d = ground (arith, distinct-select test xs, elem-select test x xs)

  pub distinct-snoc :
      (xs : List A) (a : A)
      → distinct xs ≡ true
      → elem a xs ≡ false
      → distinct (xs ++ a ∷ []) ≡ true
  distinct-snoc [] a d n = refl
  distinct-snoc (x ∷ xs) a d n =
      ground (arith, distinct-snoc xs a, elem-append x xs (a ∷ []), beq_sym a x)

  pub distinct-append :
      (xs ys : List A)
      → distinct xs ≡ true
      → distinct ys ≡ true
      → ((a : A) → elem a ys ≡ true → elem a xs ≡ false)
      → distinct (xs ++ ys) ≡ true
  distinct-append [] ys dx dy apart = dy
  distinct-append (x ∷ xs) ys dx dy apart = ground (
    arith,
    distinct-append xs ys (ground arith) dy (λ a m. ground (arith, apart a m)),
    elem-append x xs ys,
    apart x,
    beq_refl x,
  )

  pub length-remove :
      (a : A) (xs : List A)
      → distinct xs ≡ true
      → elem a xs ≡ true
      → length xs ≡ suc (length (remove a xs))
  length-remove a [] d m = ground arith
  length-remove a (x ∷ xs) d m =
      ground (arith, length-remove a xs, remove_absent a xs, e.beq_iff a x, beq_sym a x)
    where
      remove_absent : (b : A) (ys : List A) → elem b ys ≡ false → remove b ys ≡ ys
      remove_absent b [] n = refl
      remove_absent b (y ∷ ys) n = ground (arith, remove_absent b ys, beq_sym b y)

  pub all-elim :
      (test : A → Bool) (xs : List A) (a : A)
      → all test xs ≡ true
      → elem a xs ≡ true
      → test a ≡ true
  all-elim test [] a h m = ground arith
  all-elim test (x ∷ xs) a h m = ground (arith, all-elim test xs a, e.beq_iff a x)

  pub all-intro :
      (test : A → Bool) (xs : List A)
      → ((a : A) → elem a xs ≡ true → test a ≡ true)
      → all test xs ≡ true
  all-intro test [] h = refl
  all-intro test (x ∷ xs) h =
      ground (arith, h x, beq_refl x, all-intro test xs (λ a m. h a (ground arith)))

  pub any-false :
      (test : A → Bool) (xs : List A) (a : A)
      → any test xs ≡ false
      → elem a xs ≡ true
      → test a ≡ false
  any-false test [] a h m = ground arith
  any-false test (x ∷ xs) a h m = ground (arith, any-false test xs a, e.beq_iff a x)

  pub any-intro_false :
      (test : A → Bool) (xs : List A)
      → ((a : A) → elem a xs ≡ true → test a ≡ false)
      → any test xs ≡ false
  any-intro_false test [] h = refl
  any-intro_false test (x ∷ xs) h =
      ground (arith, h x, beq_refl x, any-intro_false test xs (λ a m. h a (ground arith)))

  -- A list that fails a test has an item that fails it.
  pub all-false :
      (test : A → Bool) (xs : List A)
      → all test xs ≡ false
      → (a : A) × (elem a xs ≡ true) × (test a ≡ false)
  all-false test [] h = cc
  all-false test (x ∷ xs) h = elim (Bool-cases (test x)) [
    | inl good ↦ let (a, m, bad) = all-false test xs (ground arith) in (a, ground arith, bad)
    | inr bad ↦ (x, ground (arith, beq_refl x), bad)
  ]

  pub select-none :
      (test : A → Bool) (xs : List A)
      → ((a : A) → elem a xs ≡ true → test a ≡ false)
      → select test xs ≡ []
  select-none test [] h = refl
  select-none test (x ∷ xs) h =
      ground (arith, h x, beq_refl x, select-none test xs (λ a m. h a (ground arith)))

  -- Pigeonhole: distinct members of a list are no more than the list.
  pub length-le_of_subset :
      (xs ys : List A)
      → distinct xs ≡ true
      → distinct ys ≡ true
      → ((a : A) → elem a xs ≡ true → elem a ys ≡ true)
      → length xs ≤ length ys
  length-le_of_subset [] ys dx dy h = omega arith
  length-le_of_subset (x ∷ xs) ys dx dy h = omega (
    arith,
    length-remove x ys dy (h x (ground (arith, beq_refl x))),
    length-le_of_subset xs (remove x ys) (ground arith) (distinct-select _ ys dy) inner,
  )
    where
      inner : (a : A) → elem a xs ≡ true → elem a (remove x ys) ≡ true
      inner a m = ground (arith, elem-select (λ y. not (y == x)) a ys, h a, e.beq_iff a x)

  -- If they are as many, they are all of it.
  pub elem_of_length :
      (xs ys : List A)
      → distinct xs ≡ true
      → distinct ys ≡ true
      → ((a : A) → elem a xs ≡ true → elem a ys ≡ true)
      → length ys ≤ length xs
      → (b : A) → elem b ys ≡ true
      → elem b xs ≡ true
  elem_of_length xs ys dx dy h l b m = elim (Bool-cases (elem b xs)) [
    | inl old ↦ old
    | inr new ↦ absurd (omega (arith, length-le_of_subset (b ∷ xs) ys (ground arith) dy bigger))
  ]
    where
      bigger : (a : A) → elem a (b ∷ xs) ≡ true → elem a ys ≡ true
      bigger a p = ground (arith, h a, e.beq_iff a b)
