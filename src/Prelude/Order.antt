-- ===== src/Prelude/Order.antt =====
-- `sorted` on strings, and the heap of `heapq` seen as the collection that it keeps.
use Prim.Native.Nat.{suc}
use Prim.Native.String.{String}
use mathlib.Core.Path.{◌≡◌, refl}
use mathlib.Core.Bool.{true, false, ◌||◌}
use mathlib.Core.List.{List, [], ◌∷◌}
use native.Mathlib.Omega.{arith}
use text.Mathlib.TextEquality.{eq_iff}
use muti_agent.Prelude.Tests.{String_eq, ◌==◌, str_lt, if◌then◌else◌}
use muti_agent.Prelude.Sets.{length, elem, distinct}

insert_sorted : String → List String → List String
insert_sorted a [] = a ∷ []
insert_sorted a (x ∷ xs) = if str_lt x a then x ∷ insert_sorted a xs else a ∷ x ∷ xs

unfoldable pub sorted : List String → List String
unfolding insert_sorted
sorted [] = []
sorted (x ∷ xs) = insert_sorted x (sorted xs)

elem-insert_sorted :
    (a b : String) (xs : List String) → elem a (insert_sorted b xs) ≡ (a == b || elem a xs)
unfolding insert_sorted
elem-insert_sorted a b [] = refl
elem-insert_sorted a b (x ∷ xs) = ground (arith, elem-insert_sorted a b xs)

pub elem-sorted : (a : String) (xs : List String) → elem a (sorted xs) ≡ elem a xs
unfolding sorted
elem-sorted a [] = refl
elem-sorted a (x ∷ xs) = ground (arith, elem-insert_sorted a x (sorted xs), elem-sorted a xs)

distinct-insert_sorted :
    (a : String) (xs : List String)
    → elem a xs ≡ false
    → distinct xs ≡ true
    → distinct (insert_sorted a xs) ≡ true
unfolding insert_sorted
distinct-insert_sorted a [] n d = refl
distinct-insert_sorted a (x ∷ xs) n d =
    ground (arith, distinct-insert_sorted a xs, elem-insert_sorted x a xs, eq_iff a x, eq_iff x a)

pub distinct-sorted : (xs : List String) → distinct xs ≡ true → distinct (sorted xs) ≡ true
unfolding sorted
distinct-sorted [] d = refl
distinct-sorted (x ∷ xs) d =
    ground (arith, distinct-insert_sorted x (sorted xs), elem-sorted x xs, distinct-sorted xs)

length-insert_sorted :
    (a : String) (xs : List String) → length (insert_sorted a xs) ≡ suc (length xs)
unfolding insert_sorted
length-insert_sorted a [] = refl
length-insert_sorted a (x ∷ xs) = ground (arith, length-insert_sorted a xs)

pub length-sorted : (xs : List String) → length (sorted xs) ≡ length xs
unfolding sorted
length-sorted [] = refl
length-sorted (x ∷ xs) = ground (arith, length-insert_sorted x (sorted xs), length-sorted xs)

-- `heappop` of the heap that holds `x` and `xs`: the least item, and what stays in the heap.
unfoldable pub heappop : String → List String → String × List String
heappop x [] = (x, [])
heappop x (y ∷ ys) =
    let (least, rest) = heappop y ys in
    if str_lt least x then (least, x ∷ rest) else (x, least ∷ rest)

pub elem-heappop :
    (a x : String) (xs : List String)
    → elem a (x ∷ xs) ≡ (a == (heappop x xs).0 || elem a (heappop x xs).1)
unfolding heappop
elem-heappop a x [] = refl
elem-heappop a x (y ∷ ys) = ground (arith, elem-heappop a y ys)

pub distinct-heappop :
    (x : String) (xs : List String)
    → distinct (x ∷ xs) ≡ true
    → distinct ((heappop x xs).0 ∷ (heappop x xs).1) ≡ true
unfolding heappop
distinct-heappop x [] d = d
distinct-heappop x (y ∷ ys) d =
    let (least, rest) = heappop y ys in
    ground (arith, distinct-heappop y ys, elem-heappop x y ys, eq_iff x least, eq_iff least x)

pub length-heappop : (x : String) (xs : List String) → length (heappop x xs).1 ≡ length xs
unfolding heappop
length-heappop x [] = refl
length-heappop x (y ∷ ys) = ground (arith, length-heappop y ys)
