-- ===== src/Scope/Globs.antt =====
-- The patterns of backend/app/workspace/scope.py: what a translated pattern matches.
use muti_agent.Prelude.{
  ℕ, Nat_eq, ◌==◌, Bool, true, false, not, ◌&&◌, List, [], ◌∷◌, ◌++◌, all, ◌≡◌, ◌↔◌, refl, ap,
  arith, Bool-cases, inl, inr,
}
use muti_agent.Scope.{
  GlobPart, directories, any_path, segment, one_char, exactly, star, below, accepts,
}

-- Nothing, or a text without line feeds and a slash behind it.
abbrev pub is_directories : List ℕ → Bool
is_directories [] = true
is_directories (x ∷ []) = x == b'/'
is_directories (x ∷ y ∷ xs) = not (x == b'\n') && is_directories (y ∷ xs)

-- The texts of a part.
abbrev pub is_word : GlobPart → List ℕ → Bool
is_word (exactly c) (x ∷ []) = x == c
is_word (exactly c) _ = false
is_word one_char (x ∷ []) = not (x == b'/')
is_word one_char _ = false
is_word segment w = all (λ x. not (x == b'/')) w
is_word any_path w = all (λ x. not (x == b'\n')) w
is_word directories w = is_directories w

-- The texts of a sequence of parts: one text of each part, joined.
pub data Denotes : List GlobPart → List ℕ → Type 0 where
  nothing : Denotes [] []
  joined :
      {p : GlobPart} {parts : List GlobPart}
      → (w v xs : List ℕ) → is_word p w ≡ true
      → Denotes parts v
      → xs ≡ w ++ v
      → Denotes (p ∷ parts) xs

module _ (test : ℕ → Bool) (after : List ℕ → Bool) where
  star-split :
      (xs : List ℕ)
      → star test after xs ≡ true
      → (w : List ℕ) × (v : List ℕ) × (xs ≡ w ++ v) × (all test w ≡ true) × (after v ≡ true)
  star-split [] h = ([], [], refl, refl, h)
  star-split (x ∷ xs) h = elim (Bool-cases (after (x ∷ xs))) [
    | inl now ↦ ([], x ∷ xs, refl, refl, now)
    | inr later ↦
        let (w, v, e, good, rest) = star-split xs (ground arith) in
        (x ∷ w, v, ap (λ ys. x ∷ ys) e, ground arith, rest)
  ]

  star-join : (w v : List ℕ) → all test w ≡ true → after v ≡ true → star test after (w ++ v) ≡ true
  star-join [] [] good rest = rest
  star-join [] (y ∷ v) good rest = ground arith
  star-join (x ∷ w) v good rest = ground (arith, star-join w v)

module _ (after : List ℕ → Bool) where
  below-split :
      (xs : List ℕ)
      → below after xs ≡ true
      → (y : ℕ) × (w : List ℕ) × (v : List ℕ) × (xs ≡ (y ∷ w) ++ v)
        × (is_directories (y ∷ w) ≡ true)
        × (after v ≡ true)
  below-split [] h = cc
  below-split (x ∷ xs) h = elim (Bool-cases (x == b'/' && after xs)) [
    | inl now ↦ (x, [], xs, refl, ground arith, ground arith)
    | inr later ↦
        let (y, w, v, e, good, rest) = below-split xs (ground arith) in
        (x, y ∷ w, v, ap (λ ys. x ∷ ys) e, ground arith, rest)
  ]

  below-join :
      (y : ℕ) (w v : List ℕ)
      → is_directories (y ∷ w) ≡ true
      → after v ≡ true
      → below after ((y ∷ w) ++ v) ≡ true
  below-join y [] v good rest = ground arith
  below-join y (x ∷ w) v good rest = ground (arith, below-join x w v)

-- sound
accepts-Denotes : (parts : List GlobPart) (xs : List ℕ) → accepts parts xs ≡ true → Denotes parts xs
unfolding accepts
accepts-Denotes [] [] h = nothing
accepts-Denotes [] (x ∷ xs) h = cc
accepts-Denotes (exactly c ∷ parts) [] h = cc
accepts-Denotes (exactly c ∷ parts) (x ∷ xs) h =
    joined (x ∷ []) xs (x ∷ xs) (ground arith) (accepts-Denotes parts xs (ground arith)) refl
accepts-Denotes (one_char ∷ parts) [] h = cc
accepts-Denotes (one_char ∷ parts) (x ∷ xs) h =
    joined (x ∷ []) xs (x ∷ xs) (ground arith) (accepts-Denotes parts xs (ground arith)) refl
accepts-Denotes (segment ∷ parts) xs h =
    let (w, v, e, good, rest) = star-split (λ x. not (x == b'/')) (accepts parts) xs h in
    joined w v xs good (accepts-Denotes parts v rest) e
accepts-Denotes (any_path ∷ parts) xs h =
    let (w, v, e, good, rest) = star-split (λ x. not (x == b'\n')) (accepts parts) xs h in
    joined w v xs good (accepts-Denotes parts v rest) e
accepts-Denotes (directories ∷ parts) xs h = elim (Bool-cases (accepts parts xs)) [
  | inl now ↦ joined [] xs xs refl (accepts-Denotes parts xs now) refl
  | inr later ↦
      let (y, w, v, e, good, rest) = below-split (accepts parts) xs (ground arith) in
      joined (y ∷ w) v xs good (accepts-Denotes parts v rest) e
]

-- complete
word-accepts :
    (p : GlobPart) (parts : List GlobPart) (w v : List ℕ)
    → is_word p w ≡ true
    → accepts parts v ≡ true
    → accepts (p ∷ parts) (w ++ v) ≡ true
unfolding accepts
word-accepts (exactly c) parts [] v good rest = cc
word-accepts (exactly c) parts (x ∷ []) v good rest = ground arith
word-accepts (exactly c) parts (x ∷ y ∷ w) v good rest = cc
word-accepts one_char parts [] v good rest = cc
word-accepts one_char parts (x ∷ []) v good rest = ground arith
word-accepts one_char parts (x ∷ y ∷ w) v good rest = cc
word-accepts segment parts w v good rest =
    star-join (λ x. not (x == b'/')) (accepts parts) w v good rest
word-accepts any_path parts w v good rest =
    star-join (λ x. not (x == b'\n')) (accepts parts) w v good rest
word-accepts directories parts [] v good rest = ground arith
word-accepts directories parts (y ∷ w) v good rest =
    ground (arith, below-join (accepts parts) y w v good rest)

Denotes-accepts : (parts : List GlobPart) (xs : List ℕ) → Denotes parts xs → accepts parts xs ≡ true
unfolding accepts
Denotes-accepts _ _ nothing = refl
Denotes-accepts _ _ (joined {p} {parts} w v xs good rest e) =
    rw e (word-accepts p parts w v good (Denotes-accepts parts v rest))

-- The matcher accepts the texts that the parts denote.
pub accepts_iff :
    (parts : List GlobPart) (xs : List ℕ) → (accepts parts xs ≡ true) ↔ Denotes parts xs
accepts_iff parts xs = (accepts-Denotes parts xs, Denotes-accepts parts xs)
