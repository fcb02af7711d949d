-- ===== src/Scope/Patterns.antt =====
-- The patterns of backend/app/workspace/scope.py, read character by character.
use muti_agent.Prelude.{
  subst, ℕ, String, Nat_eq, nat_eq_iff, ◌==◌, Bool, true, false, not, ◌&&◌, List, [], ◌∷◌, ◌++◌,
  all, ◌≡◌, ◌↔◌, refl, arith, sym, Bool-cases, inl, inr,
}
use muti_agent.Scope.{
  GlobPart, directories, any_path, segment, one_char, exactly, codes, part_of, glob_regex, matches,
}
use muti_agent.Scope.Globs.{is_directories, is_word, Denotes, nothing, joined, accepts_iff}

abbrev pub starts : ℕ → List ℕ → Bool
starts c [] = false
starts c (x ∷ xs) = x == c

-- The paths that a pattern stands for. `**/` is nothing or directories with a slash behind them,
-- `**` before anything else is any characters but line feeds, a single `*` is characters but
-- slashes, `?` is a character but a slash, and any other character is itself.
pub data Glob : List ℕ → List ℕ → Type 0 where
  empty : Glob [] []
  letter :
      {c : ℕ} {glob : List ℕ}
      → (v xs : List ℕ) → (c == b'*') ≡ false
      → (c == b'?') ≡ false
      → Glob glob v
      → xs ≡ c ∷ v
      → Glob (c ∷ glob) xs
  question :
      {c : ℕ} {glob : List ℕ}
      → (x : ℕ) (v xs : List ℕ) → (c == b'*') ≡ false
      → (c == b'?') ≡ true
      → (x == b'/') ≡ false
      → Glob glob v
      → xs ≡ x ∷ v
      → Glob (c ∷ glob) xs
  single :
      {c : ℕ} {glob : List ℕ}
      → (w v xs : List ℕ) → (c == b'*') ≡ true
      → starts b'*' glob ≡ false
      → all (λ x. not (x == b'/')) w ≡ true
      → Glob glob v
      → xs ≡ w ++ v
      → Glob (c ∷ glob) xs
  double :
      {a b : ℕ} {glob : List ℕ}
      → (w v xs : List ℕ) → (a == b'*' && b == b'*') ≡ true
      → starts b'/' glob ≡ false
      → all (λ x. not (x == b'\n')) w ≡ true
      → Glob glob v
      → xs ≡ w ++ v
      → Glob (a ∷ b ∷ glob) xs
  through :
      {a b c : ℕ} {glob : List ℕ}
      → (w v xs : List ℕ) → (a == b'*' && b == b'*') ≡ true
      → (c == b'/') ≡ true
      → is_directories w ≡ true
      → Glob glob v
      → xs ≡ w ++ v
      → Glob (a ∷ b ∷ c ∷ glob) xs

Denotes-first :
    (p q : GlobPart) (parts : List GlobPart) (xs : List ℕ)
    → p ≡ q
    → Denotes (p ∷ parts) xs
    → (w : List ℕ) × (v : List ℕ) × (is_word q w ≡ true) × Denotes parts v × (xs ≡ w ++ v)
Denotes-first p q parts _ e (joined w v xs good d same) = (w, v, rw (sym e) good, d, same)

one_character :
    (test : ℕ → Bool) (p : GlobPart) (w v xs : List ℕ)
    → ((x : ℕ) → is_word p (x ∷ []) ≡ test x)
    → is_word p [] ≡ false
    → ((x y : ℕ) (z : List ℕ) → is_word p (x ∷ y ∷ z) ≡ false)
    → is_word p w ≡ true
    → xs ≡ w ++ v
    → (x : ℕ) × (test x ≡ true) × (xs ≡ x ∷ v)
one_character test p [] v xs one none' more good e = absurd (ground arith)
one_character test p (x ∷ []) v xs one none' more good e = (x, ground (arith, one x), e)
one_character test p (x ∷ y ∷ z) v xs one none' more good e = absurd (ground (arith, more x y z))

part-Glob :
    (c : ℕ) (glob : List ℕ) (parts : List GlobPart) (xs : List ℕ)
    → (c == b'*' && starts b'*' glob) ≡ false
    → ((v : List ℕ) → Denotes parts v → Glob glob v)
    → Denotes (part_of c ∷ parts) xs
    → Glob (c ∷ glob) xs
part-Glob c glob parts xs alone rest d = elim (Bool-cases (c == b'*')) [
  | inl s ↦
      let (w, v, good, after, e) = Denotes-first (part_of c) segment parts xs (ground arith) d in
      single w v xs s (ground arith) good (rest v after) e
  | inr n ↦ elim (Bool-cases (c == b'?')) [
    | inl q ↦
        let (w, v, good, after, e) = Denotes-first (part_of c) one_char parts xs (ground arith) d in
        let (x, no_slash, same) =
          one_character (λ x. not (x == b'/')) one_char w v xs (λ x. refl) refl (λ x y z. refl) good
            e in
        question x v xs n q (ground arith) (rest v after) same
    | inr l ↦
        let (w, v, good, after, e) =
          Denotes-first (part_of c) (exactly c) parts xs (ground arith) d in
        let (x, is_c, same) =
          one_character (λ x. x == c) (exactly c) w v xs (λ x. refl) refl (λ x y z. refl) good e in
        letter v xs n l (rest v after) (ground (arith, same, nat_eq_iff x c))
  ]
]

double-Glob :
    (a b : ℕ) (glob : List ℕ) (parts : List GlobPart) (xs : List ℕ)
    → (a == b'*' && b == b'*') ≡ true
    → starts b'/' glob ≡ false
    → ((v : List ℕ) → Denotes parts v → Glob glob v)
    → Denotes (any_path ∷ parts) xs
    → Glob (a ∷ b ∷ glob) xs
double-Glob a b glob parts xs stars no_slash rest d =
    let (w, v, good, after, e) = Denotes-first any_path any_path parts xs refl d in
    double w v xs stars no_slash good (rest v after) e

glob_regex-empty : glob_regex [] ≡ []
unfolding glob_regex
glob_regex-empty = refl

part_of-star : (c : ℕ) → (c == b'*') ≡ true → part_of c ≡ segment
part_of-star c s = ground arith

Denotes-empty : (v : List ℕ) → Denotes [] v → Glob [] v
Denotes-empty _ nothing = empty

glob_regex-part :
    (c : ℕ) (glob : List ℕ)
    → (c == b'*' && starts b'*' glob) ≡ false
    → glob_regex (c ∷ glob) ≡ part_of c ∷ glob_regex glob
unfolding glob_regex
glob_regex-part c [] alone = refl
glob_regex-part c (b ∷ []) alone = ground arith
glob_regex-part c (b ∷ d ∷ glob) alone = ground arith

glob_regex-double :
    (a b : ℕ) (glob : List ℕ)
    → (a == b'*' && b == b'*') ≡ true
    → starts b'/' glob ≡ false
    → glob_regex (a ∷ b ∷ glob) ≡ any_path ∷ glob_regex glob
unfolding glob_regex
glob_regex-double a b [] stars no_slash = ground arith
glob_regex-double a b (c ∷ glob) stars no_slash = ground arith

glob_regex-through :
    (a b c : ℕ) (glob : List ℕ)
    → (a == b'*' && b == b'*') ≡ true
    → (c == b'/') ≡ true
    → glob_regex (a ∷ b ∷ c ∷ glob) ≡ directories ∷ glob_regex glob
unfolding glob_regex
glob_regex-through a b c glob stars slash = ground arith

through-Glob :
    (a b c : ℕ) (glob : List ℕ) (parts : List GlobPart) (xs : List ℕ)
    → (a == b'*' && b == b'*') ≡ true
    → (c == b'/') ≡ true
    → ((v : List ℕ) → Denotes parts v → Glob glob v)
    → Denotes (directories ∷ parts) xs
    → Glob (a ∷ b ∷ c ∷ glob) xs
through-Glob a b c glob parts xs stars slash rest d =
    let (w, v, good, after, e) = Denotes-first directories directories parts xs refl d in
    through w v xs stars slash good (rest v after) e

denoted :
    (parts parts' : List GlobPart) (xs : List ℕ)
    → parts ≡ parts'
    → Denotes parts xs
    → Denotes parts' xs
denoted parts parts' xs e d = subst (λ q. Denotes q xs) e d

-- What the translation denotes is what the pattern stands for.
Denotes-Glob : (glob xs : List ℕ) → Denotes (glob_regex glob) xs → Glob glob xs
Denotes-Glob [] xs d = Denotes-empty xs (denoted _ [] xs glob_regex-empty d)
Denotes-Glob (a ∷ []) xs d =
    part-Glob a [] (glob_regex []) xs (ground arith) (Denotes-Glob [])
      (denoted _ _ xs (glob_regex-part a [] (ground arith)) d)
Denotes-Glob (a ∷ b ∷ []) xs d = elim (Bool-cases (a == b'*' && b == b'*')) [
  | inl stars ↦
      double-Glob a b [] (glob_regex []) xs stars refl (Denotes-Glob [])
        (denoted _ _ xs (glob_regex-double a b [] stars refl) d)
  | inr alone ↦
      part-Glob a (b ∷ []) (glob_regex (b ∷ [])) xs alone (Denotes-Glob (b ∷ []))
        (denoted _ _ xs (glob_regex-part a (b ∷ []) alone) d)
]
Denotes-Glob (a ∷ b ∷ c ∷ glob) xs d = elim (Bool-cases (a == b'*' && b == b'*')) [
  | inr alone ↦
      part-Glob a (b ∷ c ∷ glob) (glob_regex (b ∷ c ∷ glob)) xs alone (Denotes-Glob (b ∷ c ∷ glob))
        (denoted _ _ xs (glob_regex-part a (b ∷ c ∷ glob) alone) d)
  | inl stars ↦ elim (Bool-cases (c == b'/')) [
    | inl slash ↦
        through-Glob a b c glob (glob_regex glob) xs stars slash (Denotes-Glob glob)
          (denoted _ _ xs (glob_regex-through a b c glob stars slash) d)
    | inr no_slash ↦
        double-Glob a b (c ∷ glob) (glob_regex (c ∷ glob)) xs stars no_slash
          (Denotes-Glob (c ∷ glob))
          (denoted _ _ xs (glob_regex-double a b (c ∷ glob) stars no_slash) d)
  ]
]

Glob-Denotes : (glob xs : List ℕ) → Glob glob xs → Denotes (glob_regex glob) xs
Glob-Denotes _ _ empty = denoted _ _ [] (sym glob_regex-empty) nothing
Glob-Denotes _ _ (letter {c} {glob} v xs n l g e) =
    denoted _ _ xs (sym (glob_regex-part c glob (ground arith)))
      (joined (c ∷ []) v xs (ground arith) (Glob-Denotes glob v g) e)
Glob-Denotes _ _ (question {c} {glob} x v xs n q no_slash g e) =
    denoted _ _ xs (sym (glob_regex-part c glob (ground arith)))
      (joined (x ∷ []) v xs (ground arith) (Glob-Denotes glob v g) e)
Glob-Denotes _ _ (single {c} {glob} w v xs star alone good g e) =
    denoted _ _ xs (sym (glob_regex-part c glob (ground arith)))
      (joined w v xs (rw (part_of-star c star) good) (Glob-Denotes glob v g) e)
Glob-Denotes _ _ (double {a} {b} {glob} w v xs stars no_slash good g e) =
    denoted _ _ xs (sym (glob_regex-double a b glob stars no_slash))
      (joined w v xs good (Glob-Denotes glob v g) e)
Glob-Denotes _ _ (through {a} {b} {c} {glob} w v xs stars slash good g e) =
    denoted _ _ xs (sym (glob_regex-through a b c glob stars slash))
      (joined w v xs good (Glob-Denotes glob v g) e)

-- A path matches a pattern exactly if it is one of the paths that the pattern stands for, read
-- from left to right: `**/` is nothing or directories with a slash behind them, `**` before
-- anything but a slash is any characters but line feeds, a single `*` is characters but slashes,
-- `?` is a character but a slash, and any other character is itself.
pub matches_iff : (path glob : String) → (matches path glob ≡ true) ↔ Glob (codes glob) (codes path)
unfolding matches
matches_iff path glob =
    let (there, back) = accepts_iff (glob_regex (codes glob)) (codes path) in
    (
      λ h. Denotes-Glob (codes glob) (codes path) (there h),
      λ g. back (Glob-Denotes (codes glob) (codes path) g),
    )
