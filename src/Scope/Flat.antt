-- ===== src/Scope/Flat.antt =====
-- The patterns of backend/app/workspace/scope.py without `**`: they keep to their directories.
use muti_agent.Prelude.{
  ◌∙◌, ℕ, suc, String, Nat_eq, nat_eq_iff, ◌==◌, Bool, true, false, not, ◌&&◌, ◌||◌, List, [], ◌∷◌,
  all, ◌≡◌, refl, arith,
}
use muti_agent.Scope.{
  GlobPart, directories, any_path, segment, one_char, exactly, codes, part_of, glob_regex, star,
  accepts, matches,
}

unfoldable pub slashes : List ℕ → ℕ
slashes [] = 0
slashes (c ∷ cs) = elim (c == b'/') [ true ↦ suc (slashes cs) | false ↦ slashes cs ]

-- `"**" in s`
unfoldable pub has_double_star : List ℕ → Bool
has_double_star [] = false
has_double_star (a ∷ []) = false
has_double_star (a ∷ b ∷ cs) = a == b'*' && b == b'*' || has_double_star (b ∷ cs)

abbrev is_flat : GlobPart → Bool
is_flat directories = false
is_flat any_path = false
is_flat _ = true

part_slashes : List GlobPart → ℕ
part_slashes [] = 0
part_slashes (exactly c ∷ parts) = elim (c == b'/') [
  | true ↦ suc (part_slashes parts)
  | false ↦ part_slashes parts
]
part_slashes (_ ∷ parts) = part_slashes parts

part_of-slashes :
    (c : ℕ) (parts : List GlobPart) (cs : List ℕ)
    → part_slashes parts ≡ slashes cs
    → (is_flat (part_of c) ≡ true) × (part_slashes (part_of c ∷ parts) ≡ slashes (c ∷ cs))
unfolding part_slashes slashes
part_of-slashes c parts cs h = ground arith

glob_regex-slashes :
    (cs : List ℕ)
    → has_double_star cs ≡ false
    → (all is_flat (glob_regex cs) ≡ true) × (part_slashes (glob_regex cs) ≡ slashes cs)
unfolding glob_regex has_double_star part_slashes slashes
glob_regex-slashes [] h = (refl, refl)
glob_regex-slashes (a ∷ []) h = ground (arith, part_of-slashes a [] [])
glob_regex-slashes (a ∷ b ∷ []) h =
    ground (arith, part_of-slashes a (glob_regex (b ∷ [])) (b ∷ []), glob_regex-slashes (b ∷ []))
glob_regex-slashes (a ∷ b ∷ c ∷ cs) h = ground (
  arith,
  part_of-slashes a (glob_regex (b ∷ c ∷ cs)) (b ∷ c ∷ cs),
  glob_regex-slashes (b ∷ c ∷ cs),
)

star-slashes :
    (after : List ℕ → Bool) (n : ℕ)
    → ((v : List ℕ) → after v ≡ true → slashes v ≡ n)
    → (xs : List ℕ) → star (λ x. not (x == b'/')) after xs ≡ true
    → slashes xs ≡ n
unfolding slashes
star-slashes after n h [] s = h [] s
star-slashes after n h (x ∷ xs) s = ground (arith, h (x ∷ xs), star-slashes after n h xs)

accepts-slashes :
    (parts : List GlobPart) (xs : List ℕ)
    → all is_flat parts ≡ true
    → accepts parts xs ≡ true
    → slashes xs ≡ part_slashes parts
unfolding accepts slashes part_slashes
accepts-slashes [] [] f h = refl
accepts-slashes [] (x ∷ xs) f h = cc
accepts-slashes (exactly c ∷ parts) [] f h = cc
accepts-slashes (exactly c ∷ parts) (x ∷ xs) f h =
    ground (arith, accepts-slashes parts xs, nat_eq_iff x c)
accepts-slashes (one_char ∷ parts) [] f h = cc
accepts-slashes (one_char ∷ parts) (x ∷ xs) f h = ground (arith, accepts-slashes parts xs)
accepts-slashes (segment ∷ parts) xs f h =
    star-slashes (accepts parts) (part_slashes parts) (λ v. accepts-slashes parts v f) xs h
accepts-slashes (any_path ∷ parts) xs f h = cc
accepts-slashes (directories ∷ parts) xs f h = cc

-- A pattern without `**` matches only paths with as many slashes as it has: no wildcard in it
-- crosses a directory.
pub matches-slashes :
    (path glob : String)
    → has_double_star (codes glob) ≡ false
    → matches path glob ≡ true
    → slashes (codes path) ≡ slashes (codes glob)
unfolding matches
matches-slashes path glob flat h =
    let (parts, same) = glob_regex-slashes (codes glob) flat in
    accepts-slashes (glob_regex (codes glob)) (codes path) parts h ∙ same
