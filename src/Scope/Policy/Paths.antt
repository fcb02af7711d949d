-- ===== src/Scope/Policy/Paths.antt =====
-- What backend/app/runtime/integration_policy.py asks of a path: str.startswith, str.endswith, and the
-- parts, name and suffix of a relative PurePosixPath.
use muti_agent.Prelude.{
  String, String_eq, Nat_eq, ◌==◌, Bool, true, false, not, ◌&&◌, ◌||◌, List, [], ◌∷◌, select,
  if◌then◌else◌,
}
use muti_agent.Text.{is_empty, has_char, starts_with_char, split}

-- `s.startswith(prefix)`
unfoldable pub starts_with : String → String → Bool
starts_with String.[] s = true
starts_with (String.◌∷◌ c prefix) String.[] = false
starts_with (String.◌∷◌ c prefix) (String.◌∷◌ d s) =
    String.◌∷◌ c "" == String.◌∷◌ d "" && starts_with prefix s

-- `s.endswith(suffix)`
unfoldable pub ends_with : String → String → Bool
ends_with suffix String.[] = suffix == ""
ends_with suffix (String.◌∷◌ c s) = suffix == String.◌∷◌ c s || ends_with suffix s

-- `PurePosixPath(path).parts`
unfoldable pub path_parts : String → List String
path_parts path = select (λ part. not (is_empty part || part == ".")) (split b'/' path)

-- `parts[:-1]` and `parts[-1]`
abbrev pub parents : List String → List String
parents [] = []
parents (x ∷ []) = []
parents (x ∷ y ∷ xs) = x ∷ parents (y ∷ xs)

abbrev pub name_of : List String → String
name_of [] = ""
name_of (x ∷ []) = x
name_of (x ∷ y ∷ xs) = name_of (y ∷ xs)

-- From the last dot that is not the last character.
unfoldable pub last_suffix : String → String
last_suffix String.[] = ""
last_suffix (String.◌∷◌ c s) = elim (has_char b'.' s) [
  | true ↦ last_suffix s
  | false ↦
      if starts_with_char b'.' (String.◌∷◌ c s) && not (is_empty s) then String.◌∷◌ c s else ""
]

-- `PurePosixPath(path).suffix`: a dot that begins the name begins no suffix.
abbrev pub suffix_of : String → String
suffix_of String.[] = ""
suffix_of (String.◌∷◌ c s) = last_suffix s

-- `path[2:] if path.startswith("./") else path`
abbrev pub drop_two : String → String
drop_two String.[] = ""
drop_two (String.◌∷◌ c String.[]) = ""
drop_two (String.◌∷◌ c (String.◌∷◌ d s)) = s
