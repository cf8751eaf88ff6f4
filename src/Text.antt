-- ===== src/Text.antt =====
-- The C library's functions on text that ocserv/Ocserv/src/ocpasswd.c, auth/plain.c and
-- worker-http.c call. A file is its bytes; a line that `getline` or `fgets` gives holds its newline,
-- and may hold a NUL.
use my_vps_config.Base.{
  ◌≡◌, refl, ◌⊎◌, inl, inr, ℕ, zero, suc, leb, ◌==◌, Bool, true, false, ◌&&◌, ◌||◌, if◌then◌else◌,
  Option, none, some, List, [], ◌∷◌, Bytes, is_empty,
}

-- What a function does: it returns, or it accesses memory outside its areas.
pub data Outcome (A : Type 0) : Type 0 where
  done : A → Outcome A
  fault : Outcome A

pub Outcome-cases : {A : Type 0} (o : Outcome A) → (o ≡ fault) ⊎ ((a : A) × (o ≡ done a))
Outcome-cases (done a) = inr (a, refl)
Outcome-cases fault = inl refl

-- `strchr(s, c)`: what stands before the first `c`, and what behind it. A NUL ends the search.
unfoldable pub cut : ℕ → Bytes → Option (Bytes × Bytes)
cut c [] = none
cut c (x ∷ s) =
    let later = cut c s in
    if x == c
    then some ([], s)
    else if x == 0
    then none
    else elim later [ none ↦ none | some (before, after) ↦ some (x ∷ before, after) ]

-- A byte in front of the first of the lines.
unfoldable pub push : ℕ → List Bytes → List Bytes
push c [] = (c ∷ []) ∷ []
push c (l ∷ ls) = (c ∷ l) ∷ ls

-- What `getline` gives, call by call.
unfoldable pub lines : Bytes → List Bytes
unfolding push
lines [] = []
lines (c ∷ s) = let later = lines s in if c == b'\n' then (c ∷ []) ∷ later else push c later

-- What `fgets(line, 511, fp)` gives, call by call: at most 510 bytes, of which `left` are left.
unfoldable pub chunks : ℕ → Bytes → List Bytes
unfolding push
chunks left [] = []
chunks zero (c ∷ s) = (c ∷ []) ∷ chunks 509 s
chunks (suc left) (c ∷ s) =
    let start = chunks 509 s in
    let later = chunks left s in if c == b'\n' then (c ∷ []) ∷ start else push c later

-- The C string that stands in an area: the bytes before the first NUL.
unfoldable pub c_string : Bytes → Bytes
c_string [] = []
c_string (c ∷ s) = let later = c_string s in if c == 0 then [] else c ∷ later

-- `if (line[ll - 1] == c) { ll--; line[ll] = 0; }`
unfoldable pub strip_last : ℕ → Bytes → Bytes
strip_last c [] = []
strip_last c (x ∷ []) = if x == c then [] else x ∷ []
strip_last c (x ∷ y ∷ s) = x ∷ strip_last c (y ∷ s)

-- The delimiters that `strtok_r` passes over.
unfoldable pub skip : ℕ → Bytes → Bytes
skip c [] = []
skip c (x ∷ s) = let later = skip c s in if x == c then later else x ∷ s

-- The bytes up to a delimiter, and those behind it.
unfoldable pub token : ℕ → Bytes → Bytes × Bytes
token c [] = ([], [])
token c (x ∷ s) = let later = token c s in if x == c then ([], s) else (x ∷ later.0, later.1)

-- `strtok_r` with one delimiter: the token, and the text that is left for the next call.
unfoldable pub strtok : ℕ → Bytes → Option (Bytes × Bytes)
unfolding skip token
strtok c s = elim (skip c s) [ [] ↦ none | x ∷ rest ↦ some (token c (x ∷ rest)) ]

-- `c_isspace`
unfoldable pub c_isspace : ℕ → Bool
c_isspace c = c == b' ' || leb 9 c && leb c 13

unfoldable pub trim_start : Bytes → Bytes
unfolding c_isspace
trim_start [] = []
trim_start (c ∷ s) = let later = trim_start s in if c_isspace c then later else c ∷ s

unfoldable pub trim_end : Bytes → Bytes
unfolding c_isspace
trim_end [] = []
trim_end (c ∷ s) = elim (trim_end s) [ [] ↦ if c_isspace c then [] else c ∷ [] | x ∷ t ↦ c ∷ x ∷ t ]

-- The parts between delimiters.
unfoldable pub split_on : ℕ → Bytes → List Bytes
split_on d [] = [] ∷ []
split_on d (c ∷ s) =
    let later = split_on d s in
    if c == d then [] ∷ later else elim later [ [] ↦ (c ∷ []) ∷ [] | p ∷ ps ↦ (c ∷ p) ∷ ps ]

unfoldable pub drop_empty : List Bytes → List Bytes
drop_empty [] = []
drop_empty (t ∷ ts) = elim t [ [] ↦ drop_empty ts | c ∷ s ↦ (c ∷ s) ∷ drop_empty ts ]

-- What `strtok` with one delimiter gives, call by call, for the text in an area.
unfoldable pub tokens : ℕ → Bytes → List Bytes
unfolding split_on drop_empty c_string
tokens d s = drop_empty (split_on d (c_string s))

-- `!strncmp(s, pattern, strlen(pattern))`
unfoldable pub starts_with : Bytes → Bytes → Bool
starts_with [] s = true
starts_with (p ∷ ps) [] = false
starts_with (p ∷ ps) (c ∷ s) = p == c && starts_with ps s

-- `memmem(s, length, pattern, size) != NULL`
unfoldable pub has_part : Bytes → Bytes → Bool
unfolding starts_with
has_part pattern [] = is_empty pattern
has_part pattern (c ∷ s) = starts_with pattern (c ∷ s) || has_part pattern s
