-- ===== src/Password/Entries.antt =====
-- The password file as a table: its entries, and how a line of it reads.
use my_vps_config.Base.{
  ℕ, zero, suc, ◌+◌, ◌-◌, ◌≤◌, ◌<◌, ◌≡◌, ◌≢◌, refl, ap, ◌∙◌, if◌then◌else◌, Option, none, some,
  List, [], ◌∷◌, ◌++◌, Bytes, bytes_eq, length, length-append, arith,
}
use native.Mathlib.Nat.{zero-add, suc-add}
use mathlib.Core.List.{append_assoc, append-nil}
use my_vps_config.Text.{cut, lines, chunks, c_string, strip_last, token, strtok}
use my_vps_config.Password.Tool.{entry_line}

pub record Entry : Type 0 where
  pub name : Bytes
  pub groups : Bytes
  pub hash : Bytes

-- The bytes of a field: no NUL, colon, newline or carriage return.
abbrev pub IsText : Bytes → Type 0
IsText [] = Unit {0}
IsText (c ∷ s) = ((c ≢ 0) × (c ≢ b':') × (c ≢ b'\n') × (c ≢ b'\r')) × IsText s

-- `read_auth_pass` reads its line by one call of `fgets`.
pub record IsEntry (e : Entry) : Type 0 where
  pub name_text : IsText e.name
  pub name_given : e.name ≢ []
  pub groups_text : IsText e.groups
  pub groups_given : e.groups ≢ []
  pub hash_text : IsText e.hash
  pub hash_given : e.hash ≢ []
  pub fits : length e.name + length e.groups + length e.hash + 3 ≤ 510

abbrev pub AllEntries : List Entry → Type 0
AllEntries [] = Unit {0}
AllEntries (e ∷ es) = IsEntry e × AllEntries es

unfoldable pub print_entry : Entry → Bytes
unfolding entry_line
print_entry e = entry_line e.name e.groups e.hash

-- The file.
unfoldable pub print : List Entry → Bytes
unfolding print_entry
print [] = []
print (e ∷ es) = print_entry e ++ print es

-- The first entry of a user.
abbrev pub find : Bytes → List Entry → Option Entry
find user [] = none
find user (e ∷ es) = if bytes_eq user e.name then some e else find user es

pub cut-IsText : (a s : Bytes) → IsText a → cut b':' (a ++ b':' ∷ s) ≡ some (a, s)
unfolding cut
cut-IsText [] s t = refl
cut-IsText (c ∷ a) s t = ground (arith, cut-IsText a s t.1)

lines-IsText :
    (a s l : Bytes) (ls : List Bytes) → IsText a → lines s ≡ l ∷ ls → lines (a ++ s) ≡ (a ++ l) ∷ ls
unfolding lines
lines-IsText [] s l ls t h = h
lines-IsText (c ∷ a) s l ls t h = ground (arith, lines-IsText a s l ls t.1 h)

lines_colon :
    (s l : Bytes) (ls : List Bytes) → lines s ≡ l ∷ ls → lines (b':' ∷ s) ≡ (b':' ∷ l) ∷ ls
unfolding lines
lines_colon s l ls h = rw h

-- `getline` gives the line of an entry first.
pub lines-print_entry :
    (e : Entry) (s : Bytes) → IsEntry e → lines (print_entry e ++ s) ≡ print_entry e ∷ lines s
unfolding print_entry
lines-print_entry e s v =
    let end : lines (b'\n' ∷ s) ≡ (b'\n' ∷ []) ∷ lines s = unfold lines in refl in
    let hash = lines-IsText e.hash _ _ _ v.hash_text end in
    let groups = lines-IsText e.groups _ _ _ v.groups_text (lines_colon _ _ _ hash) in
    let name = lines-IsText e.name _ _ _ v.name_text (lines_colon _ _ _ groups) in
    simp append_assoc name

chunks-IsText :
    (k : ℕ) (a s l : Bytes) (ls : List Bytes)
    → IsText a
    → chunks k s ≡ l ∷ ls
    → chunks (length a + k) (a ++ s) ≡ (a ++ l) ∷ ls
unfolding chunks
chunks-IsText k [] s l ls t h = rw zero-add h
chunks-IsText k (c ∷ a) s l ls t h = rw (suc-add) (ground (arith, chunks-IsText k a s l ls t.1 h))

chunks_colon :
    (k : ℕ) (s l : Bytes) (ls : List Bytes)
    → chunks k s ≡ l ∷ ls
    → chunks (suc k) (b':' ∷ s) ≡ (b':' ∷ l) ∷ ls
unfolding chunks
chunks_colon k s l ls h = rw h

chunks_end : (k : ℕ) (s : Bytes) → chunks k (b'\n' ∷ s) ≡ (b'\n' ∷ []) ∷ chunks 509 s
unfolding chunks
chunks_end zero s = refl
chunks_end (suc k) s = refl

-- The first call of `fgets` gives the line of an entry.
pub chunks-print_entry :
    (e : Entry) (s : Bytes)
    → IsEntry e
    → chunks 509 (print_entry e ++ s) ≡ print_entry e ∷ chunks 509 s
unfolding print_entry
chunks-print_entry e s v =
    let k : ℕ = 507 - (length e.name + length e.groups + length e.hash) in
    let hash = chunks-IsText k e.hash _ _ _ v.hash_text (chunks_end k s) in
    let groups = chunks-IsText _ e.groups _ _ _ v.groups_text (chunks_colon _ _ _ _ hash) in
    let name = chunks-IsText _ e.name _ _ _ v.name_text (chunks_colon _ _ _ _ groups) in
    let room : length e.name + suc (length e.groups + suc (length e.hash + k)) ≡ 509 =
      omega arith in
    simp append_assoc (rw room at name)

c_string-append : (a s : Bytes) → IsText a → c_string (a ++ s) ≡ a ++ c_string s
unfolding c_string
c_string-append [] s t = refl
c_string-append (c ∷ a) s t = ground (arith, c_string-append a s t.1)

pub c_string-print_entry : (e : Entry) → IsEntry e → c_string (print_entry e) ≡ print_entry e
unfolding print_entry
c_string-print_entry e v =
    let end : c_string (b'\n' ∷ []) ≡ b'\n' ∷ [] = unfold c_string in refl in
    let colon : (s : Bytes) → c_string (b':' ∷ s) ≡ b':' ∷ c_string s =
      λ s. unfold c_string in refl in
    simp (
      c_string-append e.name _ v.name_text,
      colon,
      c_string-append e.groups _ v.groups_text,
      c_string-append e.hash _ v.hash_text,
      end,
    )

strip_last-append : (c x : ℕ) (a s : Bytes) → strip_last c (a ++ x ∷ s) ≡ a ++ strip_last c (x ∷ s)
unfolding strip_last
strip_last-append c x [] s = refl
strip_last-append c x (d ∷ []) s = refl
strip_last-append c x (d ∷ d' ∷ a) s = ap (λ t. d ∷ t) (strip_last-append c x (d' ∷ a) s)

strip_last-IsText : (a : Bytes) → IsText a → strip_last b'\r' a ≡ a
unfolding strip_last
strip_last-IsText [] t = refl
strip_last-IsText (c ∷ []) t = ground arith
strip_last-IsText (c ∷ d ∷ a) t = ap (λ u. c ∷ u) (strip_last-IsText (d ∷ a) t.1)

token-IsText : (a s : Bytes) → IsText a → token b':' (a ++ b':' ∷ s) ≡ (a, s)
unfolding token
token-IsText [] s t = refl
token-IsText (c ∷ a) s t = ground (arith, token-IsText a s t.1)

token_all : (a : Bytes) → IsText a → token b':' a ≡ (a, [])
unfolding token
token_all [] t = refl
token_all (c ∷ a) t = ground (arith, token_all a t.1)

pub strtok-IsText : (a s : Bytes) → IsText a → a ≢ [] → strtok b':' (a ++ b':' ∷ s) ≡ some (a, s)
unfolding strtok
strtok-IsText [] s t g = absurd (g refl)
strtok-IsText (c ∷ a) s t g = ground (arith, token-IsText (c ∷ a) s t)

pub strtok_all : (a : Bytes) → IsText a → a ≢ [] → strtok b':' a ≡ some (a, [])
unfolding strtok
strtok_all [] t g = absurd (g refl)
strtok_all (c ∷ a) t g = ground (arith, token_all (c ∷ a) t)

strip_last_colon : (a : Bytes) → IsText a → strip_last b'\r' (b':' ∷ a) ≡ b':' ∷ a
unfolding strip_last
strip_last_colon [] t = refl
strip_last_colon (c ∷ a) t = ap (λ u. b':' ∷ u) (strip_last-IsText (c ∷ a) t)

strip_last_fields :
    (c : ℕ) (name groups h h' : Bytes)
    → strip_last c (b':' ∷ h) ≡ b':' ∷ h'
    → strip_last c (name ++ b':' ∷ (groups ++ b':' ∷ h)) ≡ name ++ b':' ∷ (groups ++ b':' ∷ h')
strip_last_fields c name groups h h' e =
    strip_last-append c b':' name (groups ++ b':' ∷ h)
    ∙ ap (λ t. name ++ t)
        (strip_last-append c b':' (b':' ∷ groups) h ∙ ap (λ t. (b':' ∷ groups) ++ t) e)

-- What `fgets` stored for an entry, without the end of the line.
pub strip_last-print_entry :
    (e : Entry)
    → IsEntry e
    → strip_last b'\r' (strip_last b'\n' (print_entry e))
      ≡ e.name ++ b':' ∷ (e.groups ++ b':' ∷ e.hash)
unfolding print_entry
strip_last-print_entry e v =
    let end : strip_last b'\n' (b'\n' ∷ []) ≡ [] = unfold strip_last in refl in
    let newline : strip_last b'\n' (b':' ∷ (e.hash ++ b'\n' ∷ [])) ≡ b':' ∷ e.hash =
      strip_last-append b'\n' b'\n' (b':' ∷ e.hash) [] ∙ rw (end, append-nil) in
    ap (strip_last b'\r') (strip_last_fields b'\n' e.name e.groups _ _ newline)
    ∙ strip_last_fields b'\r' e.name e.groups _ _ (strip_last_colon e.hash v.hash_text)

length-pos : (a : Bytes) → a ≢ [] → 0 < length a
length-pos [] h = absurd (h refl)
length-pos (c ∷ a) h = omega arith

-- A line of an entry has more than four bytes.
pub length-print_entry : (e : Entry) → IsEntry e → 4 < length (print_entry e)
unfolding print_entry
length-print_entry e v =
    grind (arith, length-append, length-pos e.name v.name_given, length-pos e.groups v.groups_given)
