-- ===== src/Html.antt =====
-- ocserv/Ocserv/src/html.c: the entities of HTML and the percent signs of URLs. `sscanf` is a
-- parameter. A string is the bytes before its NUL, and `char` is signed.
pub mod Entities
pub mod Urls
pub mod Tests
use my_vps_config.Base.{
  ℕ, zero, suc, ◌+◌, ◌-◌, ◌/◌, ◌%◌, ltb, leb, ◌==◌, Bool, true, false, ◌&&◌, ◌||◌, if◌then◌else◌,
  Option, none, some, List, [], ◌∷◌, Bytes,
}

-- `s[0]`, and `s + 1`, where the NUL reads as 0 and nothing is read behind it.
abbrev pub first_byte : Bytes → ℕ
first_byte [] = 0
first_byte (c ∷ s) = c

abbrev pub rest : Bytes → Bytes
rest [] = []
rest (c ∷ s) = s

-- `c_tolower`
abbrev pub lower : ℕ → ℕ
lower c = if leb b'A' c && leb c b'Z' then c + 32 else c

-- `!c_strncasecmp(s, pattern, strlen(pattern))`
abbrev pub starts_with : Bytes → Bytes → Bool
starts_with [] s = true
starts_with (p ∷ ps) [] = false
starts_with (p ∷ ps) (c ∷ s) = lower c == lower p && starts_with ps s

abbrev pub lt_entity : Bytes
lt_entity = b'&' ∷ b'l' ∷ b't' ∷ b';' ∷ []

abbrev pub gt_entity : Bytes
gt_entity = b'&' ∷ b'g' ∷ b't' ∷ b';' ∷ []

abbrev pub nbsp_entity : Bytes
nbsp_entity = b'&' ∷ b'n' ∷ b'b' ∷ b's' ∷ b'p' ∷ b';' ∷ []

abbrev pub quot_entity : Bytes
quot_entity = b'&' ∷ b'q' ∷ b'u' ∷ b'o' ∷ b't' ∷ b';' ∷ []

abbrev pub amp_entity : Bytes
amp_entity = b'&' ∷ b'a' ∷ b'm' ∷ b'p' ∷ b';' ∷ []

abbrev pub apos_entity : Bytes
apos_entity = b'&' ∷ b'a' ∷ b'p' ∷ b'o' ∷ b's' ∷ b';' ∷ []

-- What the text starts with stands for, and how many bytes it has besides the first.
unfoldable pub decode : Bytes → ℕ × ℕ
decode s =
    if starts_with lt_entity s
    then (b'<', 3)
    else if starts_with gt_entity s
    then (b'>', 3)
    else if starts_with nbsp_entity s
    then (b' ', 5)
    else if starts_with quot_entity s
    then (b'"', 5)
    else if starts_with amp_entity s
    then (b'&', 4)
    else if starts_with apos_entity s
    then (b'\'', 5)
    else (first_byte s, 0)

-- The loop: the rounds until `i` is `len`, the bytes still to skip, and the text from `i` on.
unfoldable pub html_loop : ℕ → ℕ → Bytes → Bytes
unfolding decode
html_loop zero skip s = []
html_loop (suc left) (suc skip) s = html_loop left skip (rest s)
html_loop (suc left) zero s = let d = decode s in d.0 ∷ html_loop left d.1 (rest s)

-- `mem` says whether `talloc_size` succeeds.
unfoldable pub unescape_html : Bool → Bytes → ℕ → Option Bytes
unescape_html mem html len = if mem then some (html_loop len 0 html) else none

abbrev pub is_alpha : ℕ → Bool
is_alpha c = (leb b'A' c && leb c b'Z') || (leb b'a' c && leb c b'z')

-- A byte as the format `%x` prints one digit.
abbrev pub hex_digit : ℕ → ℕ
hex_digit d = if ltb d 10 then b'0' + d else b'a' + (d - 10)

-- The first_byte digit of `%02x` of a `char` that is converted to `unsigned`.
abbrev pub first_digit : ℕ → ℕ
first_digit c = if ltb c 128 then c / 16 else 15

-- `snprintf` with size 3 stores two characters and a NUL.
unfoldable pub escape_loop : ℕ → Bytes → Bytes
escape_loop zero s = []
escape_loop (suc left) s =
    let later = escape_loop left (rest s) in
    if is_alpha (first_byte s)
    then first_byte s ∷ later
    else b'%' ∷ hex_digit (first_digit (first_byte s)) ∷ 0 ∷ later

unfoldable pub escape_url : Bool → Bytes → ℕ → Option Bytes
escape_url mem url len = if mem then some (escape_loop len url) else none

-- `b`, the one or two characters that `sscanf` is given.
abbrev pub two_chars : ℕ → ℕ → Bytes
two_chars c d = if c == 0 then [] else if d == 0 then c ∷ [] else c ∷ d ∷ []

module _ (scan_hex : Bytes → Option ℕ) where
  unfoldable pub url_loop : ℕ → ℕ → Bytes → Option Bytes
  url_loop zero skip s = some []
  url_loop (suc left) (suc skip) s = url_loop left skip (rest s)
  url_loop (suc left) zero s =
      let copied = url_loop left 0 (rest s) in
      let decoded = url_loop left 2 (rest s) in
      if first_byte s == b'%'
      then elim (scan_hex (two_chars (first_byte (rest s)) (first_byte (rest (rest s))))) [
        | none ↦ none
        | some u ↦ elim decoded [ none ↦ none | some m ↦ some ((u % 256) ∷ m) ]
      ]
      else elim copied [ none ↦ none | some m ↦ some (first_byte s ∷ m) ]

  unfoldable pub unescape_url : Bool → Bytes → ℕ → Option Bytes
  unescape_url mem url len = if mem then url_loop len 0 url else none
