-- ===== src/Http/Form.antt =====
-- worker-auth.c: `parse_reply`, a field of the body that a client posted.
use my_vps_config.Base.{
  ℕ, ◌==◌, Bool, true, false, ◌&&◌, if◌then◌else◌, Option, none, some, [], ◌∷◌, ◌++◌, Bytes, length,
  take, drop,
}
use my_vps_config.Text.{c_string, has_part}
use my_vps_config.Html.{unescape_html, unescape_url}
use my_vps_config.Http.Select.{codes}
use my_vps_config.Http.Value.{starts_with_case}

-- `strcasestr`: what stands behind the first place where the text occurs.
unfoldable pub find_after : Bytes → Bytes → Option Bytes
unfolding starts_with_case
find_after part [] = none
find_after part (c ∷ s) =
    let later = find_after part s in
    if starts_with_case part (c ∷ s) then some (drop (length part) (c ∷ s)) else later

-- The bytes in front of an ampersand.
unfoldable pub before_amp : Bytes → Bytes
before_amp [] = []
before_amp (c ∷ s) = let later = before_amp s in if c == b'&' then [] else c ∷ later

-- The bytes in front of a closing tag.
unfoldable pub before_close : Bytes → Bytes → Bytes
unfolding starts_with_case
before_close close [] = []
before_close close (c ∷ s) =
    let later = before_close close s in
    if c == b'<' && starts_with_case close (c ∷ s) then [] else c ∷ later

-- `snprintf` into `temp1` and `temp2`, of 64 bytes.
abbrev pub cut64 : Bytes → Bytes
cut64 s = take 63 s

abbrev pub xml_mark : Bytes
xml_mark = codes "<?xml"

-- The place of the value, and whether the body is XML; `none` where the field is missing.
unfoldable pub find_value : Bytes → ℕ → Bytes → Option Bytes → Option (Bool × Bytes)
find_value body size field xml_field =
    let name : Bytes = elim xml_field [ none ↦ field | some x ↦ x ] in
    if has_part xml_mark (take size body)
    then elim (find_after (cut64 (b'<' ∷ (name ++ b'>' ∷ []))) (c_string body)) [
      | none ↦ none
      | some s ↦ some (true, before_close (cut64 (b'<' ∷ b'/' ∷ (name ++ b'>' ∷ []))) s)
    ]
    else elim (find_after (cut64 (field ++ b'=' ∷ [])) (c_string body)) [
      | none ↦ none
      | some s ↦ some (false, before_amp s)
    ]

-- The value, or `none` for the return code -1. `mem` says whether `talloc` succeeds, `body` is NULL
-- or an area with a NUL.
module _ (scan_hex : Bytes → Option ℕ) where
  unfoldable pub decode_value : Bool → Bool × Bytes → Option Bytes
  decode_value mem (xml, []) = if mem then some [] else none
  decode_value mem (true, c ∷ s) = unescape_html mem (c ∷ s) (length (c ∷ s))
  decode_value mem (false, c ∷ s) = unescape_url scan_hex mem (c ∷ s) (length (c ∷ s))

  unfoldable pub parse_reply : Bool → Option Bytes → ℕ → Bytes → Option Bytes → Option Bytes
  parse_reply mem none size field xml_field = none
  parse_reply mem (some body) size field xml_field =
      if size == 0
      then none
      else elim (find_value body size field xml_field) [ none ↦ none | some v ↦ decode_value mem v ]
