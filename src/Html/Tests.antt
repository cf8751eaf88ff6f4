-- ===== src/Html/Tests.antt =====
-- HTML and URLs on concrete texts, and the theorems at concrete inputs.
use my_vps_config.Base.{
  ℕ, ◌+◌, ◌≡◌, refl, true, Option, none, some, [], ◌∷◌, Bytes, leb, ◌-◌, ◌&&◌, if◌then◌else◌, arith,
}
use my_vps_config.Html.{unescape_html, html_loop, decode}
use my_vps_config.Html.Urls.{ScansDigit}

upper_case : unescape_html true (b'&' ∷ b'L' ∷ b'T' ∷ b';' ∷ b'&' ∷ []) 5 ≡ some (b'<' ∷ b'&' ∷ [])
unfolding unescape_html html_loop decode
upper_case = refl

-- Reads a single digit, and nothing else.
abbrev scan_hex : Bytes → Option ℕ
scan_hex [] = none
scan_hex (c ∷ []) =
    if leb b'0' c && leb c b'9'
    then some (c - b'0')
    else if leb b'a' c && leb c b'f'
    then some (c - b'a' + 10)
    else none
scan_hex (c ∷ d ∷ s) = none

scan_hex-ScansDigit : ScansDigit scan_hex
scan_hex-ScansDigit d h = ground arith
