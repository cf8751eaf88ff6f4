-- ===== src/Html/Urls.antt =====
-- html.c: `escape_url` and `unescape_url`.
use my_vps_config.Base.{
  ℕ, ◌<◌, ◌≡◌, refl, true, if◌then◌else◌, Option, some, [], ◌∷◌, Bytes, length, map, arith,
  Bool-cases, inl, inr,
}
use my_vps_config.Html.{
  escape_loop, escape_url, url_loop, unescape_url, is_alpha, hex_digit, first_digit,
}

-- What comes back of a byte: a letter, or else the first digit of its code.
abbrev pub lossy : ℕ → ℕ
lossy c = if is_alpha c then c else first_digit c

abbrev pub IsText : Bytes → Type 0
IsText [] = Unit {0}
IsText (c ∷ s) = (c < 256) × IsText s

-- `sscanf` reads one hexadecimal digit, as `%x` writes it.
abbrev pub ScansDigit : (Bytes → Option ℕ) → Type 0
ScansDigit scan_hex = (d : ℕ) → d < 16 → scan_hex (hex_digit d ∷ []) ≡ some d

module _ (scan_hex : Bytes → Option ℕ) (scans : ScansDigit scan_hex) where
  url_loop-escape_loop :
      (s : Bytes)
      → IsText s
      → url_loop scan_hex (length (escape_loop (length s) s)) 0 (escape_loop (length s) s)
        ≡ some (map lossy s)
  unfolding url_loop escape_loop
  url_loop-escape_loop [] t = refl
  url_loop-escape_loop (c ∷ s) t = elim (Bool-cases (is_alpha c)) [
    | inl letter ↦ ground (arith, url_loop-escape_loop s t.1)
    | inr other ↦ ground (arith, url_loop-escape_loop s t.1, scans (first_digit c))
  ]

  -- What escape_url makes of a text, unescape_url takes for the text with every byte that is not a
  -- letter replaced by its first hexadecimal digit, if sscanf reads one digit as the format %x
  -- writes it.
  pub unescape_url-escape_url :
      (url text : Bytes)
      → IsText url
      → escape_url true url (length url) ≡ some text
      → unescape_url scan_hex true text (length text) ≡ some (map lossy url)
  unfolding escape_url unescape_url
  unescape_url-escape_url url text t h =
      let same : escape_loop (length url) url ≡ text = ground arith in
      rw (← same) (url_loop-escape_loop url t)
