-- ===== src/Html/Entities.antt =====
-- html.c: `unescape_html`.
use my_vps_config.Base.{
  ℕ, zero, suc, ◌+◌, ◌≤◌, ◌≡◌, refl, ap, ◌∙◌, Bool, true, false, if◌then◌else◌, ◌==◌, some, [], ◌∷◌,
  ◌++◌, Bytes, length, arith, Bool-cases, inl, inr,
}
use my_vps_config.Html.{
  decode, html_loop, unescape_html, lt_entity, gt_entity, quot_entity, amp_entity, apos_entity,
  rest,
}

length-html_loop : (left skip : ℕ) (s : Bytes) → length (html_loop left skip s) ≤ left
unfolding html_loop
length-html_loop zero skip s = omega arith
length-html_loop (suc left) (suc skip) s = omega (arith, length-html_loop left skip (rest s))
length-html_loop (suc left) zero s = omega (arith, length-html_loop left (decode s).1 (rest s))

-- The text fits into the `len + 1` bytes that are allocated, with its NUL.
pub length-unescape_html :
    (html msg : Bytes) (len : ℕ) (mem : Bool)
    → unescape_html mem html len ≡ some msg
    → length msg + 1 ≤ len + 1
unfolding unescape_html
length-unescape_html html msg len mem h = ground (arith, length-html_loop len 0 html)

-- The escapes of a text: those of XML.
abbrev pub escape_char : ℕ → Bytes
escape_char c =
    if c == b'<'
    then lt_entity
    else if c == b'>'
    then gt_entity
    else if c == b'"'
    then quot_entity
    else if c == b'&'
    then amp_entity
    else if c == b'\''
    then apos_entity
    else c ∷ []

abbrev pub escape_html : Bytes → Bytes
escape_html [] = []
escape_html (c ∷ s) = escape_char c ++ escape_html s

decode_plain : (c : ℕ) (s : Bytes) → (c == b'&') ≡ false → decode (c ∷ s) ≡ (c, 0)
unfolding decode
decode_plain c s h = ground arith

html_loop-escape_char :
    (c : ℕ) (t : Bytes)
    → html_loop (length (escape_char c ++ t)) 0 (escape_char c ++ t) ≡ c ∷ html_loop (length t) 0 t
unfolding html_loop
html_loop-escape_char c t = elim (Bool-cases (c == b'<')) [
  | inl e ↦ at_entity b'<' e refl
  | inr no_lt ↦ elim (Bool-cases (c == b'>')) [
    | inl e ↦ at_entity b'>' e refl
    | inr no_gt ↦ elim (Bool-cases (c == b'"')) [
      | inl e ↦ at_entity b'"' e refl
      | inr no_quot ↦ elim (Bool-cases (c == b'&')) [
        | inl e ↦ at_entity b'&' e refl
        | inr no_amp ↦ elim (Bool-cases (c == b'\'')) [
          | inl e ↦ at_entity b'\'' e refl
          | inr no_apos ↦
              let plain : escape_char c ≡ c ∷ [] = ground arith in
              rw plain (rw (decode_plain c t no_amp) refl)
        ]
      ]
    ]
  ]
]
  where
    at_entity :
        (d : ℕ)
        → (c == d) ≡ true
        → html_loop (length (escape_char d ++ t)) 0 (escape_char d ++ t)
          ≡ d ∷ html_loop (length t) 0 t
        → html_loop (length (escape_char c ++ t)) 0 (escape_char c ++ t)
          ≡ c ∷ html_loop (length t) 0 t
    at_entity d e run = let same : c ≡ d = ground arith in rw same run

html_loop-escape_html : (s : Bytes) → html_loop (length (escape_html s)) 0 (escape_html s) ≡ s
unfolding html_loop
html_loop-escape_html [] = refl
html_loop-escape_html (c ∷ s) =
    html_loop-escape_char c (escape_html s) ∙ ap (λ t. c ∷ t) (html_loop-escape_html s)

-- unescape_html undoes the escaping of the special characters of HTML by entities.
pub unescape_html-escape_html :
    (s : Bytes) → unescape_html true (escape_html s) (length (escape_html s)) ≡ some s
unfolding unescape_html
unescape_html-escape_html s = ap some (html_loop-escape_html s)
