-- ===== src/Http/Fields.antt =====
-- worker-auth.c: the user name and the password of a form.
use my_vps_config.Base.{
  ℕ, ◌≤◌, ◌<◌, ◌≡◌, ◌≢◌, refl, ◌∙◌, leb, ◌==◌, Bool, true, false, ◌&&◌, ◌||◌, Option, some, [], ◌∷◌,
  ◌++◌, Bytes, length, take_all, arith, length-append,
}
use my_vps_config.Str.Area.{take-append_all}
use my_vps_config.Text.{c_string, has_part}
use my_vps_config.Html.{url_loop, unescape_url}
use my_vps_config.Http.Select.{codes, lower}
use my_vps_config.Http.Value.{starts_with_case}
use my_vps_config.Http.Form.{
  find_after, before_amp, cut64, xml_mark, find_value, decode_value, parse_reply,
}

-- Digits and letters.
abbrev pub is_word_byte : ℕ → Bool
is_word_byte c =
    (leb b'0' c && leb c b'9') || ((leb b'A' c && leb c b'Z') || (leb b'a' c && leb c b'z'))

abbrev pub IsWord : Bytes → Type 0
IsWord [] = Unit {0}
IsWord (c ∷ s) = (is_word_byte c ≡ true) × IsWord s

-- `name=` does not start in a word that an ampersand ends.
starts_with_case-word :
    (name x t : Bytes)
    → IsWord name
    → IsWord x
    → starts_with_case (name ++ b'=' ∷ []) (x ++ b'&' ∷ t) ≡ false
unfolding starts_with_case lower
starts_with_case-word [] [] t n w = refl
starts_with_case-word [] (c ∷ x) t n w = ground arith
starts_with_case-word (d ∷ name) [] t n w = ground arith
starts_with_case-word (d ∷ name) (c ∷ x) t n w =
    ground (arith, starts_with_case-word name x t n.1 w.1)

find_after-word :
    (name x t : Bytes)
    → IsWord name
    → IsWord x
    → find_after (name ++ b'=' ∷ []) (x ++ b'&' ∷ t) ≡ find_after (name ++ b'=' ∷ []) t
unfolding find_after
find_after-word name [] t n w = ground (arith, starts_with_case-word name [] t n tt)
find_after-word name (c ∷ x) t n w =
    rw (starts_with_case-word name (c ∷ x) t n w) (find_after-word name x t n w.1)

before_amp-word : (x t : Bytes) → IsWord x → before_amp (x ++ b'&' ∷ t) ≡ x
unfolding before_amp
before_amp-word [] t w = refl
before_amp-word (c ∷ x) t w = ground (arith, before_amp-word x t w.1)

before_amp_all : (x : Bytes) → IsWord x → before_amp x ≡ x
unfolding before_amp
before_amp_all [] w = refl
before_amp_all (c ∷ x) w = ground (arith, before_amp_all x w.1)

-- No byte of the form is a less-than sign or a NUL.
abbrev IsForm : Bytes → Type 0
IsForm [] = Unit {0}
IsForm (c ∷ s) = ((c ≢ 0) × (c ≢ b'<')) × IsForm s

IsForm-append : (s t : Bytes) → IsForm s → IsForm t → IsForm (s ++ t)
IsForm-append [] t v w = w
IsForm-append (c ∷ s) t v w = (v.0, IsForm-append s t v.1 w)

IsForm-word : (x : Bytes) → IsWord x → IsForm x
IsForm-word [] w = tt
IsForm-word (c ∷ x) w = ((ground arith, ground arith), IsForm-word x w.1)

has_part-form : (s : Bytes) → IsForm s → has_part xml_mark s ≡ false
unfolding has_part
has_part-form [] v = refl
has_part-form (c ∷ s) v = ground (arith, has_part-form s v.1)

c_string-form : (s : Bytes) → IsForm s → c_string (s ++ 0 ∷ []) ≡ s
unfolding c_string
c_string-form [] v = refl
c_string-form (c ∷ s) v = ground (arith, c_string-form s v.1)

cut64-field : (name : Bytes) → length name ≤ 62 → cut64 (name ++ b'=' ∷ []) ≡ name ++ b'=' ∷ []
cut64-field name short =
    take_all 63 (name ++ b'=' ∷ []) (omega (arith, length-append name (b'=' ∷ []), short))

abbrev pub username : Bytes
username = codes "username"

abbrev pub password : Bytes
password = codes "password"

-- The form that a client posts.
abbrev pub form_of : Bytes → Bytes → Bytes
form_of user pass = (username ++ b'=' ∷ user) ++ b'&' ∷ (password ++ b'=' ∷ pass)

username-IsWord : IsWord username
username-IsWord = (refl, (refl, (refl, (refl, (refl, (refl, (refl, (refl, tt))))))))

password-IsWord : IsWord password
password-IsWord = (refl, (refl, (refl, (refl, (refl, (refl, (refl, (refl, tt))))))))

user_found :
    (user rest : Bytes)
    → find_after (username ++ b'=' ∷ []) ((username ++ b'=' ∷ user) ++ rest) ≡ some (user ++ rest)
unfolding find_after starts_with_case lower
user_found user rest = refl

pass_shut :
    (t : Bytes)
    → find_after (password ++ b'=' ∷ []) (username ++ b'=' ∷ t)
      ≡ find_after (password ++ b'=' ∷ []) t
unfolding find_after starts_with_case lower
pass_shut t = refl

pass_at : (pass : Bytes) → find_after (password ++ b'=' ∷ []) (password ++ b'=' ∷ pass) ≡ some pass
unfolding find_after starts_with_case lower
pass_at pass = refl

pass_found :
    (user pass : Bytes)
    → IsWord user
    → find_after (password ++ b'=' ∷ []) (form_of user pass) ≡ some pass
pass_found user pass u =
    let rest : Bytes = password ++ b'=' ∷ pass in
    pass_shut (user ++ b'&' ∷ rest)
    ∙ find_after-word password user rest password-IsWord u
    ∙ pass_at pass

module _ (scan_hex : Bytes → Option ℕ) where
  url_loop-word : (x : Bytes) → IsWord x → url_loop scan_hex (length x) 0 x ≡ some x
  unfolding url_loop
  url_loop-word [] w = refl
  url_loop-word (c ∷ x) w = ground (arith, url_loop-word x w.1)

  decode_value-word : (x : Bytes) → IsWord x → decode_value scan_hex true (false, x) ≡ some x
  unfolding decode_value unescape_url url_loop
  decode_value-word [] w = refl
  decode_value-word (c ∷ x) w = url_loop-word (c ∷ x) w

  -- A field of a form whose value a byte string `t` starts with.
  parse_reply-at :
      (form name v t : Bytes)
      → IsForm form
      → 0 < length form
      → length name ≤ 62
      → find_after (name ++ b'=' ∷ []) form ≡ some t
      → before_amp t ≡ v
      → IsWord v
      → parse_reply scan_hex true (some (form ++ 0 ∷ [])) (length form) name (some name) ≡ some v
  unfolding parse_reply find_value
  parse_reply-at [] name v t shape given short found value word = absurd (omega arith)
  parse_reply-at (c ∷ form) name v t shape given short found value word =
      let more : (length (c ∷ form) == 0) ≡ false = ground arith in
      rw more (
        rw (take-append_all (length (c ∷ form)) (c ∷ form) (0 ∷ []) refl) (
          rw (has_part-form (c ∷ form) shape) (
            rw (c_string-form (c ∷ form) shape)
              (rw (cut64-field name short) (rw found (rw value (decode_value-word v word)))))))

  -- Where there is memory, a user name and a password of digits and letters, posted as a form, are
  -- read back.
  pub parse_reply-form :
      (user pass : Bytes)
      → IsWord user
      → IsWord pass
      → (parse_reply scan_hex true
            (some (form_of user pass ++ 0 ∷ []))
            (length (form_of user pass))
            username
            (some username)
          ≡ some user)
        × (parse_reply scan_hex true
              (some (form_of user pass ++ 0 ∷ []))
              (length (form_of user pass))
              password
              (some password)
            ≡ some pass)
  parse_reply-form user pass u p =
      let rest : Bytes = b'&' ∷ (password ++ b'=' ∷ pass) in
      let shape : IsForm (form_of user pass) =
        IsForm-append (username ++ b'=' ∷ user) rest
          (IsForm-append username (b'=' ∷ user) (IsForm-word username username-IsWord)
            ((ground arith, ground arith), IsForm-word user u))
          (
            (ground arith, ground arith),
            IsForm-append password (b'=' ∷ pass) (IsForm-word password password-IsWord)
                ((ground arith, ground arith), IsForm-word pass p),
          ) in
      (
        parse_reply-at (form_of user pass) username user (user ++ rest) shape (omega arith)
            (omega arith) (user_found user rest) (before_amp-word user (password ++ b'=' ∷ pass) u)
            u,
        parse_reply-at (form_of user pass) password pass pass shape (omega arith) (omega arith)
            (pass_found user pass u) (before_amp_all pass p) p,
      )
