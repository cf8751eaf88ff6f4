-- ===== src/Http/Routes.antt =====
-- worker-http.c: which URLs lead to which handler.
use my_vps_config.Base.{
  ◌≡◌, refl, true, ◌||◌, Option, some, List, [], ◌∷◌, Bytes, bytes_eq, bytes_eq→eq, arith,
  Bool-cases, inl, inr, length, drop, ◌⊎◌, ◌↔◌, ◌++◌,
}
use my_vps_config.Text.{starts_with}
use my_vps_config.Http.Select.{codes}
use my_vps_config.Http.Urls.{
  Handler, get_config, post_auth, post_kkdcp, KnownUrl, known_urls, goes_on, url_matches, find_get,
  http_get_url_handler, find_post, http_post_url_handler,
}

starts_with_self : (s : Bytes) → starts_with s s ≡ true
unfolding starts_with
starts_with_self [] = refl
starts_with_self (c ∷ s) = ground (arith, starts_with_self s)

-- Whether a URL is one of the table's, or goes on behind one, for a handler.
abbrev pub Reaches : Handler → List KnownUrl → Bytes → Type 0
Reaches h [] url = ⊥
Reaches h (k ∷ ks) url =
    ((k.get_handler ≡ some h)
      × (starts_with k.url url ≡ true)
      × ((bytes_eq k.url url || (k.partial_match || goes_on (drop (length k.url) url))) ≡ true))
    ⊎ Reaches h ks url

find_get-Reaches :
    (h : Handler) (ks : List KnownUrl) (url : Bytes) → find_get ks url ≡ some h → Reaches h ks url
unfolding find_get
find_get-Reaches h [] url e = cc
find_get-Reaches h (k ∷ ks) url e = elim (Bool-cases (bytes_eq k.url url)) [
  | inl same ↦
      inl (ground arith, rw (← bytes_eq→eq k.url url same) (starts_with_self k.url), ground arith)
  | inr longer ↦ elim (Bool-cases (url_matches k url)) [
    | inl hit ↦ inl (ground arith, ground arith, ground arith)
    | inr miss ↦ inr (find_get-Reaches h ks url (ground arith))
  ]
]

-- Whether a URL is one of the table's, for a handler of POST requests.
abbrev Posts : Handler → List KnownUrl → Bytes → Type 0
Posts h [] url = h ≡ post_kkdcp
Posts h (k ∷ ks) url = ((k.post_handler ≡ some h) × (k.url ≡ url)) ⊎ Posts h ks url

find_post-Posts :
    (h : Handler) (ks : List KnownUrl) (kkdcp : List (Option Bytes)) (url : Bytes)
    → find_post ks kkdcp url ≡ some h
    → Posts h ks url
unfolding find_post
find_post-Posts h [] kkdcp url e = ground arith
find_post-Posts h (k ∷ ks) kkdcp url e = elim (Bool-cases (bytes_eq k.url url)) [
  | inl same ↦ inl (ground arith, bytes_eq→eq k.url url same)
  | inr other ↦ inr (find_post-Posts h ks kkdcp url (ground arith))
]

http_get_url_handler-config :
    (url : Bytes)
    → http_get_url_handler url ≡ some get_config
    → starts_with (codes "/profiles") url ≡ true
unfolding http_get_url_handler
http_get_url_handler-config url e = ground (arith, find_get-Reaches get_config known_urls url e)

http_post_url_handler-auth :
    (kkdcp : List (Option Bytes)) (url : Bytes)
    → http_post_url_handler kkdcp url ≡ some post_auth
    → (codes "/" ≡ url) ⊎ (codes "/auth" ≡ url)
unfolding http_post_url_handler
http_post_url_handler-auth kkdcp url e =
    ground (arith, find_post-Posts post_auth known_urls kkdcp url e)

-- A prefix, and what stands behind it.
starts_with-append : (p url : Bytes) → starts_with p url ≡ true → (rest : Bytes) × (url ≡ p ++ rest)
unfolding starts_with
starts_with-append [] url h = (url, refl)
starts_with-append (c ∷ p) [] h = absurd (ground arith)
starts_with-append (c ∷ p) (d ∷ url) h =
    let (rest, same) = starts_with-append p url (ground arith) in
    let head : d ≡ c = ground arith in (rest, rw (head, same) refl)

profiles-config :
    (rest : Bytes) → http_get_url_handler (codes "/profiles" ++ rest) ≡ some get_config
unfolding http_get_url_handler find_get url_matches starts_with known_urls goes_on
profiles-config rest = ground arith

posts_root :
    (kkdcp : List (Option Bytes)) → http_post_url_handler kkdcp (codes "/") ≡ some post_auth
unfolding http_post_url_handler find_post known_urls
posts_root kkdcp = refl

posts_auth :
    (kkdcp : List (Option Bytes)) → http_post_url_handler kkdcp (codes "/auth") ≡ some post_auth
unfolding http_post_url_handler find_post known_urls
posts_auth kkdcp = refl

-- Just the POST requests for / and /auth reach the authentication, whatever paths the
-- configuration gives to the handler of Kerberos requests; and just the GET requests whose URL starts
-- with /profiles reach the handler that gives out configuration files.
pub url_handlers_lem :
    (kkdcp : List (Option Bytes)) (url : Bytes)
    → ((http_post_url_handler kkdcp url ≡ some post_auth)
        ↔ ((codes "/" ≡ url) ⊎ (codes "/auth" ≡ url)))
      × ((http_get_url_handler url ≡ some get_config)
          ↔ (starts_with (codes "/profiles") url ≡ true))
url_handlers_lem kkdcp url = (
  (
    http_post_url_handler-auth kkdcp url,
    λ e. elim e [
      | inl root ↦ rw (← root) (posts_root kkdcp)
      | inr auth ↦ rw (← auth) (posts_auth kkdcp)
    ],
  ),
  (
    http_get_url_handler-config url,
    λ e.
        let (rest, same) = starts_with-append (codes "/profiles") url e in
        rw same (profiles-config rest),
  ),
)
