-- ===== src/Http/Urls.antt =====
-- worker-http.c: the handlers of the URLs, with ANYCONNECT_CLIENT_COMPAT.
use my_vps_config.Base.{
  ◌==◌, Bool, true, false, ◌&&◌, ◌||◌, if◌then◌else◌, Option, none, some, List, [], ◌∷◌, Bytes,
  bytes_eq, length, drop,
}
use my_vps_config.Text.{starts_with}
use my_vps_config.Http.Select.{codes}

pub data Handler : Type 0 where
  get_auth get_empty get_dl get_string get_config post_auth post_kkdcp : Handler

-- `known_urls_st`; `none` is a NULL handler.
pub record KnownUrl : Type 0 where
  pub url : Bytes
  pub partial_match : Bool
  pub get_handler : Option Handler
  pub post_handler : Option Handler

abbrev pub whole : Bytes → Handler → KnownUrl
whole url get = record {
  url = url;
  partial_match = false;
  get_handler = some get;
  post_handler = none;
}

unfoldable pub known_urls : List KnownUrl
known_urls =
    record (whole (codes "/") get_auth) { post_handler = some post_auth }
    ∷ record (whole (codes "/auth") get_auth) { post_handler = some post_auth }
    ∷ whole (codes "/1/index.html") get_empty
    ∷ whole (codes "/1/Linux") get_empty
    ∷ whole (codes "/1/Linux_64") get_empty
    ∷ whole (codes "/1/Windows") get_empty
    ∷ whole (codes "/1/Darwin_i386") get_empty
    ∷ whole (codes "/1/binaries/vpndownloader.sh") get_dl
    ∷ whole (codes "/1/VPNManifest.xml") get_string
    ∷ whole (codes "/1/binaries/update.txt") get_string
    ∷ record (whole (codes "/profiles") get_config) { partial_match = true }
    ∷ whole (codes "/+CSCOT+/") get_string
    ∷ whole (codes "/logout") get_empty
    ∷ []

-- What stands behind a known URL: a slash or a question mark.
unfoldable pub goes_on : Bytes → Bool
goes_on [] = false
goes_on (c ∷ s) = c == b'/' || c == b'?'

unfoldable pub url_matches : KnownUrl → Bytes → Bool
unfolding goes_on starts_with
url_matches k url =
    bytes_eq k.url url
    || starts_with k.url url && (k.partial_match || goes_on (drop (length k.url) url))

-- The loop; the handler of the first entry that matches.
unfoldable pub find_get : List KnownUrl → Bytes → Option Handler
unfolding url_matches
find_get [] url = none
find_get (k ∷ ks) url = if url_matches k url then k.get_handler else find_get ks url

unfoldable pub http_get_url_handler : Bytes → Option Handler
unfolding find_get known_urls
http_get_url_handler = find_get known_urls

unfoldable pub is_kkdcp : List (Option Bytes) → Bytes → Bool
is_kkdcp [] url = false
is_kkdcp (k ∷ ks) url = elim k [ none ↦ false | some u ↦ bytes_eq u url ] || is_kkdcp ks url

-- The first entry with the URL ends the search, also where it has no handler.
unfoldable pub find_post : List KnownUrl → List (Option Bytes) → Bytes → Option Handler
unfolding is_kkdcp
find_post [] kkdcp url = if is_kkdcp kkdcp url then some post_kkdcp else none
find_post (k ∷ ks) kkdcp url = if bytes_eq k.url url then k.post_handler else find_post ks kkdcp url

unfoldable pub http_post_url_handler : List (Option Bytes) → Bytes → Option Handler
unfolding find_post known_urls
http_post_url_handler kkdcp url = find_post known_urls kkdcp url
