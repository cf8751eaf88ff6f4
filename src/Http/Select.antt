-- ===== src/Http/Select.antt =====
-- worker-http.c: the choice of the DTLS ciphersuite and of the compression methods, for a build
-- with GnuTLS 3.2.7 or later and with LZ4.
use my_vps_config.Base.{
  ℕ, ◌+◌, ltb, leb, Bool, true, ◌&&◌, if◌then◌else◌, Option, none, some, List, [], ◌∷◌, Bytes,
  bytes_eq, map,
}
use Prim.Native.Char.{code}
use Prim.Native.String.{String}
use my_vps_config.Http.Types.{Suite, CompMethod}

-- The bytes of a text.
abbrev pub codes : String → Bytes
codes String.[] = []
codes (String.◌∷◌ c s) = code c ∷ codes s

abbrev pub suite : String → ℕ → Suite
suite name prio = record { oc_name = codes name; server_prio = prio }

unfoldable pub ciphersuites : List Suite
ciphersuites =
    suite "OC-DTLS1_2-AES128-GCM" 90
    ∷ suite "OC-DTLS1_2-AES256-GCM" 80
    ∷ suite "AES128-SHA" 50
    ∷ suite "DES-CBC3-SHA" 1
    ∷ []

unfoldable pub comp_methods : List CompMethod
comp_methods =
    record { name = codes "oc-lz4"; server_prio = 90 }
    ∷ record { name = codes "lzs"; server_prio = 80 }
    ∷ []

-- `cand == NULL || cand->server_prio < prio`
unfoldable pub improves : Option Suite → ℕ → Bool
improves none prio = true
improves (some cand) prio = ltb cand.server_prio prio

-- The loop over the suites for one token; the `break` leaves this loop alone.
unfoldable pub try_suites : (Suite → Bool) → Bytes → List Suite → Option Suite → Option Suite
unfolding improves
try_suites same token [] cand = cand
try_suites same token (s ∷ ss) cand =
    let taken = try_suites same token ss (some s) in
    let passed = try_suites same token ss cand in
    if bytes_eq token s.oc_name && improves cand s.server_prio
    then (if same s then some s else taken)
    else passed

-- The loop over the tokens.
unfoldable pub select_suite : (Suite → Bool) → List Suite → List Bytes → Option Suite → Option Suite
unfolding try_suites
select_suite same suites [] cand = cand
select_suite same suites (t ∷ ts) cand = select_suite same suites ts (try_suites same t suites cand)

-- `c_tolower`, and `c_strcasecmp(a, b) == 0`
unfoldable pub lower : ℕ → ℕ
lower c = if leb b'A' c && leb c b'Z' then c + 32 else c

unfoldable pub case_eq : Bytes → Bytes → Bool
unfolding lower
case_eq a b = bytes_eq (map lower a) (map lower b)

unfoldable pub comp_improves : Option CompMethod → ℕ → Bool
comp_improves none prio = true
comp_improves (some cand) prio = ltb cand.server_prio prio

unfoldable pub try_methods : Bytes → List CompMethod → Option CompMethod → Option CompMethod
unfolding case_eq comp_improves
try_methods token [] cand = cand
try_methods token (m ∷ ms) cand =
    try_methods token ms
      (if case_eq token m.name && comp_improves cand m.server_prio then some m else cand)

unfoldable pub select_method : List CompMethod → List Bytes → Option CompMethod → Option CompMethod
unfolding try_methods
select_method methods [] cand = cand
select_method methods (t ∷ ts) cand = select_method methods ts (try_methods t methods cand)
