-- ===== src/Cookies/Tests.antt =====
-- cookies.c on an example.
use my_vps_config.Base.{◌≡◌, refl, true, false, some, [], ◌∷◌, Bytes, replicate, arith}
use my_vps_config.SecMod.Types.{Cookie}
use my_vps_config.Cookies.{Gcm, Packing, encrypt_cookie, decrypt_cookie}
use my_vps_config.Cookies.RoundTrip.{Decrypts, decrypt_cookie-encrypt_cookie}

-- A cipher that changes nothing, with a tag of twelve zeros.
abbrev pub plain_gcm : Gcm
plain_gcm = record {
  mem = true;
  init = λ key iv. true;
  encrypt2 = λ key iv p. some p;
  decrypt2 = λ key iv c. some c;
  encrypt_tag = λ key iv p. some (replicate 12 0);
  decrypt_tag = λ key iv c. some (replicate 12 0);
}

abbrev pub test_cookie : Cookie
test_cookie = record {
  username = 97 ∷ [];
  groupname = [];
  hostname = [];
  ip = 49 ∷ [];
  tls_auth_ok = false;
  ipv4_seed = 5;
  sid = replicate 16 3;
  expiration = 100;
}

abbrev pub one_packing : Packing
one_packing = record { pack = λ c. 1 ∷ 2 ∷ []; unpack = λ b. some test_cookie }

abbrev pub test_iv : Bytes
test_iv = replicate 12 9

plain_gcm-Decrypts : Decrypts plain_gcm [] test_iv (1 ∷ 2 ∷ []) (1 ∷ 2 ∷ []) (replicate 12 0)
plain_gcm-Decrypts = record {
  mem = refl;
  init = refl;
  encrypts = refl;
  tags = refl;
  decrypts = refl;
  same_tag = refl;
  body_size = refl;
}

decrypt_cookie-encrypt_cookie_example :
    (e : Bytes) × (encrypt_cookie plain_gcm one_packing (some test_iv) [] test_cookie ≡ some e)
    × (decrypt_cookie plain_gcm one_packing [] e ≡ some test_cookie)
decrypt_cookie-encrypt_cookie_example =
    decrypt_cookie-encrypt_cookie plain_gcm one_packing [] test_iv (1 ∷ 2 ∷ []) (replicate 12 0)
      test_cookie refl refl plain_gcm-Decrypts refl (omega arith)
