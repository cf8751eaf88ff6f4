-- ===== src/Cookies.antt =====
-- ocserv/Ocserv/src/cookies.c: the cookie of a session, encrypted by AES-128-GCM. GnuTLS, talloc and
-- the packing of the message are parameters.
pub mod RoundTrip
pub mod Tests
use my_vps_config.Base.{
  ℕ, zero, suc, ◌+◌, ◌-◌, ◌≡◌, leb, ◌==◌, Bool, true, false, if◌then◌else◌, Option, none, some,
  List, [], ◌∷◌, ◌++◌, Bytes, bytes_eq, length, take, drop,
}
use my_vps_config.SecMod.Types.{Cookie}

-- COOKIE_IV_SIZE and COOKIE_MAC_SIZE
abbrev pub cookie_iv_size : ℕ
cookie_iv_size = 12

abbrev pub cookie_mac_size : ℕ
cookie_mac_size = 12

-- The cipher, by key, nonce and data, `none` for an error: the data of the other side, and the
-- first 12 bytes of the tag, after encryption and after decryption. `init` is
-- `gnutls_cipher_init` and `mem` whether `talloc_size` succeeds.
pub record Gcm : Type 0 where
  pub mem : Bool
  pub init : Bytes → Bytes → Bool
  pub encrypt2 : Bytes → Bytes → Bytes → Option Bytes
  pub decrypt2 : Bytes → Bytes → Bytes → Option Bytes
  pub encrypt_tag : Bytes → Bytes → Bytes → Option Bytes
  pub decrypt_tag : Bytes → Bytes → Bytes → Option Bytes

-- `cookie__pack` and `cookie__unpack`
pub record Packing : Type 0 where
  pub pack : Cookie → Bytes
  pub unpack : Bytes → Option Cookie

module _ (gcm : Gcm) (packing : Packing) where
  -- The comparison of the tags and the end of `decrypt_cookie`.
  unfoldable pub check_tag : Option Bytes → Bytes → Bytes → Option Cookie
  check_tag none stored plain = none
  check_tag (some tag) stored plain = if bytes_eq tag stored then packing.unpack plain else none

  -- The result is `none` for -1.
  unfoldable pub decrypt_cookie : Bytes → Bytes → Option Cookie
  unfolding check_tag
  decrypt_cookie key cookie =
      let iv = take cookie_iv_size cookie in
      let size = length cookie - (cookie_iv_size + cookie_mac_size) in
      let rest = drop cookie_iv_size cookie in
      if leb (length cookie) (cookie_iv_size + cookie_mac_size)
      then none
      else (if gcm.init key iv
          then (if gcm.mem
              then elim (gcm.decrypt2 key iv (take size rest)) [
                | none ↦ none
                | some plain ↦
                    check_tag (gcm.decrypt_tag key iv (take size rest)) (drop size rest) plain
              ]
              else none)
          else none)

  -- The nonce, the encrypted bytes and the tag.
  unfoldable pub seal : Bytes → Bytes → Bytes → Option Bytes
  seal key iv packed =
      if gcm.init key iv
      then elim (gcm.encrypt2 key iv packed) [
        | none ↦ none
        | some e ↦ elim (gcm.encrypt_tag key iv packed) [
          | none ↦ none
          | some tag ↦ some (iv ++ (e ++ tag))
        ]
      ]
      else none

  -- `iv` is what `gnutls_rnd` gives; the result is `none` for a negative one.
  unfoldable pub encrypt_cookie : Option Bytes → Bytes → Cookie → Option Bytes
  unfolding seal
  encrypt_cookie none key msg = none
  encrypt_cookie (some iv) key msg =
      if length (packing.pack msg) == 0
      then none
      else (if gcm.mem then seal key iv (packing.pack msg) else none)
