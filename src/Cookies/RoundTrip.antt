-- ===== src/Cookies/RoundTrip.antt =====
-- cookies.c: a cookie that was encrypted is decrypted to the same message.
use my_vps_config.Base.{
  ◌+◌, ◌-◌, ◌<◌, ◌≡◌, refl, ap, true, some, [], ◌∷◌, ◌++◌, Bytes, bytes_eq_refl, length,
  length-append, take, drop, arith,
}
use my_vps_config.SecMod.Types.{Cookie}
use my_vps_config.Cookies.{Gcm, Packing, check_tag, decrypt_cookie, seal, encrypt_cookie}

take_append : (xs ys : Bytes) → take (length xs) (xs ++ ys) ≡ xs
take_append [] ys = refl
take_append (x ∷ xs) ys = ap (λ t. x ∷ t) (take_append xs ys)

drop_append : (xs ys : Bytes) → drop (length xs) (xs ++ ys) ≡ ys
drop_append [] ys = refl
drop_append (x ∷ xs) ys = drop_append xs ys

-- What the cipher is documented to do under a key and a nonce: decryption undoes encryption, and
-- computes the same tag.
pub record Decrypts (gcm : Gcm) (key iv plain body tag : Bytes) : Type 0 where
  pub mem : gcm.mem ≡ true
  pub init : gcm.init key iv ≡ true
  pub encrypts : gcm.encrypt2 key iv plain ≡ some body
  pub tags : gcm.encrypt_tag key iv plain ≡ some tag
  pub decrypts : gcm.decrypt2 key iv body ≡ some plain
  pub same_tag : gcm.decrypt_tag key iv body ≡ some tag
  pub body_size : length body ≡ length plain

module _ (gcm : Gcm) (packing : Packing) (key iv body tag : Bytes) (msg : Cookie)
    (iv_size : length iv ≡ 12) (tag_size : length tag ≡ 12)
    (d : Decrypts gcm key iv (packing.pack msg) body tag)
    (unpacks : packing.unpack (packing.pack msg) ≡ some msg)
    (some_bytes : 0 < length (packing.pack msg)) where
  encrypt_cookie_lem : encrypt_cookie gcm packing (some iv) key msg ≡ some (iv ++ (body ++ tag))
  unfolding encrypt_cookie seal
  encrypt_cookie_lem = ground (arith, d.mem, d.init, d.encrypts, d.tags)

  length-sealed : length (iv ++ (body ++ tag)) ≡ 24 + length body
  length-sealed = omega (arith, length-append iv (body ++ tag), length-append body tag)

  take-sealed : take 12 (iv ++ (body ++ tag)) ≡ iv
  take-sealed = rw (← iv_size) (take_append iv (body ++ tag))

  drop-sealed : drop 12 (iv ++ (body ++ tag)) ≡ body ++ tag
  drop-sealed = rw (← iv_size) (drop_append iv (body ++ tag))

  decrypt_parts :
      (c : Bytes)
      → length c ≡ 24 + length body
      → take 12 c ≡ iv
      → take (length c - 24) (drop 12 c) ≡ body
      → drop (length c - 24) (drop 12 c) ≡ tag
      → decrypt_cookie gcm packing key c ≡ some msg
  unfolding decrypt_cookie check_tag
  decrypt_parts c size t b g =
      ground (arith, d.mem, d.init, d.decrypts, d.same_tag, d.body_size, bytes_eq_refl tag)

  decrypt_cookie_lem : decrypt_cookie gcm packing key (iv ++ (body ++ tag)) ≡ some msg
  decrypt_cookie_lem =
      let size : length (iv ++ (body ++ tag)) - 24 ≡ length body = omega (arith, length-sealed) in
      decrypt_parts (iv ++ (body ++ tag)) length-sealed take-sealed
        (rw (size, drop-sealed) (take_append body tag))
        (rw (size, drop-sealed) (drop_append body tag))

  -- Where memory suffices and the cipher and the packing of messages undo what they do, for a nonce
  -- and a tag of 12 bytes and a message of at least one byte: encrypt_cookie gives a cookie, and
  -- decrypt_cookie under the same key gives the message back.
  pub decrypt_cookie-encrypt_cookie :
      (e : Bytes) × (encrypt_cookie gcm packing (some iv) key msg ≡ some e)
      × (decrypt_cookie gcm packing key e ≡ some msg)
  decrypt_cookie-encrypt_cookie = (iv ++ (body ++ tag), encrypt_cookie_lem, decrypt_cookie_lem)
