-- ===== src/Str/Tests.antt =====
-- The growing string at concrete inputs.
use my_vps_config.Base.{
  ℕ, zero, suc, ◌-◌, ◌≡◌, ◌⊎◌, inl, refl, Option, none, some, [], ◌∷◌, ◌++◌, Bytes, length,
  replicate, length-append, arith, ap,
}
use my_vps_config.Base.Int.{success, err_mem}
use my_vps_config.Str.{
  Str, to_int, write_at, move, done, str_append_size, append_bytes, str_append_data,
  str_append_data_prefix1,
}
use my_vps_config.Str.Area.{take-append_all}
use my_vps_config.Str.Content.{IsStr, IsRealloc, bytes_of, text_and_end, str_append_data-text}

-- The old bytes, and zeros up to the size.
abbrev realloc : Option Bytes → ℕ → Option Bytes
realloc old n = some (bytes_of old ++ replicate (n - length (bytes_of old)) 0)

abbrev hi : Bytes
hi = b'h' ∷ b'i' ∷ []

abbrev short_area : Bytes
short_area = b'a' ∷ 0 ∷ 0 ∷ 0 ∷ 0 ∷ []

abbrev short_string : Str
short_string = record { area = some short_area; offset = 0; max_length = 4; length = 1 }

prefixed :
    str_append_data_prefix1 realloc short_string hi
    ≡ done
        (record {
          area = some (b'a' ∷ 2 ∷ b'h' ∷ b'i' ∷ 0 ∷ replicate 124 0);
          offset = 0;
          max_length = 128;
          length = 4;
        })
        success
unfolding str_append_data_prefix1 str_append_data str_append_size move to_int append_bytes write_at
prefixed = refl

length-replicate : (n x : ℕ) → length (replicate n x) ≡ n
length-replicate zero x = refl
length-replicate (suc n) x = ap suc (length-replicate n x)

realloc-IsRealloc : IsRealloc realloc
realloc-IsRealloc old n new fits h =
    let kept = bytes_of old in
    let zeros = replicate (n - length kept) 0 in
    let same : new ≡ kept ++ zeros = ground arith in
    rw same (
      omega (arith, length-append kept zeros, length-replicate (n - length kept) 0),
      take-append_all (length kept) kept zeros refl,
    )

short_string-IsStr : IsStr short_string
short_string-IsStr = (omega arith, λ h. cc, λ a h. ground arith)

str_append_data-text_example :
    (str_append_data realloc short_string hi ≡ done (record short_string { area = none }) err_mem)
    ⊎ ((s' : Str) × (str_append_data realloc short_string hi ≡ done s' success)
        × IsStr s'
        × (text_and_end s' ≡ b'a' ∷ b'h' ∷ b'i' ∷ 0 ∷ []))
str_append_data-text_example =
    str_append_data-text realloc realloc-IsRealloc short_string hi short_string-IsStr
      (inl (omega arith)) (omega arith) (omega arith)
