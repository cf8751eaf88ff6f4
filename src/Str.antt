-- ===== src/Str.antt =====
-- ocserv/Ocserv/src/str.c: the growing string. talloc is a parameter.
pub mod Area
pub mod Content
pub mod Tests
use my_vps_config.Base.{
  ℕ, zero, suc, ◌+◌, ◌-◌, ◌%◌, ◌^◌, max, ltb, leb, ◌==◌, Bool, true, false, if◌then◌else◌, Option,
  none, some, List, [], ◌∷◌, ◌++◌, Bytes, length, take, drop,
}
use my_vps_config.Base.Int.{ℤ, success, err_mem, is_neg}

-- `str_st`: the bytes that `allocd` leads to, `none` for NULL, and `data - allocd`.
pub record Str : Type 0 where
  pub area : Option Bytes
  pub offset : ℕ
  pub max_length : ℕ
  pub length : ℕ

-- `str_init`, and what `str_clear` leaves.
unfoldable pub str_init : Str
str_init = record { area = none; offset = 0; max_length = 0; length = 0 }

-- MIN_CHUNK
abbrev pub min_chunk : ℕ
min_chunk = 64

-- A `size_t` as an `int`.
unfoldable pub to_int : ℕ → ℤ
to_int n = let m = n % 2 ^ 32 in if ltb m (2 ^ 31) then ℤ.pos m else ℤ.negsuc (2 ^ 32 - 1 - m)

-- The stores of `memcpy`; `none` is a store outside the area.
unfoldable pub overwrite : Bytes → Bytes → Option Bytes
overwrite [] a = some a
overwrite (s ∷ src) [] = none
overwrite (s ∷ src) (x ∷ a) = elim (overwrite src a) [ none ↦ none | some a' ↦ some (s ∷ a') ]

unfoldable pub write_at : ℕ → Bytes → Bytes → Option Bytes
unfolding overwrite
write_at zero src a = overwrite src a
write_at (suc i) src [] = none
write_at (suc i) src (x ∷ a) = elim (write_at i src a) [ none ↦ none | some a' ↦ some (x ∷ a') ]

-- `memmove` of the string to the start of the area, and `data = allocd`.
unfoldable pub move : Str → Str
move s = record s {
  area = elim s.area [
    | none ↦ none
    | some a ↦ some (take s.length (drop s.offset a) ++ drop s.length a)
  ];
  offset = 0;
}

-- Either a store outside the area, or the return code and the string.
pub data Result : Type 0 where
  fault : Result
  done : Str → ℤ → Result

-- The end of `str_append_data`.
unfoldable pub append_bytes : Str → Bytes → Result
append_bytes s src = elim s.area [
  | none ↦ fault
  | some a ↦ elim (write_at (s.offset + s.length) (src ++ 0 ∷ []) a) [
    | none ↦ fault
    | some a' ↦
        done (record s { area = some a'; length = (length src + s.length) % 2 ^ 64 }) success
  ]
]

module _ (realloc : Option Bytes → ℕ → Option Bytes) where
  unfoldable pub str_append_size : Str → ℕ → Str × ℤ
  unfolding move
  str_append_size s data_size =
      let tot_len = (data_size + s.length) % 2 ^ 64 in
      let new_len = (max data_size min_chunk + max s.max_length min_chunk) % 2 ^ 64 in
      if data_size == 0
      then (s, success)
      else (if leb ((tot_len + 1) % 2 ^ 64) s.max_length
          then (if leb ((s.max_length + (2 ^ 64 - s.offset)) % 2 ^ 64) tot_len
              then (move s, to_int tot_len)
              else (s, to_int tot_len))
          else elim (realloc s.area ((new_len + 1) % 2 ^ 64)) [
            | none ↦ (record s { area = none }, err_mem)
            | some a ↦ (move (record s { area = some a; max_length = new_len }), to_int tot_len)
          ])

  unfoldable pub str_append_data : Str → Bytes → Result
  str_append_data s src =
      let r = str_append_size s (length src) in
      if is_neg r.1 then done r.0 r.1 else append_bytes r.0 src

  -- `src` without its NUL; the NUL is appended too, but not counted.
  unfoldable pub str_append_str : Str → Bytes → Result
  str_append_str s src = elim (str_append_data s (src ++ 0 ∷ [])) [
    | fault ↦ fault
    | done s' ret ↦
        if is_neg ret
        then done s' ret
        else done (record s' { length = (s'.length + (2 ^ 64 - 1)) % 2 ^ 64 }) ret
  ]

  -- The prefix is the number of bytes, as a byte.
  unfoldable pub str_append_data_prefix1 : Str → Bytes → Result
  str_append_data_prefix1 s src = elim (str_append_data s (length src % 256 ∷ [])) [
    | fault ↦ fault
    | done s' ret ↦ if is_neg ret then done s' ret else str_append_data s' src
  ]
