-- ===== src/Str/Content.antt =====
-- str.c: what the string holds after an append.
use my_vps_config.Base.{
  ℕ, ◌+◌, ◌-◌, ◌^◌, ◌≤◌, ◌<◌, max, ◌≡◌, ◌≢◌, ◌⊎◌, inl, inr, refl, ap, sym, ◌∙◌, false, Option, none,
  some, [], ◌∷◌, ◌++◌, Bytes, length, take, drop, length-append, length-take, length-drop,
  Option-cases, Bool-cases, leb, ◌==◌, ◌%◌, arith,
}
use my_vps_config.Base.Int.{ℤ, success, err_mem, is_neg}
use my_vps_config.Str.{Str, to_int, move, done, str_append_size, append_bytes, str_append_data}
use my_vps_config.Str.Area.{text_at, write_at-Written, take-append_all, text_at-take}

abbrev pub bytes_of : Option Bytes → Bytes
bytes_of none = []
bytes_of (some a) = a

-- The string, and the string with the byte after it.
abbrev pub text : Str → Bytes
text s = text_at s.offset s.length (bytes_of s.area)

abbrev pub text_and_end : Str → Bytes
text_and_end s = text_at s.offset (s.length + 1) (bytes_of s.area)

-- The area has one byte more than `max_length`, and the string lies before it.
abbrev pub IsStr : Str → Type 0
IsStr s =
    (s.offset + s.length ≤ s.max_length)
    × ((s.area ≡ none) → s.max_length ≡ 0)
    × ((a : Bytes) → s.area ≡ some a → length a ≡ s.max_length + 1)

-- A string that has room for n more bytes.
abbrev pub HasRoom : ℕ → Str → Type 0
HasRoom n s =
    (a : Bytes) × (s.area ≡ some a)
    × (length a ≡ s.max_length + 1)
    × (s.offset + s.length + n ≤ s.max_length)

move-text :
    (s : Str) (a : Bytes) (n : ℕ)
    → s.area ≡ some a
    → length a ≡ s.max_length + 1
    → s.offset + s.length ≤ s.max_length
    → s.length + n ≤ s.max_length
    → HasRoom n (move s) × (text (move s) ≡ text s) × ((move s).length ≡ s.length)
unfolding move
move-text s a n e l fits room =
    let kept = take s.length (drop s.offset a) in
    let long : length kept ≡ s.length =
      omega (arith, length-take s.length (drop s.offset a), length-drop s.offset a) in
    (
      (
        kept ++ drop s.length a,
        ground arith,
        omega (arith, length-append kept (drop s.length a), length-drop s.length a),
        omega arith,
      ),
      rw e (take-append_all s.length kept (drop s.length a) long),
      refl,
    )

append_bytes-text :
    (s : Str) (src : Bytes)
    → HasRoom (length src) s
    → s.max_length < 2 ^ 63
    → (s' : Str) × (append_bytes s src ≡ done s' success)
      × IsStr s'
      × (text_and_end s' ≡ text s ++ (src ++ 0 ∷ []))
unfolding append_bytes
append_bytes-text s src (a, e, l, room) small =
    let longer = length-append src (0 ∷ []) in
    let (a', w, l', t) =
      write_at-Written (s.offset + s.length) s.offset s.length (length src + s.length + 1)
        (src ++ 0 ∷ []) a refl (omega arith) (omega arith) in
    (
      record s { area = some a'; length = length src + s.length },
      ground (arith, w, e),
      (omega arith, λ n. cc, λ b p. ground (arith, l', l)),
      rw e t,
    )

-- What `talloc_realloc_size` promises: an area of the size, with the bytes of the old one.
abbrev pub IsRealloc : (Option Bytes → ℕ → Option Bytes) → Type 0
IsRealloc realloc =
    (old : Option Bytes) (n : ℕ) (new : Bytes)
    → length (bytes_of old) ≤ n
    → realloc old n ≡ some new
    → (length new ≡ n) × (take (length (bytes_of old)) new ≡ bytes_of old)

module _ (realloc : Option Bytes → ℕ → Option Bytes) (promise : IsRealloc realloc) where
  -- The string is as long as before, and has room.
  abbrev pub IsGrown : ℕ → Str → Str × ℤ → Type 0
  IsGrown n s r =
      HasRoom n r.0 × (text r.0 ≡ text s) × (is_neg r.1 ≡ false) × (r.0.max_length < 2 ^ 63)

  to_int-pos : (n : ℕ) → n < 2 ^ 31 → is_neg (to_int n) ≡ false
  unfolding to_int
  to_int-pos n h = ground arith

  grow-text :
      (s : Str) (n : ℕ) (a : Bytes)
      → IsStr s
      → s.max_length < 2 ^ 62
      → s.length + n < 2 ^ 31
      → (let new_len = max n 64 + max s.max_length 64 in
          realloc s.area (new_len + 1) ≡ some a
          → (let s₁ : Str = move (record s { area = some a; max_length = new_len }) in
              HasRoom n s₁ × (text s₁ ≡ text s) × (s₁.max_length < 2 ^ 63)))
  unfolding move
  grow-text s n a (fits, empty, full) small sum got =
      let old = bytes_of s.area in
      let new_len = max n 64 + max s.max_length 64 in
      let inside : s.offset + s.length ≤ length old = elim (Option-cases s.area) [
        | inl missing ↦ rw missing (omega (arith, empty missing))
        | inr (o, there) ↦ rw there (omega (arith, full o there))
      ] in
      let short : length old ≤ new_len + 1 = elim (Option-cases s.area) [
        | inl missing ↦ rw missing (omega arith)
        | inr (o, there) ↦ rw there (omega (arith, full o there))
      ] in
      let (long, kept) = promise s.area (new_len + 1) a short got in
      let s₀ : Str = record s { area = some a; max_length = new_len } in
      let same : text s₀ ≡ text s =
        sym (text_at-take s.offset s.length (length old) a inside)
        ∙ ap (text_at s.offset s.length) kept in
      let (room, moved, l) = move-text s₀ a n refl long (omega arith) (omega arith) in
      (room, moved ∙ same, omega arith)

  move-max_length : (s : Str) → s.max_length < 2 ^ 62 → (move s).max_length < 2 ^ 63
  unfolding move
  move-max_length s h = omega arith

  str_append_size-IsGrown :
      (s : Str) (n : ℕ)
      → IsStr s
      → (0 < n) ⊎ (s.area ≢ none)
      → s.max_length < 2 ^ 62
      → s.length + n < 2 ^ 31
      → (str_append_size realloc s n ≡ (record s { area = none }, err_mem))
        ⊎ IsGrown n s (str_append_size realloc s n)
  unfolding str_append_size
  str_append_size-IsGrown s n (fits, empty, full) some_room small sum =
      let tot = n + s.length in
      let new_len = max n 64 + max s.max_length 64 in
      let tot_fits : tot % 2 ^ 64 ≡ tot = omega arith in
      let end_fits : (tot + 1) % 2 ^ 64 ≡ tot + 1 = omega arith in
      let left_fits : (s.max_length + (2 ^ 64 - s.offset)) % 2 ^ 64 ≡ s.max_length - s.offset =
        omega arith in
      let new_fits : new_len % 2 ^ 64 ≡ new_len = omega arith in
      let all_fits : (new_len + 1) % 2 ^ 64 ≡ new_len + 1 = omega arith in
      let positive = to_int-pos tot (omega arith) in
      elim (Bool-cases (n == 0)) [
        | inl nothing ↦ elim (Option-cases s.area) [
          | inl missing ↦ absurd (ground arith)
          | inr (a, there) ↦
              let e : str_append_size realloc s n ≡ (s, success) = ground arith in
              inr (rw e ((a, there, full a there, ground arith), refl, refl, omega arith))
        ]
        | inr more ↦ elim (Bool-cases (leb (tot + 1) s.max_length)) [
          | inl inside ↦ elim (Option-cases s.area) [
            | inl missing ↦ absurd (ground (arith, empty missing))
            | inr (a, there) ↦ elim (Bool-cases (leb (s.max_length - s.offset) tot)) [
              | inl tight ↦
                  let e : str_append_size realloc s n ≡ (move s, to_int tot) = ground arith in
                  let (room, same, l) = move-text s a n there (full a there) fits (ground arith) in
                  let bound : (move s).max_length < 2 ^ 63 = move-max_length s small in
                  inr (rw e (room, same, positive, bound))
              | inr loose ↦
                  let e : str_append_size realloc s n ≡ (s, to_int tot) = ground arith in
                  inr (rw e ((a, there, full a there, ground arith), refl, positive, omega arith))
            ]
          ]
          | inr outside ↦ elim (Option-cases (realloc s.area (new_len + 1))) [
            | inl failed ↦ inl (ground arith)
            | inr (a, got) ↦
                let s₁ = move (record s { area = some a; max_length = new_len }) in
                let e : str_append_size realloc s n ≡ (s₁, to_int tot) = ground arith in
                let (room, same, bounded) = grow-text s n a (fits, empty, full) small sum got in
                inr (rw e (room, same, positive, bounded))
          ]
        ]
      ]

  -- Where talloc_realloc_size keeps the old bytes, and the sizes are below 2 ^ 62 (of the area) and
  -- 2 ^ 31 (of the string), appending to a well-formed string (some bytes, or to an area that
  -- exists) never stores outside the area: it returns ERR_MEM, or 0 with a well-formed string that
  -- holds the old text, then the bytes that are appended, then a NUL.
  pub str_append_data-text :
      (s : Str) (src : Bytes)
      → IsStr s
      → (0 < length src) ⊎ (s.area ≢ none)
      → s.max_length < 2 ^ 62
      → s.length + length src < 2 ^ 31
      → (str_append_data realloc s src ≡ done (record s { area = none }) err_mem)
        ⊎ ((s' : Str) × (str_append_data realloc s src ≡ done s' success)
            × IsStr s'
            × (text_and_end s' ≡ text s ++ (src ++ 0 ∷ [])))
  unfolding str_append_data
  str_append_data-text s src valid some_room small sum =
      let r = str_append_size realloc s (length src) in
      elim (str_append_size-IsGrown s (length src) valid some_room small sum) [
        | inl failed ↦ inl (ground (arith, failed))
        | inr (room, same, positive, bounded) ↦
            let (s', stored, valid', content) = append_bytes-text r.0 src room bounded in
            inr (
              s',
              ground (arith, stored, positive),
              valid',
              content ∙ ap (λ t. t ++ (src ++ 0 ∷ [])) same,
            )
      ]
