-- ===== src/Bandwidth.antt =====
-- ocserv/Ocserv/src/worker-bandwidth.c, worker-bandwidth.h and gettime.h: the limit of the bytes
-- that a worker passes in a second. `size_t` has 64 bits and `unsigned int` 32.
pub mod Rate
pub mod Tests
use my_vps_config.Base.{
  ℕ, ◌+◌, ◌-◌, ◌*◌, ◌/◌, ◌%◌, ◌^◌, min, Bool, true, false, ltb, leb, ◌==◌, if◌then◌else◌, List, [],
  ◌∷◌,
}

-- `struct timespec`
pub record Timespec : Type 0 where
  pub tv_sec : ℕ
  pub tv_nsec : ℕ

abbrev pub milliseconds : Timespec → ℕ
milliseconds a = a.tv_sec * 1000 + a.tv_nsec / 1000000

-- The difference, as an `unsigned int`.
unfoldable pub timespec_sub_ms : Timespec → Timespec → ℕ
timespec_sub_ms a b = (milliseconds a + (2 ^ 32 - milliseconds b % 2 ^ 32)) % 2 ^ 32

-- COUNT_UPDATE_MS
abbrev pub count_update_ms : ℕ
count_update_ms = 500

-- `bandwidth_st`
pub record Bandwidth : Type 0 where
  pub count_start : Timespec
  pub transferred_bytes : ℕ
  pub allowed_kb : ℕ
  pub allowed_kb_per_count : ℕ
  pub kb_per_sec : ℕ

unfoldable pub bandwidth_init : ℕ → Bandwidth
bandwidth_init kb_per_sec = record {
  count_start = record { tv_sec = 0; tv_nsec = 0 };
  transferred_bytes = 0;
  allowed_kb = 0;
  allowed_kb_per_count = ((kb_per_sec * count_update_ms) % 2 ^ 64) / 1000;
  kb_per_sec = kb_per_sec;
}

-- What was passed since the start of the count, in kilobytes per COUNT_UPDATE_MS.
unfoldable pub transferred_kb : Bandwidth → ℕ → ℕ
transferred_kb b diff = ((b.transferred_bytes / 1000 * count_update_ms) % 2 ^ 64) / diff

-- `t`, whose type `ssize_t` is converted to `size_t` again by the comparison of `MIN`.
unfoldable pub credit : Bandwidth → ℕ → ℕ
credit b used = (b.allowed_kb_per_count + (b.allowed_kb + (2 ^ 64 - used))) % 2 ^ 64

-- The return value, 1 or 0 as a Boolean, and the state.
unfoldable pub update : Bandwidth → ℕ → Timespec → Bool × Bandwidth
update b bytes now =
    let diff = timespec_sub_ms now b.count_start in
    if leb count_update_ms diff
    then (
      true,
      record b {
        count_start = now;
        allowed_kb = min (credit b (transferred_kb b diff)) b.kb_per_sec;
        transferred_bytes = bytes;
      },
    )
    else (let sum = (b.transferred_bytes + bytes) % 2 ^ 64 in
        if ltb ((b.allowed_kb * 1000) % 2 ^ 64) sum
        then (false, b)
        else (true, record b { transferred_bytes = sum }))

unfoldable pub bandwidth_update : Bandwidth → ℕ → Timespec → Bool × Bandwidth
bandwidth_update b bytes now = if b.kb_per_sec == 0 then (true, b) else update b bytes now

-- The packets of a worker in order, and the bytes that it may pass.
unfoldable pub transmit : Bandwidth → List (ℕ × Timespec) → Bandwidth × ℕ
transmit b [] = (b, 0)
transmit b ((bytes, now) ∷ packets) =
    let (passed, b') = bandwidth_update b bytes now in
    let rest = transmit b' packets in (rest.0, (if passed then bytes else 0) + rest.1)
