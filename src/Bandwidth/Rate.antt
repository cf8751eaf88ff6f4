-- ===== src/Bandwidth/Rate.antt =====
-- worker-bandwidth.c: how much is passed.
use my_vps_config.Base.{
  ℕ, ◌+◌, ◌-◌, ◌*◌, ◌/◌, ◌%◌, ◌^◌, ◌≤◌, ◌<◌, min, max, ◌≡◌, true, List, [], ◌∷◌, arith,
}
use my_vps_config.Bandwidth.{
  Timespec, Bandwidth, timespec_sub_ms, count_update_ms, transferred_kb, credit, update,
  bandwidth_update, transmit,
}

-- The packets come before the next count starts.
abbrev pub AllWithin : Timespec → List (ℕ × Timespec) → Type 0
AllWithin start [] = Unit {0}
AllWithin start ((bytes, now) ∷ packets) =
    (timespec_sub_ms now start < count_update_ms) × AllWithin start packets

abbrev pub total : List (ℕ × Timespec) → ℕ
total [] = 0
total ((bytes, now) ∷ packets) = bytes + total packets

-- Between two starts of the count, a limited worker passes no more than what its allowance leaves
-- after the bytes passed before, if the sums are below 2 ^ 64; the count of these bytes is exact.
pub transmit-window :
    (packets : List (ℕ × Timespec)) (b : Bandwidth)
    → AllWithin b.count_start packets
    → 0 < b.kb_per_sec
    → b.transferred_bytes + total packets < 2 ^ 64
    → b.allowed_kb * 1000 < 2 ^ 64
    → let (b', passed) = transmit b packets in
      (b.transferred_bytes + passed ≤ max b.transferred_bytes (b.allowed_kb * 1000))
      × (b' ≡ record b { transferred_bytes = b.transferred_bytes + passed })
unfolding transmit bandwidth_update update
transmit-window [] b within limited small fits = ground arith
transmit-window ((bytes, now) ∷ packets) b within limited small fits = ground (
  arith,
  transmit-window packets b,
  transmit-window packets (record b { transferred_bytes = b.transferred_bytes + bytes }),
)

-- After any packets the allowance is at most a second's limit, if it was before, and the limit is
-- the same.
pub transmit-allowed :
    (packets : List (ℕ × Timespec)) (b : Bandwidth)
    → b.allowed_kb ≤ b.kb_per_sec
    → let (b', passed) = transmit b packets in
      (b'.allowed_kb ≤ b.kb_per_sec) × (b'.kb_per_sec ≡ b.kb_per_sec)
unfolding transmit bandwidth_update update
transmit-allowed [] b h = ground arith
transmit-allowed ((bytes, now) ∷ packets) b h =
    let r = bandwidth_update b bytes now in
    let kept : (r.1.allowed_kb ≤ b.kb_per_sec) × (r.1.kb_per_sec ≡ b.kb_per_sec) = ground arith in
    ground (arith, transmit-allowed packets r.1)

-- What was passed since the start of the count, in kilobytes per COUNT_UPDATE_MS.
abbrev pub used_kb : Bandwidth → Timespec → ℕ
used_kb b now = b.transferred_bytes / 1000 * count_update_ms / timespec_sub_ms now b.count_start

-- Bytes that fit in 63 bits do not overflow when they are scaled.
scaled : (bytes : ℕ) → bytes < 2 ^ 63 → (bytes / 1000 * 500) % 2 ^ 64 ≡ bytes / 1000 * 500
scaled bytes h = omega arith

-- When the count starts anew, and no more was passed than the allowance and what is added to it,
-- the allowance is the old one, less what was passed per COUNT_UPDATE_MS, plus what is added,
-- capped at a second's limit. The quantities stand below 2 ^ 63.
pub update-refill :
    (b : Bandwidth) (bytes : ℕ) (now : Timespec)
    → count_update_ms ≤ timespec_sub_ms now b.count_start
    → b.transferred_bytes < 2 ^ 63
    → b.allowed_kb + b.allowed_kb_per_count < 2 ^ 63
    → used_kb b now ≤ b.allowed_kb + b.allowed_kb_per_count
    → update b bytes now ≡ (
      true,
      record b {
        count_start = now;
        allowed_kb = min (b.allowed_kb + b.allowed_kb_per_count - used_kb b now) b.kb_per_sec;
        transferred_bytes = bytes;
      },
    )
unfolding update transferred_kb credit
update-refill b bytes now late small sums covered = ground (arith, scaled b.transferred_bytes small)

-- When the count starts anew, and more was passed than the allowance and what is added to it, the
-- difference wraps around and the allowance is the full limit of a second. The quantities stand
-- below 2 ^ 63.
pub update-wraps :
    (b : Bandwidth) (bytes : ℕ) (now : Timespec)
    → count_update_ms ≤ timespec_sub_ms now b.count_start
    → b.transferred_bytes < 2 ^ 63
    → b.allowed_kb + b.allowed_kb_per_count < used_kb b now
    → b.kb_per_sec < 2 ^ 63
    → (update b bytes now).1.allowed_kb ≡ b.kb_per_sec
unfolding update transferred_kb credit
update-wraps b bytes now late small over limit = ground (arith, scaled b.transferred_bytes small)
