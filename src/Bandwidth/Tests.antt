-- ===== src/Bandwidth/Tests.antt =====
-- The limit on concrete packets, and its theorems at concrete inputs.
use my_vps_config.Base.{ℕ, ◌+◌, ◌≤◌, ◌≡◌, refl, List, [], ◌∷◌, arith}
use my_vps_config.Bandwidth.{
  Timespec, Bandwidth, timespec_sub_ms, update, bandwidth_update, transmit,
}
use my_vps_config.Bandwidth.Rate.{transmit-window}

abbrev at : ℕ → Timespec
at nsec = record { tv_sec = 5; tv_nsec = nsec }

-- 100 kB in a second, of which 60 are allowed.
abbrev limited : Bandwidth
limited = record {
  count_start = at 0;
  transferred_bytes = 58500;
  allowed_kb = 60;
  allowed_kb_per_count = 50;
  kb_per_sec = 100;
}

abbrev packets : List (ℕ × Timespec)
packets = (1400, at 100000000) ∷ (1400, at 200000000) ∷ []

second_refused : transmit limited packets ≡ (record limited { transferred_bytes = 59900 }, 1400)
unfolding transmit bandwidth_update update timespec_sub_ms
second_refused = refl

transmit-window_example :
    let (b', passed) = transmit limited packets in
    (58500 + passed ≤ 60000) × (b' ≡ record limited { transferred_bytes = 58500 + passed })
unfolding timespec_sub_ms
transmit-window_example =
    transmit-window packets limited (omega arith, (omega arith, tt)) (omega arith) (omega arith)
      (omega arith)

-- With a limit of 1 kB in a second nothing is added, and one packet was passed.
abbrev slow : Bandwidth
slow = record {
  count_start = at 0;
  transferred_bytes = 1400;
  allowed_kb = 0;
  allowed_kb_per_count = 0;
  kb_per_sec = 1;
}
