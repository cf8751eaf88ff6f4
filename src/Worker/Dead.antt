-- ===== src/Worker/Dead.antt =====
-- worker-vpn.c: `periodic_check` disconnects the clients that are gone, and no others.
use my_vps_config.Base.{
  ℕ, ◌+◌, ◌-◌, ◌*◌, ◌^◌, ◌<◌, ◌≤◌, ◌≡◌, ◌⊎◌, ltb, leb, ◌&&◌, Bool, true, false, if◌then◌else◌, List,
  [], ◌∷◌, arith,
}
use my_vps_config.Worker.Packet.{Answers, Output, to_secmod, WorkerState}
use my_vps_config.Worker.Alive.{
  CheckConfig, CheckState, CheckOutcome, reduce_mtu, finish_check, check_tcp, check_udp,
  report_stats, periodic_check, is_over,
}

-- What a whole check that leaves the loop running says: the client was not silent for too long.
abbrev Waits : CheckConfig → ℕ → CheckState → CheckOutcome → Type 0
Waits config now s r =
    (r.state.worker.last_msg_tcp ≡ s.worker.last_msg_tcp)
    × (r.state.last_periodic_check ≡ now)
    × (now ≤ s.worker.last_msg_tcp + 3 * config.dpd)

reduce_mtu-last_msg_tcp :
    (config : CheckConfig) (w : WorkerState) → (reduce_mtu config w).last_msg_tcp ≡ w.last_msg_tcp
unfolding reduce_mtu
reduce_mtu-last_msg_tcp config w = ground arith

-- What holds of both branches.
pub if_both :
    {A : Type 0} (P : A → Type 0) (b : Bool) (x y : A) → P x → P y → P (if b then x else y)
if_both P true x y px py = px
if_both P false x y px py = py

module _ (config : CheckConfig) (env : Answers) (pos : 0 < config.dpd)
    (less : 3 * config.dpd < 2 ^ 32) where
  check_tcp-Waits :
      (now : ℕ) (sent : List Output) (s : CheckState)
      → is_over (check_tcp config env now sent s) ≡ false
      → Waits config now s (check_tcp config env now sent s)
  unfolding check_tcp finish_check
  check_tcp-Waits now sent s h = ground (arith, reduce_mtu-last_msg_tcp config s.worker)

  check_udp-Waits :
      (now : ℕ) (sent : List Output) (s : CheckState)
      → is_over (check_udp config env now sent s) ≡ false
      → Waits config now s (check_udp config env now sent s)
  unfolding check_udp
  check_udp-Waits now sent s h = ground (arith, check_tcp-Waits now)

  report_stats-Waits :
      (now : ℕ) (s : CheckState)
      → is_over (report_stats config env now s) ≡ false
      → Waits config now s (report_stats config env now s)
  unfolding report_stats
  report_stats-Waits now s h =
      if_both (λ r. is_over r ≡ false → Waits config now s r)
        (ltb 0 config.stats_report_time
          && leb config.stats_report_time (now - s.last_stats_msg)
          && s.sid_set)
        (check_udp config env now (to_secmod s.worker.tun_bytes_in s.worker.tun_bytes_out ∷ [])
          (record s { last_stats_msg = now }))
        (check_udp config env now [] s)
        (check_udp-Waits now (to_secmod s.worker.tun_bytes_in s.worker.tun_bytes_out ∷ [])
          (record s { last_stats_msg = now }))
        (check_udp-Waits now [] s) h

  -- A check that leaves the loop running was too early, or it waits.
  pub periodic_check-Waits :
      (now : ℕ) (s : CheckState)
      → is_over (periodic_check config env now s) ≡ false
      → ((now < s.last_periodic_check + 30) × ((periodic_check config env now s).state ≡ s))
        ⊎ Waits config now s (periodic_check config env now s)
  unfolding periodic_check
  periodic_check-Waits now s h = ground (arith, report_stats-Waits now s)
