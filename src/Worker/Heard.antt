-- ===== src/Worker/Heard.antt =====
-- worker-vpn.c: `periodic_check` keeps the clients that were heard of in time.
use my_vps_config.Base.{
  ℕ, ◌+◌, ◌-◌, ◌*◌, ◌^◌, ◌<◌, ◌≤◌, ◌≡◌, ◌⊎◌, inl, inr, ltb, leb, ◌&&◌, false, List, [], ◌∷◌, ◌++◌,
  arith, Bool-cases,
}
use my_vps_config.Base.Int.{is_neg}
use my_vps_config.Worker.Packet.{Answers, Output, to_secmod, to_dtls}
use my_vps_config.Worker.Alive.{
  CheckConfig, CheckState, periodic_check_time, finish_check, check_tcp, check_udp, report_stats,
  periodic_check, is_over,
}
use my_vps_config.Worker.Dead.{if_both}

module _ (config : CheckConfig) (env : Answers) (less : 3 * config.dpd < 2 ^ 32) (now : ℕ)
    (cstp : env.cstp_is_fatal ≡ false)
    (dtls : is_neg env.dtls_ret && env.is_fatal env.dtls_ret ≡ false) where
  -- The client was heard of, and nothing else ends the connection.
  abbrev IsHeard : CheckState → Type 0
  IsHeard s = (now ≤ s.worker.last_msg_tcp + 3 * config.dpd) × (s.terminate ≡ false)

  check_tcp-alive :
      (sent : List Output) (s : CheckState)
      → IsHeard s
      → is_over (check_tcp config env now sent s) ≡ false
  unfolding check_tcp finish_check
  check_tcp-alive sent s h = ground arith

  check_udp-alive :
      (sent : List Output) (s : CheckState)
      → IsHeard s
      → is_over (check_udp config env now sent s) ≡ false
  unfolding check_udp
  check_udp-alive sent s h =
      let sent' = sent ++ (to_dtls (3 ∷ []) ∷ []) in
      let quiet : CheckState = record s { worker = record (s.worker) { udp_active = false } } in
      ground
        (arith, check_tcp-alive sent s h, check_tcp-alive sent' s h, check_tcp-alive sent' quiet h)

  report_stats-alive :
      (s : CheckState) → IsHeard s → is_over (report_stats config env now s) ≡ false
  unfolding report_stats
  report_stats-alive s h =
      if_both (λ r. is_over r ≡ false)
        (ltb 0 config.stats_report_time
          && leb config.stats_report_time (now - s.last_stats_msg)
          && s.sid_set)
        (check_udp config env now (to_secmod s.worker.tun_bytes_in s.worker.tun_bytes_out ∷ [])
          (record s { last_stats_msg = now }))
        (check_udp config env now [] s)
        (check_udp-alive (to_secmod s.worker.tun_bytes_in s.worker.tun_bytes_out ∷ [])
          (record s { last_stats_msg = now }) h)
        (check_udp-alive [] s h)

  -- A client of which a TLS packet arrived within the last 3 * dpd seconds (below 2 ^ 32), and
  -- which is not idle for longer than a configured idle_timeout, is not disconnected by a check, if
  -- no send fails fatally.
  pub periodic_check-alive :
      (s : CheckState)
      → IsHeard s
      → (config.idle_timeout ≡ 0) ⊎ (now ≤ s.worker.last_nc_msg + config.idle_timeout)
      → is_over (periodic_check config env now s) ≡ false
  unfolding periodic_check
  periodic_check-alive s h busy =
      elim (Bool-cases (ltb (now - s.last_periodic_check) periodic_check_time)) [
        | inl early ↦ ground arith
        | inr due ↦
            let off : (ltb 0 config.idle_timeout
                  && ltb config.idle_timeout (now - s.worker.last_nc_msg))
                ≡ false =
              ground arith in
            rw (due, off) (report_stats-alive s h)
      ]
