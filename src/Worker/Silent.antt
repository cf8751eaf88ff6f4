-- ===== src/Worker/Silent.antt =====
-- worker-vpn.c: a worker whose client is silent on TLS leaves its main loop, whatever else arrives.
use my_vps_config.Base.{
  ℕ, ◌+◌, ◌*◌, ◌^◌, ◌<◌, ◌≤◌, ◌≡◌, inl, inr, refl, Bool, true, false, ◌&&◌, Option, none, some,
  List, [], ◌∷◌, ◌++◌, Bytes, arith, Bool-cases, Option-cases,
}
use my_vps_config.Base.Int.{is_neg}
use my_vps_config.Worker.Packet.{
  WorkerState, Answers, Output, to_dtls, Effect, Compression, is_active, int_eq, write_tun,
  write_decompressed, answer_dpd, parse_data, note_udp, parse_dtls_data,
}
use my_vps_config.Worker.Channels.{Typed, send_cstp, learn_mtu, compress_both, tun_mainloop}
use my_vps_config.Worker.Alive.{CheckConfig, CheckState, periodic_check, is_over}
use my_vps_config.Worker.Loop.{
  dtls_record, channel_step, LoopStep, check, tun_packet, dtls_packet, loop_step, loop_leaves,
}
use my_vps_config.Worker.Dead.{periodic_check-Waits}

-- What leaves the time of the last TLS packet.
abbrev IsSilent : WorkerState → Effect → Type 0
IsSilent w r = r.state.last_msg_tcp ≡ w.last_msg_tcp

send_cstp-IsSilent :
    (env : Answers) (d : Typed) (now : ℕ) (sent : List Output) (w : WorkerState)
    → IsSilent w (send_cstp env d now sent w)
unfolding send_cstp
send_cstp-IsSilent env d now sent w = ground arith

learn_mtu-IsSilent :
    (env : Answers) (w : WorkerState) → (learn_mtu env w).last_msg_tcp ≡ w.last_msg_tcp
unfolding learn_mtu
learn_mtu-IsSilent env w = ground arith

tun_mainloop-IsSilent :
    (env : Answers) (allowed : Bool) (packet : Bytes) (now : ℕ) (w : WorkerState)
    → IsSilent w (tun_mainloop env allowed packet now w)
unfolding tun_mainloop
tun_mainloop-IsSilent env allowed packet now w =
    elim allowed as (λ a. IsSilent w (tun_mainloop env a packet now w)) [
      | false ↦ refl
      | true ↦ elim (Bool-cases (is_active w)) [
        | inr off ↦ rw off (send_cstp-IsSilent env (compress_both w packet).1 now [] w)
        | inl on ↦ elim (Bool-cases (is_neg env.dtls_ret && env.is_fatal env.dtls_ret)) [
          | inl fatal ↦ rw (on, fatal) refl
          | inr fine ↦ elim (Bool-cases (int_eq env.dtls_ret env.large_packet)) [
            | inl large ↦
                rw (on, fine, large)
                  (send_cstp-IsSilent env (compress_both w packet).1 now
                    (to_dtls ((compress_both w packet).0.1 ∷ (compress_both w packet).0.0) ∷ []) _)
            | inr fits ↦ rw (on, fine, fits) (learn_mtu-IsSilent env _)
          ]
        ]
      ]
    ]

write_tun-IsSilent :
    (env : Answers) (head : ℕ) (plain buf : Bytes) (now : ℕ) (w : WorkerState)
    → IsSilent w (write_tun env head plain buf now w)
unfolding write_tun
write_tun-IsSilent env head plain buf now w = ground arith

write_decompressed-IsSilent :
    (env : Answers) (comp : Option Compression) (head : ℕ) (buf : Bytes) (now : ℕ) (w : WorkerState)
    → IsSilent w (write_decompressed env comp head buf now w)
unfolding write_decompressed
write_decompressed-IsSilent env none head buf now w = refl
write_decompressed-IsSilent env (some c) head buf now w = elim (Option-cases (c.decompress buf)) [
  | inl failed ↦ ground arith
  | inr ([], empty) ↦ ground arith
  | inr (x ∷ xs, full) ↦ ground (arith, write_tun-IsSilent env head (x ∷ xs) buf now w)
]

answer_dpd-IsSilent :
    (env : Answers) (head : ℕ) (w : WorkerState) → IsSilent w (answer_dpd env head w)
unfolding answer_dpd
answer_dpd-IsSilent env head w = ground arith

parse_data-IsSilent :
    (env : Answers) (is_tls : Bool) (head : ℕ) (buf : Bytes) (now : ℕ) (w : WorkerState)
    → IsSilent w (parse_data env is_tls head buf now w)
unfolding parse_data
parse_data-IsSilent env is_tls head buf now w = ground (
  arith,
  answer_dpd-IsSilent env head w,
  write_decompressed-IsSilent env w.cstp_selected_comp head buf now w,
  write_decompressed-IsSilent env w.dtls_selected_comp head buf now w,
  write_tun-IsSilent env head buf buf now w,
)

note_udp-IsSilent :
    (now : ℕ) (r : Effect) (w : WorkerState) → IsSilent w r → IsSilent w (note_udp now r)
unfolding note_udp
note_udp-IsSilent now r w s = ground arith

dtls_record-IsSilent :
    (env : Answers) (allowed : Bool) (data' : Bytes) (now : ℕ) (w : WorkerState)
    → IsSilent w (dtls_record env allowed data' now w)
unfolding dtls_record parse_dtls_data
dtls_record-IsSilent env false data' now w = refl
dtls_record-IsSilent env true [] now w = refl
dtls_record-IsSilent env true (head ∷ buf) now w =
    let active : WorkerState = record w { udp_active = true } in
    note_udp-IsSilent now (parse_data env false head buf now active) w
      (parse_data-IsSilent env false head buf now active)

module _ (config : CheckConfig) (pos : 0 < config.dpd) (less : 3 * config.dpd < 2 ^ 32) where
  -- The worker may still wait for its client: the last check was in time.
  abbrev IsPatient : ℕ → CheckState → Type 0
  IsPatient late s =
      (s.last_periodic_check ≤ s.worker.last_msg_tcp + 3 * config.dpd)
      × (s.worker.last_msg_tcp + 3 * config.dpd + 30 ≤ late)

  channel_step-IsPatient :
      (late : ℕ) (s : CheckState) (r : Effect)
      → IsPatient late s
      → IsSilent s.worker r
      → IsPatient late (channel_step s r).1
  channel_step-IsPatient late s r (h, k) kept = elim (Option-cases r.ret) [
    | inl ended ↦ rw ended (omega arith, omega arith)
    | inr (v, returned) ↦ rw returned (omega arith, omega arith)
  ]

  loop_step-IsPatient :
      (l : LoopStep) (late : ℕ) (s : CheckState)
      → IsPatient late s
      → (loop_step config l s).0 ≡ false
      → IsPatient late (loop_step config l s).1
  unfolding loop_step
  loop_step-IsPatient (check env maxseg now) late s p runs =
      elim (periodic_check-Waits (record config { tcp_maxseg = maxseg }) env pos less now s runs) [
        | inl (early, same) ↦ rw same p
        | inr (e, e', w) ↦ (omega arith, omega arith)
      ]
  loop_step-IsPatient (tun_packet env allowed packet now) late s p runs =
      channel_step-IsPatient late s (tun_mainloop env allowed packet now s.worker) p
        (tun_mainloop-IsSilent env allowed packet now s.worker)
  loop_step-IsPatient (dtls_packet env allowed data' now) late s p runs =
      channel_step-IsPatient late s (dtls_record env allowed data' now s.worker) p
        (dtls_record-IsSilent env allowed data' now s.worker)

  late_check :
      (env : Answers) (maxseg : Option ℕ) (late : ℕ) (s : CheckState)
      → IsPatient late s
      → (loop_step config (check env maxseg late) s).0 ≡ true
  unfolding loop_step
  late_check env maxseg late s p =
      let config' : CheckConfig = record config { tcp_maxseg = maxseg } in
      elim (Bool-cases (is_over (periodic_check config' env late s))) [
        | inl over ↦ over
        | inr runs ↦ absurd (elim (periodic_check-Waits config' env pos less late s runs) [
          | inl (early, same) ↦ omega arith
          | inr (e, e', w) ↦ omega arith
        ])
      ]

  -- While nothing arrives on TLS, and with DPD configured (3 * dpd is above 0 and below 2 ^ 32), a
  -- worker whose previous check was not later than 3 * dpd after the last TLS packet leaves its
  -- main loop at the latest at a check 30 seconds after that time; whatever checks, packets of the
  -- TUN device and records of the DTLS channel come before, and whatever the sends return.
  pub loop_leaves-late :
      (ls : List LoopStep) (env : Answers) (maxseg : Option ℕ) (late : ℕ) (s : CheckState)
      → s.last_periodic_check ≤ s.worker.last_msg_tcp + 3 * config.dpd
      → s.worker.last_msg_tcp + 3 * config.dpd + 30 ≤ late
      → loop_leaves config (ls ++ (check env maxseg late ∷ [])) s ≡ true
  unfolding loop_leaves
  loop_leaves-late [] env maxseg late s h k = rw (late_check env maxseg late s (h, k)) refl
  loop_leaves-late (l ∷ ls) env maxseg late s h k = elim (Bool-cases (loop_step config l s).0) [
    | inl over ↦ rw over refl
    | inr runs ↦
        let (h', k') = loop_step-IsPatient l late s (h, k) runs in
        rw runs (loop_leaves-late ls env maxseg late (loop_step config l s).1 h' k')
  ]
