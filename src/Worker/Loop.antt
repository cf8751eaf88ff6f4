-- ===== src/Worker/Loop.antt =====
-- worker-vpn.c: the main loop of a worker on whose TLS channel nothing arrives.
use my_vps_config.Base.{
  ℕ, Bool, true, false, if◌then◌else◌, Option, none, some, List, [], ◌∷◌, Bytes,
}
use my_vps_config.Base.Int.{success, is_neg}
use my_vps_config.Worker.Packet.{WorkerState, Answers, Effect, parse_dtls_data}
use my_vps_config.Worker.Channels.{tun_mainloop}
use my_vps_config.Worker.Alive.{CheckConfig, CheckState, periodic_check, is_over}

-- The case of `dtls_mainloop` where a record of at least one byte arrived; `allowed` is what
-- `bandwidth_update` says of its size. The handshakes of DTLS are left out.
unfoldable pub dtls_record : Answers → Bool → Bytes → ℕ → WorkerState → Effect
unfolding parse_dtls_data
dtls_record env allowed data' now w =
    let active : WorkerState = record w { udp_active = true } in
    if allowed
    then parse_dtls_data env data' now active
    else record { ret = some success; state = active; outputs = [] }

-- What the main loop does, each with its own answers: a check, with what `getsockopt` says of
-- TCP_MAXSEG, and the time; a packet of the TUN device; and a record of the DTLS channel.
pub data LoopStep : Type 0 where
  check : Answers → Option ℕ → ℕ → LoopStep
  tun_packet : Answers → Bool → Bytes → ℕ → LoopStep
  dtls_packet : Answers → Bool → Bytes → ℕ → LoopStep

-- The state after a channel was served, and whether the loop goes to `exit` or the process ends.
abbrev pub channel_step : CheckState → Effect → Bool × CheckState
channel_step s r =
    let s' : CheckState = record s { worker = r.state } in
    elim r.ret [ none ↦ (true, s') | some v ↦ (is_neg v, s') ]

unfoldable pub loop_step : CheckConfig → LoopStep → CheckState → Bool × CheckState
unfolding periodic_check tun_mainloop dtls_record
loop_step config (check env maxseg now) s =
    let r = periodic_check (record config { tcp_maxseg = maxseg }) env now s in (is_over r, r.state)
loop_step config (tun_packet env allowed packet now) s =
    channel_step s (tun_mainloop env allowed packet now s.worker)
loop_step config (dtls_packet env allowed data' now) s =
    channel_step s (dtls_record env allowed data' now s.worker)

-- Whether one of the steps leaves the main loop.
unfoldable pub loop_leaves : CheckConfig → List LoopStep → CheckState → Bool
unfolding loop_step
loop_leaves config [] s = false
loop_leaves config (l ∷ ls) s =
    let r = loop_step config l s in
    let later = loop_leaves config ls r.1 in if r.0 then true else later
