-- ===== src/Worker/Alive.antt =====
-- worker-vpn.c: `periodic_check`, which finds clients that are idle or gone.
use my_vps_config.Base.{
  ℕ, ◌+◌, ◌-◌, ◌*◌, ◌%◌, ◌^◌, min, ltb, leb, Bool, true, false, ◌&&◌, if◌then◌else◌, Option, none,
  some, List, [], ◌∷◌, ◌++◌,
}
use my_vps_config.Base.Int.{ℤ, is_neg, success, failure}
use my_vps_config.Worker.Mtu.{mtu_set}
use my_vps_config.Worker.Packet.{
  WorkerState, Answers, Output, to_cstp, to_dtls, to_secmod, is_active, cstp_frame,
}

-- DPD_TRIES, DPD_MAX_TRIES and PERIODIC_CHECK_TIME
abbrev pub dpd_tries : ℕ
dpd_tries = 2

abbrev pub dpd_max_tries : ℕ
dpd_max_tries = 3

abbrev pub periodic_check_time : ℕ
periodic_check_time = 30

-- The configuration, and what `getsockopt` says of TCP_MAXSEG.
pub record CheckConfig : Type 0 where
  pub idle_timeout : ℕ
  pub stats_report_time : ℕ
  pub dpd : ℕ
  pub mtu_overhead : ℕ
  pub tcp_maxseg : Option ℕ

pub record CheckState : Type 0 where
  pub worker : WorkerState
  pub last_periodic_check : ℕ
  pub last_stats_msg : ℕ
  pub sid_set : Bool
  pub terminate : Bool

-- The value that is returned, `none` when `exit_worker` ends the process.
pub record CheckOutcome : Type 0 where
  pub ret : Option ℤ
  pub state : CheckState
  pub outputs : List Output

-- `tries * dpd`, an `unsigned`
abbrev pub patience : ℕ → CheckConfig → ℕ
patience tries config = (tries * config.dpd) % 2 ^ 32

-- The reduction of the MTU by the TCP MSS.
unfoldable pub reduce_mtu : CheckConfig → WorkerState → WorkerState
reduce_mtu config w = elim config.tcp_maxseg [
  | none ↦ w
  | some size ↦
      let rest = ((size - 13) + (2 ^ 32 - config.mtu_overhead)) % 2 ^ 32 in
      if ltb 13 size && ltb rest w.mtu.conn_mtu
      then record w { mtu = mtu_set (min w.mtu.conn_mtu rest) w.mtu }
      else w
]

-- The end of the check.
unfoldable pub finish_check : CheckConfig → ℕ → List Output → CheckState → CheckOutcome
unfolding reduce_mtu
finish_check config now sent s = record {
  ret = some success;
  state = record s { worker = reduce_mtu config s.worker; last_periodic_check = now };
  outputs = sent;
}

unfoldable pub check_tcp : CheckConfig → Answers → ℕ → List Output → CheckState → CheckOutcome
unfolding finish_check
check_tcp config env now sent s =
    let silent = now - s.worker.last_msg_tcp in
    let sent' = sent ++ (to_cstp (cstp_frame 3 []) ∷ []) in
    if ltb 0 config.dpd && ltb (patience dpd_tries config) silent
    then (if env.cstp_is_fatal
        then record { ret = none; state = s; outputs = sent' }
        else (if ltb (patience dpd_max_tries config) silent
            then record { ret = some failure; state = s; outputs = sent' }
            else finish_check config now sent' s))
    else finish_check config now sent s

unfoldable pub check_udp : CheckConfig → Answers → ℕ → List Output → CheckState → CheckOutcome
unfolding check_tcp
check_udp config env now sent s =
    let silent = now - s.worker.last_msg_udp in
    let sent' = sent ++ (to_dtls (3 ∷ []) ∷ []) in
    if is_active s.worker && ltb (patience dpd_tries config) silent && ltb 0 config.dpd
    then (if is_neg env.dtls_ret && env.is_fatal env.dtls_ret
        then record { ret = none; state = s; outputs = sent' }
        else check_tcp config env now sent' (
            if ltb (patience dpd_max_tries config) silent
            then record s { worker = record (s.worker) { udp_active = false } }
            else s))
    else check_tcp config env now sent s

unfoldable pub report_stats : CheckConfig → Answers → ℕ → CheckState → CheckOutcome
unfolding check_udp
report_stats config env now s =
    if ltb 0 config.stats_report_time
      && leb config.stats_report_time (now - s.last_stats_msg)
      && s.sid_set
    then check_udp config env now (to_secmod s.worker.tun_bytes_in s.worker.tun_bytes_out ∷ [])
        (record s { last_stats_msg = now })
    else check_udp config env now [] s

-- The differences of times are at most those of the source, which are negative where these are 0.
unfoldable pub periodic_check : CheckConfig → Answers → ℕ → CheckState → CheckOutcome
unfolding report_stats
periodic_check config env now s =
    if ltb (now - s.last_periodic_check) periodic_check_time
    then record { ret = some success; state = s; outputs = [] }
    else (if ltb 0 config.idle_timeout && ltb config.idle_timeout (now - s.worker.last_nc_msg)
        then record {
          ret = some success;
          state = record s { terminate = true; last_periodic_check = now };
          outputs = [];
        }
        else report_stats config env now s)

-- `terminate`, -1 or the end of the process: the main loop is left.
abbrev pub is_over : CheckOutcome → Bool
is_over r = elim r.ret [ none ↦ true | some v ↦ if is_neg v then true else r.state.terminate ]
