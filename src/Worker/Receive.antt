-- ===== src/Worker/Receive.antt =====
-- worker-vpn.c: the records of the TLS channel that the main loop reads.
use my_vps_config.Base.{
  ℕ, ◌-◌, ◌/◌, ltb, ◌==◌, false, ◌&&◌, ◌||◌, ◌≡◌, ◌⊎◌, inl, inr, ap, true, Bool, if◌then◌else◌,
  none, some, [], Bytes,
}
use my_vps_config.Base.Int.{ℤ, is_neg, success, failure}
use my_vps_config.Worker.Packet.{WorkerState, Answers, Effect, is_active, parse_cstp_data}
use my_vps_config.Worker.Frame.{IsBytes, IsFrame, parse_cstp_data-IsFrame}

-- UDP_SWITCH_TIME
abbrev pub udp_switch_time : ℕ
udp_switch_time = 15

-- `ret == AC_PKT_DATA || ret == AC_PKT_COMPRESSED`
abbrev pub is_data : ℤ → Bool
is_data (ℤ.pos n) = n == 0 || n == 8
is_data (ℤ.negsuc n) = false

-- The client switched to TLS.
unfoldable pub leave_udp : ℤ → ℕ → ℕ → WorkerState → WorkerState
leave_udp ret udp_recv_time now w =
    if is_data ret && is_active w && ltb udp_switch_time (now - udp_recv_time)
    then record w { udp_active = false }
    else w

-- What follows `parse_cstp_data`.
unfoldable pub finish_record : ℕ → ℕ → Effect → Effect
unfolding leave_udp
finish_record udp_recv_time now r = elim r.ret [
  | none ↦ r
  | some v ↦ if is_neg v then r else record {
    ret = some success;
    state = leave_udp v udp_recv_time now r.state;
    outputs = r.outputs;
  }
]

-- `tls_mainloop` for a record of at least 8 bytes; `allowed` is the result of `bandwidth_update`.
unfoldable pub receive_record : Answers → Bool → Bytes → ℕ → ℕ → WorkerState → Effect
unfolding finish_record
receive_record env allowed buf udp_recv_time now w =
    if allowed
    then finish_record udp_recv_time now (parse_cstp_data env buf now w)
    else record { ret = some success; state = w; outputs = [] }

-- A rehandshake of GNUTLS_E_REHANDSHAKE: refused (-1) if the last one is too near.
unfoldable pub is_rehandshake_refused : ℕ → ℕ → ℕ → Bool
is_rehandshake_refused rekey_time last_tls_rehandshake now =
    ltb 0 last_tls_rehandshake && ltb (now - last_tls_rehandshake) (rekey_time / 2)

-- The main loop takes a record of the TLS channel only if it is a packet; otherwise it ends, and
-- nothing was changed or sent.
pub receive_record-IsFrame :
    (env : Answers) (buf : Bytes) (udp_recv_time now : ℕ) (w : WorkerState)
    → IsBytes buf
    → IsFrame buf
      ⊎ (receive_record env true buf udp_recv_time now w
          ≡ record { ret = some failure; state = w; outputs = [] })
unfolding receive_record finish_record
receive_record-IsFrame env buf udp_recv_time now w h =
    elim (parse_cstp_data-IsFrame env buf now w h) [
      | inl frame ↦ inl frame
      | inr refused ↦ inr (ap (finish_record udp_recv_time now) refused)
    ]
