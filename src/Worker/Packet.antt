-- ===== src/Worker/Packet.antt =====
-- worker-vpn.c: the packets of the two channels of a client.
use my_vps_config.Base.{
  ℕ, ◌+◌, ◌-◌, ◌*◌, ◌/◌, ◌%◌, ◌^◌, ◌==◌, Bool, true, false, not, ◌&&◌, if◌then◌else◌, Option, none,
  some, List, [], ◌∷◌, Bytes, length,
}
use my_vps_config.Base.Int.{ℤ, is_neg, failure}
use my_vps_config.Worker.Mtu.{MtuState, mtu_not_ok}

-- `compression_method_st`; a result that is not positive is `none` or no bytes.
pub record Compression : Type 0 where
  pub id : ℕ
  pub compress : Bytes → Option Bytes
  pub decompress : Bytes → Option Bytes

-- The fields of `worker_st` that the packets change or depend on.
pub record WorkerState : Type 0 where
  pub mtu : MtuState
  pub udp_active : Bool
  pub cstp_selected_comp : Option Compression
  pub dtls_selected_comp : Option Compression
  pub no_compress_limit : ℕ
  pub try_mtu : Bool
  pub tun_bytes_in : ℕ
  pub tun_bytes_out : ℕ
  pub last_nc_msg : ℕ
  pub last_msg_tcp : ℕ
  pub last_msg_udp : ℕ

-- `udp_state == UP_ACTIVE`
abbrev pub is_active : WorkerState → Bool
is_active w = w.udp_active && not w.mtu.disabled

-- What the calls outside the program return: `cstp_send` (and that it is fatal), `dtls_send` the
-- first and the second time, `tun_write` (true for success), GNUTLS_E_LARGE_PACKET and
-- `gnutls_error_is_fatal`.
pub record Answers : Type 0 where
  pub cstp_ret : ℤ
  pub cstp_is_fatal : Bool
  pub dtls_ret : ℤ
  pub dtls_again : ℤ
  pub tun_writes : Bool
  pub large_packet : ℤ
  pub is_fatal : ℤ → Bool

abbrev pub int_eq : ℤ → ℤ → Bool
int_eq (ℤ.pos a) (ℤ.pos b) = a == b
int_eq (ℤ.negsuc a) (ℤ.negsuc b) = a == b
int_eq (ℤ.pos a) (ℤ.negsuc b) = false
int_eq (ℤ.negsuc a) (ℤ.pos b) = false

-- An `int` as an `unsigned`.
abbrev pub to_unsigned : ℤ → ℕ
to_unsigned (ℤ.pos n) = n
to_unsigned (ℤ.negsuc n) = 2 ^ 32 - 1 - n

pub data Output : Type 0 where
  to_tun : Bytes → Output
  to_cstp : Bytes → Output
  to_dtls : Bytes → Output
  -- `send_stats_to_secmod`, with the two counts of bytes
  to_secmod : ℕ → ℕ → Output

-- The value that is returned, `none` when `exit_worker` ends the process, and what was sent.
pub record Effect : Type 0 where
  pub ret : Option ℤ
  pub state : WorkerState
  pub outputs : List Output

-- The header of a packet of the TLS channel, and the packet.
unfoldable pub cstp_frame : ℕ → Bytes → Bytes
cstp_frame head payload =
    83 ∷ 84 ∷ 70 ∷ 1 ∷ (length payload / 256) % 256 ∷ length payload % 256 ∷ head ∷ 0 ∷ payload

-- The case AC_PKT_DATA, which AC_PKT_COMPRESSED falls through to.
unfoldable pub write_tun : Answers → ℕ → Bytes → Bytes → ℕ → WorkerState → Effect
write_tun env head plain buf now w =
    if env.tun_writes
    then record {
      ret = some (ℤ.pos head);
      state = record w { tun_bytes_in = (w.tun_bytes_in + length buf) % 2 ^ 64; last_nc_msg = now };
      outputs = to_tun plain ∷ [];
    }
    else record { ret = some failure; state = w; outputs = to_tun plain ∷ [] }

-- The case AC_PKT_COMPRESSED; `comp` is that of the packet's channel.
unfoldable pub write_decompressed :
    Answers → Option Compression → ℕ → Bytes → ℕ → WorkerState → Effect
write_decompressed env comp head buf now w = elim comp [
  | none ↦ record { ret = some failure; state = w; outputs = [] }
  | some c ↦ elim (c.decompress buf) [
    | none ↦ record { ret = some failure; state = w; outputs = [] }
    | some [] ↦ record { ret = some failure; state = w; outputs = [] }
    | some (x ∷ xs) ↦ write_tun env head (x ∷ xs) buf now w
  ]
]

-- The case AC_PKT_DPD_OUT on the DTLS channel.
unfoldable pub answer_dpd : Answers → ℕ → WorkerState → Effect
answer_dpd env head w =
    let answer = to_dtls (4 ∷ []) in
    if int_eq env.dtls_ret env.large_packet
    then record {
      ret = some (if is_neg env.dtls_again then failure else ℤ.pos head);
      state = record w { mtu = (mtu_not_ok w.mtu).1 };
      outputs = answer ∷ answer ∷ [];
    }
    else record {
      ret = some (if is_neg env.dtls_ret then failure else ℤ.pos head);
      state = w;
      outputs = answer ∷ [];
    }

-- `is_tls` is `ws->session == ts`.
unfoldable pub parse_data : Answers → Bool → ℕ → Bytes → ℕ → WorkerState → Effect
parse_data env is_tls head buf now w =
    if head == 3
    then (if is_tls
        then record {
          ret = some (if is_neg env.cstp_ret then failure else ℤ.pos head);
          state = w;
          outputs = to_cstp (cstp_frame 4 []) ∷ [];
        }
        else answer_dpd env head w)
    else (if head == 5
        then record { ret = none; state = w; outputs = [] }
        else (if head == 8
            then write_decompressed env
                (if is_tls then w.cstp_selected_comp else w.dtls_selected_comp) head buf now w
            else (if head == 0
                then write_tun env head buf buf now w
                else record { ret = some (ℤ.pos head); state = w; outputs = [] })))

-- `ws->last_msg_tcp = now` after `parse_data` returned.
unfoldable pub note_tcp : ℕ → Effect → Effect
note_tcp now r = elim r.ret [
  | none ↦ r
  | some v ↦ record r { state = record (r.state) { last_msg_tcp = now } }
]

unfoldable pub note_udp : ℕ → Effect → Effect
note_udp now r = elim r.ret [
  | none ↦ r
  | some v ↦ record r { state = record (r.state) { last_msg_udp = now } }
]

-- The bytes are below 256.
unfoldable pub parse_cstp_data : Answers → Bytes → ℕ → WorkerState → Effect
parse_cstp_data env (b0 ∷ b1 ∷ b2 ∷ b3 ∷ b4 ∷ b5 ∷ b6 ∷ b7 ∷ buf) now w =
    if (b0 == 83 && b1 == 84 && b2 == 70 && b3 == 1 && b7 == 0) && length buf == b4 * 256 + b5
    then note_tcp now (parse_data env true b6 buf now w)
    else record { ret = some failure; state = w; outputs = [] }
parse_cstp_data env buf now w = record { ret = some failure; state = w; outputs = [] }

unfoldable pub parse_dtls_data : Answers → Bytes → ℕ → WorkerState → Effect
parse_dtls_data env [] now w = record { ret = some failure; state = w; outputs = [] }
parse_dtls_data env (head ∷ buf) now w = note_udp now (parse_data env false head buf now w)
