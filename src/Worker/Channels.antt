-- ===== src/Worker/Channels.antt =====
-- worker-vpn.c: what a worker sends for a packet of its TUN device, and what it does with a record
-- of the TLS channel.
use my_vps_config.Base.{
  ℕ, ◌+◌, ◌%◌, ◌^◌, ltb, leb, ◌==◌, Bool, not, ◌&&◌, if◌then◌else◌, Option, none, some, List, [],
  ◌∷◌, ◌++◌, Bytes, length,
}
use my_vps_config.Base.Int.{is_neg, success}
use my_vps_config.Worker.Mtu.{mtu_not_ok, mtu_ok}
use my_vps_config.Worker.Packet.{
  Compression, WorkerState, Answers, Output, to_cstp, to_dtls, Effect, is_active, int_eq,
  to_unsigned, cstp_frame,
}

-- The data and the type of a packet.
abbrev pub Typed : Type 0
Typed = Bytes × ℕ

-- The result of `compress`, when it is worth sending.
unfoldable pub smaller : Compression → Bytes → Option Bytes
smaller c packet = elim (c.compress packet) [
  | none ↦ none
  | some z ↦ if ltb 0 (length z) && ltb (length z) (length packet) then some z else none
]

unfoldable pub compress_cstp : WorkerState → Bytes → Typed
unfolding smaller
compress_cstp w packet = elim w.cstp_selected_comp [
  | none ↦ (packet, 0)
  | some c ↦
      if ltb w.no_compress_limit (length packet)
      then elim (smaller c packet) [ none ↦ (packet, 0) | some z ↦ (z, 8) ]
      else (packet, 0)
]

-- The CSTP packet where the DTLS one is the compressed `z`.
unfoldable pub share_dtls : WorkerState → ℕ → Bytes → Bytes → Typed
share_dtls w id z packet = elim w.cstp_selected_comp [
  | none ↦ (packet, 0)
  | some c ↦ if c.id == id then (z, 8) else (packet, 0)
]

-- `dtls_to_send` and `cstp_to_send`
unfoldable pub compress_both : WorkerState → Bytes → Typed × Typed
unfolding compress_cstp smaller share_dtls
compress_both w packet = elim w.dtls_selected_comp [
  | none ↦ ((packet, 0), compress_cstp w packet)
  | some c ↦
      if is_active w && ltb w.no_compress_limit (length packet)
      then elim (smaller c packet) [
        | none ↦ ((packet, 0), (packet, 0))
        | some z ↦ ((z, 8), share_dtls w c.id z packet)
      ]
      else ((packet, 0), compress_cstp w packet)
]

-- The sending on the TLS channel and the end of `tun_mainloop`.
unfoldable pub send_cstp : Answers → Typed → ℕ → List Output → WorkerState → Effect
send_cstp env (data', type') now sent w =
    let w' : WorkerState = record w { tun_bytes_out = (w.tun_bytes_out + length data') % 2 ^ 64 } in
    let outputs' = sent ++ (to_cstp (cstp_frame type' data') ∷ []) in
    if env.cstp_is_fatal
    then record { ret = none; state = w'; outputs = outputs' }
    else record { ret = some success; state = record w' { last_nc_msg = now }; outputs = outputs' }

-- What `dtls_send` returned tells of the MTU; the comparison with `conn_mtu` is unsigned.
unfoldable pub learn_mtu : Answers → WorkerState → WorkerState
learn_mtu env w =
    if leb w.mtu.conn_mtu (to_unsigned env.dtls_ret) && w.try_mtu
    then record w { mtu = mtu_ok w.mtu }
    else w

-- `tun_mainloop` after it read `packet`, which is not empty; `allowed` is what `bandwidth_update`
-- says of the size of the DTLS packet.
unfoldable pub tun_mainloop : Answers → Bool → Bytes → ℕ → WorkerState → Effect
unfolding compress_both send_cstp learn_mtu
tun_mainloop env allowed packet now w =
    let ((dtls, dtls_type), cstp) = compress_both w packet in
    let w' : WorkerState = record w { tun_bytes_out = (w.tun_bytes_out + length dtls) % 2 ^ 64 } in
    let sent = to_dtls (dtls_type ∷ dtls) ∷ [] in
    if not allowed
    then record { ret = some success; state = w; outputs = [] }
    else (if is_active w
        then (if is_neg env.dtls_ret && env.is_fatal env.dtls_ret
            then record { ret = none; state = w'; outputs = sent }
            else (if int_eq env.dtls_ret env.large_packet
                then send_cstp env cstp now sent (record w' { mtu = (mtu_not_ok w.mtu).1 })
                else record {
                  ret = some success;
                  state = record (learn_mtu env w') { last_nc_msg = now };
                  outputs = sent;
                }))
        else send_cstp env cstp now [] w)
