-- ===== src/Worker/RoundTrip.antt =====
-- worker-vpn.c: what the two channels carry arrives.
use my_vps_config.Base.{
  ℕ, ◌^◌, ◌<◌, ◌≡◌, ◌≢◌, inl, inr, Bool, true, false, if◌then◌else◌, List, [], ◌∷◌, Bytes, length,
  arith, ap, ◌∙◌,
}
use my_vps_config.Worker.Packet.{
  WorkerState, Answers, Output, to_tun, to_cstp, to_dtls, to_secmod, Effect, cstp_frame, parse_data,
  write_tun, write_decompressed, note_tcp, note_udp, parse_cstp_data, parse_dtls_data,
}
use my_vps_config.Worker.Channels.{Typed, compress_both, send_cstp, tun_mainloop}
use my_vps_config.Worker.Frame.{parse_cstp_data-cstp_frame}
use my_vps_config.Worker.Made.{
  IsLossless, IsOneMethod, Carries, IsMade-Carries, compress_both-IsMade, length-IsMade,
}

-- A receiver with the same compression writes the packet to its TUN device and nothing else.
abbrev pub Delivers : Answers → Bytes → ℕ → WorkerState → Output → Type 0
Delivers env packet now r (to_tun d) = Unit {0}
Delivers env packet now r (to_secmod bytes_in bytes_out) = Unit {0}
Delivers env packet now r (to_cstp d) = (parse_cstp_data env d now r).outputs ≡ to_tun packet ∷ []
Delivers env packet now r (to_dtls d) = (parse_dtls_data env d now r).outputs ≡ to_tun packet ∷ []

abbrev pub AllDeliver : Answers → Bytes → ℕ → WorkerState → List Output → Type 0
AllDeliver env packet now r [] = Unit {0}
AllDeliver env packet now r (o ∷ os) = Delivers env packet now r o × AllDeliver env packet now r os

note_tcp-outputs : (now : ℕ) (r : Effect) → (note_tcp now r).outputs ≡ r.outputs
unfolding note_tcp
note_tcp-outputs now r = ground arith

note_udp-outputs : (now : ℕ) (r : Effect) → (note_udp now r).outputs ≡ r.outputs
unfolding note_udp
note_udp-outputs now r = ground arith

parse_data-Carries :
    (env : Answers) (is_tls : Bool) (x : ℕ) (xs : Bytes) (t : Typed) (now : ℕ) (w : WorkerState)
    → Carries (if is_tls then w.cstp_selected_comp else w.dtls_selected_comp) (x ∷ xs) t
    → (parse_data env is_tls t.1 t.0 now w).outputs ≡ to_tun (x ∷ xs) ∷ []
unfolding parse_data write_tun write_decompressed
parse_data-Carries env is_tls x xs (data', type') now w (inl (e, e')) = rw (e, e') (ground arith)
parse_data-Carries env is_tls x xs (data', type') now w (inr (e, (c, s, d))) =
    rw e (ground (arith, s, d))

dtls-Delivers :
    (env : Answers) (x : ℕ) (xs : Bytes) (t : Typed) (now : ℕ) (r : WorkerState)
    → Carries r.dtls_selected_comp (x ∷ xs) t
    → Delivers env (x ∷ xs) now r (to_dtls (t.1 ∷ t.0))
unfolding parse_dtls_data
dtls-Delivers env x xs t now r h =
    note_udp-outputs now (parse_data env false t.1 t.0 now r)
    ∙ parse_data-Carries env false x xs t now r h

cstp-Delivers :
    (env : Answers) (x : ℕ) (xs : Bytes) (t : Typed) (now : ℕ) (r : WorkerState)
    → length t.0 < 2 ^ 16
    → Carries r.cstp_selected_comp (x ∷ xs) t
    → Delivers env (x ∷ xs) now r (to_cstp (cstp_frame t.1 t.0))
cstp-Delivers env x xs t now r less h =
    ap (λ o. o.outputs) (parse_cstp_data-cstp_frame env t.1 t.0 now r less)
    ∙ note_tcp-outputs now (parse_data env true t.1 t.0 now r)
    ∙ parse_data-Carries env true x xs t now r h

-- For a packet of 1 to 65535 bytes from the TUN device, which the bandwidth limit admits, at least
-- one packet is sent, on TLS or DTLS; and whichever is sent, a receiver with the same compression
-- methods that parses it calls tun_write for the original packet and sends nothing else. The
-- methods are lossless, and are one if both channels use the same number.
pub tun_mainloop-Delivers :
    (env e : Answers) (x : ℕ) (xs : Bytes) (now later : ℕ) (w r : WorkerState)
    → length (x ∷ xs) < 2 ^ 16
    → r.dtls_selected_comp ≡ w.dtls_selected_comp
    → r.cstp_selected_comp ≡ w.cstp_selected_comp
    → IsLossless w.dtls_selected_comp
    → IsLossless w.cstp_selected_comp
    → IsOneMethod w.dtls_selected_comp w.cstp_selected_comp
    → AllDeliver e (x ∷ xs) later r (tun_mainloop env true (x ∷ xs) now w).outputs
      × ((tun_mainloop env true (x ∷ xs) now w).outputs ≢ [])
unfolding tun_mainloop send_cstp
tun_mainloop-Delivers env e x xs now later w r less rd rc ld lc one =
    let packet = x ∷ xs in
    let (md, mc) = compress_both-IsMade w packet one in
    let dtls =
      dtls-Delivers e x xs (compress_both w packet).0 later r
        (rw rd (IsMade-Carries w.dtls_selected_comp packet (compress_both w packet).0 ld md)) in
    let cstp =
      cstp-Delivers e x xs (compress_both w packet).1 later r
        (omega (arith, length-IsMade w.cstp_selected_comp packet (compress_both w packet).1 mc))
        (rw rc (IsMade-Carries w.cstp_selected_comp packet (compress_both w packet).1 lc mc)) in
    (ground arith, ground arith)
