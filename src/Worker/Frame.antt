-- ===== src/Worker/Frame.antt =====
-- worker-vpn.c: the header of a packet of the TLS channel.
use my_vps_config.Base.{
  ℕ, ◌+◌, ◌*◌, ◌/◌, ◌%◌, ◌^◌, ◌<◌, ◌≡◌, ◌⊎◌, inl, inr, refl, ◌==◌, true, ◌&&◌, some, [], ◌∷◌, Bytes,
  length, arith, Bool-cases,
}
use my_vps_config.Base.Int.{failure}
use my_vps_config.Worker.Packet.{
  WorkerState, Answers, cstp_frame, parse_data, note_tcp, parse_cstp_data,
}

-- The bytes of a length field.
pub length_bytes : (n : ℕ) → n < 2 ^ 16 → ((n / 256) % 256) * 256 + n % 256 ≡ n
length_bytes n h = omega arith

pub parse_cstp_data-cstp_frame :
    (env : Answers) (head : ℕ) (payload : Bytes) (now : ℕ) (w : WorkerState)
    → length payload < 2 ^ 16
    → parse_cstp_data env (cstp_frame head payload) now w
      ≡ note_tcp now (parse_data env true head payload now w)
unfolding parse_cstp_data cstp_frame
parse_cstp_data-cstp_frame env head payload now w h =
    ground (arith, length_bytes (length payload) h)

-- A record of the TLS channel is a packet, or the worker refuses it and changes nothing.
abbrev pub IsFrame : Bytes → Type 0
IsFrame buf =
    (head : ℕ) × (payload : Bytes) × (length payload < 2 ^ 16) × (buf ≡ cstp_frame head payload)

-- The bytes of a buffer.
abbrev pub IsBytes : Bytes → Type 0
IsBytes [] = Unit {0}
IsBytes (b ∷ bs) = (b < 256) × IsBytes bs

-- The fields of a header that is accepted.
header_fields :
    (b0 b1 b2 b3 b4 b5 b7 n : ℕ)
    → (b0 == 83 && b1 == 84 && b2 == 70 && b3 == 1 && b7 == 0) && n == b4 * 256 + b5 ≡ true
    → b4 < 256
    → b5 < 256
    → (b0 ≡ 83)
      × (b1 ≡ 84)
      × (b2 ≡ 70)
      × (b3 ≡ 1)
      × (b7 ≡ 0)
      × (b4 ≡ (n / 256) % 256)
      × (b5 ≡ n % 256)
      × (n < 2 ^ 16)
header_fields b0 b1 b2 b3 b4 b5 b7 n h h4 h5 = ground arith

-- Bytes that arrive as a record of the TLS channel are a packet with its header, of less than 65536
-- bytes, or parse_cstp_data returns -1, sends nothing, and changes nothing.
pub parse_cstp_data-IsFrame :
    (env : Answers) (buf : Bytes) (now : ℕ) (w : WorkerState)
    → IsBytes buf
    → IsFrame buf
      ⊎ (parse_cstp_data env buf now w ≡ record { ret = some failure; state = w; outputs = [] })
unfolding parse_cstp_data cstp_frame
parse_cstp_data-IsFrame env [] now w h = inr refl
parse_cstp_data-IsFrame env (b0 ∷ []) now w h = inr refl
parse_cstp_data-IsFrame env (b0 ∷ b1 ∷ []) now w h = inr refl
parse_cstp_data-IsFrame env (b0 ∷ b1 ∷ b2 ∷ []) now w h = inr refl
parse_cstp_data-IsFrame env (b0 ∷ b1 ∷ b2 ∷ b3 ∷ []) now w h = inr refl
parse_cstp_data-IsFrame env (b0 ∷ b1 ∷ b2 ∷ b3 ∷ b4 ∷ []) now w h = inr refl
parse_cstp_data-IsFrame env (b0 ∷ b1 ∷ b2 ∷ b3 ∷ b4 ∷ b5 ∷ []) now w h = inr refl
parse_cstp_data-IsFrame env (b0 ∷ b1 ∷ b2 ∷ b3 ∷ b4 ∷ b5 ∷ b6 ∷ []) now w h = inr refl
parse_cstp_data-IsFrame env (b0 ∷ b1 ∷ b2 ∷ b3 ∷ b4 ∷ b5 ∷ b6 ∷ b7 ∷ buf) now w h =
    elim (Bool-cases
      ((b0 == 83 && b1 == 84 && b2 == 70 && b3 == 1 && b7 == 0) && length buf == b4 * 256 + b5)) [
        | inl fits ↦
            let (e0, e1, e2, e3, e7, e4, e5, less) =
              header_fields b0 b1 b2 b3 b4 b5 b7 (length buf) fits (h.1.1.1.1.0) (h.1.1.1.1.1.0) in
            inl (b6, buf, less, cc)
        | inr off ↦ inr (ground arith)
      ]
