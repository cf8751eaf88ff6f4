-- ===== src/Worker/Made.antt =====
-- worker-vpn.c: which data `tun_mainloop` sends.
use my_vps_config.Base.{
  ◌≤◌, ◌≡◌, ◌⊎◌, inl, inr, refl, ltb, ◌==◌, ◌&&◌, Option, none, some, Bytes, length, arith,
  Bool-cases, Option-cases, ap, sym,
}
use mathlib.Core.Path.{subst}
use my_vps_config.Worker.Packet.{Compression, WorkerState, is_active}
use my_vps_config.Worker.Channels.{Typed, smaller, compress_cstp, share_dtls, compress_both}

-- Decompression undoes the compression.
abbrev pub IsLossless : Option Compression → Type 0
IsLossless none = Unit {0}
IsLossless (some c) = (p z : Bytes) → c.compress p ≡ some z → c.decompress z ≡ some p

-- The channels share a method where they share its number.
abbrev pub IsOneMethod : Option Compression → Option Compression → Type 0
IsOneMethod none d = Unit {0}
IsOneMethod (some c) none = Unit {0}
IsOneMethod (some c) (some d) = d.id ≡ c.id → d ≡ c

-- What a channel with this compression makes of data and its type.
abbrev pub Carries : Option Compression → Bytes → Typed → Type 0
Carries comp packet (data', type') =
    ((type' ≡ 0) × (data' ≡ packet))
    ⊎ ((type' ≡ 8) × ((c : Compression) × (comp ≡ some c) × (c.decompress data' ≡ some packet)))

-- `compress` is not used, or its result is.
pub smaller-cases :
    (c : Compression) (packet : Bytes)
    → (smaller c packet ≡ none)
      ⊎ ((z : Bytes) × (c.compress packet ≡ some z)
          × (length z ≤ length packet)
          × (smaller c packet ≡ some z))
unfolding smaller
smaller-cases c packet = elim (Option-cases (c.compress packet)) [
  | inl e ↦ inl (ground arith)
  | inr (z, e) ↦ elim (Bool-cases (ltb 0 (length z) && ltb (length z) (length packet))) [
    | inl less ↦ inr (z, e, ground arith, ground arith)
    | inr more ↦ inl (ground arith)
  ]
]

-- The packet itself goes out, or what a method made of it.
abbrev pub IsMade : Option Compression → Bytes → Typed → Type 0
IsMade comp packet t =
    (t ≡ (packet, 0))
    ⊎ ((c : Compression) × (z : Bytes) × (comp ≡ some c)
        × (c.compress packet ≡ some z)
        × (length z ≤ length packet)
        × (t ≡ (z, 8)))

compress_cstp-IsMade :
    (w : WorkerState) (packet : Bytes) → IsMade w.cstp_selected_comp packet (compress_cstp w packet)
unfolding compress_cstp
compress_cstp-IsMade w packet = elim (Option-cases w.cstp_selected_comp) [
  | inl e ↦ inl (ground arith)
  | inr (c, e) ↦ elim (smaller-cases c packet) [
    | inl n ↦ inl (ground arith)
    | inr (z, e', l, s) ↦ elim (Bool-cases (ltb w.no_compress_limit (length packet))) [
      | inl long ↦ inr (c, z, e, e', l, ground arith)
      | inr short ↦ inl (ground arith)
    ]
  ]
]

pub IsMade-Carries :
    (comp : Option Compression) (packet : Bytes) (t : Typed)
    → IsLossless comp
    → IsMade comp packet t
    → Carries comp packet t
IsMade-Carries comp packet t h (inl e) = inl (ap (λ x. x.1) e, ap (λ x. x.0) e)
IsMade-Carries none packet t h (inr (c, z, e, m, l, e')) = absurd (ground arith)
IsMade-Carries (some d) packet t h (inr (c, z, e, m, l, e')) =
    inr (ap (λ x. x.1) e', (d, refl, ground (arith, h packet z)))

share_dtls-IsMade :
    (w : WorkerState) (c : Compression) (z packet : Bytes)
    → w.dtls_selected_comp ≡ some c
    → IsOneMethod w.dtls_selected_comp w.cstp_selected_comp
    → c.compress packet ≡ some z
    → length z ≤ length packet
    → IsMade w.cstp_selected_comp packet (share_dtls w c.id z packet)
unfolding share_dtls
share_dtls-IsMade w c z packet e one m l = elim (Option-cases w.cstp_selected_comp) [
  | inl n ↦ inl (ground arith)
  | inr (d, e') ↦ elim (Bool-cases (d.id == c.id)) [
    | inl same ↦
        let is : d ≡ c = ground (arith, one) in inr (d, z, e', ground arith, l, ground arith)
    | inr other ↦ inl (ground arith)
  ]
]

pub compress_both-IsMade :
    (w : WorkerState) (packet : Bytes)
    → IsOneMethod w.dtls_selected_comp w.cstp_selected_comp
    → IsMade w.dtls_selected_comp packet (compress_both w packet).0
      × IsMade w.cstp_selected_comp packet (compress_both w packet).1
unfolding compress_both
compress_both-IsMade w packet one = elim (Option-cases w.dtls_selected_comp) [
  | inl e ↦ rw e (inl refl, compress_cstp-IsMade w packet)
  | inr (c, e) ↦ elim (Bool-cases (is_active w && ltb w.no_compress_limit (length packet))) [
    | inl on ↦ elim (smaller-cases c packet) [
      | inl n ↦ (inl (ground arith), inl (ground arith))
      | inr (z, m, l, s) ↦
          let both : compress_both w packet ≡ ((z, 8), share_dtls w c.id z packet) = ground arith in
          (
            inr (c, z, e, m, l, ap (λ t. t.0) both),
            subst (IsMade w.cstp_selected_comp packet) (sym (ap (λ t. t.1) both))
                (share_dtls-IsMade w c z packet e one m l),
          )
    ]
    | inr off ↦
        let both : compress_both w packet ≡ ((packet, 0), compress_cstp w packet) = ground arith in
        (
          inl (ap (λ t. t.0) both),
          subst (IsMade w.cstp_selected_comp packet) (sym (ap (λ t. t.1) both))
              (compress_cstp-IsMade w packet),
        )
  ]
]

pub length-IsMade :
    (comp : Option Compression) (packet : Bytes) (t : Typed)
    → IsMade comp packet t
    → length t.0 ≤ length packet
length-IsMade comp packet t (inl e) = ground arith
length-IsMade comp packet t (inr (c, z, e, m, l, e')) = ground arith
