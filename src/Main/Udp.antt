-- ===== src/Main/Udp.antt =====
-- main.c: a datagram on the UDP port is passed to the worker of the client that it belongs to.
use my_vps_config.Base.{
  ℕ, zero, suc, ◌-◌, ltb, leb, ◌==◌, Bool, not, ◌&&◌, ◌||◌, if◌then◌else◌, Option, none, some, [],
  ◌∷◌, ◌++◌, Bytes, length, take, drop,
}
use my_vps_config.Base.Int.{ℤ, success, failure}
use my_vps_config.Htable.Multi.{Multi}
use my_vps_config.Main.Table.{
  ProcRef, addr_key, dtls_id_key, sid_key_of, address_of, ProcTable, proc_search_ip,
  proc_search_dtls_id,
}

-- The byte at an index of the buffer; what is not there reads as 0.
unfoldable pub byte_at : ℕ → Bytes → ℕ
byte_at i [] = 0
byte_at zero (c ∷ s) = c
byte_at (suc i) (c ∷ s) = byte_at i s

-- What `oc_recvfrom_at` gives: nothing, or the datagram and the client's address. `behind` is what
-- stands in the buffer after the datagram.
pub record Datagram : Type 0 where
  pub bytes : Bytes
  pub behind : Bytes
  pub addr : Bytes

-- The clock, whether `unix_conn_file` is configured, and whether `socket`, `connect` and the
-- passing of the message succeed.
pub record UdpWorld : Type 0 where
  pub now : ℕ
  pub unix_conn_file : Bool
  pub socket : Bool
  pub connect : Bool
  pub send : Bool

-- `UdpFdMsg`, with the address of the process that gets it.
pub record UdpFd : Type 0 where
  pub owner : ℕ
  pub hello : Bool
  pub content : Option Bytes

-- RECORD_PAYLOAD_POS + HANDSHAKE_SESSION_ID_POS + GNUTLS_MAX_SESSION_ID + 2
abbrev pub min_size : ℕ
min_size = 93

-- `buffer[0] == 22`
unfoldable pub is_handshake : Bytes → Bool
unfolding byte_at
is_handshake b = byte_at 0 b == 22

unfoldable pub is_unknown_version : Bytes → Bool
unfolding byte_at
is_unknown_version b =
    not (byte_at 1 b == 254)
    && (not (byte_at 1 b == 1) && not (byte_at 2 b == 0))
    && not (byte_at 13 b == 254)
    && (not (byte_at 13 b == 0) && not (byte_at 14 b == 0))

-- `session_id`, of the size that stands before it.
unfoldable pub session_id : Bytes → Bytes
unfolding byte_at
session_id buffer = take (byte_at 59 buffer) (drop 60 buffer)

abbrev pub store_time : ℕ → ℕ → (ℕ → ℕ) → ℕ → ℕ
store_time a now times b = if a == b then now else times b

-- UDP_FD_RESEND_TIME is 60; `udp_fd_receive_time` of each process is `times`. What was passed, if
-- anything, and the times.
unfoldable pub pass_udp : UdpWorld → Datagram → ProcRef → (ℕ → ℕ) → Option UdpFd × (ℕ → ℕ)
pass_udp w d p times =
    let hello = is_handshake d.bytes in
    if leb (w.now - times p.address) 60
    then (none, times)
    else if w.socket && (w.connect && w.send)
    then (
      some (record {
        owner = p.address;
        hello = hello;
        content = if hello then some d.bytes else none;
      }),
      store_time p.address w.now times,
    )
    else (none, times)

module _ (ips : Multi ProcRef addr_key address_of) (ids : Multi ProcRef dtls_id_key address_of)
    (sids : Multi ProcRef sid_key_of address_of) where
  -- The client that the datagram belongs to.
  unfoldable pub find_owner : Datagram → ProcTable ips ids sids → Option ProcRef
  find_owner d t =
      if is_handshake d.bytes
      then proc_search_dtls_id ips ids sids (session_id (d.bytes ++ d.behind)) t
      else proc_search_ip ips ids sids d.addr t

  -- The datagram is `none` where `oc_recvfrom_at` fails.
  unfoldable pub forward_udp_to_owner :
      UdpWorld → Option Datagram → ProcTable ips ids sids → (ℕ → ℕ) → Option UdpFd × (ℕ → ℕ) × ℤ
  forward_udp_to_owner w none t times = (none, times, failure)
  forward_udp_to_owner w (some d) t times =
      if ltb (length d.bytes) min_size || is_unknown_version d.bytes
      then (none, times, success)
      else if not (is_handshake d.bytes) && w.unix_conn_file
      then (none, times, success)
      else elim (find_owner d t) [
        | none ↦ (none, times, success)
        | some p ↦ let r = pass_udp w d p times in (r.0, r.1, success)
      ]
