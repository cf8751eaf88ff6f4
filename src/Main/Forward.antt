-- ===== src/Main/Forward.antt =====
-- main.c: which worker a datagram reaches, and how often.
use my_vps_config.Base.{
  ℕ, ◌+◌, ◌-◌, ◌≤◌, ◌<◌, ◌≡◌, ◌≢◌, ◌⊎◌, inl, inr, refl, ◌∙◌, ltb, leb, ◌==◌, Bool, true, false, not,
  ◌&&◌, ◌||◌, if◌then◌else◌, none, some, ◌++◌, Bytes, bytes_eq, length, arith, Bool-cases,
  Option-cases,
}
use my_vps_config.Htable.Multi.{Multi, find-holds}
use my_vps_config.Main.Table.{
  ProcRef, addr_key, dtls_id_key, sid_key_of, address_of, ProcTable, proc_search_ip,
  proc_search_dtls_id,
}
use my_vps_config.Main.Udp.{
  Datagram, UdpWorld, UdpFd, min_size, is_handshake, is_unknown_version, session_id, find_owner,
  pass_udp, forward_udp_to_owner,
}

-- A client to which a datagram belongs: the ID in a handshake is that of its DTLS session, or any
-- other datagram comes from its address.
abbrev pub Owns : Datagram → ProcRef → Type 0
Owns d p =
    if is_handshake d.bytes
    then bytes_eq p.dtls_session_id (session_id (d.bytes ++ d.behind)) ≡ true
    else bytes_eq p.remote_addr d.addr ≡ true

-- A message that was passed on.
pub record IsPassed (w : UdpWorld) (d : Datagram) (times : ℕ → ℕ) (m : UdpFd) (p : ProcRef)
    : Type 0 where
  pub owner : p.address ≡ m.owner
  pub hello : m.hello ≡ is_handshake d.bytes
  pub content : m.content ≡ (if is_handshake d.bytes then some d.bytes else none)
  pub whole : min_size ≤ length d.bytes
  pub version : is_unknown_version d.bytes ≡ false
  pub owns : Owns d p
  pub open_port : (is_handshake d.bytes ≡ true) ⊎ (w.unix_conn_file ≡ false)
  pub rested : times m.owner + 60 < w.now

open_lem : (a b : Bool) → (not a && b) ≡ false → (a ≡ true) ⊎ (b ≡ false)
open_lem true b h = inl refl
open_lem false b h = inr h

pass_udp-passes :
    (w : UdpWorld) (d : Datagram) (p : ProcRef) (times : ℕ → ℕ) (m : UdpFd)
    → (pass_udp w d p times).0 ≡ some m
    → (p.address ≡ m.owner)
      × (m.hello ≡ is_handshake d.bytes)
      × (m.content ≡ (if is_handshake d.bytes then some d.bytes else none))
      × (times m.owner + 60 < w.now)
      × ((a : ℕ) → (pass_udp w d p times).1 a ≡ (if m.owner == a then w.now else times a))
unfolding pass_udp
pass_udp-passes w d p times m h = elim (Bool-cases (leb (w.now - times p.address) 60)) [
  | inl soon ↦ absurd (ground arith)
  | inr rested ↦ elim (Bool-cases (w.socket && (w.connect && w.send))) [
    | inl sent ↦ (ground arith, ground arith, ground arith, ground arith, λ a. ground arith)
    | inr unsent ↦ absurd (ground arith)
  ]
]

module _ (ips : Multi ProcRef addr_key address_of) (ids : Multi ProcRef dtls_id_key address_of)
    (sids : Multi ProcRef sid_key_of address_of) (t : ProcTable ips ids sids) where
  find_owner-Owns : (d : Datagram) (p : ProcRef) → find_owner ips ids sids d t ≡ some p → Owns d p
  unfolding find_owner proc_search_dtls_id proc_search_ip
  find_owner-Owns d p h =
      let id : Bytes = session_id (d.bytes ++ d.behind) in
      elim (Bool-cases (is_handshake d.bytes)) [
        | inl hello ↦ rw hello (
            find-holds (λ r. bytes_eq r.dtls_session_id id) (ids.chain id t.db_dtls_id) p
              (rw hello at h))
        | inr other ↦ rw other (
            find-holds (λ r. bytes_eq r.remote_addr d.addr) (ips.chain d.addr t.db_ip) p
              (rw other at h))
      ]

  -- What is passed on goes to a client that the datagram belongs to: by the DTLS session ID of a
  -- handshake, or else by the client's address, and then without the datagram, and only where no
  -- unix_conn_file is configured; the datagram has at least 93 bytes and none of the versions that the
  -- code refuses, and more than 60 seconds passed since the client was last passed one. The time of this client is then the present, and those of
  -- the others stay.
  pub forward_udp_to_owner-IsPassed :
      (w : UdpWorld) (d : Datagram) (times : ℕ → ℕ) (m : UdpFd)
      → (forward_udp_to_owner ips ids sids w (some d) t times).0 ≡ some m
      → (p : ProcRef) × IsPassed w d times m p
        × ((a : ℕ)
            → (forward_udp_to_owner ips ids sids w (some d) t times).1 a
              ≡ (if m.owner == a then w.now else times a))
  unfolding forward_udp_to_owner
  forward_udp_to_owner-IsPassed w d times m h =
      elim (Bool-cases (ltb (length d.bytes) min_size || is_unknown_version d.bytes)) [
        | inl refused ↦ absurd (ground arith)
        | inr read ↦ elim (Bool-cases (not (is_handshake d.bytes) && w.unix_conn_file)) [
          | inl refused ↦ absurd (ground arith)
          | inr searched ↦ elim (Option-cases (find_owner ips ids sids d t)) [
            | inl missing ↦ absurd (ground arith)
            | inr (p, found) ↦
                let passed : (pass_udp w d p times).0 ≡ some m = ground arith in
                let (owner, hello, content, rested, later) = pass_udp-passes w d p times m passed in
                (
                  p,
                  record {
                    owner = owner;
                    hello = hello;
                    content = content;
                    whole = ground arith;
                    version = ground arith;
                    owns = find_owner-Owns d p found;
                    open_port = open_lem (is_handshake d.bytes) w.unix_conn_file searched;
                    rested = rested;
                  },
                  λ a. rw (read, searched, found) (later a),
                )
          ]
        ]
      ]

  -- Two datagrams within 60 seconds: the second is not passed on to the client that got the first.
  pub forward_udp_to_owner-rests :
      (w w' : UdpWorld) (d d' : Datagram) (times : ℕ → ℕ) (m m' : UdpFd)
      → (forward_udp_to_owner ips ids sids w (some d) t times).0 ≡ some m
      → (forward_udp_to_owner ips ids sids w'
          (some d')
          t
          (forward_udp_to_owner ips ids sids w (some d) t times).1).0
        ≡ some m'
      → w'.now ≤ w.now + 60
      → m'.owner ≢ m.owner
  forward_udp_to_owner-rests w w' d d' times m m' h h' soon same =
      let (p, first, later) = forward_udp_to_owner-IsPassed w d times m h in
      let (q, second, after) = forward_udp_to_owner-IsPassed w' d' _ m' h' in
      let now : (if m.owner == m'.owner then w.now else times m'.owner) ≡ w.now = ground arith in
      absurd (omega (arith, later m'.owner ∙ now, second.rested))
