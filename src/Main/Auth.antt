-- ===== src/Main/Auth.antt =====
-- main-auth.c: main takes the cookie that a worker passes on, and counts a user's connections.
use my_vps_config.Base.{
  ℕ, ◌+◌, ◌%◌, ◌/◌, ◌^◌, ltb, ◌==◌, Bool, true, false, not, ◌&&◌, if◌then◌else◌, Option, none, some,
  List, [], ◌∷◌, Bytes, bytes_eq, is_empty, strlcpy, length,
}
use my_vps_config.Base.Int.{ℤ, success, failure, is_neg}
use my_vps_config.Htable.Multi.{Multi}
use my_vps_config.SecMod.Types.{Cookie, AuthSession}
use my_vps_config.SecMod.Login.{sid_size}
use my_vps_config.IpLease.Registry.{steal_ip_leases}
use my_vps_config.Cookies.{Gcm, Packing, decrypt_cookie}
use my_vps_config.Main.Proc.{Proc, deref, write_back}
use my_vps_config.Main.Table.{
  ProcRef, addr_key, dtls_id_key, sid_key_of, address_of, ref_of, ProcTable, proc_table_add,
  proc_search_sid,
}
use my_vps_config.Main.Session.{SessionReply, Answer, session_open}

-- MAX_USERNAME_SIZE, which is also that of groups and hosts
abbrev pub max_username_size : ℕ
max_username_size = 64

-- What the handler is given: the cipher, the key, the nonce that `gnutls_rnd` gives (`none` where it
-- fails), the security module, `human_addr2`, the clock, and of the configuration `deny_roaming`
-- and whether `udp_port` is 0.
pub record AuthWorld : Type 0 where
  pub gcm : Gcm
  pub packing : Packing
  pub cookie_key : Bytes
  pub nonce : Option Bytes
  pub ask : AuthSession → Answer SessionReply
  pub human_addr : Bytes → Option Bytes
  pub now : ℕ
  pub deny_roaming : Bool
  pub without_udp : Bool

-- The `memset` of `proc->config`, then `apply_default_sup_config`.
unfoldable pub default_config : AuthWorld → Proc → Proc
default_config w p = record p {
  client = record (p.client) {
    networks = record { ipv4 = none; ipv4_netmask = none; ipv6 = none; ipv6_prefix = 0 };
    explicit_ipv4 = none;
    explicit_ipv6 = none;
  };
  config = record {
    routes = [];
    no_routes = [];
    iroutes = [];
    dns = [];
    nbns = [];
    cgroup = none;
    xml_config_file = none;
    rx_per_sec = 0;
    tx_per_sec = 0;
    deny_roaming = w.deny_roaming;
    net_priority = 0;
    no_udp = w.without_udp;
  };
}

-- The handler up to the configuration: whether it goes on, and the process.
unfoldable pub take_cookie : AuthWorld → Cookie → Proc → Bool × Proc
unfolding default_config
take_cookie w c p =
    let named : Proc = record p { username = strlcpy max_username_size c.username } in
    if length c.sid == sid_size
    then elim w.nonce [
      | none ↦ (false, named)
      | some id ↦ (
        true,
        default_config w (record named {
          dtls_session_id = id;
          sid = c.sid;
          groupname = strlcpy max_username_size c.groupname;
        }),
      )
    ]
    else (false, named)

-- Whether the cookie's address is that of the client, where this matters.
unfoldable pub address_fits : AuthWorld → Cookie → Proc → Bool
address_fits w c p =
    if p.config.deny_roaming
    then elim (w.human_addr p.remote_addr) [ none ↦ false | some s ↦ bytes_eq s c.ip ]
    else true

-- A `uint32_t` in memory, the least byte first.
abbrev pub seed_bytes : ℕ → Bytes
seed_bytes n = n % 256 ∷ (n / 256) % 256 ∷ (n / 65536) % 256 ∷ (n / 16777216) % 256 ∷ []

module _ (ips : Multi ProcRef addr_key address_of) (ids : Multi ProcRef dtls_id_key address_of)
    (sids : Multi ProcRef sid_key_of address_of) where
  -- The return code, the process, the other processes of the list, the tables, and the process
  -- that is sent SIGTERM.
  pub record AuthEffect : Type 0 where
    pub ret : ℤ
    pub proc : Proc
    pub others : List Proc
    pub tables : ProcTable ips ids sids
    pub killed : Option ℤ

  -- The end of the handler.
  unfoldable pub enter_proc :
      Cookie → Option ℤ → Proc → List Proc → ProcTable ips ids sids → AuthEffect
  enter_proc c killed p others t =
      let p' : Proc = record p {
        hostname = strlcpy max_username_size c.hostname;
        client = record (p.client) { ipv4_seed = seed_bytes c.ipv4_seed };
      } in
      let added = proc_table_add ips ids sids (ref_of p') t in
      record {
        ret = if is_neg added.0 then failure else success;
        proc = p';
        others = others;
        tables = added.1;
        killed = killed;
      }

  -- `old_proc` is in use with the SID of the cookie.
  unfoldable pub take_over : Cookie → Proc → Proc → List Proc → ProcTable ips ids sids → AuthEffect
  unfolding enter_proc
  take_over c old p others t =
      let (robbed, thief) = steal_ip_leases old.client p.client in
      if bytes_eq p.username old.username
      then enter_proc c
          (elim old.pid [ ℤ.pos n ↦ if n == 0 then none else some old.pid | ℤ.negsuc n ↦ none ])
          (record p { client = thief }) (write_back (record old { client = robbed }) others) t
      else record { ret = failure; proc = p; others = others; tables = t; killed = none }

  -- The handler after the check of the address. `none` is a pointer in the tables to a process
  -- that is not in the list.
  unfoldable pub resume_proc :
      Cookie → Proc → List Proc → ProcTable ips ids sids → Option AuthEffect
  unfolding enter_proc take_over
  resume_proc c p others t = elim (proc_search_sid ips ids sids c.sid t) [
    | none ↦ some (enter_proc c none p others t)
    | some r ↦ elim (deref r.address others) [
      | none ↦ none
      | some old ↦ some (take_over c old p others t)
    ]
  ]

  abbrev pub refused : Proc → List Proc → ProcTable ips ids sids → Option AuthEffect
  refused p others t =
      some (record { ret = failure; proc = p; others = others; tables = t; killed = none })

  -- The session is opened, then the address is compared.
  unfoldable pub open_proc :
      AuthWorld → Bytes → Cookie → Proc → List Proc → ProcTable ips ids sids → Option AuthEffect
  unfolding resume_proc
  open_proc w cookie c p others t =
      let opened = session_open w.ask cookie w.now p in
      let p' : Proc = record (opened.1) { active_sid = true } in
      if is_neg opened.0
      then refused opened.1 others t
      else (if address_fits w c p' then resume_proc c p' others t else refused p' others t)

  unfoldable pub handle_auth_cookie_req :
      AuthWorld → Bytes → Proc → List Proc → ProcTable ips ids sids → Option AuthEffect
  unfolding open_proc
  handle_auth_cookie_req w cookie p others t =
      if is_empty cookie
      then refused p others t
      else elim (decrypt_cookie w.gcm w.packing w.cookie_key cookie) [
        | none ↦ refused p others t
        | some c ↦
            let taken = take_cookie w c p in
            if taken.0 then open_proc w cookie c taken.1 others t else refused taken.1 others t
      ]

-- The loop over the list, in its order; `others` is the list less `proc`.
unfoldable pub count_same : Bytes → List Proc → ℕ → ℕ
count_same username [] entries = entries
count_same username (p ∷ ps) entries = count_same username ps (
    if not (elim p.pid [ ℤ.pos n ↦ false | ℤ.negsuc n ↦ n == 0 ]) && bytes_eq username p.username
    then (entries + 1) % 2 ^ 32
    else entries)

-- `max_same_clients` is the configuration's.
unfoldable pub check_multiple_users : ℕ → Proc → List Proc → ℤ
unfolding count_same
check_multiple_users max_same_clients p others =
    if max_same_clients == 0
    then success
    else (if ltb max_same_clients (count_same p.username others 1) then failure else success)
