-- ===== src/Main/Proc.antt =====
-- main.h and vpn.h: a client's worker process, and what main knows of it.
use my_vps_config.Base.{ℕ, ◌==◌, Bool, if◌then◌else◌, Option, none, some, List, [], ◌∷◌, Bytes}
use my_vps_config.Base.Int.{ℤ}
use my_vps_config.SecMod.Types.{AuthStatus}
use my_vps_config.IpLease.Choice.{Client}

-- `group_cfg_st`, less the networks and the explicit addresses, which `Client` has. A list and its
-- size are one.
pub record GroupConfig : Type 0 where
  pub routes : List Bytes
  pub no_routes : List Bytes
  pub iroutes : List Bytes
  pub dns : List Bytes
  pub nbns : List Bytes
  pub cgroup : Option Bytes
  pub xml_config_file : Option Bytes
  pub rx_per_sec : ℕ
  pub tx_per_sec : ℕ
  pub deny_roaming : Bool
  pub net_priority : ℕ
  pub no_udp : Bool

-- `proc_st`, with its address; `client` has the leases and what they depend on.
pub record Proc : Type 0 where
  pub address : ℕ
  pub pid : ℤ
  pub client : Client
  pub config : GroupConfig
  pub remote_addr : Bytes
  pub sid : Bytes
  pub active_sid : Bool
  pub dtls_session_id : Bytes
  pub username : Bytes
  pub groupname : Bytes
  pub hostname : Bytes
  -- `tun_lease.name`
  pub tun_name : Bytes
  pub status : AuthStatus
  pub bytes_in : ℕ
  pub bytes_out : ℕ
  pub conn_time : ℕ

-- The process at an address; `none` if there is none.
unfoldable pub deref : ℕ → List Proc → Option Proc
deref a [] = none
deref a (p ∷ ps) = let later = deref a ps in if p.address == a then some p else later

-- The store through a pointer to a process.
unfoldable pub write_back : Proc → List Proc → List Proc
write_back p [] = []
write_back p (q ∷ qs) =
    let later = write_back p qs in if q.address == p.address then p ∷ qs else q ∷ later
