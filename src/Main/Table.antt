-- ===== src/Main/Table.antt =====
-- proc-search.c: the three tables of the clients' processes.
use my_vps_config.Base.{ℕ, ◌+◌, ◌%◌, ◌^◌, Option, none, some, Bytes, bytes_eq}
use my_vps_config.Base.Int.{ℤ, success, failure}
use my_vps_config.Htable.Multi.{Multi, find}
use my_vps_config.Main.Proc.{Proc}

-- A pointer in the tables, with the fields that it is found by. They stay as they are while the
-- process is in the tables.
pub record ProcRef : Type 0 where
  pub address : ℕ
  pub remote_addr : Bytes
  pub dtls_session_id : Bytes
  pub sid : Bytes

unfoldable pub ref_of : Proc → ProcRef
ref_of p = record {
  address = p.address;
  remote_addr = p.remote_addr;
  dtls_session_id = p.dtls_session_id;
  sid = p.sid;
}

-- `rehash_ip`, `rehash_dtls_id` and `rehash_sid`
abbrev pub addr_key : ProcRef → Bytes
addr_key r = r.remote_addr

abbrev pub dtls_id_key : ProcRef → Bytes
dtls_id_key r = r.dtls_session_id

abbrev pub sid_key_of : ProcRef → Bytes
sid_key_of r = r.sid

abbrev pub address_of : ProcRef → ℕ
address_of r = r.address

module _ (ips : Multi ProcRef addr_key address_of) (ids : Multi ProcRef dtls_id_key address_of)
    (sids : Multi ProcRef sid_key_of address_of) where
  pub record ProcTable : Type 0 where
    pub db_ip : ips.Table
    pub db_dtls_id : ids.Table
    pub db_sid : sids.Table
    pub total : ℕ

  unfoldable pub proc_table_init : ProcTable
  proc_table_init = record {
    db_ip = ips.init;
    db_dtls_id = ids.init;
    db_sid = sids.init;
    total = 0;
  }

  -- The return code and the tables.
  unfoldable pub proc_table_add : ProcRef → ProcTable → ℤ × ProcTable
  proc_table_add r t = elim (ips.add r t.db_ip) [
    | none ↦ (failure, t)
    | some by_ip ↦ elim (ids.add r t.db_dtls_id) [
      | none ↦ (failure, record t { db_ip = ips.delval r.remote_addr r.address by_ip })
      | some by_id ↦ elim (sids.add r t.db_sid) [
        | none ↦ (
          failure,
          record t {
            db_ip = ips.delval r.remote_addr r.address by_ip;
            db_dtls_id = ids.delval r.dtls_session_id r.address by_id;
          },
        )
        | some by_sid ↦ (
          success,
          record t {
            db_ip = by_ip;
            db_dtls_id = by_id;
            db_sid = by_sid;
            total = (t.total + 1) % 2 ^ 32;
          },
        )
      ]
    ]
  ]

  unfoldable pub proc_table_del : ProcRef → ProcTable → ProcTable
  proc_table_del r t = record t {
    db_ip = ips.delval r.remote_addr r.address t.db_ip;
    db_dtls_id = ids.delval r.dtls_session_id r.address t.db_dtls_id;
    db_sid = sids.delval r.sid r.address t.db_sid;
  }

  -- `found_ips` is at most 1, since `htable_get` stops at the first match.
  unfoldable pub proc_search_ip : Bytes → ProcTable → Option ProcRef
  proc_search_ip addr t = find (λ r. bytes_eq r.remote_addr addr) (ips.chain addr t.db_ip)

  unfoldable pub proc_search_dtls_id : Bytes → ProcTable → Option ProcRef
  proc_search_dtls_id id t = find (λ r. bytes_eq r.dtls_session_id id) (ids.chain id t.db_dtls_id)

  unfoldable pub proc_search_sid : Bytes → ProcTable → Option ProcRef
  proc_search_sid sid t = find (λ r. bytes_eq r.sid sid) (sids.chain sid t.db_sid)
