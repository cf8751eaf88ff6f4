-- ===== src/Resume.antt =====
-- ocserv/Ocserv/src/main-resume.c: the TLS sessions that main stores for the workers.
pub mod Safe
pub mod Tests
use my_vps_config.Base.{
  ℕ, ◌+◌, ◌-◌, ◌*◌, ◌%◌, ◌^◌, max, ltb, leb, ◌==◌, Bool, true, false, ◌&&◌, ◌||◌, if◌then◌else◌,
  Option, none, some, List, [], ◌∷◌, Bytes, bytes_eq, length,
}
use my_vps_config.Base.Int.{ℤ, success, failure}
use my_vps_config.Htable.Multi.{Multi, find}

-- `tls_cache_st`, with the address of its memory; a field and its size are one list.
pub record TlsCache : Type 0 where
  pub pointer : ℕ
  pub remote_addr : Bytes
  pub session_id : Bytes
  pub session_data : Bytes

abbrev pub id_key : TlsCache → Bytes
id_key c = c.session_id

abbrev pub pointer_of : TlsCache → ℕ
pointer_of c = c.pointer

-- GNUTLS_MAX_SESSION_ID, MAX_SESSION_DATA_SIZE and DEFAULT_MAX_CACHED_TLS_SESSIONS
abbrev pub max_session_id : ℕ
max_session_id = 32

abbrev pub max_session_data_size : ℕ
max_session_data_size = 4096

abbrev pub default_max_cached : ℕ
default_max_cached = 64

-- `SessionResumeStoreReqMsg`
pub record StoreRequest : Type 0 where
  pub session_id : Bytes
  pub session_data : Bytes

module _ (mt : Multi TlsCache id_key pointer_of) where
  open mt use {Table, chain, items, add, delval}

  -- `tls_sess_db_st`, and the flag `need_maintenance` of main.
  pub record TlsDb : Type 0 where
    pub ht : Table
    pub entries : ℕ
    pub need_maintenance : Bool

  -- `entries--` of an `unsigned`
  unfoldable pub one_less : ℕ → ℕ
  one_less n = (n + (2 ^ 32 - 1)) % 2 ^ 32

  -- The first session of this ID.
  unfoldable pub handle_resume_delete_req : Bytes → TlsDb → TlsDb
  handle_resume_delete_req id db = elim (find (λ c. bytes_eq id c.session_id) (chain id db.ht)) [
    | none ↦ db
    | some c ↦ record db { ht = delval c.session_id c.pointer db.ht; entries = one_less db.entries }
  ]

  -- The reply: the data of the first session of this ID that the worker's address stored.
  unfoldable pub handle_resume_fetch_req : Bytes → Bytes → TlsDb → Option Bytes
  handle_resume_fetch_req id remote_addr db =
      elim (find (λ c. bytes_eq id c.session_id && bytes_eq remote_addr c.remote_addr)
        (chain id db.ht)) [ none ↦ none | some c ↦ some c.session_data ]

  unfoldable pub max_stored : ℕ → ℕ
  max_stored max_clients = max ((2 * max_clients) % 2 ^ 32) default_max_cached

  -- `pointer` is what `talloc` returns. The result of `htable_add` is not looked at.
  unfoldable pub handle_resume_store_req : ℕ → Option ℕ → Bytes → StoreRequest → TlsDb → TlsDb × ℤ
  handle_resume_store_req max_clients pointer remote_addr req db =
      if ltb max_session_id (length req.session_id)
        || ltb max_session_data_size (length req.session_data)
      then (db, failure)
      else (if leb (max_stored max_clients) db.entries
          then (record db { need_maintenance = true }, failure)
          else elim pointer [
            | none ↦ (db, failure)
            | some p ↦
                let c : TlsCache = record {
                  pointer = p;
                  remote_addr = remote_addr;
                  session_id = req.session_id;
                  session_data = req.session_data;
                } in
                (
                  record db {
                    ht = elim (add c db.ht) [ none ↦ db.ht | some t ↦ t ];
                    entries = (db.entries + 1) % 2 ^ 32;
                  },
                  success,
                )
          ])

  -- The loop of `expire_tls_sessions`; `time_of` is `gnutls_db_check_entry_time`.
  unfoldable pub expire_each : (Bytes → ℕ) → ℕ → ℕ → List TlsCache → TlsDb → TlsDb
  expire_each time_of now limit [] db = db
  expire_each time_of now limit (c ∷ cs) db = expire_each time_of now limit cs (
      if ltb limit (now - time_of c.session_data)
      then record db { ht = delval c.session_id c.pointer db.ht; entries = one_less db.entries }
      else db)

  unfoldable pub expire_tls_sessions : (Bytes → ℕ) → ℕ → ℕ → TlsDb → TlsDb
  unfolding expire_each
  expire_tls_sessions time_of now limit db = expire_each time_of now limit (items db.ht) db
