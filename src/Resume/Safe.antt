-- ===== src/Resume/Safe.antt =====
-- main-resume.c: which session a worker may resume, and how many are stored.
use my_vps_config.Base.{
  ℕ, ◌+◌, ◌%◌, ◌^◌, ◌≤◌, ◌≡◌, ◌≢◌, inl, inr, Bool, true, false, ◌&&◌, ◌||◌, Option, none, some,
  Bytes, bytes_eq, bytes_eq→eq, bytes_eq_refl, bytes_eq_comm, Option-cases, arith,
}
use my_vps_config.Base.Int.{ℤ}
use my_vps_config.Htable.Multi.{Multi, find, any, find-any, find-holds, any-find, any-ext}
use my_vps_config.Resume.{
  TlsCache, id_key, pointer_of, TlsDb, StoreRequest, handle_resume_delete_req,
  handle_resume_fetch_req, handle_resume_store_req, max_stored, one_less,
}

module _ (mt : Multi TlsCache id_key pointer_of) where
  open mt use {Table, chain, add, delval}

  -- Whether the table has a session of this ID, address and data.
  abbrev pub stores : Bytes → Bytes → (Bytes → Bool) → TlsDb mt → Bool
  stores id remote_addr p db =
      any
        (λ c. bytes_eq c.session_id id && (bytes_eq remote_addr c.remote_addr && p c.session_data))
        (chain id db.ht)

  -- Data that a request to resume gets is that of a stored session with the requested ID, which was
  -- stored from the same address.
  pub handle_resume_fetch_req-stores :
      (id remote_addr bytes : Bytes) (db : TlsDb mt)
      → handle_resume_fetch_req mt id remote_addr db ≡ some bytes
      → stores id remote_addr (bytes_eq bytes) db ≡ true
  unfolding handle_resume_fetch_req
  handle_resume_fetch_req-stores id remote_addr bytes db h =
      let p : TlsCache → Bool =
        λ c. bytes_eq id c.session_id && bytes_eq remote_addr c.remote_addr in
      let q : TlsCache → Bool = λ c.
        bytes_eq c.session_id id
        && (bytes_eq remote_addr c.remote_addr && bytes_eq bytes c.session_data) in
      elim (Option-cases (find p (chain id db.ht))) [
        | inl missing ↦ absurd (ground arith)
        | inr (c, found) ↦
            let holds : p c ≡ true = find-holds p (chain id db.ht) c found in
            any-find p q (chain id db.ht) c found
              (ground (arith, bytes_eq_comm id c.session_id, bytes_eq_refl bytes))
      ]

  abbrev pub resumes : Bytes → Bytes → TlsDb mt → Bool
  resumes id remote_addr db = elim (handle_resume_fetch_req mt id remote_addr db) [
    | none ↦ false
    | some b ↦ true
  ]

  resumes-stores :
      (id remote_addr : Bytes) (db : TlsDb mt)
      → resumes id remote_addr db ≡ stores id remote_addr (λ d. true) db
  unfolding handle_resume_fetch_req
  resumes-stores id remote_addr db =
      let p : TlsCache → Bool =
        λ c. bytes_eq id c.session_id && bytes_eq remote_addr c.remote_addr in
      let q : TlsCache → Bool =
        λ c. bytes_eq c.session_id id && (bytes_eq remote_addr c.remote_addr && true) in
      ground (
        arith,
        find-any p (chain id db.ht),
        any-ext p q (chain id db.ht) (λ c. ground (arith, bytes_eq_comm id c.session_id)),
      )

  abbrev pub is_success : ℤ → Bool
  is_success r = elim r [ ℤ.pos n ↦ true | ℤ.negsuc n ↦ false ]

  -- Where htable_add finds memory, after a request to store a session just those pairs of session
  -- ID and address can resume that could before, and the ID of the request from its worker's
  -- address, if the request returned 0.
  pub handle_resume_store_req-resumes :
      (max_clients : ℕ) (pointer : Option ℕ) (remote_addr : Bytes) (req : StoreRequest)
      (db : TlsDb mt) (id addr : Bytes)
      → ((c : TlsCache) → add c db.ht ≢ none)
      → (let (db', ret) = handle_resume_store_req mt max_clients pointer remote_addr req db in
          resumes id addr db' ≡ (
            (is_success ret && (bytes_eq req.session_id id && bytes_eq addr remote_addr))
            || resumes id addr db))
  unfolding handle_resume_store_req
  handle_resume_store_req-resumes max_clients none remote_addr req db id addr works = ground (
    arith,
    resumes-stores id addr db,
    resumes-stores id addr (record db { need_maintenance = true }),
  )
  handle_resume_store_req-resumes max_clients (some p) remote_addr req db id addr works =
      let c : TlsCache = record {
        pointer = p;
        remote_addr = remote_addr;
        session_id = req.session_id;
        session_data = req.session_data;
      } in
      elim (Option-cases (add c db.ht)) [
        | inl failed ↦ absurd (works c failed)
        | inr (t, added) ↦ ground (
          arith,
          resumes-stores id addr db,
          resumes-stores id addr (record db { need_maintenance = true }),
          resumes-stores id addr (record db { ht = t; entries = (db.entries + 1) % 2 ^ 32 }),
          mt.any-add c db.ht t id (λ x. bytes_eq addr x.remote_addr && true) added,
        )
      ]

  -- A request to store a session keeps the count of sessions at most at the maximum, which is the
  -- larger of 64 and twice the number of clients, modulo 2 ^ 32.
  pub handle_resume_store_req-entries :
      (max_clients : ℕ) (pointer : Option ℕ) (remote_addr : Bytes) (req : StoreRequest)
      (db : TlsDb mt)
      → db.entries ≤ max_stored mt max_clients
      → (let (db', ret) = handle_resume_store_req mt max_clients pointer remote_addr req db in
          db'.entries ≤ max_stored mt max_clients)
  unfolding handle_resume_store_req
  handle_resume_store_req-entries max_clients pointer remote_addr req db h = ground arith

  -- A request to delete a session leaves the sessions with other IDs: from each address they can be
  -- resumed as before.
  pub handle_resume_delete_req-other :
      (id other remote_addr : Bytes) (db : TlsDb mt)
      → bytes_eq id other ≡ false
      → resumes other remote_addr (handle_resume_delete_req mt id db) ≡ resumes other remote_addr db
  unfolding handle_resume_delete_req
  handle_resume_delete_req-other id other remote_addr db h =
      elim (Option-cases (find (λ c. bytes_eq id c.session_id) (chain id db.ht))) [
        | inl missing ↦ ground arith
        | inr (c, found) ↦
            let same : bytes_eq id c.session_id ≡ true =
              find-holds (λ c. bytes_eq id c.session_id) (chain id db.ht) c found in
            ground (
              arith,
              bytes_eq→eq id c.session_id same,
              resumes-stores other remote_addr db,
              resumes-stores other remote_addr (record db {
                ht = delval c.session_id c.pointer db.ht;
                entries = one_less mt db.entries;
              }),
              mt.any-delval c.session_id other c.pointer db.ht
                  (λ x. bytes_eq remote_addr x.remote_addr && true),
            )
      ]
