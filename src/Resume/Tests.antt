-- ===== src/Resume/Tests.antt =====
-- The stored sessions on a concrete table, and the theorems at concrete inputs.
use my_vps_config.Base.{◌≡◌, refl, false, ◌&&◌, ◌||◌, [], ◌∷◌, some, none, Bytes, bytes_eq}
use my_vps_config.Htable.Multi.{Multi, one_chain}
use my_vps_config.Resume.{
  TlsCache, id_key, pointer_of, TlsDb, StoreRequest, handle_resume_fetch_req,
  handle_resume_store_req,
}
use my_vps_config.Resume.Safe.{resumes, is_success, handle_resume_store_req-resumes}

abbrev mt : Multi TlsCache id_key pointer_of
mt = one_chain id_key pointer_of

abbrev home : Bytes
home = 10 ∷ 0 ∷ 0 ∷ 1 ∷ []

abbrev session : TlsCache
session = record {
  pointer = 4096;
  remote_addr = home;
  session_id = 1 ∷ 2 ∷ [];
  session_data = b'd' ∷ [];
}

abbrev db : TlsDb mt
db = record { ht = session ∷ []; entries = 1; need_maintenance = false }

abbrev request : StoreRequest
request = record { session_id = 1 ∷ 3 ∷ []; session_data = b'e' ∷ [] }

other_address : handle_resume_fetch_req mt (1 ∷ 2 ∷ []) (10 ∷ 0 ∷ 0 ∷ 2 ∷ []) db ≡ none
unfolding handle_resume_fetch_req
other_address = refl

handle_resume_store_req-resumes_example :
    (let (db', ret) = handle_resume_store_req mt 16 (some 8192) home request db in
      resumes mt (1 ∷ 3 ∷ []) home db' ≡ (
        (is_success mt ret && (bytes_eq (1 ∷ 3 ∷ []) (1 ∷ 3 ∷ []) && bytes_eq home home))
        || resumes mt (1 ∷ 3 ∷ []) home db))
handle_resume_store_req-resumes_example =
    handle_resume_store_req-resumes mt 16 (some 8192) home request db (1 ∷ 3 ∷ []) home (λ c h. cc)
