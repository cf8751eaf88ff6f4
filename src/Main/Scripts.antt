-- ===== src/Main/Scripts.antt =====
-- main.c and main-misc.c: the request of a worker that passes on a cookie, to the end of the connect
-- script, on which the reply may wait.
use my_vps_config.Base.{ℕ, ◌≡◌, ◌⊎◌, true, false, if◌then◌else◌, Option, none, some, List, Bytes}
use my_vps_config.Base.Int.{ℤ, is_neg, is_zero}
use my_vps_config.Htable.Multi.{Multi}
use my_vps_config.SecMod.Types.{Cookie}
use my_vps_config.Cookies.{decrypt_cookie}
use my_vps_config.Main.Proc.{Proc}
use my_vps_config.Main.Table.{ProcRef, addr_key, dtls_id_key, sid_key_of, address_of, ProcTable}
use my_vps_config.Main.Auth.{AuthWorld, check_multiple_users}
use my_vps_config.Main.Accept.{AcceptWorld, AcceptEffect, handle_script_exit, is_wait}
use my_vps_config.Main.Granted.{IsGranted}
use my_vps_config.Main.Serve.{is_inactive, serve_cookie}

-- `cleanup_children`, where the child that ended is the connect script of the process.
unfoldable pub cleanup_children : AcceptWorld → ℕ → Proc → AcceptEffect
unfolding handle_script_exit
cleanup_children a estatus p = handle_script_exit a p (ℤ.pos estatus)

-- The exit status of the script counts only where the request left it running: it returned 0 and
-- sent no reply.
abbrev pub after_script : AcceptWorld → ℕ → AcceptEffect → AcceptEffect
after_script a estatus e = elim e.reply [
  | some r ↦ e
  | none ↦ if is_zero e.ret then cleanup_children a estatus e.proc else e
]

-- What main checked, and the connect script, where there is one, ended with status 0.
pub record IsAdmitted (a : AcceptWorld) (estatus : ℕ) (p : Proc) (others : List Proc) : Type 0 where
  pub within_limit : is_neg (check_multiple_users a.max_same_clients p others) ≡ false
  pub tun_opened : is_neg (a.open_tun p).0 ≡ false
  pub connected :
      (is_zero (a.user_connected (a.open_tun p).1) ≡ true)
      ⊎ ((is_wait (a.user_connected (a.open_tun p).1) ≡ true) × (estatus ≡ 0))

module _ (ips : Multi ProcRef addr_key address_of) (ids : Multi ProcRef dtls_id_key address_of)
    (sids : Multi ProcRef sid_key_of address_of) where
  -- The request of a worker, and the end of the script that it may have started; `estatus` is the
  -- script's exit status.
  unfoldable pub cookie_answer :
      AuthWorld
      → AcceptWorld
      → ℕ
      → Bytes
      → Proc
      → List Proc
      → ProcTable ips ids sids
      → Option (AcceptEffect × List Proc × ProcTable ips ids sids)
  unfolding serve_cookie cleanup_children
  cookie_answer w a estatus cookie p others t =
      elim (serve_cookie ips ids sids w a cookie p others t) [
        | none ↦ none
        | some (e, others', t') ↦ some (after_script a estatus e, others', t')
      ]

  -- The parts of the positive end.
  abbrev IsAnswered : AuthWorld → AcceptWorld → ℕ → Bytes → Proc → List Proc → Type 0
  IsAnswered w a estatus cookie p others' =
      (is_inactive p.status ≡ true)
      × ((c : Cookie) × (q : Proc) × (decrypt_cookie w.gcm w.packing w.cookie_key cookie ≡ some c)
          × IsGranted w cookie c q
          × IsAdmitted a estatus q others')
