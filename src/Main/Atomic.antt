-- ===== src/Main/Atomic.antt =====
-- proc-search.c: a process is in all three tables, or the addition leaves no trace.
use my_vps_config.Base.{
  ◌+◌, ◌%◌, ◌^◌, ◌≡◌, ◌⊎◌, inl, inr, refl, Bool, ◌&&◌, ◌||◌, Bytes, bytes_eq, Option-cases,
}
use my_vps_config.Base.Int.{success, failure}
use my_vps_config.Htable.Multi.{Multi, any}
use my_vps_config.Main.Table.{
  ProcRef, addr_key, dtls_id_key, sid_key_of, address_of, ProcTable, proc_table_add,
}

-- Two tables of one kind answer every question about the entries of a key alike, but for those
-- that `extra` adds.
module _ {key : ProcRef → Bytes} (m : Multi ProcRef key address_of) where
  abbrev pub holds : m.Table → Bytes → (ProcRef → Bool) → Bool
  holds t k p = any (λ x. bytes_eq (key x) k && p x) (m.chain k t)

  abbrev pub SameEntries : m.Table → m.Table → Type 0
  SameEntries t t' = (k : Bytes) (p : ProcRef → Bool) → holds t' k p ≡ holds t k p

  abbrev pub OneMore : ProcRef → m.Table → m.Table → Type 0
  OneMore r t t' =
      (k : Bytes) (p : ProcRef → Bool) → holds t' k p ≡ ((bytes_eq (key r) k && p r) || holds t k p)

module _ (ips : Multi ProcRef addr_key address_of) (ids : Multi ProcRef dtls_id_key address_of)
    (sids : Multi ProcRef sid_key_of address_of) where
  -- proc_table_add either returns 0, one more process counts in total, and each of the three tables
  -- answers about the entries of a key as before and for the new process; or it returns -1,
  -- wherever memory ran out, and the total and the answers of all three tables are as before.
  pub proc_table_add-atomic :
      (r : ProcRef) (t : ProcTable ips ids sids)
      → let t' = (proc_table_add ips ids sids r t).1 in
        (((proc_table_add ips ids sids r t).0 ≡ failure)
          × (t'.total ≡ t.total)
          × SameEntries ips t.db_ip t'.db_ip
          × SameEntries ids t.db_dtls_id t'.db_dtls_id
          × SameEntries sids t.db_sid t'.db_sid)
        ⊎ (((proc_table_add ips ids sids r t).0 ≡ success)
            × (t'.total ≡ (t.total + 1) % 2 ^ 32)
            × OneMore ips r t.db_ip t'.db_ip
            × OneMore ids r t.db_dtls_id t'.db_dtls_id
            × OneMore sids r t.db_sid t'.db_sid)
  unfolding proc_table_add
  proc_table_add-atomic r t = elim (Option-cases (ips.add r t.db_ip)) [
    | inl e ↦ rw (proc_table_add, e) (inl (refl, refl, λ k p. refl, λ k p. refl, λ k p. refl))
    | inr (a, e) ↦ elim (Option-cases (ids.add r t.db_dtls_id)) [
      | inl e' ↦
          rw (proc_table_add, e, e')
            (inl (refl, refl, λ k p. ips.any-undo r t.db_ip a k p e, λ k p. refl, λ k p. refl))
      | inr (b, e') ↦ elim (Option-cases (sids.add r t.db_sid)) [
        | inl e'' ↦
            rw (proc_table_add, e, e', e'')
              (inl (
                refl,
                refl,
                λ k p. ips.any-undo r t.db_ip a k p e,
                λ k p. ids.any-undo r t.db_dtls_id b k p e',
                λ k p. refl,
              ))
        | inr (s, e'') ↦
            rw (proc_table_add, e, e', e'')
              (inr (
                refl,
                refl,
                λ k p. ips.any-add r t.db_ip a k p e,
                λ k p. ids.any-add r t.db_dtls_id b k p e',
                λ k p. sids.any-add r t.db_sid s k p e'',
              ))
      ]
    ]
  ]
