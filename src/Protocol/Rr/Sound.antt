-- ===== src/Protocol/Rr/Sound.antt =====
-- What holds of every record that is read, whatever the bytes.
use border_dns.Prelude.{
  ℕ, zero, suc, ◌+◌, ◌-◌, ◌≡◌, refl, List, [], ◌∷◌, ◌++◌, length, ltb, ◌==◌, arith,
}
use border_dns.Types.Codes.{
  RecordType, a, ns, cname, soa, ptr, mx, txt, aaaa, srv, svcb, https, opt, unknown,
  record_type_from_u16,
}
use border_dns.Protocol.Wire.{◌>>=◌, ◌>>◌, pure, read_u8, read_bytes}
use border_dns.Protocol.Wire.Bounds.{
  Safe, Safe->>=, Safe-pure, Safe-if, Safe-err, Within-if, Anything, read_u8-Safe, read_u16-Safe,
  read_u32-Safe, read_bytes-Safe,
}
use border_dns.Protocol.Name.Valid.{IsValid}
use border_dns.Protocol.Name.Decode.{read_name-Safe}
use border_dns.Protocol.Rr.{
  RData, a_data, aaaa_data, cname_data, ns_data, ptr_data, mx_data, txt_data, soa_data, srv_data,
  svcb_data, https_data, opt_data, unknown_data, read_soa, read_mx, read_srv, read_svcb, pos_of,
  txt_loop, read_body, skip_rest, read_rdata, is_opt, read_opt, read_record,
}

-- The names inside are well formed and the addresses have the octets of their family.
abbrev pub Sound : RData → Type 0
Sound (a_data octets) = length octets ≡ 4
Sound (aaaa_data octets) = length octets ≡ 16
Sound (cname_data n) = IsValid n
Sound (ns_data n) = IsValid n
Sound (ptr_data n) = IsValid n
Sound (mx_data m) = IsValid m.exchange
Sound (txt_data strings) = Unit
Sound (soa_data s) = IsValid s.mname × IsValid s.rname
Sound (srv_data s) = IsValid s.target
Sound (svcb_data s) = IsValid s.target
Sound (https_data s) = IsValid s.target
Sound (opt_data o) = Unit
Sound (unknown_data v bytes) = Unit

module _ (message : List ℕ) where
  read_soa-Safe : Safe (λ s. IsValid s.mname × IsValid s.rname) (read_soa message)
  unfolding read_soa
  read_soa-Safe = Safe->>= (read_name-Safe message) (λ m mv.
      Safe->>= (read_name-Safe message) (λ r rv. Safe->>= read_u32-Safe (λ _ _.
        Safe->>= read_u32-Safe (λ _ _. Safe->>= read_u32-Safe (λ _ _.
          Safe->>= read_u32-Safe (λ _ _. Safe->>= read_u32-Safe (λ _ _. Safe-pure (mv, rv))))))))

  read_mx-Safe : Safe (λ m. IsValid m.exchange) (read_mx message)
  unfolding read_mx
  read_mx-Safe =
      Safe->>= read_u16-Safe (λ _ _. Safe->>= (read_name-Safe message) (λ _ v. Safe-pure v))

  read_srv-Safe : Safe (λ s. IsValid s.target) (read_srv message)
  unfolding read_srv
  read_srv-Safe = Safe->>= read_u16-Safe (λ _ _. Safe->>= read_u16-Safe (λ _ _.
      Safe->>= read_u16-Safe (λ _ _. Safe->>= (read_name-Safe message) (λ _ v. Safe-pure v))))

  pos_of-Safe : Safe (Anything {A = ℕ}) pos_of
  unfolding pos_of Anything
  pos_of-Safe = record { apply = λ r v. (refl, omega arith, v, tt) }

  read_svcb-Safe : (rdata_end : ℕ) → Safe (λ s. IsValid s.target) (read_svcb message rdata_end)
  unfolding read_svcb
  read_svcb-Safe rdata_end = Safe->>= read_u16-Safe (λ _ _.
      Safe->>= (read_name-Safe message) (λ _ v.
        Safe->>= pos_of-Safe
          (λ pos _. Safe->>= (read_bytes-Safe (rdata_end - pos)) (λ _ _. Safe-pure v))))

  txt_loop-Safe :
      (fuel rdata_end : ℕ) (strings : List (List ℕ))
      → Safe (Anything {A = List (List ℕ)}) (txt_loop fuel rdata_end strings)
  unfolding txt_loop Anything
  txt_loop-Safe zero rdata_end strings = Safe-pure tt
  txt_loop-Safe (suc fuel) rdata_end strings = record {
    apply = λ r v.
        let more : Safe (Anything {A = List (List ℕ)}) (
            read_u8 >>= λ len.
            read_bytes len >>= λ bytes. txt_loop fuel rdata_end (strings ++ (bytes ∷ []))) =
          Safe->>= read_u8-Safe (λ len _.
            Safe->>= (read_bytes-Safe len)
              (λ bytes _. txt_loop-Safe fuel rdata_end (strings ++ (bytes ∷ [])))) in
        Within-if Anything r _ _ (ltb r.pos rdata_end) (more.apply r v) (refl, omega arith, v, tt);
  }

  pub read_body-Safe :
      (t : RecordType) (rdlength rdata_end : ℕ)
      → Safe Sound (read_body t rdlength rdata_end message)
  unfolding read_body
  read_body-Safe a rdlength rdata_end =
      Safe-if (rdlength == 4) (Safe->>= (read_bytes-Safe 4) (λ _ l. Safe-pure l)) (Safe-err Sound _)
  read_body-Safe aaaa rdlength rdata_end =
      Safe-if (rdlength == 16) (Safe->>= (read_bytes-Safe 16) (λ _ l. Safe-pure l))
        (Safe-err Sound _)
  read_body-Safe cname rdlength rdata_end = Safe->>= (read_name-Safe message) (λ _ v. Safe-pure v)
  read_body-Safe ns rdlength rdata_end = Safe->>= (read_name-Safe message) (λ _ v. Safe-pure v)
  read_body-Safe ptr rdlength rdata_end = Safe->>= (read_name-Safe message) (λ _ v. Safe-pure v)
  read_body-Safe mx rdlength rdata_end = Safe->>= read_mx-Safe (λ _ v. Safe-pure v)
  read_body-Safe soa rdlength rdata_end = Safe->>= read_soa-Safe (λ _ v. Safe-pure v)
  read_body-Safe txt rdlength rdata_end =
      Safe->>= (txt_loop-Safe rdlength rdata_end []) (λ _ _. Safe-pure tt)
  read_body-Safe srv rdlength rdata_end = Safe->>= read_srv-Safe (λ _ v. Safe-pure v)
  read_body-Safe svcb rdlength rdata_end = Safe->>= (read_svcb-Safe rdata_end) (λ _ v. Safe-pure v)
  read_body-Safe https rdlength rdata_end = Safe->>= (read_svcb-Safe rdata_end) (λ _ v. Safe-pure v)
  read_body-Safe opt rdlength rdata_end = Safe->>= (read_bytes-Safe rdlength) (λ _ _. Safe-pure tt)
  read_body-Safe (unknown v) rdlength rdata_end =
      Safe->>= (read_bytes-Safe rdlength) (λ _ _. Safe-pure tt)

  skip_rest-Safe :
      (start rdlength : ℕ) (rdata : RData)
      → Sound rdata
      → Safe Sound (skip_rest start rdlength rdata)
  unfolding skip_rest
  skip_rest-Safe start rdlength rdata s = record {
    apply = λ r v.
        let skip = rdlength - (r.pos - start) in
        let skipped : Safe Sound (read_bytes skip >> pure rdata) =
          Safe->>= (read_bytes-Safe skip) (λ _ _. Safe-pure s) in
        Within-if Sound r _ _ (r.pos - start == rdlength) (refl, omega arith, v, s)
          (Within-if Sound r _ _ (ltb 0 skip) (skipped.apply r v) (refl, omega arith, v, s));
  }

  pub read_rdata-Safe : (t : RecordType) (rdlength : ℕ) → Safe Sound (read_rdata t rdlength message)
  unfolding read_rdata
  read_rdata-Safe t rdlength = record {
    apply = λ r v.
        let body : Safe Sound
            (read_body t rdlength (r.pos + rdlength) message >>= skip_rest r.pos rdlength) =
          Safe->>= (read_body-Safe t rdlength (r.pos + rdlength)) (skip_rest-Safe r.pos rdlength) in
        Within-if Sound r _ _ (ltb (length message) (r.pos + rdlength)) tt (body.apply r v);
  }

  read_opt-Safe : (class_raw ttl rdlength : ℕ) → Safe Sound (read_opt class_raw ttl rdlength)
  unfolding read_opt
  read_opt-Safe class_raw ttl rdlength = Safe->>= (read_bytes-Safe rdlength) (λ _ _. Safe-pure tt)

  pub read_record-Safe : Safe (λ rr. IsValid rr.name × Sound rr.rdata) (read_record message)
  unfolding read_record
  read_record-Safe = Safe->>= (read_name-Safe message) (λ _ nv. Safe->>= read_u16-Safe (λ t _.
      Safe->>= read_u16-Safe (λ c _. Safe->>= read_u32-Safe (λ ttl _.
        Safe->>= read_u16-Safe (λ len _.
          Safe->>=
            (Safe-if (is_opt (record_type_from_u16 t)) (read_opt-Safe c ttl len)
              (read_rdata-Safe (record_type_from_u16 t) len))
            (λ _ s. Safe-pure (nv, s)))))))
