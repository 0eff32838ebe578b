-- ===== src/Protect/Outcome.antt =====
-- What `sdrad_dprotect` does for each kind of argument.
use secure_rewind_and_discar.Base.{
  ℕ, ◌<◌, ◌≡◌, ◌⊎◌, ◌^◌, ◌&&◌, Bool, true, some, arith, ◌==◌, ltb, if◌then◌else◌, update,
}
use secure_rewind_and_discar.Base.Int.{ℤ, pos, negsuc, eqb_ℤ}
use secure_rewind_and_discar.Codes.{
  total_domain, root_domain, sdrad_successful_returned, sdrad_error_wrong_config,
  sdrad_error_no_domain,
}
use secure_rewind_and_discar.State.{Thread}
use secure_rewind_and_discar.Platform.{Build, Platform}
use secure_rewind_and_discar.Pkey.{sdrad_set_access_pdi}
use secure_rewind_and_discar.Machine.{World, Run, done}
use secure_rewind_and_discar.Machine.Returns.{Returns}
use secure_rewind_and_discar.Init.Isolation.{rights_of}
use secure_rewind_and_discar.Pkey.Rights.{key_rights, set_access_exact}
use secure_rewind_and_discar.Running.{Running}
use secure_rewind_and_discar.Protect.{sdrad_dprotect, domain_of, protect, maker_info}

-- The two domains are numbers `sdi` and `ssdi`; the source was made by the calling thread and has
-- the protection key `key`.
pub record Protectable {S : Type 0} (w : World S) (sti : ℕ) (t : Thread)
    (udi source sdi ssdi key : ℕ) : Type 0 where
  pub receiver : domain_of udi w.sgm.udi_control_head ≡ pos sdi
  pub giver : domain_of source w.sgm.udi_control_head ≡ pos ssdi
  pub receiver_inside : sdi < total_domain
  pub giver_inside : ssdi < total_domain
  pub maker : w.sgm.sgm_sdi_to_tdi ssdi ≡ sti
  pub parent_inside : (t.sdrad_d_info ssdi).sdi_parent_domain < total_domain
  pub keyed : w.sgm.pdi ssdi ≡ pos key
  pub is_key : key < 16

module _ {S : Type 0} (p : Platform S) (b : Build) (w : World S) (sti udi source access : ℕ)
    (t : Thread) (run : Running p b w sti t) where
  module _ (sdi ssdi key : ℕ) (able : Protectable w sti t udi source sdi ssdi key) where
    -- The active domain and the source's parent have one protection key.
    allowed : Bool
    allowed = eqb_ℤ (w.sgm.pdi t.active_domain) (w.sgm.pdi (t.sdrad_d_info ssdi).sdi_parent_domain)

    config : ℕ → ℕ
    config = update t.pkru_config sdi (sdrad_set_access_pdi (t.pkru_config sdi) key access)

    outcome : Run S ℤ
    unfolding allowed config
    outcome =
        if allowed
        then done sdrad_successful_returned (record w {
          pkru = if sdi == root_domain then config sdi else config t.active_domain;
          sgm = record (w.sgm) {
            stm_ptr = update w.sgm.stm_ptr sti (some (record t { pkru_config = config }));
          };
        })
        else done sdrad_error_wrong_config (record w { pkru = 0 })

    maker_info_lem :
        maker_info p b t ssdi (record w { pkru = 0 })
        ≡ done (t.sdrad_d_info ssdi) (record w { pkru = 0 })
    unfolding maker_info
    maker_info_lem = ground (arith, able.giver_inside, able.maker, run.present)

    protect_lem : protect p b sdi ssdi access (record w { pkru = 0 }) ≡ outcome
    unfolding protect outcome
    protect_lem =
        let parent : ltb (t.sdrad_d_info ssdi).sdi_parent_domain total_domain ≡ true =
          ground arith in
        let active : ltb t.active_domain total_domain ≡ true = ground arith in
        rw (protect, run.located, run.present, maker_info_lem, parent, active) (ground arith)

  -- With two domains and a source that the calling thread made, the call succeeds exactly when the
  -- active domain and the source's parent have one protection key. It then replaces one key's rights in
  -- one configuration of the thread and loads the active domain's configuration, or the root's if that is
  -- the receiver. Otherwise nothing but the register has changed: it is left with all rights.
  pub dprotect_sets :
      (sdi ssdi key : ℕ)
      → Protectable w sti t udi source sdi ssdi key
      → let parent = (t.sdrad_d_info ssdi).sdi_parent_domain in
        let config =
          update t.pkru_config sdi (sdrad_set_access_pdi (t.pkru_config sdi) key access) in
        sdrad_dprotect p b udi source access w ≡ (
          if eqb_ℤ (w.sgm.pdi t.active_domain) (w.sgm.pdi parent)
          then done sdrad_successful_returned (record w {
            pkru = if sdi == root_domain then config sdi else config t.active_domain;
            sgm = record (w.sgm) {
              stm_ptr = update w.sgm.stm_ptr sti (some (record t { pkru_config = config }));
            };
          })
          else done sdrad_error_wrong_config (record w { pkru = 0 }))
  unfolding sdrad_dprotect outcome
  dprotect_sets sdi ssdi key able = ground (arith, protect_lem sdi ssdi key able)

  -- A user index that stands for no domain, as the receiver or as the source, is refused with the code
  -- for that; nothing has changed but the register, which is left with all rights.
  pub dprotect_refuses :
      (n : ℕ)
      → (domain_of udi w.sgm.udi_control_head ≡ negsuc n)
        ⊎ (domain_of source w.sgm.udi_control_head ≡ negsuc n)
      → sdrad_dprotect p b udi source access w ≡ done sdrad_error_no_domain (record w { pkru = 0 })
  unfolding sdrad_dprotect
  dprotect_refuses n h = ground arith

  -- Let the receiver and the source have user indices of domains in the table, let the source be made
  -- by the calling thread and have a protection key, let the source's parent be in the table and have
  -- the active domain's key, let the access be one of the four values of two bits, and the receiver's
  -- rights a 32-bit word. Then the call succeeds; the receiver's configuration has the given rights on
  -- the source's key and its old rights on each other key, and each other domain's configuration is
  -- what it was.
  pub dprotect_grants :
      (sdi ssdi key : ℕ)
      → Protectable w sti t udi source sdi ssdi key
      → t.pkru_config sdi < 2 ^ 32
      → access < 4
      → w.sgm.pdi t.active_domain ≡ w.sgm.pdi (t.sdrad_d_info ssdi).sdi_parent_domain
      → (d k : ℕ)
      → Returns
          (λ code v.
            (code ≡ sdrad_successful_returned)
            × (rights_of v sti d k
                ≡ some
                    (if (sdi == d) && (key == k) then access else key_rights (t.pkru_config d) k)))
          (sdrad_dprotect p b udi source access w)
  dprotect_grants sdi ssdi key able fits is_access same d k = rw (dprotect_sets sdi ssdi key able) (
      ground (
        arith,
        same,
        (set_access_exact (t.pkru_config sdi) key access fits able.is_key is_access).0 k,
      ))
