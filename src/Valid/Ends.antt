-- ===== src/Valid/Ends.antt =====
-- Destroying a domain by a call keeps the manager valid.
use secure_rewind_and_discar.Base.{
  ℕ, ◌≡◌, ◌≢◌, refl, ap, inl, inr, false, not, ◌∷◌, arith, ◌==◌, if◌then◌else◌, update, Bool-cases,
}
use secure_rewind_and_discar.Base.Int.{ℤ, pos, negsuc, ℤ-cases}
use secure_rewind_and_discar.Codes.{root_domain, sdrad_heap_merge}
use secure_rewind_and_discar.State.{DomainInfo, CacheDomain, Thread, Manager}
use secure_rewind_and_discar.Platform.{Build, Platform}
use secure_rewind_and_discar.Control.{sdrad_search_udi_control, unlink}
use secure_rewind_and_discar.Alloc.{sdrad_malloc_mdd}
use secure_rewind_and_discar.Domain.{sdrad_insert_cache_domain, sdrad_delete_control_structure}
use secure_rewind_and_discar.Machine.{World, Run, done, fault, ◌>>◌, ◌>>=◌, and_then}
use secure_rewind_and_discar.Machine.Ensures.{
  Ensures, Ensures-and_then, Ensures-mono, Ensures-Returns,
}
use secure_rewind_and_discar.Running.{Running}
use secure_rewind_and_discar.Destroy.{sdrad_destroy, cached_stack, cached_heap}
use secure_rewind_and_discar.Machine.{thread, in_bounds, sdrad_store_pkru_config}
use secure_rewind_and_discar.Codes.{sdrad_successful_returned}
use secure_rewind_and_discar.Valid.{
  IsValid, IsValidWith, Shrunk, IsValid-cache, IsValid-clear, found-Occupied,
}
use secure_rewind_and_discar.Valid.Heaps.{IsValid-Running}
use secure_rewind_and_discar.Valid.Caching.{cache_memory, delete-IsValid}

module _ {S : Type 0} (p : Platform S) (b : Build) (single : b.multithread ≡ false) (rk : ℕ) where
  -- `sdrad_destroy` on the domain `sdi`, up to the deletion of its node.
  module _ (rk_pos : rk ≢ 0) (udi options sdi : ℕ) (w : World S) (ok : IsValid rk w.sgm)
      (t : Thread) (run : Running p b w root_domain t)
      (mapped : sdrad_search_udi_control udi w.sgm.udi_control_head ≡ pos sdi) where
    gone_info : DomainInfo
    gone_info = t.sdrad_d_info sdi

    -- The new node.
    kept_node : CacheDomain
    unfolding gone_info
    kept_node =
        let c =
          cached_stack gone_info (w.sgm.pdi sdi)
            (p.raw_cache (cache_memory p w).0 (cache_memory p w).1) in
        if not gone_info.sdi_init_heap_flag
        then c
        else (if options == sdrad_heap_merge then c else cached_heap gone_info c)

    merged : S
    unfolding gone_info
    merged =
        if not gone_info.sdi_init_heap_flag
        then (cache_memory p w).1
        else (if options == sdrad_heap_merge
            then p.tlsf_merge_pool (t.sdrad_d_info gone_info.sdi_parent_domain).sdi_tlsf
                gone_info.sdi_tlsf (cache_memory p w).1
            else (cache_memory p w).1)

    dropped : World S
    unfolding kept_node merged
    dropped = record w {
      pkru = 0;
      os = merged;
      sgm = record (w.sgm) {
        sgm_head = kept_node ∷ w.sgm.sgm_head;
        sgm_udi_to_sdi = update w.sgm.sgm_udi_to_sdi sdi 0;
        pdi = update w.sgm.pdi sdi (pos 0);
      };
    }

    kept_pkey : kept_node.scdi_pkey ≡ w.sgm.pdi sdi
    unfolding kept_node cached_stack cached_heap
    kept_pkey = ground arith

    -- What follows the deletion.
    abbrev resume : World S → Run S ℤ
    resume = do
      u ← thread root_domain
      in_bounds u.active_domain
      sdrad_store_pkru_config (u.pkru_config u.active_domain)
      (λ x. done sdrad_successful_returned x)

    destroy_lem : sdrad_destroy p b udi options w ≡ (
        if (cache_memory p w).0 == 0
        then fault
        else and_then (sdrad_delete_control_structure p b sdi dropped) λ _. resume)
    unfolding sdrad_destroy sdrad_insert_cache_domain sdrad_malloc_mdd dropped
    destroy_lem =
        let found =
          found-Occupied rk udi sdi w.sgm.status w.sgm.pdi w.sgm.udi_control_head ok.listed
            mapped in
        ground (arith, found, (ok.threads root_domain t run.present).parents sdi)

    resume_state : (v : World S) → Ensures (λ r x. x.sgm ≡ v.sgm) (resume v)
    resume_state v = ground arith

    dropped-IsValid : IsValid rk dropped.sgm
    unfolding dropped
    dropped-IsValid =
        let found =
          found-Occupied rk udi sdi w.sgm.status w.sgm.pdi w.sgm.udi_control_head ok.listed
            mapped in
        let other : sdi ≢ root_domain = λ q. ground (arith, q, found, ok.root_key) in
        let c = IsValid-cache rk w.sgm ok kept_node (rw kept_pkey found.2) in
        IsValid-clear rk _ c sdi rk_pos other

    drop-IsValid :
        Ensures
          (λ r v. IsValidWith rk (unlink sdi w.sgm.udi_control_head).0 v.sgm)
          (sdrad_destroy p b udi options w)
    unfolding dropped
    drop-IsValid = rw destroy_lem (elim (Bool-cases ((cache_memory p w).0 == 0)) [
      | inl nothing ↦ rw nothing tt
      | inr there ↦ rw there (
          Ensures-and_then _ _ (sdrad_delete_control_structure p b sdi dropped) _
            (Ensures-Returns _ (sdrad_delete_control_structure p b sdi dropped)
              (delete-IsValid p b single rk sdi dropped dropped-IsValid))
            λ _ v (valid, same).
              Ensures-mono _ _ (resume v) (resume_state v)
                λ r x e. rw e (valid, ap (λ (g : Manager). g.udi_control_head) same))
    ])

  destroy_nothing :
      (udi options m : ℕ) (w : World S)
      → IsValid rk w.sgm
      → sdrad_search_udi_control udi w.sgm.udi_control_head ≡ negsuc m
      → Ensures (λ r v. v.sgm ≡ w.sgm) (sdrad_destroy p b udi options w)
  unfolding sdrad_destroy
  destroy_nothing udi options m w ok unmapped =
      let (t, run) = IsValid-Running p b single rk w ok in ground (arith, run)

  pub destroy-IsValid :
      (udi options : ℕ) (w : World S)
      → rk ≢ 0
      → IsValid rk w.sgm
      → Ensures (λ r v. IsValid rk v.sgm × Shrunk w.sgm v.sgm) (sdrad_destroy p b udi options w)
  destroy-IsValid udi options w rk_pos ok =
      let (t, run) = IsValid-Running p b single rk w ok in
      elim (ℤ-cases (sdrad_search_udi_control udi w.sgm.udi_control_head)) [
        | inl (sdi, mapped) ↦
            Ensures-mono _ _ (sdrad_destroy p b udi options w)
              (drop-IsValid rk_pos udi options sdi w ok t run mapped)
              λ r v (valid, e). (valid, inr (sdi, e))
        | inr (m, unmapped) ↦
            Ensures-mono _ _ (sdrad_destroy p b udi options w)
              (destroy_nothing udi options m w ok unmapped) λ r v e. rw e (ok, inl refl)
      ]
