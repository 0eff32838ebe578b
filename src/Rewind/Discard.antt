-- ===== src/Rewind/Discard.antt =====
-- After a fault: where the handler goes, and what `sdrad_init_destroy` leaves.
use secure_rewind_and_discar.Base.{
  ℕ, ◌<◌, ◌≡◌, ◌≢◌, ◌⊎◌, false, some, none, ◌∷◌, arith, if◌then◌else◌, update,
}
use secure_rewind_and_discar.Base.Int.{pos, eqb_ℤ}
use secure_rewind_and_discar.Codes.{
  total_domain, root_domain, domain_nonoccupied, sdrad_return_to_parent, has_flag,
}
use secure_rewind_and_discar.State.{Thread, CacheDomain}
use secure_rewind_and_discar.Platform.{Build, Platform}
use secure_rewind_and_discar.Pkey.{pkru_all_unset}
use secure_rewind_and_discar.Control.{sdrad_search_udi_control, unlink}
use secure_rewind_and_discar.Alloc.{sdrad_malloc_mdd, free, first_use}
use secure_rewind_and_discar.Domain.{
  cache_entry, sdrad_destroy_domain, sdrad_insert_cache_domain, sdrad_delete_control_structure,
}
use secure_rewind_and_discar.Machine.{World}
use secure_rewind_and_discar.Machine.Returns.{Returns, Returns-and_then}
use secure_rewind_and_discar.Running.{Running}
use secure_rewind_and_discar.Rewind.{
  aborts, jumps, sdrad_setup_signal_handler, sdrad_abnormal_domain_exit, sdrad_init_destroy,
  sdrad_init_rewound,
}

module _ {S : Type 0} (p : Platform S) (b : Build) (w : World S) (sti : ℕ) (t : Thread)
    (run : Running p b w sti t) where
  -- After a fault the process ends exactly when the active domain has the root domain's protection key;
  -- otherwise control goes to the buffer in the active domain's record. Either way all rights are open,
  -- the two handlers are installed again, and nothing else has changed.
  pub abnormal_exit_target :
      Returns
        (λ exit v.
          (exit ≡ (
            if eqb_ℤ (w.sgm.pdi t.active_domain) (w.sgm.pdi root_domain)
            then aborts
            else jumps (t.sdrad_d_info t.active_domain).sdi_buffer))
          × (v ≡ record w { pkru = 0; os = p.sigaction 14 (p.sigaction 11 w.os) }))
        (sdrad_abnormal_domain_exit p b w)
  unfolding sdrad_abnormal_domain_exit sdrad_setup_signal_handler
  abnormal_exit_target = ground arith

-- What the rewinding of the active domain of `t` needs: the user index is the domain's, its parent is
-- a domain, the memory of a cache node is there, and the node that is freed, if any, goes to an
-- allocator that exists.
pub record Discardable {S : Type 0} (p : Platform S) (w : World S) (t : Thread) (udi : ℕ)
    : Type 0 where
  pub mapped : sdrad_search_udi_control udi w.sgm.udi_control_head ≡ pos t.active_domain
  pub parent_inside : (t.sdrad_d_info t.active_domain).sdi_parent_domain < total_domain
  pub to_current :
      has_flag (t.sdrad_d_info t.active_domain).sdi_options sdrad_return_to_parent ≡ false
  pub memory : (p.tlsf_malloc w.sgm.sdrad_monitor_domain.smd_tlsf p.size_of_cache w.os).0 ≢ 0
  pub allocator :
      ((unlink t.active_domain w.sgm.udi_control_head).1 ≡ none) ⊎ (w.tlsf_structure ≢ 0)

module _ {S : Type 0} (p : Platform S) (b : Build) (w : World S) (sti udi : ℕ) (t : Thread)
    (run : Running p b w sti t) (able : Discardable p w t udi) where
  pub discarded_node : CacheDomain
  discarded_node =
      let node = p.tlsf_malloc w.sgm.sdrad_monitor_domain.smd_tlsf p.size_of_cache w.os in
      cache_entry (t.sdrad_d_info t.active_domain) (w.sgm.pdi t.active_domain)
        (p.raw_cache node.0 node.1)

  -- `sdrad_init_destroy` is called with the user index of the active domain. The domain is made without
  -- SDRAD_RETURN_TO_PARENT, its parent is one of the domains, the monitor's heap has memory for the
  -- cache node, and an allocator is set if a list node is to be freed. Then the call returns the user
  -- index and makes the parent the active domain, on its own allocator. The domain's list node is
  -- unlinked, its memory goes to the front of the cache, its slot is free, its key entry and its entry
  -- in the table of user indices are 0, and the register has all rights; and the frame of the
  -- initialisation has the return address and the parent's rights, for the stub.
  pub init_destroy_discards :
      let d = t.sdrad_d_info t.active_domain in
      Returns
        (λ result v.
          (result ≡ udi)
          × (v.sgm.stm_ptr sti ≡ some (record t { active_domain = d.sdi_parent_domain }))
          × (v.tlsf_structure ≡ (t.sdrad_d_info d.sdi_parent_domain).sdi_tlsf)
          × (v.sgm.udi_control_head ≡ (unlink t.active_domain w.sgm.udi_control_head).0)
          × (v.sgm.sgm_head ≡ discarded_node ∷ w.sgm.sgm_head)
          × ((v.frames d.sdi_base_address).return_address ≡ d.sdi_return_address)
          × ((v.frames d.sdi_base_address).udi ≡ t.pkru_config d.sdi_parent_domain)
          × (v.sgm.status ≡ update w.sgm.status t.active_domain domain_nonoccupied)
          × (v.sgm.pdi ≡ update w.sgm.pdi t.active_domain (pos 0))
          × (v.sgm.sgm_udi_to_sdi ≡ update w.sgm.sgm_udi_to_sdi t.active_domain 0)
          × (v.pkru ≡ pkru_all_unset))
        (sdrad_init_destroy p b udi w)
  unfolding sdrad_init_destroy sdrad_destroy_domain sdrad_insert_cache_domain sdrad_malloc_mdd
      sdrad_delete_control_structure free first_use discarded_node
  init_destroy_discards = ground arith

  -- The stub then opens the parent's rights, and returns to where the initialisation was called.
  pub init_rewound_lem :
      let d = t.sdrad_d_info t.active_domain in
      Returns
        (λ r v.
          (r.1 ≡ d.sdi_return_address)
          × (v.pkru ≡ t.pkru_config d.sdi_parent_domain)
          × (v.sgm.stm_ptr sti ≡ some (record t { active_domain = d.sdi_parent_domain }))
          × (v.tlsf_structure ≡ (t.sdrad_d_info d.sdi_parent_domain).sdi_tlsf)
          × (v.sgm.udi_control_head ≡ (unlink t.active_domain w.sgm.udi_control_head).0)
          × (v.sgm.status ≡ update w.sgm.status t.active_domain domain_nonoccupied)
          × (v.sgm.pdi ≡ update w.sgm.pdi t.active_domain (pos 0)))
        (sdrad_init_rewound p b d.sdi_base_address udi w)
  unfolding sdrad_init_rewound
  init_rewound_lem =
      Returns-and_then _ _ (sdrad_init_destroy p b udi w) _ init_destroy_discards
        λ result v post. ground (arith, post)
