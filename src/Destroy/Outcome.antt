-- ===== src/Destroy/Outcome.antt =====
-- What `sdrad_deinit` and `sdrad_destroy` leave.
use secure_rewind_and_discar.Base.{
  ℕ, ◌<◌, ◌≡◌, ◌≢◌, refl, ◌⊎◌, false, none, some, ◌∷◌, arith, ◌==◌, if◌then◌else◌, update, not,
}
use secure_rewind_and_discar.Base.Int.{pos, negsuc}
use secure_rewind_and_discar.Codes.{
  total_domain, sdrad_successful_returned, sdrad_error_wrong_config, sdrad_error_no_domain,
  sdrad_heap_merge,
}
use secure_rewind_and_discar.State.{Thread, CacheDomain, EeStack}
use secure_rewind_and_discar.Platform.{Build, Platform}
use secure_rewind_and_discar.Control.{sdrad_search_udi_control, unlink}
use secure_rewind_and_discar.Alloc.{sdrad_malloc_mdd, free, first_use}
use secure_rewind_and_discar.Domain.{sdrad_insert_cache_domain, sdrad_delete_control_structure}
use secure_rewind_and_discar.Slots.{sdrad_get_sti, sdrad_get_sti_from_tid}
use secure_rewind_and_discar.Machine.{World, done, ◌>>◌}
use secure_rewind_and_discar.Machine.Returns.{Returns, Returns-mono}
use secure_rewind_and_discar.Running.{Running, active_of}
use secure_rewind_and_discar.Gate.{sdrad_enter_base}
use secure_rewind_and_discar.Destroy.{sdrad_deinit, sdrad_destroy, cached_stack, cached_heap}

module _ {S : Type 0} (p : Platform S) (b : Build) (w : World S) (sti udi : ℕ) (t : Thread)
    (run : Running p b w sti t) where
  -- Deinitialising a user index that stands for no domain, destroying it, or entering it is refused,
  -- each with its code; nothing has changed but the register, which is left with all rights.
  pub unmapped_refused :
      (n options : ℕ) (ss : EeStack)
      → sdrad_search_udi_control udi w.sgm.udi_control_head ≡ negsuc n
      → (sdrad_deinit p b udi w ≡ done sdrad_error_wrong_config (record w { pkru = 0 }))
        × (sdrad_destroy p b udi options w ≡ done sdrad_error_no_domain (record w { pkru = 0 }))
        × (sdrad_enter_base p b udi ss w ≡ done (sdrad_error_no_domain, ss) (record w { pkru = 0 }))
  unfolding sdrad_deinit sdrad_destroy sdrad_enter_base
  unmapped_refused n options ss h = ground arith

  module _ (sdi : ℕ) (mapped : sdrad_search_udi_control udi w.sgm.udi_control_head ≡ pos sdi)
      (inside : sdi < total_domain) where
    without_context : Thread
    without_context = record t {
      sdrad_d_info =
          update t.sdrad_d_info sdi (record (t.sdrad_d_info sdi) { sdi_saved_ex = false });
    }

    abbrev deinitialised : World S
    deinitialised = record w {
      pkru = t.pkru_config t.active_domain;
      sgm = record (w.sgm) { stm_ptr = update w.sgm.stm_ptr sti (some without_context) };
    }

    deinit_lem : sdrad_deinit p b udi w ≡ done sdrad_successful_returned deinitialised
    unfolding sdrad_deinit without_context
    deinit_lem = ground arith

    refused_lem :
        (ss : EeStack)
        → Returns
            (λ entry v.
              (entry.0 ≡ sdrad_error_wrong_config) × (v ≡ record deinitialised { pkru = 0 }))
            (sdrad_enter_base p b udi ss deinitialised)
    unfolding sdrad_enter_base without_context sdrad_get_sti sdrad_get_sti_from_tid
    refused_lem ss = ground arith

    -- Deinitialising a mapped domain and then entering it ends with the code for a wrong configuration:
    -- the thread's active domain is what it was, and so are the lists, slots and keys.
    pub deinit-enter_refused :
        (ss : EeStack)
        → Returns
            (λ entry v.
              (entry.0 ≡ sdrad_error_wrong_config)
              × (active_of v sti ≡ some t.active_domain)
              × (v.sgm ≡ record (w.sgm) { stm_ptr = v.sgm.stm_ptr }))
            ((do sdrad_deinit p b udi; sdrad_enter_base p b udi ss) w)
    unfolding without_context
    deinit-enter_refused ss = rw deinit_lem (
        Returns-mono _ _ (sdrad_enter_base p b udi ss deinitialised) (refused_lem ss)
          λ entry v (code, is). (code, rw is (ground arith), rw is refl))

-- What destroying the domain `sdi` of a user index needs.
pub record Destroyable {S : Type 0} (p : Platform S) (w : World S) (t : Thread) (udi sdi : ℕ)
    : Type 0 where
  pub mapped : sdrad_search_udi_control udi w.sgm.udi_control_head ≡ pos sdi
  pub inside : sdi < total_domain
  pub parent_inside : (t.sdrad_d_info sdi).sdi_parent_domain < total_domain
  pub memory : (p.tlsf_malloc w.sgm.sdrad_monitor_domain.smd_tlsf p.size_of_cache w.os).0 ≢ 0
  pub allocator : ((unlink sdi w.sgm.udi_control_head).1 ≡ none) ⊎ (w.tlsf_structure ≢ 0)

module _ {S : Type 0} (p : Platform S) (b : Build) (w : World S) (sti udi sdi options : ℕ)
    (t : Thread) (run : Running p b w sti t) (able : Destroyable p w t udi sdi) where
  -- The node that keeps the memory: its stack and key, and its heap unless there is none or it is merged.
  unfoldable pub destroyed_node : CacheDomain
  destroyed_node =
      let node = p.tlsf_malloc w.sgm.sdrad_monitor_domain.smd_tlsf p.size_of_cache w.os in
      let d = t.sdrad_d_info sdi in
      let c = cached_stack d (w.sgm.pdi sdi) (p.raw_cache node.0 node.1) in
      if not d.sdi_init_heap_flag
      then c
      else (if options == sdrad_heap_merge then c else cached_heap d c)

  -- `sdrad_destroy` is called with a user index that has a domain whose parent is one of the domains,
  -- with memory for the cache node in the monitor's heap, and with an allocator if a list node is to be
  -- freed. Then it succeeds. The domain's list node is unlinked, and a node with its stack and key goes
  -- to the front of the cache, with its heap too if the domain has one and the option is not
  -- SDRAD_HEAP_MERGE; the thread goes on in the active domain with that domain's rights. The slot's
  -- status is not reset: it stays what it was.
  pub destroy_unmaps :
      Returns
        (λ code v.
          (code ≡ sdrad_successful_returned)
          × (v.sgm.udi_control_head ≡ (unlink sdi w.sgm.udi_control_head).0)
          × (v.sgm.sgm_head ≡ destroyed_node ∷ w.sgm.sgm_head)
          × (v.sgm.pdi ≡ update w.sgm.pdi sdi (pos 0))
          × (v.sgm.status ≡ w.sgm.status)
          × (v.sgm.stm_ptr ≡ w.sgm.stm_ptr)
          × (v.pkru ≡ t.pkru_config t.active_domain))
        (sdrad_destroy p b udi options w)
  unfolding sdrad_destroy sdrad_insert_cache_domain sdrad_malloc_mdd sdrad_delete_control_structure
      free first_use destroyed_node
  destroy_unmaps = ground arith
