-- ===== src/Destroy.antt =====
-- The end of a domain by a call, and a call in a domain of its own (src/sdrad_api.c).
pub mod Outcome
use secure_rewind_and_discar.Base.{
  ℕ, ◌+◌, ◌-◌, Bool, true, false, not, List, [], ◌∷◌, ◌==◌, if◌then◌else◌, update,
}
use secure_rewind_and_discar.Base.Int.{ℤ, pos, negsuc, eqb_ℤ}
use secure_rewind_and_discar.Codes.{
  root_domain, sdrad_successful_returned, sdrad_error_no_pkey, sdrad_error_domain_already_init,
  sdrad_error_wrong_config, sdrad_error_no_domain, sdrad_execution_domain, sdrad_data_domain,
  sdrad_nonisolated_domain, sdrad_return_to_parent, sdrad_heap_merge, sdrad_no_heap_merge, has_flag,
}
use secure_rewind_and_discar.State.{
  InitStack, EeStack, DomainInfo, CacheDomain, UdiControl, Thread, Manager,
}
use secure_rewind_and_discar.Platform.{Build, Platform}
use secure_rewind_and_discar.Pkey.{pkru_all_unset, sdrad_pkru_default_config, sdrad_set_access_pdi}
use secure_rewind_and_discar.Control.{sdrad_search_udi_control}
use secure_rewind_and_discar.Pools.{sdrad_execution_domain_init, sdrad_data_domain_init}
use secure_rewind_and_discar.Alloc.{current}
use secure_rewind_and_discar.UdiHeap.{sdrad_malloc}
use secure_rewind_and_discar.Domain.{
  sdrad_check_init_config, at_head, sdrad_request_sdi, sdrad_insert_control_structure,
  sdrad_insert_cache_domain, sdrad_delete_control_structure,
}
use secure_rewind_and_discar.Machine.{
  World, Cmd, pure, fail, and_then, ◌>>=◌, ◌>>◌, get, get_sgm, modify, modify_sgm, call, call_void,
  deref, as_key, sdrad_store_pkru_config, in_bounds, thread, put_thread,
}

-- The fields that `sdrad_destroy` writes into the new cache node. The flag of a node that gets no heap
-- keeps what the memory held.
unfoldable pub cached_stack : DomainInfo → ℤ → CacheDomain → CacheDomain
cached_stack d pkey c = record c {
  scdi_address_stack = d.sdi_address_stack;
  scdi_size_of_stack = d.sdi_size_of_stack;
  scdi_pkey = pkey;
}

unfoldable pub cached_heap : DomainInfo → CacheDomain → CacheDomain
cached_heap d c = record c {
  scdi_init_heap_domain_flag = true;
  scdi_address_heap = d.sdi_address_of_heap;
  scdi_size_of_heap = d.sdi_size_of_heap;
  scdi_tlsf = d.sdi_tlsf;
}

module _ {S : Type 0} (p : Platform S) (b : Build) where
  unfoldable pub sdrad_deinit : (udi : ℕ) → Cmd S ℤ
  sdrad_deinit udi = do
    sdrad_store_pkru_config pkru_all_unset
    sti ← current p b
    t ← thread sti
    g ← get_sgm
    elim (sdrad_search_udi_control udi g.udi_control_head) [
      | negsuc _ ↦ pure sdrad_error_wrong_config
      | pos sdi ↦ do
        in_bounds sdi
        in_bounds t.active_domain
        put_thread sti (record t {
          sdrad_d_info =
              update t.sdrad_d_info sdi (record (t.sdrad_d_info sdi) { sdi_saved_ex = false });
        })
        sdrad_store_pkru_config (t.pkru_config t.active_domain)
        pure sdrad_successful_returned
    ]

  destroy_at : (sti sdi options : ℕ) → Cmd S ℤ
  unfolding cached_stack cached_heap
  destroy_at sti sdi options = do
    in_bounds sdi
    t ← thread sti
    let d = t.sdrad_d_info sdi
    in_bounds d.sdi_parent_domain
    let parent = t.sdrad_d_info d.sdi_parent_domain
    sdrad_insert_cache_domain p b
    modify_sgm (λ g. record g { sgm_head = at_head (cached_stack d (g.pdi sdi)) g.sgm_head })
    if not d.sdi_init_heap_flag
        then pure tt
        else (if options == sdrad_heap_merge
            then call_void (p.tlsf_merge_pool parent.sdi_tlsf d.sdi_tlsf)
            else modify_sgm (λ g. record g { sgm_head = at_head (cached_heap d) g.sgm_head }))
    modify_sgm (λ g. record g {
      sgm_udi_to_sdi = update g.sgm_udi_to_sdi sdi 0;
      pdi = update g.pdi sdi (pos 0);
    })
    sdrad_delete_control_structure p b sdi
    t ← thread sti
    in_bounds t.active_domain
    sdrad_store_pkru_config (t.pkru_config t.active_domain)
    pure sdrad_successful_returned

  unfoldable pub sdrad_destroy : (udi options : ℕ) → Cmd S ℤ
  unfolding destroy_at
  sdrad_destroy udi options = do
    sdrad_store_pkru_config pkru_all_unset
    sti ← current p b
    t ← thread sti
    g ← get_sgm
    elim (sdrad_search_udi_control udi g.udi_control_head) [
      | negsuc _ ↦ pure sdrad_error_no_domain
      | pos sdi ↦ destroy_at sti sdi options
    ]
