-- ===== src/Protect.antt =====
-- `sdrad_dprotect` (src/sdrad_api.c): a domain's rights on another domain's memory. A code of the
-- result is an `int32_t`.
pub mod Outcome
use secure_rewind_and_discar.Base.{
  ℕ, ◌+◌, ◌-◌, Bool, true, false, not, List, [], ◌∷◌, ◌==◌, if◌then◌else◌, update,
}
use secure_rewind_and_discar.Base.Int.{ℤ, pos, negsuc, eqb_ℤ}
use secure_rewind_and_discar.Codes.{
  root_domain, sdrad_successful_returned, sdrad_error_no_pkey, sdrad_error_domain_already_init,
  sdrad_error_wrong_config, sdrad_error_no_domain, sdrad_execution_domain, sdrad_data_domain,
  sdrad_nonisolated_domain, sdrad_return_to_parent, sdrad_heap_merge, sdrad_no_heap_merge, has_flag,
}
use secure_rewind_and_discar.State.{
  InitStack, EeStack, DomainInfo, CacheDomain, UdiControl, Thread, Manager,
}
use secure_rewind_and_discar.Platform.{Build, Platform}
use secure_rewind_and_discar.Pkey.{pkru_all_unset, sdrad_pkru_default_config, sdrad_set_access_pdi}
use secure_rewind_and_discar.Control.{sdrad_search_udi_control}
use secure_rewind_and_discar.Pools.{sdrad_execution_domain_init, sdrad_data_domain_init}
use secure_rewind_and_discar.Alloc.{current}
use secure_rewind_and_discar.UdiHeap.{sdrad_malloc}
use secure_rewind_and_discar.Domain.{
  sdrad_check_init_config, at_head, sdrad_request_sdi, sdrad_insert_control_structure,
  sdrad_insert_cache_domain, sdrad_delete_control_structure,
}
use secure_rewind_and_discar.Machine.{
  World, Cmd, pure, fail, and_then, ◌>>=◌, ◌>>◌, get, get_sgm, modify, modify_sgm, call, call_void,
  deref, as_key, sdrad_store_pkru_config, in_bounds, thread, put_thread,
}

-- The domain of a user index; index 0 is the root domain. It is used as an index only.
unfoldable pub domain_of : (udi : ℕ) → List UdiControl → ℤ
domain_of udi l = if udi == 0 then pos root_domain else sdrad_search_udi_control udi l

module _ {S : Type 0} (p : Platform S) (b : Build) where
  -- The record of a domain: of the thread that made it, unless that thread's index equals the number
  -- of the active domain.
  unfoldable pub maker_info : (t : Thread) (ssdi : ℕ) → Cmd S DomainInfo
  maker_info t ssdi = do
    in_bounds ssdi
    g ← get_sgm
    let parent_thread = g.sgm_sdi_to_tdi ssdi
    if parent_thread == t.active_domain
        then pure (t.sdrad_d_info ssdi)
        else (do maker ← thread parent_thread; pure (maker.sdrad_d_info ssdi))

  unfoldable pub protect : (sdi ssdi access_status : ℕ) → Cmd S ℤ
  protect sdi ssdi access_status = do
    sti ← current p b
    t ← thread sti
    d ← maker_info t ssdi
    g ← get_sgm
    in_bounds d.sdi_parent_domain
    in_bounds t.active_domain
    if not (eqb_ℤ (g.pdi t.active_domain) (g.pdi d.sdi_parent_domain))
        then pure sdrad_error_wrong_config
        else (do
          in_bounds sdi
          key ← as_key (g.pdi ssdi)
          let config =
              update t.pkru_config sdi (sdrad_set_access_pdi (t.pkru_config sdi) key access_status)
          put_thread sti (record t { pkru_config = config })
          sdrad_store_pkru_config
              (if sdi == root_domain then config sdi else config t.active_domain)
          pure sdrad_successful_returned)

  unfoldable pub sdrad_dprotect : (udi source_domain_index access_status : ℕ) → Cmd S ℤ
  sdrad_dprotect udi source_domain_index access_status = do
    sdrad_store_pkru_config pkru_all_unset
    g ← get_sgm
    elim (domain_of udi g.udi_control_head) [
      | negsuc _ ↦ pure sdrad_error_no_domain
      | pos sdi ↦ elim (domain_of source_domain_index g.udi_control_head) [
        | negsuc _ ↦ pure sdrad_error_no_domain
        | pos ssdi ↦ protect sdi ssdi access_status
      ]
    ]
