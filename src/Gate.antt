-- ===== src/Gate.antt =====
-- Entering and leaving a domain: `__sdrad_enter` and `__sdrad_exit` (src/sdrad_api.c), the same for
-- the root domain (src/sdrad.c), and the four assembly stubs that call them.
pub mod RoundTrip
use secure_rewind_and_discar.Base.{
  ℕ, ◌+◌, ◌-◌, Bool, true, false, not, List, [], ◌∷◌, ◌==◌, if◌then◌else◌, update,
}
use secure_rewind_and_discar.Base.Int.{ℤ, pos, negsuc, eqb_ℤ}
use secure_rewind_and_discar.Codes.{
  root_domain, sdrad_successful_returned, sdrad_error_no_pkey, sdrad_error_domain_already_init,
  sdrad_error_wrong_config, sdrad_error_no_domain, sdrad_execution_domain, sdrad_data_domain,
  sdrad_nonisolated_domain, sdrad_return_to_parent, sdrad_heap_merge, sdrad_no_heap_merge, has_flag,
}
use secure_rewind_and_discar.State.{
  InitStack, EeStack, DomainInfo, CacheDomain, UdiControl, Thread, Manager,
}
use secure_rewind_and_discar.Platform.{Build, Platform}
use secure_rewind_and_discar.Pkey.{pkru_all_unset, sdrad_pkru_default_config, sdrad_set_access_pdi}
use secure_rewind_and_discar.Control.{sdrad_search_udi_control}
use secure_rewind_and_discar.Pools.{sdrad_execution_domain_init, sdrad_data_domain_init}
use secure_rewind_and_discar.Alloc.{current}
use secure_rewind_and_discar.UdiHeap.{sdrad_malloc}
use secure_rewind_and_discar.Domain.{
  sdrad_check_init_config, at_head, sdrad_request_sdi, sdrad_insert_control_structure,
  sdrad_insert_cache_domain, sdrad_delete_control_structure,
}
use secure_rewind_and_discar.Machine.{
  World, Cmd, pure, fail, and_then, ◌>>=◌, ◌>>◌, get, get_sgm, modify, modify_sgm, call, call_void,
  deref, as_key, sdrad_store_pkru_config, in_bounds, thread, put_thread,
}

module _ {S : Type 0} (p : Platform S) (b : Build) where
  -- The stack record goes in and comes out with the code.
  enter_at : (sti sdi : ℕ) → EeStack → Cmd S (ℤ × EeStack)
  enter_at sti sdi ss = do
    in_bounds sdi
    t ← thread sti
    let d = t.sdrad_d_info sdi
    if has_flag d.sdi_options sdrad_data_domain
        then pure (sdrad_error_wrong_config, ss)
        else (if not d.sdi_saved_ex then pure (sdrad_error_wrong_config, ss) else (do
          in_bounds d.sdi_parent_domain
          modify (λ w. record w { tlsf_structure = d.sdi_tlsf })
          let parent = t.sdrad_d_info d.sdi_parent_domain
          put_thread sti (record t {
            active_domain = sdi;
            sdrad_d_info =
                update t.sdrad_d_info d.sdi_parent_domain
                  (record parent { sdi_last_rsp = ss.stack_info + 16 });
          })
          pure (
            pos sdi,
            record {
              stack_info = d.sdi_address_stack + d.sdi_size_of_stack;
              pkru_info = t.pkru_config sdi;
            },
          )))

  -- `__sdrad_enter`
  unfoldable pub sdrad_enter_base : (udi : ℕ) → EeStack → Cmd S (ℤ × EeStack)
  unfolding enter_at
  sdrad_enter_base udi ss = do
    sdrad_store_pkru_config pkru_all_unset
    sti ← current p b
    g ← get_sgm
    elim (sdrad_search_udi_control udi g.udi_control_head) [
      | negsuc _ ↦ do thread sti; pure (sdrad_error_no_domain, ss)
      | pos sdi ↦ enter_at sti sdi ss
    ]

  -- `__sdrad_exit`
  unfoldable pub sdrad_exit_base : Cmd S EeStack
  sdrad_exit_base = do
    sdrad_store_pkru_config pkru_all_unset
    sti ← current p b
    t ← thread sti
    in_bounds t.active_domain
    let parent_domain = (t.sdrad_d_info t.active_domain).sdi_parent_domain
    in_bounds parent_domain
    put_thread sti (record t { active_domain = parent_domain })
    modify (λ w. record w { tlsf_structure = (t.sdrad_d_info parent_domain).sdi_tlsf })
    pure (record {
      stack_info = (t.sdrad_d_info parent_domain).sdi_last_rsp;
      pkru_info = t.pkru_config parent_domain;
    })

  -- The stub `sdrad_enter`, called with the stack pointer at the return address. The result is the
  -- code and the stack pointer after the return. After a negative code the stub's `ret` takes the
  -- saved stack pointer for the return address, so it does not return.
  unfoldable pub sdrad_enter : (udi rsp : ℕ) → Cmd S (ℤ × ℕ)
  sdrad_enter udi rsp = do
    (code, ss) ← sdrad_enter_base udi (record { stack_info = rsp - 8; pkru_info = 0 })
    elim code [
      | negsuc _ ↦ fail
      | pos sdi ↦ do sdrad_store_pkru_config ss.pkru_info; pure (pos sdi, ss.stack_info)
    ]

  -- The stub `sdrad_exit`; the result is the stack pointer after the return. The return address is pushed
  -- below the new stack pointer, which cannot be done at 0.
  unfoldable pub sdrad_exit : Cmd S ℕ
  sdrad_exit = do
    ss ← sdrad_exit_base
    sdrad_store_pkru_config ss.pkru_info
    deref ss.stack_info
    pure ss.stack_info

  -- `__sdrad_enter_root`
  unfoldable pub sdrad_enter_root_base : EeStack → Cmd S EeStack
  sdrad_enter_root_base ss = do
    sdrad_store_pkru_config pkru_all_unset
    sti ← current p b
    t ← thread sti
    let d = t.sdrad_d_info root_domain
    put_thread sti (record t {
      sdrad_d_info =
          update t.sdrad_d_info root_domain (record d { sdi_root_rsp = ss.stack_info + 16 });
    })
    pure (record {
      stack_info = d.sdi_address_stack + d.sdi_size_of_stack;
      pkru_info = t.pkru_config root_domain;
    })

  -- `__sdrad_exit_root`
  unfoldable pub sdrad_exit_root_base : Cmd S EeStack
  sdrad_exit_root_base = do
    sdrad_store_pkru_config pkru_all_unset
    sti ← current p b
    t ← thread sti
    pure (record {
      stack_info = (t.sdrad_d_info root_domain).sdi_root_rsp;
      pkru_info = t.pkru_config root_domain;
    })

  unfoldable pub sdrad_enter_root : (rsp : ℕ) → Cmd S ℕ
  sdrad_enter_root rsp = do
    ss ← sdrad_enter_root_base (record { stack_info = rsp - 8; pkru_info = 0 })
    sdrad_store_pkru_config ss.pkru_info
    pure ss.stack_info

  unfoldable pub sdrad_exit_root : Cmd S ℕ
  sdrad_exit_root = do
    ss ← sdrad_exit_root_base
    sdrad_store_pkru_config ss.pkru_info
    deref ss.stack_info
    pure ss.stack_info
