-- ===== src/Rewind.antt =====
-- The way out of a domain after a fault: `sdrad_abnormal_domain_exit` and `sdrad_init_destroy`
-- (src/sdrad.c), with the two places that start it (src/sdrad_signal.c,
-- src/sdrad_error_handling.c) and what the stub of `sdrad_init` does when it comes back
-- (src/sdrad_init.S).
pub mod Discard
pub mod Whole
pub mod Parent
use secure_rewind_and_discar.Base.{
  ℕ, ◌+◌, ◌-◌, Bool, true, false, not, some, List, [], ◌∷◌, ◌==◌, if◌then◌else◌, update,
}
use secure_rewind_and_discar.Base.Int.{ℤ, pos, negsuc, eqb_ℤ}
use secure_rewind_and_discar.Codes.{
  root_domain, domain_nonoccupied, sdrad_successful_returned, sdrad_error_no_pkey,
  sdrad_error_domain_already_init, sdrad_error_wrong_config, sdrad_error_no_domain,
  sdrad_execution_domain, sdrad_data_domain, sdrad_nonisolated_domain, sdrad_return_to_parent,
  sdrad_heap_merge, sdrad_no_heap_merge, has_flag,
}
use secure_rewind_and_discar.State.{
  JmpBuf, InitStack, EeStack, DomainInfo, CacheDomain, UdiControl, Thread, Manager,
}
use secure_rewind_and_discar.Platform.{Build, Platform}
use secure_rewind_and_discar.Pkey.{pkru_all_unset, sdrad_pkru_default_config, sdrad_set_access_pdi}
use secure_rewind_and_discar.Control.{sdrad_search_udi_control}
use secure_rewind_and_discar.Pools.{sdrad_execution_domain_init, sdrad_data_domain_init}
use secure_rewind_and_discar.Alloc.{current}
use secure_rewind_and_discar.UdiHeap.{sdrad_malloc}
use secure_rewind_and_discar.Domain.{
  sdrad_check_init_config, at_head, sdrad_request_sdi, sdrad_insert_control_structure,
  sdrad_insert_cache_domain, sdrad_delete_control_structure, sdrad_destroy_domain,
}
use secure_rewind_and_discar.Machine.{
  World, Cmd, pure, fail, and_then, ◌>>=◌, ◌>>◌, get, get_sgm, modify, modify_sgm, call, call_void,
  deref, as_index, as_key, sdrad_store_pkru_config, in_bounds, thread, put_thread,
}

-- Where the handler goes: the process ends, or `longjmp` goes to what a buffer holds.
pub data Exit : Type 0 where
  aborts : Exit
  jumps : JmpBuf → Exit

module _ {S : Type 0} (p : Platform S) (b : Build) where
  -- SIGSEGV and SIGALRM, when both handlers can be installed: the platform has no other outcome.
  unfoldable pub sdrad_setup_signal_handler : Cmd S (Unit {0})
  sdrad_setup_signal_handler = do call_void (p.sigaction 11); call_void (p.sigaction 14)

  unfoldable pub sdrad_abnormal_domain_exit : Cmd S Exit
  sdrad_abnormal_domain_exit = do
    sdrad_store_pkru_config pkru_all_unset
    sti ← current p b
    t ← thread sti
    in_bounds t.active_domain
    sdrad_setup_signal_handler
    g ← get_sgm
    pure (
        if eqb_ℤ (g.pdi t.active_domain) (g.pdi root_domain)
        then aborts
        else jumps (t.sdrad_d_info t.active_domain).sdi_buffer)

  -- The handler of the two signals, with the stub that opens all rights: SIGSEGV is unblocked, since
  -- the handler is left by `longjmp`.
  unfoldable pub sdrad_signal_handler : Cmd S Exit
  sdrad_signal_handler = do
    sdrad_store_pkru_config pkru_all_unset
    call_void (p.sigprocmask 11)
    sdrad_abnormal_domain_exit

  -- `__wrap___stack_chk_fail`: the stack protector has found an overwritten canary.
  unfoldable pub stack_chk_fail : Cmd S Exit
  stack_chk_fail = sdrad_abnormal_domain_exit

  pub set_active : (sti d : ℕ) → Cmd S (Unit {0})
  set_active sti d = do t ← thread sti; put_thread sti (record t { active_domain = d })

  -- The first choice of the domain to go on in. Under SDRAD_RETURN_TO_PARENT the parent is destroyed,
  -- by the record `d` of the faulting domain.
  unfoldable pub leave : (sti : ℕ) (d : DomainInfo) → Cmd S (Unit {0})
  unfolding set_active
  leave sti d =
      if has_flag d.sdi_options sdrad_return_to_parent
      then (do
        in_bounds d.sdi_parent_domain
        t ← thread sti
        set_active sti (t.sdrad_d_info d.sdi_parent_domain).sdi_parent_domain
        sdrad_destroy_domain p b d d.sdi_parent_domain)
      else set_active sti d.sdi_parent_domain

  -- `sdi` is what the search for `udi` gave before anything was destroyed.
  unfoldable pub unmap : (sdi : ℤ) → Cmd S (Unit {0})
  unmap sdi = do
    i ← as_index (some sdi)
    in_bounds i
    modify_sgm (λ g. record g {
      sgm_udi_to_sdi = update g.sgm_udi_to_sdi i 0;
      pdi = update g.pdi i (pos 0);
    })

  -- The last lines but one: the parent's allocator, and what the stub of `sdrad_init` picks up.
  unfoldable pub hand_over : (sti active : ℕ) → Cmd S (Unit {0})
  unfolding set_active
  hand_over sti active = do
    t ← thread sti
    let d = t.sdrad_d_info active
    let parent = d.sdi_parent_domain
    in_bounds parent
    set_active sti parent
    modify (λ w. record w {
      tlsf_structure = (t.sdrad_d_info parent).sdi_tlsf;
      frames = update w.frames d.sdi_base_address (record (w.frames d.sdi_base_address) {
        return_address = d.sdi_return_address;
        udi = t.pkru_config parent;
      });
    })

  unfoldable pub sdrad_init_destroy : (udi : ℕ) → Cmd S ℕ
  unfolding leave unmap hand_over
  sdrad_init_destroy udi = do
    sdrad_store_pkru_config pkru_all_unset
    sti ← current p b
    g ← get_sgm
    let sdi = sdrad_search_udi_control udi g.udi_control_head
    t ← thread sti
    let active = t.active_domain
    in_bounds active
    leave sti (t.sdrad_d_info active)
    t ← thread sti
    sdrad_destroy_domain p b (t.sdrad_d_info active) active
    modify_sgm (λ g. record g { status = update g.status active domain_nonoccupied })
    hand_over sti active
    unmap sdi
    pure udi

  -- The stub of `sdrad_init` when `longjmp` has come back to it, with its frame at `frame`. It does not load
  -- the argument of the call: `rdi` is what the register holds. The result is what the stub leaves as
  -- its own result, the word that it has popped as the rights, and the address that it returns to.
  unfoldable pub sdrad_init_rewound : (frame rdi : ℕ) → Cmd S (ℕ × ℕ)
  sdrad_init_rewound frame rdi = do
    sdrad_init_destroy rdi
    w ← get
    sdrad_store_pkru_config (w.frames frame).udi
    pure ((w.frames frame).udi, (w.frames frame).return_address)
