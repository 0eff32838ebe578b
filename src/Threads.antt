-- ===== src/Threads.antt =====
-- Threads (src/sdrad_thread.c): the wrappers of `pthread_create` and `pthread_join`, and the routine
-- that a new thread runs first. The build flag SDRAD_STRONG_MULTITHREAD is off, as in src/Makefile.
pub mod Created
pub mod Handshake
use secure_rewind_and_discar.Base.{
  ℕ, ◌+◌, ◌-◌, ◌%◌, ◌^◌, Bool, true, false, Option, some, none, ◌==◌, if◌then◌else◌, update,
}
use secure_rewind_and_discar.Base.Int.{ℤ, pos, negsuc}
use secure_rewind_and_discar.Codes.{page_size, root_domain, domain_nonoccupied, thread_nonoccupied}
use secure_rewind_and_discar.State.{DomainInfo, Thread, Manager}
use secure_rewind_and_discar.Platform.{Build, Platform}
use secure_rewind_and_discar.Pkey.{pkru_all_unset}
use secure_rewind_and_discar.Slots.{sdrad_find_free_thread_id, sdrad_get_sti_from_tid}
use secure_rewind_and_discar.Alloc.{current, sdrad_malloc_mdd}
use secure_rewind_and_discar.Domain.{sdrad_request_sdi}
use secure_rewind_and_discar.Machine.{
  World, Cmd, and_then, pure, fail, ◌>>=◌, ◌>>◌, get, get_sgm, modify, modify_sgm, call, call_void,
  deref, as_index, in_bounds, sdrad_store_pkru_config, thread, put_thread,
}

module _ {S : Type 0} (p : Platform S) (b : Build) where
  -- An index and a record for the running thread. The memory of the record is used as it comes.
  pub enroll : Cmd S ℕ
  enroll = do
    g ← get_sgm
    thread_id ← as_index (some (sdrad_find_free_thread_id g))
    w ← get
    modify_sgm
        (λ g. record g { sgm_thread_id = update g.sgm_thread_id thread_id (p.pthread_self w.os) })
    ptr ← sdrad_malloc_mdd p b p.size_of_thread
    deref ptr
    w ← get
    put_thread thread_id (p.raw_thread ptr w.os)
    modify_sgm (λ g. record g { sgm_total_thread = g.sgm_total_thread + 1 })
    pure thread_id

  -- The thread's stack joins the root domain's memory, and its domain gets the root domain's key and
  -- rights.
  pub share_root : (thread_id active_domain : ℕ) → Cmd S (Unit {0})
  share_root thread_id active_domain = do
    w ← get
    let stack = p.thread_stack w.os
    let address = (stack.0 + page_size) % 2 ^ 64
    let size = (stack.1 + (2 ^ 64 - 8192)) % 2 ^ 64
    g ← get_sgm
    call_void (p.pkey_mprotect address size (g.pdi root_domain))
    in_bounds active_domain
    modify_sgm (λ g. record g { pdi = update g.pdi active_domain (g.pdi root_domain) })
    root ← thread root_domain
    t ← thread thread_id
    let d = record (t.sdrad_d_info active_domain) {
      sdi_address_stack = address;
      sdi_size_of_stack = size;
    }
    let rights = root.pkru_config root_domain
    put_thread thread_id (record t {
      sdrad_d_info = update t.sdrad_d_info active_domain d;
      pkru_config = update t.pkru_config active_domain rights;
    })
    modify (λ w. record w { tlsf_structure = d.sdi_tlsf })
    sdrad_store_pkru_config rights

  -- The result is the routine that is called in the end, and its argument.
  unfoldable pub sdrad_pthread_construstor : Cmd S (ℕ × ℕ)
  sdrad_pthread_construstor = do
    sdrad_store_pkru_config pkru_all_unset
    thread_id ← enroll
    active_domain ← sdrad_request_sdi p b
    t ← thread thread_id
    put_thread thread_id (record t { active_domain = active_domain })
    g ← get_sgm
    modify_sgm (λ g. record g { sdrad_pthread_constructor_done = 1 })
    share_root thread_id active_domain
    pure (g.real_start_routine, g.start_arg)

  -- `pthread_create` up to the loop that waits for the new thread.
  unfoldable pub pthread_create : (start_routine arg : ℕ) → Cmd S ℤ
  pthread_create start_routine arg = do
    sdrad_store_pkru_config pkru_all_unset
    modify_sgm (λ g. record g {
      real_start_routine = start_routine;
      start_arg = arg;
      sdrad_pthread_constructor_done = 0;
    })
    ret ← call (p.real_pthread_create arg)
    sdrad_store_pkru_config pkru_all_unset
    pure ret

  -- One round of that loop: whether it is over.
  unfoldable pub pthread_create_wait : Cmd S Bool
  pthread_create_wait = do
    g ← get_sgm
    if g.sdrad_pthread_constructor_done == 0
        then pure false
        else (do modify_sgm (λ g. record g { sdrad_pthread_constructor_done = 0 }); pure true)

  -- The thread's index and the slot of its active domain become free; `sgm_total_thread` stays.
  unfoldable pub pthread_join : (tid : ℕ) → Cmd S ℤ
  pthread_join tid = do
    sdrad_store_pkru_config pkru_all_unset
    ret ← call (p.real_pthread_join tid)
    g ← get_sgm
    thread_index ← as_index (sdrad_get_sti_from_tid g tid)
    t ← thread thread_index
    in_bounds t.active_domain
    modify_sgm (λ g. record g {
      status = update g.status t.active_domain domain_nonoccupied;
      sgm_thread_id = update g.sgm_thread_id thread_index thread_nonoccupied;
    })
    pure ret
