-- ===== src/Alloc.antt =====
-- The C allocation functions that the library replaces (src/sdrad_heap_mng.c). They work on the
-- allocator of the running domain, `tlsf_structure`, and make its heap at the first call.
pub mod FirstUse
use secure_rewind_and_discar.Base.{
  ℕ, ◌+◌, ◌*◌, ◌%◌, ◌^◌, Bool, true, false, ◌||◌, Option, some, get_or, ◌==◌, if◌then◌else◌, update,
}
use secure_rewind_and_discar.Base.Int.{ℤ, pos, negsuc}
use secure_rewind_and_discar.Codes.{root_domain, monitor_data}
use secure_rewind_and_discar.State.{DomainInfo, Thread, Manager}
use secure_rewind_and_discar.Platform.{Build, Platform, sdrad_heap_size}
use secure_rewind_and_discar.Pkey.{pkru_all_unset}
use secure_rewind_and_discar.Slots.{sdrad_get_sti}
use secure_rewind_and_discar.Pools.{sdrad_heap_domain_init}
use secure_rewind_and_discar.Machine.{
  as_index, World, Run, fault, Cmd, pure, fail, and_then, ◌>>=◌, ◌>>◌, get, get_sgm, modify,
  modify_sgm, call, deref, call_void, sdrad_store_pkru_config, in_bounds, thread, put_thread,
}

-- `nelem * elsize` on `size_t`, which wraps.
unfoldable pub product : (nelem elsize : ℕ) → ℕ
product nelem elsize = if (nelem == 0) || (elsize == 0) then 1 else nelem * elsize % 2 ^ 64

module _ {S : Type 0} (p : Platform S) (b : Build) where
  -- The index of the running thread.
  abbrev pub current : Cmd S ℕ
  current w = as_index (sdrad_get_sti b.multithread w.sgm (p.pthread_self w.os)) w

  unfoldable pub sdrad_malloc_mdd : (size : ℕ) → Cmd S ℕ
  sdrad_malloc_mdd size = do g ← get_sgm; call (p.tlsf_malloc g.sdrad_monitor_domain.smd_tlsf size)

  -- `sdrad_heap_domain_init(&stm_ptr->sdrad_d_info[d], sgm_ptr->pdi[d])`
  unfoldable pub heap_init_at : (sti d : ℕ) → Cmd S (Unit {0})
  heap_init_at sti d = do
    in_bounds d
    t ← thread sti
    g ← get_sgm
    info ← call (sdrad_heap_domain_init p (t.sdrad_d_info d) (g.pdi d))
    put_thread sti (record t { sdrad_d_info = update t.sdrad_d_info d info })

  -- The block that `malloc`, `realloc`, `free` and `posix_memalign` begin with, behind the test: the
  -- heap of the active domain is made with all rights, and the rights go back to the domain's.
  unfoldable pub make_active_heap : Cmd S (Unit {0})
  make_active_heap = do
    sti ← current
    t ← thread sti
    heap_init_at sti t.active_domain
    t ← thread sti
    modify (λ w. record w { tlsf_structure = (t.sdrad_d_info t.active_domain).sdi_tlsf })
    sdrad_store_pkru_config (t.pkru_config t.active_domain)

  unfoldable pub first_use : Cmd S (Unit {0})
  first_use w =
      let made : Run S (Unit {0}) =
        (sdrad_store_pkru_config pkru_all_unset >> make_active_heap) w in
      if w.tlsf_structure == 0 then made else pure tt w

  unfoldable pub free : (ptr : ℕ) → Cmd S (Unit {0})
  free ptr = do first_use; w ← get; call_void (p.tlsf_free w.tlsf_structure ptr)

  unfoldable pub realloc : (ptr size : ℕ) → Cmd S ℕ
  realloc ptr size = do first_use; w ← get; call (p.tlsf_realloc w.tlsf_structure ptr size)

  -- The result is what is stored through `memptr`; the function itself returns 0.
  unfoldable pub posix_memalign : (alignment size : ℕ) → Cmd S ℕ
  posix_memalign alignment size = do
    first_use
    w ← get
    call (p.tlsf_memalign w.tlsf_structure alignment size)

  -- `sdrad_allocate_pkey` (src/sdrad_pkey.c). The asserts on the results are compiled out.
  abbrev pub sdrad_allocate_pkey : (address size : ℕ) → Cmd S ℤ
  sdrad_allocate_pkey address size = do
    pkey ← call p.pkey_alloc
    call_void (p.pkey_mprotect address size pkey)
    pure pkey

  -- `sdrad_create_monitor_domain` (src/sdrad.c).
  unfoldable pub sdrad_create_monitor_domain : Cmd S ℕ
  sdrad_create_monitor_domain = do
    w ← get
    let size = get_or (p.getenv sdrad_heap_size w.os) 0x100000000
    address ← call (p.mmap size)
    pkey ← sdrad_allocate_pkey address size
    tlsf ← call (p.tlsf_create_with_pool address size)
    modify_sgm (λ g. record g {
      pdi = update g.pdi monitor_data pkey;
      sdrad_monitor_domain = record (g.sdrad_monitor_domain) {
        smd_size_of_data_domain = size;
        smd_address_data_domain = address;
        smd_tlsf = tlsf;
      };
    })
    pure monitor_data

  -- What `malloc` does when it runs before the constructor: the monitor domain and the record of the
  -- root thread. The memory of that record is used as it comes.
  unfoldable pub early_setup : Cmd S (Unit {0})
  early_setup = do
    monitor ← sdrad_create_monitor_domain
    w ← get
    modify_sgm (λ g. record g {
      sdrad_monitor_domain = record (g.sdrad_monitor_domain) { smd_monitor_sdi = monitor };
      sgm_thread_id = update g.sgm_thread_id root_domain (p.pthread_self w.os);
      sgm_sdi_to_tdi = update g.sgm_sdi_to_tdi root_domain root_domain;
      sgm_total_thread = root_domain;
    })
    ptr ← sdrad_malloc_mdd p.size_of_thread
    deref ptr
    w ← get
    put_thread root_domain (record (p.raw_thread ptr w.os) { active_domain = root_domain })
    modify (λ w. record w { sdrad_constructor_flag = true })

  unfoldable pub malloc : (size : ℕ) → Cmd S ℕ
  malloc size w =
      let setup : Cmd S (Unit {0}) = if w.sdrad_constructor_flag then pure tt else early_setup in
      let first : Cmd S (Unit {0}) =
        if w.tlsf_structure == 0
        then (do sdrad_store_pkru_config pkru_all_unset; setup; make_active_heap)
        else pure tt in
      (do first; v ← get; call (p.tlsf_malloc v.tlsf_structure size)) w

  unfoldable pub calloc : (nelem elsize : ℕ) → Cmd S ℕ
  calloc nelem elsize = do
    ptr ← malloc (product nelem elsize)
    if ptr == 0 then pure tt else call_void (p.bzero ptr (product nelem elsize))
    pure ptr

  -- With the terminating zero.
  unfoldable pub strdup : (s : ℕ) → Cmd S ℕ
  strdup s = do
    w ← get
    let len = p.strlen s w.os + 1
    new ← malloc len
    if new == 0 then pure tt else call_void (p.memcpy new s len)
    pure new
