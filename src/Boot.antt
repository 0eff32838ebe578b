-- ===== src/Boot.antt =====
-- The start of a process: `sdrad_constructor` (src/sdrad.c), which runs before `main`.
pub mod Started
use secure_rewind_and_discar.Base.{
  ℕ, ◌+◌, ◌-◌, ◌*◌, ◌%◌, Bool, true, false, ◌&&◌, Option, some, none, get_or, leb, ltb,
  if◌then◌else◌, update,
}
use secure_rewind_and_discar.Base.Int.{ℤ, pos, negsuc}
use secure_rewind_and_discar.Codes.{
  page_size, monitor_data, root_domain, domain_2, total_domain, num_of_threads, domain_occupied,
  domain_nonoccupied, thread_nonoccupied,
}
use secure_rewind_and_discar.State.{DomainInfo, MonitorDomain, Thread, Manager}
use secure_rewind_and_discar.Platform.{Build, Platform}
use secure_rewind_and_discar.Pkey.{sdrad_pkru_default_config}
use secure_rewind_and_discar.Pools.{sdrad_get_config}
use secure_rewind_and_discar.Alloc.{sdrad_create_monitor_domain, sdrad_malloc_mdd}
use secure_rewind_and_discar.Rewind.{sdrad_setup_signal_handler}
use secure_rewind_and_discar.Machine.{
  World, Cmd, and_then, pure, fail, ◌>>=◌, ◌>>◌, get, get_sgm, modify, modify_sgm, call, call_void,
  deref, as_key, in_bounds, sdrad_store_pkru_config, thread, put_thread,
}

-- `rsp & ~(PAGE_SIZE - 1)`
unfoldable pub do_page_aligned : (rsp : ℕ) → ℕ
do_page_aligned rsp = rsp - rsp % page_size

-- The next page; it is not called.
do_up_page_aligned : (rsp : ℕ) → ℕ
do_up_page_aligned rsp = rsp - rsp % page_size + 4096

-- The two loops over the tables.
unfoldable pub free_tables : Manager → Manager
free_tables g = record g {
  status = λ d. if leb domain_2 d && ltb d total_domain then domain_nonoccupied else g.status d;
  sgm_thread_id =
      λ i. if leb domain_2 i && ltb i num_of_threads then thread_nonoccupied else g.sgm_thread_id i;
}

module _ {S : Type 0} (p : Platform S) (b : Build) where
  get_default_stack_size : S → ℕ
  get_default_stack_size os = get_or (p.rlimit_stack os) 0

  -- The same limit with another default; it is not called.
  sdrad_get_default_stack_size : S → ℕ
  sdrad_get_default_stack_size os = get_or (p.rlimit_stack os) (1024 * page_size)

  -- The monitor domain, and the root thread's entries in the tables.
  pub boot_tables : Cmd S (Unit {0})
  unfolding free_tables
  boot_tables = do
    modify (λ w. record w { sdrad_constructor_flag = true })
    modify_sgm free_tables
    monitor ← sdrad_create_monitor_domain p b
    w ← get
    modify_sgm (λ g. record g {
      sdrad_monitor_domain = record (g.sdrad_monitor_domain) { smd_monitor_sdi = monitor };
      sgm_thread_id = update g.sgm_thread_id root_domain (p.pthread_self w.os);
      sgm_sdi_to_tdi = update g.sgm_sdi_to_tdi root_domain root_domain;
      sgm_total_thread = root_domain;
    })

  -- The root thread's record. The memory for it is used as it comes, but for the fields written here.
  pub boot_thread : Cmd S (Unit {0})
  boot_thread = do
    ptr ← sdrad_malloc_mdd p b p.size_of_thread
    deref ptr
    w ← get
    let t = p.raw_thread ptr w.os
    let d = record (t.sdrad_d_info root_domain) { sdi_parent_domain = root_domain }
    modify_sgm (λ g. record g {
      sgm_total_thread = g.sgm_total_thread + 1;
      status = update (update g.status root_domain domain_occupied) monitor_data domain_occupied;
    })
    w ← get
    put_thread root_domain (record t {
      active_domain = root_domain;
      sdrad_d_info = update t.sdrad_d_info root_domain (sdrad_get_config p d w.os);
    })

  -- The keys of the root domain: of the data segments, of the manager, and of a stack.
  pub boot_keys : Cmd S (Unit {0})
  unfolding get_default_stack_size
  boot_keys = do
    pkey ← call p.pkey_alloc
    modify_sgm (λ g. record g { pdi = update g.pdi root_domain pkey })
    let bss_end_pa = do_page_aligned p.end_address + 4096
    call_void (p.pkey_mprotect p.data_start (bss_end_pa - p.data_start) pkey)
    g ← get_sgm
    in_bounds g.sdrad_monitor_domain.smd_monitor_sdi
    call_void (
        p.pkey_mprotect p.manager_address p.manager_size
          (g.pdi g.sdrad_monitor_domain.smd_monitor_sdi))
    w ← get
    let size = get_default_stack_size w.os
    address ← call (p.mmap size)
    call_void (p.pkey_mprotect address size pkey)
    key ← as_key pkey
    t ← thread root_domain
    let config = sdrad_pkru_default_config key
    put_thread root_domain (record t {
      sdrad_d_info = update t.sdrad_d_info root_domain (record (t.sdrad_d_info root_domain) {
        sdi_size_of_stack = size;
        sdi_address_stack = address;
      });
      pkru_config = update t.pkru_config root_domain config;
    })
    sdrad_store_pkru_config config

  unfoldable pub sdrad_constructor : Cmd S (Unit {0})
  unfolding boot_tables boot_thread boot_keys
  sdrad_constructor = do boot_tables; boot_thread; sdrad_setup_signal_handler p b; boot_keys
