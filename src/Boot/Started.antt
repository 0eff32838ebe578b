-- ===== src/Boot/Started.antt =====
-- The process when `main` begins.
use secure_rewind_and_discar.Base.{
  ℕ, ◌+◌, ◌-◌, ◌<◌, ◌≡◌, ◌≢◌, true, some, arith, ◌==◌, leb, ltb, get_or, if◌then◌else◌, update,
}
use secure_rewind_and_discar.Base.Int.{ℤ, pos}
use secure_rewind_and_discar.Codes.{
  total_domain, root_domain, monitor_data, domain_occupied, domain_nonoccupied, thread_nonoccupied,
  num_of_threads,
}
use secure_rewind_and_discar.State.{MonitorDomain, Thread}
use secure_rewind_and_discar.Platform.{Build, Platform, sdrad_heap_size}
use secure_rewind_and_discar.Pkey.{sdrad_pkru_default_config}
use secure_rewind_and_discar.Pools.{sdrad_get_config}
use secure_rewind_and_discar.Alloc.{sdrad_create_monitor_domain, sdrad_malloc_mdd}
use secure_rewind_and_discar.Machine.{World, done}
use secure_rewind_and_discar.Machine.Returns.{Returns}
use secure_rewind_and_discar.Rewind.{sdrad_setup_signal_handler}
use secure_rewind_and_discar.Running.{config_of, active_of}
use secure_rewind_and_discar.Boot.{
  sdrad_constructor, boot_tables, boot_thread, boot_keys, free_tables, do_page_aligned,
}

module _ {S : Type 0} (p : Platform S) (b : Build) (w : World S) where
  -- The platform after the monitor domain is made, and what was made.
  unfoldable pub monitor : MonitorDomain × ℤ × S
  monitor =
      let size = get_or (p.getenv sdrad_heap_size w.os) 0x100000000 in
      let at = p.mmap size w.os in
      let key = p.pkey_alloc at.1 in
      let heap = p.tlsf_create_with_pool at.0 size (p.pkey_mprotect at.0 size key.0 key.1) in
      (
        record {
          smd_tlsf = heap.0;
          smd_size_of_data_domain = size;
          smd_address_data_domain = at.0;
          smd_monitor_sdi = monitor_data;
        },
        key.0,
        heap.1,
      )

  unfoldable pub tabled : World S
  unfolding monitor free_tables
  tabled = record w {
    sdrad_constructor_flag = true;
    os = monitor.2;
    sgm = record (free_tables w.sgm) {
      pdi = update w.sgm.pdi monitor_data monitor.1;
      sdrad_monitor_domain = monitor.0;
      sgm_thread_id =
          update (free_tables w.sgm).sgm_thread_id root_domain (p.pthread_self monitor.2);
      sgm_sdi_to_tdi = update w.sgm.sgm_sdi_to_tdi root_domain root_domain;
      sgm_total_thread = root_domain;
    };
  }

  tabled_lem : boot_tables p b w ≡ done tt tabled
  unfolding boot_tables sdrad_create_monitor_domain tabled
  tabled_lem = ground arith

  module _ (key : ℕ) (memory : (p.tlsf_malloc monitor.0.smd_tlsf p.size_of_thread monitor.2).0 ≢ 0)
      (chosen : (p.pkey_alloc (
          p.sigaction 14
            (p.sigaction 11 (p.tlsf_malloc monitor.0.smd_tlsf p.size_of_thread monitor.2).1))).0
        ≡ pos key)
      (is_key : key < 16) where
    unfoldable pub root_thread : Thread
    root_thread =
        let node = p.tlsf_malloc monitor.0.smd_tlsf p.size_of_thread monitor.2 in
        let t = p.raw_thread node.0 node.1 in
        record t {
          active_domain = root_domain;
          sdrad_d_info = update t.sdrad_d_info root_domain (
              sdrad_get_config p
                (record (t.sdrad_d_info root_domain) { sdi_parent_domain = root_domain }) node.1);
        }

    unfoldable pub threaded : World S
    unfolding tabled root_thread
    threaded = record tabled {
      os = (p.tlsf_malloc monitor.0.smd_tlsf p.size_of_thread monitor.2).1;
      sgm = record (tabled.sgm) {
        sgm_total_thread = 2;
        status =
            update (update tabled.sgm.status root_domain domain_occupied) monitor_data
              domain_occupied;
        stm_ptr = update w.sgm.stm_ptr root_domain (some root_thread);
      };
    }

    threaded_lem : boot_thread p b tabled ≡ done tt threaded
    unfolding boot_thread sdrad_malloc_mdd threaded monitor
    threaded_lem = ground arith

    unfoldable pub handled : World S
    unfolding threaded
    handled = record threaded { os = p.sigaction 14 (p.sigaction 11 threaded.os) }

    -- The stack that is mapped for the root domain, and the platform in the end.
    unfoldable pub stack : ℕ × ℕ × S
    unfolding handled
    stack =
        let allocated = p.pkey_alloc handled.os in
        let opened =
          p.pkey_mprotect p.data_start (do_page_aligned p.end_address + 4096 - p.data_start)
            (pos key) allocated.1 in
        let guarded = p.pkey_mprotect p.manager_address p.manager_size monitor.1 opened in
        let size = get_or (p.rlimit_stack guarded) 0 in
        let mapped = p.mmap size guarded in
        (mapped.0, size, p.pkey_mprotect mapped.0 size (pos key) mapped.1)

    unfoldable pub booted_thread : Thread
    unfolding stack root_thread
    booted_thread = record root_thread {
      sdrad_d_info =
          update root_thread.sdrad_d_info root_domain
            (record (root_thread.sdrad_d_info root_domain) {
              sdi_size_of_stack = stack.1;
              sdi_address_stack = stack.0;
            });
      pkru_config = update root_thread.pkru_config root_domain (sdrad_pkru_default_config key);
    }

    unfoldable pub booted : World S
    unfolding booted_thread stack handled
    booted = record handled {
      pkru = sdrad_pkru_default_config key;
      os = stack.2;
      sgm = record (handled.sgm) {
        pdi = update handled.sgm.pdi root_domain (pos key);
        stm_ptr = update handled.sgm.stm_ptr root_domain (some booted_thread);
      };
    }

    keys_lem : boot_keys p b handled ≡ done tt booted
    unfolding boot_keys booted
    keys_lem = ground arith

    pub constructor_lem : sdrad_constructor p b w ≡ done tt booted
    unfolding sdrad_constructor sdrad_setup_signal_handler handled
    constructor_lem = ground (arith, tabled_lem, threaded_lem, keys_lem)

    -- With a key for the root domain and memory for the first thread's record, the constructor returns.
    -- Then the slots of the monitor and the root domain are taken and every other slot and thread
    -- index is free; the root thread, of index 1, is in the root domain; and the register holds that
    -- domain's rights, which are the default ones of its key.
    pub constructor_starts :
        Returns
          (λ _ v.
            (active_of v root_domain ≡ some root_domain)
            × (config_of v root_domain root_domain ≡ some v.pkru)
            × (v.pkru ≡ sdrad_pkru_default_config key)
            × (v.sgm.pdi root_domain ≡ pos key)
            × (v.sgm.sgm_total_thread ≡ 2)
            × (v.sgm.sgm_sdi_to_tdi root_domain ≡ root_domain)
            × ((d : ℕ)
                → v.sgm.status d ≡ (
                    if leb d root_domain
                    then domain_occupied
                    else (if ltb d total_domain then domain_nonoccupied else w.sgm.status d)))
            × ((i : ℕ)
                → v.sgm.sgm_thread_id i ≡ (
                    if i == root_domain
                    then p.pthread_self monitor.2
                    else (if ltb root_domain i
                        then (if ltb i num_of_threads
                            then thread_nonoccupied
                            else w.sgm.sgm_thread_id i)
                        else w.sgm.sgm_thread_id i))))
          (sdrad_constructor p b w)
    unfolding booted free_tables
    constructor_starts = rw constructor_lem (ground arith)
