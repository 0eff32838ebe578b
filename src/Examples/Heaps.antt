-- ===== src/Examples/Heaps.antt =====
-- A process of two threads, with indices 0 and 1; the one with index 0 has made domain 2, and the other
-- one runs.
use secure_rewind_and_discar.Base.{ℕ, ◌≡◌, refl, some, none, true, false, update, arith}
use secure_rewind_and_discar.State.{DomainInfo, Thread}
use secure_rewind_and_discar.Platform.{Build}
use secure_rewind_and_discar.Machine.{World}
use secure_rewind_and_discar.Machine.Returns.{Returns}
use secure_rewind_and_discar.Running.{info_of}
use secure_rewind_and_discar.Slots.{sdrad_get_sti, sdrad_get_sti_from_tid, find_tid}
use secure_rewind_and_discar.Control.{sdrad_search_udi_control}
use secure_rewind_and_discar.UdiHeap.{sdrad_malloc}
use secure_rewind_and_discar.UdiHeap.Borrow.{Borrowing, made_heap, malloc_shares}
use secure_rewind_and_discar.Examples.{
  small_platform, root_thread, domain_info, ready_thread, ready_manager, ready,
}

abbrev threaded : Build
threaded = record { multithread = true; pkey_enable = true; zero_domain = false }

abbrev process : Thread → World ℕ
process maker = record ready {
  sgm = record ready_manager {
    stm_ptr = update (update (λ i. none) 1 (some root_thread)) 0 (some maker);
    sgm_thread_id = update ready_manager.sgm_thread_id 0 8;
    sgm_sdi_to_tdi = λ d. 0;
    sgm_total_thread = 2;
  };
}

process-Borrowing :
    (maker : Thread) → Borrowing small_platform threaded (process maker) 1 7 2 0 root_thread maker
unfolding sdrad_get_sti sdrad_get_sti_from_tid find_tid sdrad_search_udi_control
process-Borrowing maker = record {
  run = record { located = refl; present = refl; in_range = omega arith };
  mapped = refl;
  inside = omega arith;
  made = refl;
  other = λ e. omega arith;
  present = refl;
  lacks = refl;
}

malloc_shares_example :
    Returns
      (λ ptr v.
        (ptr ≡ 0x2000)
        × (v.os ≡ 1)
        × (v.pkru ≡ 0x55555544)
        × (info_of v 0 2 ≡ some domain_info)
        × (info_of v 1 2 ≡ some domain_info))
      (sdrad_malloc small_platform threaded 7 64 (process ready_thread))
unfolding made_heap
malloc_shares_example =
    malloc_shares small_platform threaded (process ready_thread) 1 7 2 0 root_thread ready_thread
      (process-Borrowing ready_thread) 64

-- The maker has not used the heap yet.
abbrev heapless : DomainInfo
heapless = record domain_info { sdi_tlsf = 0; sdi_init_heap_flag = false }

abbrev heapless_thread : Thread
heapless_thread = record root_thread { sdrad_d_info = update root_thread.sdrad_d_info 2 heapless }

abbrev marked : DomainInfo
marked = record heapless { sdi_init_heap_flag = true }
