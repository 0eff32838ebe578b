-- ===== src/Examples.antt =====
-- A small platform and a process on it, for the examples: the root thread has index 1, its active
-- domain is the root domain with protection key 2, and the slots from 2 on are free.
pub mod Lifecycle
pub mod Tables
pub mod Rights
pub mod Heaps
pub mod Process
pub mod Reached
pub mod Data
pub mod Mutexes
pub mod Sharing
pub mod Creation
pub mod Races
use secure_rewind_and_discar.Base.{
  ℕ, ◌+◌, ◌-◌, ◌^◌, Bool, true, false, some, none, [], ◌∷◌, ltb, if◌then◌else◌, update,
}
use secure_rewind_and_discar.Base.Int.{ℤ, pos, negsuc}
use secure_rewind_and_discar.State.{
  InitStack, DomainInfo, MonitorDomain, CacheDomain, UdiControl, Thread, Manager,
}
use secure_rewind_and_discar.Platform.{Build, Platform}
use secure_rewind_and_discar.Machine.{World}

abbrev pub blank_cache : CacheDomain
blank_cache = record {
  scdi_tlsf = 0;
  scdi_size_of_stack = 0;
  scdi_size_of_heap = 0;
  scdi_address_stack = 0;
  scdi_address_heap = 0;
  scdi_init_heap_domain_flag = false;
  scdi_pkey = pos 0;
}

abbrev pub blank_info : DomainInfo
blank_info = record {
  sdi_size_of_stack = 0;
  sdi_parent_domain = 1;
  sdi_last_rsp = 0;
  sdi_root_rsp = 0;
  sdi_address_stack = 0;
  sdi_buffer = 0;
  sdi_return_address = 0;
  sdi_base_address = 0;
  sdi_saved_ex = false;
  sdi_tlsf = 0;
  sdi_options = 0;
  sdi_size_of_heap = 0;
  sdi_init_heap_flag = false;
  sdi_address_of_heap = 0;
}

-- The root domain's heap lies at 0x5000.
abbrev pub root_info : DomainInfo
root_info = record blank_info {
  sdi_tlsf = 0x5000;
  sdi_size_of_heap = 0x1000;
  sdi_init_heap_flag = true;
}

abbrev pub root_thread : Thread
root_thread = record {
  active_domain = 1;
  pkru_config = λ d. 0x55555544;
  sdrad_d_info = update (λ d. blank_info) 1 root_info;
}

-- The platform's state counts the calls.
abbrev pub small_platform : Platform ℕ
small_platform = record {
  pkey_alloc = λ s. (pos 3, s + 1);
  pkey_mprotect = λ address size pkey s. s + 1;
  mmap = λ size s. (0x100000 + s, s + 1);
  bzero = λ address size s. s + 1;
  getenv = λ name s. none;
  rlimit_stack = λ s. none;
  pthread_self = λ s. 9;
  memcpy = λ to from size s. s + 1;
  sigaction = λ signum s. s + signum;
  sigprocmask = λ signum s. s + 1;
  tlsf_create_with_pool = λ address size s. (address, s + 1);
  tlsf_add_pool = λ tlsf address size s. s + 1;
  tlsf_merge_pool = λ to from s. s + 1;
  tlsf_malloc = λ tlsf size s. (0x2000 + s, s + 1);
  tlsf_free = λ tlsf ptr s. s + 1;
  tlsf_realloc = λ tlsf ptr size s. (0x3000 + s, s + 1);
  tlsf_memalign = λ tlsf align size s. (0x4000 + s, s + 1);
  strlen = λ s os. 5;
  thread_stack = λ s. (0x40000, 0x10000);
  real_pthread_create = λ arg s. (pos 0, s + 1);
  real_pthread_join = λ thread s. (pos 0, s + 1);
  data_start = 0x200000;
  end_address = 0x202100;
  manager_address = 0x201000;
  manager_size = 0x1000;
  size_of_cache = 56;
  size_of_control = 40;
  size_of_thread = 4096;
  raw_cache = λ ptr s. blank_cache;
  raw_control = λ ptr s. record { node = ptr; udi = 0; sdi = 0 };
  raw_thread = λ ptr s. root_thread;
}

abbrev pub single : Build
single = record { multithread = false; pkey_enable = true; zero_domain = false }

abbrev pub start_manager : Manager
start_manager = record {
  real_start_routine = 0;
  start_arg = 0;
  stm_ptr = update (λ i. none) 1 (some root_thread);
  sgm_head = [];
  sgm_thread_id = update (λ i. 2 ^ 64 - 1) 1 9;
  sgm_total_thread = 1;
  sgm_udi_to_sdi = λ d. 0;
  udi_control_head = [];
  sgm_sdi_to_tdi = λ d. 1;
  status = λ d. if ltb d 2 then 55 else 56;
  pdi = update (update (λ d. pos 0) 0 (pos 1)) 1 (pos 2);
  sdrad_monitor_domain = record {
    smd_tlsf = 0x1000;
    smd_size_of_data_domain = 0x1000;
    smd_address_data_domain = 0x1000;
    smd_monitor_sdi = 0;
  };
  sdrad_pthread_constructor_done = 0;
}

-- The caller's frame asks for an isolated execution domain under the user index 7.
abbrev pub request : InitStack
request = record { buffer = 77; domain_feature = 5; udi = 7; return_address = 4242 }

abbrev pub start : World ℕ
start = record {
  sgm = start_manager;
  pkru = 0x55555544;
  tlsf_structure = 0x5000;
  sdrad_constructor_flag = true;
  frames = λ address. request;
  os = 0;
}

-- The process once domain 2 stands for the user index 7, with protection key 3; the root domain is
-- active, or domain 2 is.
abbrev pub domain_info : DomainInfo
domain_info = record blank_info {
  sdi_size_of_stack = 0x1000;
  sdi_address_stack = 0x9000;
  sdi_saved_ex = true;
  sdi_options = 5;
  sdi_tlsf = 0x6000;
  sdi_buffer = 77;
  sdi_return_address = 4242;
  sdi_size_of_heap = 0x1000;
  sdi_init_heap_flag = true;
}

abbrev pub ready_thread : Thread
ready_thread = record root_thread { sdrad_d_info = update root_thread.sdrad_d_info 2 domain_info }

abbrev pub inside_thread : Thread
inside_thread = record ready_thread { active_domain = 2 }

abbrev pub ready_manager : Manager
ready_manager = record start_manager {
  stm_ptr = update (λ i. none) 1 (some ready_thread);
  udi_control_head = record { node = 0x2000; udi = 7; sdi = 2 } ∷ [];
  status = update start_manager.status 2 55;
  pdi = update start_manager.pdi 2 (pos 3);
}

abbrev pub ready : World ℕ
ready = record start { sgm = ready_manager }

abbrev pub inside : World ℕ
inside = record start {
  sgm = record ready_manager { stm_ptr = update (λ i. none) 1 (some inside_thread) };
  tlsf_structure = 0x6000;
}
