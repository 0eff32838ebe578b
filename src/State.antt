-- ===== src/State.antt =====
-- The data structures of src/sdrad.h. A pointer or a size is the number of its 64 bits, an array is a
-- function of the index, and a linked list is the list of its nodes, whose addresses are kept.
use secure_rewind_and_discar.Base.{ℕ, Bool, List, Option}
use secure_rewind_and_discar.Base.Int.{ℤ}

-- A `tlsf_t`; 0 is NULL.
abbrev pub Tlsf : Type 0
Tlsf = ℕ

-- The contents of a `jmp_buf`, which only `setjmp` and `longjmp` look into.
abbrev pub JmpBuf : Type 0
JmpBuf = ℕ

-- `sdrad_init_stack_t`: what the stub of `sdrad_init` leaves on the caller's stack.
pub record InitStack : Type 0 where
  pub buffer : JmpBuf
  pub domain_feature : ℕ
  pub udi : ℕ
  pub return_address : ℕ

-- `sdrad_ee_stack_t`: what the stubs of `sdrad_enter` and `sdrad_exit` exchange with the C code.
pub record EeStack : Type 0 where
  pub stack_info : ℕ
  pub pkru_info : ℕ

-- `sdrad_d_info_t`, less `status`, which nothing reads or writes.
pub record DomainInfo : Type 0 where
  pub sdi_size_of_stack : ℕ
  pub sdi_parent_domain : ℕ
  pub sdi_last_rsp : ℕ
  pub sdi_root_rsp : ℕ
  pub sdi_address_stack : ℕ
  pub sdi_buffer : JmpBuf
  pub sdi_return_address : ℕ
  pub sdi_base_address : ℕ
  pub sdi_saved_ex : Bool
  pub sdi_tlsf : Tlsf
  pub sdi_options : ℕ
  pub sdi_size_of_heap : ℕ
  pub sdi_init_heap_flag : Bool
  pub sdi_address_of_heap : ℕ

-- `sdrad_monitor_domain_t`
pub record MonitorDomain : Type 0 where
  pub smd_tlsf : Tlsf
  pub smd_size_of_data_domain : ℕ
  pub smd_address_data_domain : ℕ
  pub smd_monitor_sdi : ℕ

-- `sdrad_cache_domain_info_t`, a node of the list at `sgm_head`.
pub record CacheDomain : Type 0 where
  pub scdi_tlsf : Tlsf
  pub scdi_size_of_stack : ℕ
  pub scdi_size_of_heap : ℕ
  pub scdi_address_stack : ℕ
  pub scdi_address_heap : ℕ
  pub scdi_init_heap_domain_flag : Bool
  pub scdi_pkey : ℤ

-- `udi_control_t`, a node of the list at `udi_control_head`, at address `node`.
pub record UdiControl : Type 0 where
  pub node : ℕ
  pub udi : ℕ
  pub sdi : ℕ

-- `sdrad_thread_metadata_t`, less the fields that nothing uses.
pub record Thread : Type 0 where
  pub active_domain : ℕ
  pub pkru_config : ℕ → ℕ
  pub sdrad_d_info : ℕ → DomainInfo

-- `sdrad_global_manager_t`, less the mutexes and the fields that nothing reads.
pub record Manager : Type 0 where
  pub real_start_routine : ℕ
  pub start_arg : ℕ
  pub stm_ptr : ℕ → Option Thread
  pub sgm_head : List CacheDomain
  pub sgm_thread_id : ℕ → ℕ
  pub sgm_total_thread : ℕ
  pub sgm_udi_to_sdi : ℕ → ℕ
  pub udi_control_head : List UdiControl
  pub sgm_sdi_to_tdi : ℕ → ℕ
  pub status : ℕ → ℕ
  pub pdi : ℕ → ℤ
  pub sdrad_monitor_domain : MonitorDomain
  pub sdrad_pthread_constructor_done : ℕ
