-- ===== src/Platform.antt =====
-- What the library calls and does not implement: the kernel, the C library, and the TLSF allocator,
-- whose copy src/tlsf.c is another project's. `S` is their state.
use secure_rewind_and_discar.Base.{ℕ, Bool, Option}
use secure_rewind_and_discar.Base.Int.{ℤ}
use secure_rewind_and_discar.State.{Tlsf, CacheDomain, UdiControl, Thread}

-- The environment variables that are read.
pub data EnvVar : Type 0 where
  sdrad_stack_size sdrad_heap_size sdrad_data_domain_size : EnvVar

-- The flags of src/Makefile: SDRAD_MULTITHREAD, PKEY_ENABLE, ZERO_DOMAIN.
pub record Build : Type 0 where
  pub multithread : Bool
  pub pkey_enable : Bool
  pub zero_domain : Bool

pub record Platform (S : Type 0) : Type 0 where
  -- -1 when no key is left
  pub pkey_alloc : S → ℤ × S
  -- address, size, key; the status is never looked at, since the asserts on it are compiled out
  pub pkey_mprotect : ℕ → ℕ → ℤ → S → S
  -- the address of a new mapping of the given size
  pub mmap : ℕ → S → ℕ × S
  pub bzero : ℕ → ℕ → S → S
  -- `strtol(getenv(name), NULL, 10)` as a `uint64_t`, if the variable is set
  pub getenv : EnvVar → S → Option ℕ
  pub rlimit_stack : S → Option ℕ
  pub pthread_self : S → ℕ
  pub memcpy : ℕ → ℕ → ℕ → S → S
  -- installs the handler of a signal
  pub sigaction : ℕ → S → S
  -- with SIG_UNBLOCK and one signal
  pub sigprocmask : ℕ → S → S
  pub tlsf_create_with_pool : ℕ → ℕ → S → Tlsf × S
  pub tlsf_add_pool : Tlsf → ℕ → ℕ → S → S
  pub tlsf_merge_pool : Tlsf → Tlsf → S → S
  pub tlsf_malloc : Tlsf → ℕ → S → ℕ × S
  pub tlsf_free : Tlsf → ℕ → S → S
  pub tlsf_realloc : Tlsf → ℕ → ℕ → S → ℕ × S
  pub tlsf_memalign : Tlsf → ℕ → ℕ → S → ℕ × S
  pub strlen : ℕ → S → ℕ
  -- address and size of the running thread's stack, by `pthread_attr_getstack`
  pub thread_stack : S → ℕ × ℕ
  -- with the routine `sdrad_pthread_construstor`: the argument; a status
  pub real_pthread_create : ℕ → S → ℤ × S
  pub real_pthread_join : ℕ → S → ℤ × S
  -- the linker's `__data_start` and `end`, and the address and size of `sdrad_global_manager`
  pub data_start : ℕ
  pub end_address : ℕ
  pub manager_address : ℕ
  pub manager_size : ℕ
  -- the compiler's `sizeof` of the three records that are allocated
  pub size_of_cache : ℕ
  pub size_of_control : ℕ
  pub size_of_thread : ℕ
  -- what the memory that `malloc` has just returned happens to hold
  pub raw_cache : ℕ → S → CacheDomain
  pub raw_control : ℕ → S → UdiControl
  pub raw_thread : ℕ → S → Thread
