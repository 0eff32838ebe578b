-- ===== src/Codes.antt =====
-- The numbers of src/sdrad.h and src/sdrad_api.h: sizes, return codes and option flags.
use Prim.Native.Nat.{bit_and}
use secure_rewind_and_discar.Base.{ℕ, ◌-◌, ◌^◌, Bool, not, ◌==◌}
use secure_rewind_and_discar.Base.Int.{ℤ, negsuc}

abbrev pub page_size : ℕ
page_size = 4096

abbrev pub sdrad_default_stack_size : ℕ
sdrad_default_stack_size = 0x800000

abbrev pub sdrad_default_heap_size : ℕ
sdrad_default_heap_size = 0x100000000

abbrev pub sdrad_tlsf_max_heap_size : ℕ
sdrad_tlsf_max_heap_size = 0x100000000

abbrev pub sdrad_default_data_domain_size : ℕ
sdrad_default_data_domain_size = 0x100000000

abbrev pub num_of_threads : ℕ
num_of_threads = 200

abbrev pub monitor_data : ℕ
monitor_data = 0

abbrev pub root_domain : ℕ
root_domain = 1

abbrev pub domain_2 : ℕ
domain_2 = 2

abbrev pub total_domain : ℕ
total_domain = 30

abbrev pub domain_occupied : ℕ
domain_occupied = 55

abbrev pub domain_nonoccupied : ℕ
domain_nonoccupied = 56

-- -1, compared with a `uint64_t`.
abbrev pub thread_nonoccupied : ℕ
thread_nonoccupied = 2 ^ 64 - 1

-- `negsuc n` is -(n + 1).
abbrev pub sdrad_successful_returned : ℤ
sdrad_successful_returned = negsuc 0

abbrev pub sdrad_error_no_pkey : ℤ
sdrad_error_no_pkey = negsuc 1

abbrev pub sdrad_error_domain_already_init : ℤ
sdrad_error_domain_already_init = negsuc 2

abbrev pub sdrad_error_wrong_config : ℤ
sdrad_error_wrong_config = negsuc 3

abbrev pub sdrad_error_no_domain : ℤ
sdrad_error_no_domain = negsuc 5

abbrev pub sdrad_error_domain_no_map : ℤ
sdrad_error_domain_no_map = negsuc 19

abbrev pub sdrad_execution_domain : ℕ
sdrad_execution_domain = 1

abbrev pub sdrad_data_domain : ℕ
sdrad_data_domain = 2

abbrev pub sdrad_isolated_domain : ℕ
sdrad_isolated_domain = 4

abbrev pub sdrad_nonisolated_domain : ℕ
sdrad_nonisolated_domain = 8

abbrev pub sdrad_return_to_parent : ℕ
sdrad_return_to_parent = 16

abbrev pub sdrad_return_to_current : ℕ
sdrad_return_to_current = 64

abbrev pub sdrad_no_heap_merge : ℕ
sdrad_no_heap_merge = 128

abbrev pub sdrad_heap_merge : ℕ
sdrad_heap_merge = 256

-- `word & flag` used as a condition.
abbrev pub has_flag : ℕ → ℕ → Bool
has_flag word flag = not (bit_and word flag == 0)
