-- ===== src/Examples/Rights.antt =====
-- Protection keys and rights in the example process.
use secure_rewind_and_discar.Base.{ℕ, ◌<◌, ◌≡◌, ◌^◌, refl, some, arith, ◌==◌, if◌then◌else◌}
use secure_rewind_and_discar.Codes.{sdrad_successful_returned}
use secure_rewind_and_discar.Pkey.{sdrad_set_access_pdi, sdrad_pkru_default_config}
use secure_rewind_and_discar.Pkey.Rights.{key_rights, set_access_exact, default_config_isolates}
use secure_rewind_and_discar.Machine.Returns.{Returns}
use secure_rewind_and_discar.Running.{Running}
use secure_rewind_and_discar.Slots.{sdrad_get_sti}
use secure_rewind_and_discar.Control.{sdrad_search_udi_control}
use secure_rewind_and_discar.Init.Isolation.{rights_of}
use secure_rewind_and_discar.Protect.{sdrad_dprotect, domain_of}
use secure_rewind_and_discar.Protect.Outcome.{Protectable, dprotect_grants}
use secure_rewind_and_discar.Examples.{small_platform, single, ready, ready_thread}

set_access_exact_example :
    ((k : ℕ)
      → key_rights (sdrad_set_access_pdi 0x55555544 3 2) k
        ≡ (if 3 == k then 2 else key_rights 0x55555544 k))
    × (sdrad_set_access_pdi 0x55555544 3 2 < 2 ^ 32)
set_access_exact_example = set_access_exact 0x55555544 3 2 (omega arith) (omega arith) (omega arith)

default_config_isolates_example : key_rights (sdrad_pkru_default_config 3) 5 ≡ 3
default_config_isolates_example = default_config_isolates 3 5 (omega arith) (omega arith)

ready-Running : Running small_platform single ready 1 ready_thread
unfolding sdrad_get_sti
ready-Running = record { located = refl; present = refl; in_range = omega arith }

-- The root domain, by index 0, asks for rights on domain 2.
ready-Protectable : Protectable ready 1 ready_thread 0 7 1 2 3
unfolding domain_of sdrad_search_udi_control
ready-Protectable = record {
  receiver = refl;
  giver = refl;
  receiver_inside = omega arith;
  giver_inside = omega arith;
  maker = refl;
  parent_inside = omega arith;
  keyed = refl;
  is_key = omega arith;
}

dprotect_grants_example :
    Returns
      (λ code v. (code ≡ sdrad_successful_returned) × (rights_of v 1 1 3 ≡ some 2))
      (sdrad_dprotect small_platform single 0 7 2 ready)
dprotect_grants_example =
    dprotect_grants small_platform single ready 1 0 7 2 ready_thread ready-Running 1 2 3
      ready-Protectable (omega arith) (omega arith) refl 1 3
