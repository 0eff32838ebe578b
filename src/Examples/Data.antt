-- ===== src/Examples/Data.antt =====
-- Further domains of the example process: one for data, and one in another.
use secure_rewind_and_discar.Machine.Ensures.{Ensures}
use secure_rewind_and_discar.Domain.{
  sdrad_destroy_domain, sdrad_insert_cache_domain, sdrad_delete_control_structure,
}
use secure_rewind_and_discar.Alloc.{sdrad_malloc_mdd, free, first_use}
use secure_rewind_and_discar.Base.{◌≢◌}
use secure_rewind_and_discar.Base.{none}
use secure_rewind_and_discar.Control.{unlink}
use secure_rewind_and_discar.State.{Thread}
use secure_rewind_and_discar.Codes.{domain_nonoccupied}
use secure_rewind_and_discar.Rewind.{sdrad_init_destroy}
use secure_rewind_and_discar.Rewind.Parent.{parent_destroyed}
use secure_rewind_and_discar.Examples.{domain_info, inside_thread, inside, ready_manager}
use secure_rewind_and_discar.Base.{ℕ, ◌≡◌, refl, some, [], ◌∷◌, arith, update}
use secure_rewind_and_discar.Base.Int.{pos}
use secure_rewind_and_discar.Machine.{World}
use secure_rewind_and_discar.Machine.Returns.{Returns}
use secure_rewind_and_discar.Running.{Running, active_of}
use secure_rewind_and_discar.Slots.{sdrad_get_sti}
use secure_rewind_and_discar.Control.{sdrad_search_udi_control}
use secure_rewind_and_discar.State.{DomainInfo, CacheDomain}
use secure_rewind_and_discar.Examples.{
  blank_cache, start_manager, small_platform, single, start, request,
}

-- A data domain, when the first cached domain had no heap.
abbrev heapless : CacheDomain
heapless = record blank_cache { scdi_pkey = pos 3 }

abbrev data_start : World ℕ
data_start = record start {
  sgm = record start_manager { sgm_head = heapless ∷ [] };
  frames = λ address. record request { domain_feature = 2 };
}

-- Domain 3, which returns to its parent, was made in domain 2 and is active.
abbrev nested_info : DomainInfo
nested_info = record domain_info {
  sdi_parent_domain = 2;
  sdi_options = 21;
  sdi_address_stack = 0xa000;
}

abbrev nested_thread : Thread
nested_thread = record inside_thread {
  active_domain = 3;
  sdrad_d_info = update inside_thread.sdrad_d_info 3 nested_info;
}

abbrev nested : World ℕ
nested = record inside {
  sgm = record ready_manager {
    stm_ptr = update (λ i. none) 1 (some nested_thread);
    udi_control_head =
        record { node = 0x2100; udi = 8; sdi = 3 }
        ∷ record { node = 0x2000; udi = 7; sdi = 2 }
        ∷ [];
    status = update ready_manager.status 3 55;
    pdi = update ready_manager.pdi 3 (pos 4);
  };
}

nested-Running : Running small_platform single nested 1 nested_thread
unfolding sdrad_get_sti
nested-Running = record { located = refl; present = refl; in_range = omega arith }

-- There is memory for another node after the parent's end.
room_again :
    Ensures
      (λ _ v.
        (small_platform.tlsf_malloc nested.sgm.sdrad_monitor_domain.smd_tlsf
          small_platform.size_of_cache v.os).0
        ≢ 0)
      (sdrad_destroy_domain small_platform single (nested_thread.sdrad_d_info 3) 2 (record nested {
        pkru = 0;
        sgm = record (nested.sgm) {
          stm_ptr = update nested.sgm.stm_ptr 1 (some (record nested_thread { active_domain = 1 }));
        };
      }))
unfolding sdrad_destroy_domain sdrad_insert_cache_domain sdrad_malloc_mdd
    sdrad_delete_control_structure free first_use unlink
room_again = omega arith

parent_destroyed_example :
    Returns
      (λ r z.
        (r ≡ 8)
        × (active_of z 1 ≡ some 2)
        × (z.sgm.udi_control_head ≡ [])
        × (z.sgm.status ≡ update nested.sgm.status 3 domain_nonoccupied)
        × ((new old : CacheDomain) × (z.sgm.sgm_head ≡ new ∷ old ∷ [])
            × (new.scdi_pkey ≡ pos 4)
            × (old.scdi_pkey ≡ pos 3)
            × (new.scdi_address_stack ≡ 0xa000)
            × (old.scdi_address_stack ≡ 0xa000)))
      (sdrad_init_destroy small_platform single 8 nested)
unfolding sdrad_search_udi_control unlink
parent_destroyed_example =
    parent_destroyed small_platform single nested 1 8 nested_thread nested-Running refl refl
      (omega arith) (omega arith) (omega arith) room_again
