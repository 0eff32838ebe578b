-- ===== src/Init/Register.antt =====
-- The first half of the creation of a domain: its key, its slot and its entry in the list.
use secure_rewind_and_discar.Base.{ℕ, ◌<◌, ◌≡◌, ◌≢◌, some, ◌∷◌, arith, update}
use secure_rewind_and_discar.Base.Int.{ℤ, pos}
use secure_rewind_and_discar.Codes.{total_domain, domain_occupied}
use secure_rewind_and_discar.State.{DomainInfo, Thread}
use secure_rewind_and_discar.Platform.{Build, Platform}
use secure_rewind_and_discar.Pools.{sdrad_get_config}
use secure_rewind_and_discar.Slots.{sdrad_find_free_domain}
use secure_rewind_and_discar.Alloc.{sdrad_malloc_mdd}
use secure_rewind_and_discar.Domain.{sdrad_request_sdi, sdrad_insert_control_structure}
use secure_rewind_and_discar.Machine.{World, done}
use secure_rewind_and_discar.Running.{Running}
use secure_rewind_and_discar.Init.{register}

module _ {S : Type 0} (p : Platform S) (w : World S) (sti udi features n : ℕ) (t : Thread)
    (pkey : ℤ) where
  -- The record of slot `n`, set up from the environment.
  unfoldable pub registered_info : DomainInfo
  registered_info = record (sdrad_get_config p (t.sdrad_d_info n) w.os) { sdi_options = features }

  node_memory : ℕ × S
  node_memory = p.tlsf_malloc w.sgm.sdrad_monitor_domain.smd_tlsf p.size_of_control w.os

  unfoldable pub registered_thread : Thread
  unfolding registered_info
  registered_thread =
      let configured = update t.sdrad_d_info n (sdrad_get_config p (t.sdrad_d_info n) w.os) in
      record t { sdrad_d_info = update configured n registered_info }

  unfoldable pub registered : World S
  unfolding registered_thread node_memory
  registered =
      let configured = record t {
        sdrad_d_info = update t.sdrad_d_info n (sdrad_get_config p (t.sdrad_d_info n) w.os);
      } in
      record w {
        os = node_memory.1;
        sgm = record (w.sgm) {
          status = update w.sgm.status n domain_occupied;
          sgm_sdi_to_tdi = update w.sgm.sgm_sdi_to_tdi n sti;
          pdi = update w.sgm.pdi n pkey;
          udi_control_head =
              record { node = node_memory.0; udi = udi; sdi = n } ∷ w.sgm.udi_control_head;
          stm_ptr =
              update (update w.sgm.stm_ptr sti (some configured)) sti (some registered_thread);
        };
      }

  -- With a free slot and memory for the node, the domain is registered.
  pub register_lem :
      (b : Build)
      → Running p b w sti t
      → (sdrad_find_free_domain w.sgm).0 ≡ pos n
      → n < total_domain
      → (p.tlsf_malloc w.sgm.sdrad_monitor_domain.smd_tlsf p.size_of_control w.os).0 ≢ 0
      → register p b sti udi features pkey w ≡ done n registered
  unfolding register sdrad_request_sdi sdrad_insert_control_structure sdrad_malloc_mdd registered
      registered_info sdrad_find_free_domain
  register_lem b run slot room memory = ground arith
