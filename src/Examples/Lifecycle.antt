-- ===== src/Examples/Lifecycle.antt =====
-- One domain of the example process, from its initialisation to its end.
use secure_rewind_and_discar.Base.{◌⊎◌, true}
use secure_rewind_and_discar.Codes.{has_flag}
use secure_rewind_and_discar.State.{DomainInfo}
use secure_rewind_and_discar.Examples.{request}
use secure_rewind_and_discar.Rewind.{Exit, sdrad_init_rewound}
use secure_rewind_and_discar.Base.{ℕ, ◌+◌, ◌≡◌, refl, inl, some, [], ◌∷◌, arith, update}
use secure_rewind_and_discar.Base.Int.{pos}
use secure_rewind_and_discar.Codes.{sdrad_successful_returned, domain_nonoccupied, domain_occupied}
use secure_rewind_and_discar.Machine.{World, modify, ◌>>=◌, ◌>>◌, pure}
use secure_rewind_and_discar.Machine.Returns.{Returns}
use secure_rewind_and_discar.Running.{Running, active_of, config_of, info_of}
use secure_rewind_and_discar.Slots.{sdrad_get_sti, sdrad_find_free_domain, find_entry}
use secure_rewind_and_discar.Domain.{sdrad_check_init_config}
use secure_rewind_and_discar.Control.{sdrad_search_udi_control}
use secure_rewind_and_discar.Init.{sdrad_init_base}
use secure_rewind_and_discar.Init.Fresh.{Creatable, created}
use secure_rewind_and_discar.Gate.{sdrad_enter}
use secure_rewind_and_discar.Rewind.{jumps, sdrad_abnormal_domain_exit, sdrad_init_destroy}
use secure_rewind_and_discar.Init.Isolation.{rights_of, init_isolates}
use secure_rewind_and_discar.Init.Outcome.{init_creates}
use secure_rewind_and_discar.Pkey.Rights.{key_rights}
use secure_rewind_and_discar.Pkey.{sdrad_pkru_default_config}
use secure_rewind_and_discar.Gate.{sdrad_exit}
use secure_rewind_and_discar.Gate.RoundTrip.{Enterable, enter-exit_restores}
use secure_rewind_and_discar.Rewind.Discard.{Discardable, init_destroy_discards, discarded_node}
use secure_rewind_and_discar.Destroy.{sdrad_destroy}
use secure_rewind_and_discar.Destroy.Outcome.{Destroyable, destroy_unmaps, destroyed_node}
use secure_rewind_and_discar.Control.{unlink}
use secure_rewind_and_discar.Rewind.Whole.{fault_rewinds}
use secure_rewind_and_discar.Examples.{
  small_platform, single, start, root_thread, ready, ready_thread, inside, inside_thread,
}

start-Running : Running small_platform single start 1 root_thread
unfolding sdrad_get_sti
start-Running = record { located = refl; present = refl; in_range = omega arith }

start-Creatable : Creatable small_platform single start (start.frames 0) 2 3
unfolding sdrad_check_init_config sdrad_find_free_domain find_entry sdrad_search_udi_control
start-Creatable = record {
  options = refl;
  executes = refl;
  unmapped = refl;
  slot = refl;
  room = omega arith;
  chosen = refl;
  is_key = omega arith;
  same_thread = refl;
  memory = omega arith;
}

-- What runs inside the domain: it writes another word into the register.
abbrev other_word : World ℕ → World ℕ
other_word v = record v { pkru = 0; os = v.os + 5 }

fault_rewinds_example :
    Returns {A = Exit × ℕ}
      (λ r v.
        (r.0 ≡ jumps 77)
        × (r.1 ≡ 4242)
        × (v.pkru ≡ (created small_platform single start 1 0 2 3 root_thread).pkru)
        × (active_of v 1 ≡ some 1)
        × (v.tlsf_structure ≡ 0x5000)
        × (v.sgm.udi_control_head ≡ [])
        × (v.sgm.status 2 ≡ domain_nonoccupied)
        × (v.sgm.pdi 2 ≡ pos 0))
      ((do
        sdrad_init_base small_platform single 0
        sdrad_enter small_platform single 7 0x7000
        modify other_word
        exit ← sdrad_abnormal_domain_exit small_platform single
        (result, address) ← sdrad_init_rewound small_platform single 0 7
        pure (exit, address))
        start)
unfolding created
fault_rewinds_example =
    fault_rewinds small_platform single start 1 0 2 3 0x7000 root_thread start-Running
      start-Creatable refl (omega arith) refl other_word (λ v. refl) (λ v. refl) (λ v. refl)
      (λ signum os. refl) (omega arith) refl (omega arith)

init_isolates_example :
    Returns
      (λ code v.
        (rights_of v 1 2 3 ≡ some 0)
        × (key_rights v.pkru 3 ≡ key_rights (root_thread.pkru_config 1) 3))
      (sdrad_init_base small_platform single 0 start)
init_isolates_example =
    init_isolates small_platform single start 1 0 2 3 root_thread start-Running start-Creatable
      (omega arith) (omega arith) 3 (omega arith)

init_creates_example :
    Returns
      (λ code v.
        (code ≡ sdrad_successful_returned)
        × (sdrad_search_udi_control 7 v.sgm.udi_control_head ≡ pos 2)
        × (v.sgm.status ≡ update start.sgm.status 2 domain_occupied)
        × (v.sgm.pdi ≡ update start.sgm.pdi 2 (pos 3))
        × (active_of v 1 ≡ some 1)
        × (config_of v 1 1 ≡ some v.pkru)
        × (config_of v 1 2 ≡ some (sdrad_pkru_default_config 3))
        × ((d : DomainInfo) × (info_of v 1 2 ≡ some d)
            × (d.sdi_parent_domain ≡ 1)
            × (d.sdi_base_address ≡ 0)
            × (d.sdi_options ≡ request.domain_feature)
            × ((has_flag request.domain_feature 16 ≡ true)
                ⊎ ((d.sdi_saved_ex ≡ true) × (d.sdi_buffer ≡ 77) × (d.sdi_return_address ≡ 4242)))))
      (sdrad_init_base small_platform single 0 start)
init_creates_example =
    init_creates small_platform single start 1 0 2 3 root_thread start-Running start-Creatable 7

ready-Running : Running small_platform single ready 1 ready_thread
unfolding sdrad_get_sti
ready-Running = record { located = refl; present = refl; in_range = omega arith }

inside-Running : Running small_platform single inside 1 inside_thread
unfolding sdrad_get_sti
inside-Running = record { located = refl; present = refl; in_range = omega arith }

ready-Enterable : Enterable ready ready_thread 7 2
unfolding sdrad_search_udi_control
ready-Enterable = record {
  found = refl;
  inside = omega arith;
  executes = refl;
  saved = refl;
  parent = refl;
}

enter-exit_restores_example :
    Returns
      (λ back u.
        (back ≡ 0x7008)
        × (u.pkru ≡ 0x55555544)
        × (u.tlsf_structure ≡ 0x5000)
        × (active_of u 1 ≡ some 1))
      ((do
        sdrad_enter small_platform single 7 0x7000
        modify other_word
        sdrad_exit small_platform single)
        ready)
enter-exit_restores_example =
    enter-exit_restores small_platform single ready 1 7 2 0x7000 ready_thread ready-Running
      ready-Enterable other_word (λ v. refl) (λ v. refl) (omega arith)

inside-Discardable : Discardable small_platform inside inside_thread 7
unfolding sdrad_search_udi_control unlink
inside-Discardable = record {
  mapped = refl;
  parent_inside = omega arith;
  to_current = refl;
  memory = omega arith;
  allocator = inl refl;
}

init_destroy_discards_example :
    Returns
      (λ result v.
        (result ≡ 7)
        × (v.sgm.stm_ptr 1 ≡ some ready_thread)
        × (v.tlsf_structure ≡ 0x5000)
        × (v.sgm.udi_control_head ≡ [])
        × (v.sgm.sgm_head
            ≡ discarded_node small_platform single inside 1 7 inside_thread inside-Running
                inside-Discardable
              ∷ [])
        × ((v.frames 0).return_address ≡ 4242)
        × ((v.frames 0).udi ≡ 0x55555544)
        × (v.sgm.status ≡ update inside.sgm.status 2 domain_nonoccupied)
        × (v.sgm.pdi ≡ update inside.sgm.pdi 2 (pos 0))
        × (v.sgm.sgm_udi_to_sdi ≡ update inside.sgm.sgm_udi_to_sdi 2 0)
        × (v.pkru ≡ 0))
      (sdrad_init_destroy small_platform single 7 inside)
unfolding unlink
init_destroy_discards_example =
    init_destroy_discards small_platform single inside 1 7 inside_thread inside-Running
      inside-Discardable

ready-Destroyable : Destroyable small_platform ready ready_thread 7 2
unfolding sdrad_search_udi_control unlink
ready-Destroyable = record {
  mapped = refl;
  inside = omega arith;
  parent_inside = omega arith;
  memory = omega arith;
  allocator = inl refl;
}

destroy_unmaps_example :
    Returns
      (λ code v.
        (code ≡ sdrad_successful_returned)
        × (v.sgm.udi_control_head ≡ [])
        × (v.sgm.sgm_head
            ≡ destroyed_node small_platform single ready 1 7 2 128 ready_thread ready-Running
                ready-Destroyable
              ∷ [])
        × (v.sgm.pdi ≡ update ready.sgm.pdi 2 (pos 0))
        × (v.sgm.status ≡ ready.sgm.status)
        × (v.sgm.stm_ptr ≡ ready.sgm.stm_ptr)
        × (v.pkru ≡ 0x55555544))
      (sdrad_destroy small_platform single 7 128 ready)
unfolding unlink
destroy_unmaps_example =
    destroy_unmaps small_platform single ready 1 7 2 128 ready_thread ready-Running
      ready-Destroyable
