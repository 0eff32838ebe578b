-- ===== src/Examples/Process.antt =====
-- The start of the example process, its threads, and calls in a domain of their own.
use secure_rewind_and_discar.Base.{ℕ, ◌≡◌, refl, true, some, arith, ◌==◌, leb, ltb, if◌then◌else◌}
use secure_rewind_and_discar.Base.Int.{pos}
use secure_rewind_and_discar.Codes.{
  total_domain, root_domain, num_of_threads, domain_occupied, domain_nonoccupied,
  thread_nonoccupied,
}
use secure_rewind_and_discar.Platform.{Build, Platform}
use secure_rewind_and_discar.Machine.{World}
use secure_rewind_and_discar.Machine.Returns.{Returns}
use secure_rewind_and_discar.Running.{active_of, config_of}
use secure_rewind_and_discar.Pkey.{sdrad_pkru_default_config}
use secure_rewind_and_discar.Slots.{
  sdrad_get_sti, sdrad_find_free_thread_id, sdrad_find_free_domain, find_entry, find_tid,
}
use secure_rewind_and_discar.Boot.{sdrad_constructor}
use secure_rewind_and_discar.Boot.Started.{constructor_starts, monitor}
use secure_rewind_and_discar.Threads.{sdrad_pthread_construstor}
use secure_rewind_and_discar.Threads.Created.{Enrollable, enrolled, construstor_joins_root}
use secure_rewind_and_discar.Call.{Site}
use secure_rewind_and_discar.Examples.{small_platform, single, start, start_manager, root_thread}

constructor_starts_example :
    Returns
      (λ _ v.
        (active_of v 1 ≡ some 1)
        × (config_of v 1 1 ≡ some v.pkru)
        × (v.pkru ≡ sdrad_pkru_default_config 3)
        × (v.sgm.pdi 1 ≡ pos 3)
        × (v.sgm.sgm_total_thread ≡ 2)
        × (v.sgm.sgm_sdi_to_tdi 1 ≡ 1)
        × ((d : ℕ)
            → v.sgm.status d ≡ (
                if leb d root_domain
                then domain_occupied
                else (if ltb d total_domain then domain_nonoccupied else start.sgm.status d)))
        × ((i : ℕ)
            → v.sgm.sgm_thread_id i ≡ (
                if i == root_domain
                then 9
                else (if ltb root_domain i
                    then (if ltb i num_of_threads
                        then thread_nonoccupied
                        else start.sgm.sgm_thread_id i)
                    else start.sgm.sgm_thread_id i))))
      (sdrad_constructor small_platform single start)
unfolding monitor
constructor_starts_example =
    constructor_starts small_platform single start 3 (omega arith) refl (omega arith)

-- A second thread, whose identifier is 11, in the multithreaded build.
abbrev second : Platform ℕ
second = record small_platform { pthread_self = λ s. 11 }

abbrev multi : Build
multi = record single { multithread = true }

abbrev two_threads : World ℕ
two_threads = record start {
  sgm = record start_manager {
    sgm_thread_id = λ i. if i == 1 then 9 else (if i == 0 then 0 else thread_nonoccupied);
    sgm_total_thread = 2;
    real_start_routine = 0x4000;
    start_arg = 5;
  };
}

two_threads-Enrollable : Enrollable second multi two_threads 2 2 root_thread
unfolding sdrad_find_free_thread_id find_entry sdrad_get_sti find_tid sdrad_find_free_domain
    enrolled
two_threads-Enrollable = record {
  index = refl;
  memory = omega arith;
  found = refl;
  slot = refl;
  room = omega arith;
  present = refl;
  other = omega arith;
}

construstor_joins_root_example :
    Returns
      (λ r v.
        (r ≡ (0x4000, 5))
        × (active_of v 2 ≡ some 2)
        × (v.sgm.pdi 2 ≡ pos 2)
        × (v.pkru ≡ 0x55555544)
        × (config_of v 2 2 ≡ some v.pkru)
        × (v.sgm.sgm_thread_id 2 ≡ 11)
        × (v.sgm.sgm_total_thread ≡ 3)
        × (v.sgm.status 2 ≡ domain_occupied)
        × (v.sgm.sdrad_pthread_constructor_done ≡ 1))
      (sdrad_pthread_construstor second multi two_threads)
construstor_joins_root_example =
    construstor_joins_root second multi two_threads 2 2 root_thread two_threads-Enrollable

abbrev site : Site
site = record { frame = 0x7100; jump = 78; init_return = 4300; enter_rsp = 0x7000 }
