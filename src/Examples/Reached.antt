-- ===== src/Examples/Reached.antt =====
-- A process that starts, makes a domain and enters it.
use secure_rewind_and_discar.Rewind.{sdrad_init_rewound}
use secure_rewind_and_discar.Base.{
  inl, ℕ, ◌+◌, ◌<◌, ◌≡◌, ◌≢◌, ◌⊎◌, refl, some, none, arith, ◌==◌, ltb, if◌then◌else◌,
}
use secure_rewind_and_discar.Base.Int.{ℤ, pos}
use secure_rewind_and_discar.Codes.{
  root_domain, domain_occupied, domain_nonoccupied, sdrad_error_domain_no_map,
  sdrad_successful_returned, sdrad_error_wrong_config,
}
use secure_rewind_and_discar.State.{Thread}
use secure_rewind_and_discar.Platform.{Platform}
use secure_rewind_and_discar.Control.{sdrad_search_udi_control, unlink}
use secure_rewind_and_discar.Slots.{sdrad_get_sti, sdrad_find_free_domain, find_entry}
use secure_rewind_and_discar.Pools.{sdrad_get_config, sdrad_execution_domain_init}
use secure_rewind_and_discar.Domain.{
  sdrad_check_init_config, sdrad_request_sdi, sdrad_insert_control_structure,
}
use secure_rewind_and_discar.Domain.Options.{excluded, check_init_config_exact}
use secure_rewind_and_discar.Alloc.{sdrad_create_monitor_domain, sdrad_malloc_mdd}
use secure_rewind_and_discar.Boot.{sdrad_constructor}
use secure_rewind_and_discar.Boot.Started.{monitor}
use secure_rewind_and_discar.Init.{sdrad_init_base}
use secure_rewind_and_discar.Gate.{sdrad_enter, sdrad_enter_base, sdrad_exit}
use secure_rewind_and_discar.Destroy.{sdrad_deinit}
use secure_rewind_and_discar.Rewind.{
  Exit, jumps, aborts, sdrad_setup_signal_handler, sdrad_signal_handler, stack_chk_fail,
}
use secure_rewind_and_discar.Machine.{◌>>=◌, World, Run, done, fault, pure, ◌>>◌}
use secure_rewind_and_discar.Machine.Returns.{Returns}
use secure_rewind_and_discar.Running.{Running, active_of}
use secure_rewind_and_discar.Main.{fake_main, begun, begun_thread, main_comes_back}
use secure_rewind_and_discar.Valid.{IsValid}
use secure_rewind_and_discar.Valid.Start.{Zeroed, Startable}
use secure_rewind_and_discar.System.{Request, makes, other, Step, Reach, perform}
use secure_rewind_and_discar.System.Recovery.{fault_recovers}
use secure_rewind_and_discar.System.Refine.{MapStep, map_of}
use secure_rewind_and_discar.System.Process.{
  reached-IsValid, fault_contained, index_owns_domain, calls_return, list_refines_map,
}
use secure_rewind_and_discar.Examples.{small_platform, single, start, start_manager, root_thread}

-- The first key goes to the monitor domain, the second to the root domain.
abbrev three_keys : Platform ℕ
three_keys = record small_platform {
  pkey_alloc = λ s. (if ltb s 20 then pos 1 else (if ltb s 50 then pos 2 else pos 3), s + 20);
}

abbrev blank : World ℕ
blank = record start {
  sgm = record start_manager { stm_ptr = λ i. none; pdi = λ d. pos 0 };
  tlsf_structure = 0;
}

blank-Zeroed : Zeroed blank.sgm
blank-Zeroed = record { threads = λ i. refl; keys = λ d. refl; cached = refl; listed = refl }

blank-Startable : Startable three_keys single blank 2
unfolding monitor
blank-Startable = record {
  memory = omega arith;
  chosen = refl;
  is_key = omega arith;
  positive = omega arith;
  monitor_key = λ e. ground (arith, e);
  blank = λ d. ground arith;
}

abbrev result : {A : Type 0} → Run ℕ A → World ℕ
result (done _ w) = w
result fault = blank

abbrev booted : World ℕ
booted = result (sdrad_constructor three_keys single blank)

abbrev made : World ℕ
made = result (sdrad_init_base three_keys single 0 booted)

abbrev inside : World ℕ
inside = result (perform three_keys single (Request.enter 7 0x7000) made)

boots : sdrad_constructor three_keys single blank ≡ done tt booted
unfolding sdrad_constructor sdrad_create_monitor_domain sdrad_malloc_mdd sdrad_setup_signal_handler
boots = refl

makes_domain : sdrad_init_base three_keys single 0 booted ≡ done sdrad_successful_returned made
unfolding sdrad_constructor sdrad_create_monitor_domain sdrad_malloc_mdd sdrad_setup_signal_handler
    sdrad_init_base sdrad_get_sti sdrad_find_free_domain find_entry sdrad_request_sdi
    sdrad_insert_control_structure sdrad_check_init_config sdrad_search_udi_control
makes_domain = refl

asks_seven : (booted.frames 0).udi ≡ 7
unfolding sdrad_constructor sdrad_create_monitor_domain sdrad_malloc_mdd sdrad_setup_signal_handler
asks_seven = refl

fresh_key : (three_keys.pkey_alloc booted.os).0 ≢ booted.sgm.pdi root_domain
unfolding sdrad_constructor sdrad_create_monitor_domain sdrad_malloc_mdd sdrad_setup_signal_handler
fresh_key = λ e. ground (arith, e)

enters : perform three_keys single (Request.enter 7 0x7000) made ≡ done tt inside
unfolding sdrad_constructor sdrad_create_monitor_domain sdrad_malloc_mdd sdrad_setup_signal_handler
    sdrad_init_base sdrad_get_sti sdrad_find_free_domain find_entry sdrad_request_sdi
    sdrad_insert_control_structure sdrad_check_init_config sdrad_search_udi_control
    sdrad_execution_domain_init sdrad_get_config sdrad_enter sdrad_enter_base
enters = refl

booted-made : Reach three_keys single booted made
booted-made =
    Reach.next (makes 7) Reach.here
      (Step.inits 0 7 sdrad_successful_returned asks_seven fresh_key makes_domain)

booted-inside : Reach three_keys single booted inside
booted-inside = Reach.next other booted-made (Step.calls (Request.enter 7 0x7000) enters)

reached-IsValid_example : IsValid 2 inside.sgm
reached-IsValid_example =
    reached-IsValid three_keys single refl 2 blank blank-Zeroed blank-Startable booted inside boots
      booted-inside

abbrev inner : Thread
inner = elim (inside.sgm.stm_ptr 1) [ none ↦ root_thread | some t ↦ t ]

inner_here : inside.sgm.stm_ptr 1 ≡ some inner
unfolding sdrad_constructor sdrad_create_monitor_domain sdrad_malloc_mdd sdrad_setup_signal_handler
    sdrad_init_base sdrad_get_sti sdrad_find_free_domain find_entry sdrad_request_sdi
    sdrad_insert_control_structure sdrad_check_init_config sdrad_search_udi_control
    sdrad_execution_domain_init sdrad_get_config sdrad_enter sdrad_enter_base
inner_here = refl

seven_inside : sdrad_search_udi_control 7 inside.sgm.udi_control_head ≡ pos 2
unfolding sdrad_constructor sdrad_create_monitor_domain sdrad_malloc_mdd sdrad_setup_signal_handler
    sdrad_init_base sdrad_get_sti sdrad_find_free_domain find_entry sdrad_request_sdi
    sdrad_insert_control_structure sdrad_check_init_config sdrad_search_udi_control
    sdrad_execution_domain_init sdrad_get_config sdrad_enter sdrad_enter_base
seven_inside = refl

fault_contained_example :
    let target : Exit =
      if inner.active_domain == 1
      then aborts
      else jumps (inner.sdrad_d_info inner.active_domain).sdi_buffer in
    Returns (λ exit _. exit ≡ target) (sdrad_signal_handler three_keys single inside)
    × Returns (λ exit _. exit ≡ target) (stack_chk_fail three_keys single inside)
fault_contained_example =
    fault_contained three_keys single refl 2 blank blank-Zeroed blank-Startable booted inside boots
      booted-inside inner inner_here

index_owns_domain_example :
    (2 < 30)
    × (◌≢◌ {A = ℕ} 2 1)
    × (inside.sgm.status 2 ≡ domain_occupied)
    × (inside.sgm.pdi 2 ≢ inside.sgm.pdi 1)
    × ((◌≡◌ {A = ℕ} 7 8) ⊎ (sdrad_search_udi_control 8 inside.sgm.udi_control_head ≢ pos 2))
index_owns_domain_example =
    index_owns_domain three_keys single refl 2 blank blank-Zeroed blank-Startable booted inside
      boots booted-inside 7 8 2 seven_inside

-- The root domain's stack pointer was kept when the domain was entered.
stack_there :
    (inner.sdrad_d_info (inner.sdrad_d_info inner.active_domain).sdi_parent_domain).sdi_last_rsp ≢ 0
unfolding sdrad_constructor sdrad_create_monitor_domain sdrad_malloc_mdd sdrad_setup_signal_handler
    sdrad_init_base sdrad_get_sti sdrad_find_free_domain find_entry sdrad_request_sdi
    sdrad_insert_control_structure sdrad_check_init_config sdrad_search_udi_control
    sdrad_execution_domain_init sdrad_get_config sdrad_enter sdrad_enter_base
stack_there = omega arith

calls_return_example :
    Returns
      (λ _ x. active_of x 1 ≡ some (inner.sdrad_d_info inner.active_domain).sdi_parent_domain)
      (sdrad_exit three_keys single inside)
    × Returns (λ r _. r ≡ sdrad_successful_returned) (sdrad_deinit three_keys single 7 inside)
    × Returns
        (λ r x.
          ((r.0 ≡ pos 2) × (active_of x 1 ≡ some 2))
          ⊎ ((r.0 ≡ sdrad_error_wrong_config) × (active_of x 1 ≡ some inner.active_domain)))
        (sdrad_enter_base three_keys single 7
          (record { stack_info = 0x7000; pkru_info = 0 })
          inside)
calls_return_example =
    calls_return three_keys single refl 2 blank blank-Zeroed blank-Startable booted inside boots
      booted-inside inner 7 2 (record { stack_info = 0x7000; pkru_info = 0 }) inner_here
      seven_inside stack_there

list_refines_map_example :
    ((i : ℕ) → map_of booted.sgm i ≡ none) × MapStep (makes 7) (map_of booted.sgm) (map_of made.sgm)
list_refines_map_example =
    list_refines_map three_keys single refl 2 blank blank-Zeroed blank-Startable booted booted boots
      Reach.here (makes 7) made
      (Step.inits 0 7 sdrad_successful_returned asks_seven fresh_key makes_domain)

seven_active : sdrad_search_udi_control 7 inside.sgm.udi_control_head ≡ pos inner.active_domain
unfolding sdrad_constructor sdrad_create_monitor_domain sdrad_malloc_mdd sdrad_setup_signal_handler
    sdrad_init_base sdrad_get_sti sdrad_find_free_domain find_entry sdrad_request_sdi
    sdrad_insert_control_structure sdrad_check_init_config sdrad_search_udi_control
    sdrad_execution_domain_init sdrad_get_config sdrad_enter sdrad_enter_base
seven_active = refl

node_memory :
    (three_keys.tlsf_malloc inside.sgm.sdrad_monitor_domain.smd_tlsf three_keys.size_of_cache
      (three_keys.sigaction 14 (three_keys.sigaction 11 (three_keys.sigprocmask 11 inside.os)))).0
    ≢ 0
node_memory = omega arith

fault_recovers_example :
    Returns {A = Exit × ℕ}
      (λ r x.
        (r.0 ≡ jumps (inner.sdrad_d_info inner.active_domain).sdi_buffer)
        × (r.1 ≡ (inner.sdrad_d_info inner.active_domain).sdi_return_address)
        × (x.pkru ≡ inner.pkru_config (inner.sdrad_d_info inner.active_domain).sdi_parent_domain)
        × (active_of x 1 ≡ some (inner.sdrad_d_info inner.active_domain).sdi_parent_domain)
        × (sdrad_search_udi_control 7 x.sgm.udi_control_head ≡ sdrad_error_domain_no_map)
        × (x.sgm.status inner.active_domain ≡ domain_nonoccupied)
        × IsValid 2 x.sgm)
      ((do
        exit ← sdrad_signal_handler three_keys single
        (result_word, address) ←
            sdrad_init_rewound three_keys single
              (inner.sdrad_d_info inner.active_domain).sdi_base_address
              7
        pure (exit, address))
        inside)
unfolding sdrad_constructor sdrad_create_monitor_domain sdrad_malloc_mdd sdrad_setup_signal_handler
    sdrad_init_base sdrad_get_sti sdrad_find_free_domain find_entry sdrad_request_sdi
    sdrad_insert_control_structure sdrad_check_init_config sdrad_search_udi_control
    sdrad_execution_domain_init sdrad_get_config sdrad_enter sdrad_enter_base unlink
fault_recovers_example =
    fault_recovers three_keys single refl 2 blank blank-Zeroed blank-Startable booted inside boots
      booted-inside inner 7 inner_here seven_active refl (inl refl) node_memory

-- The program's `main` makes the domain and returns 0.
abbrev small_main : ℕ → World ℕ → Run ℕ ℤ
small_main stack = do sdrad_init_base small_platform single 0; pure (pos 0)

start-Running : Running small_platform single start 1 root_thread
unfolding sdrad_get_sti
start-Running = record { located = refl; present = refl; in_range = omega arith }

abbrev begins : World ℕ
begins = begun small_platform single start 1 0x7008 root_thread start-Running

abbrev left : World ℕ
left = result (small_main 0 begins)

abbrev left_thread : Thread
left_thread = elim (left.sgm.stm_ptr 1) [ none ↦ root_thread | some t ↦ t ]

main_ends : small_main 0 begins ≡ done (pos 0) left
unfolding begun sdrad_init_base sdrad_get_sti sdrad_find_free_domain find_entry sdrad_request_sdi
    sdrad_insert_control_structure sdrad_check_init_config sdrad_search_udi_control sdrad_malloc_mdd
main_ends = refl

left-Running : Running small_platform single left 1 left_thread
unfolding begun sdrad_init_base sdrad_get_sti sdrad_find_free_domain find_entry sdrad_request_sdi
    sdrad_insert_control_structure sdrad_check_init_config sdrad_search_udi_control sdrad_malloc_mdd
    sdrad_get_config sdrad_execution_domain_init
left-Running = record { located = refl; present = refl; in_range = omega arith }

left_kept :
    (left_thread.sdrad_d_info 1).sdi_root_rsp
    ≡ ((begun_thread small_platform single start 1 0x7008 root_thread start-Running).sdrad_d_info
        1).sdi_root_rsp
unfolding begun begun_thread sdrad_init_base sdrad_get_sti sdrad_find_free_domain find_entry
    sdrad_request_sdi sdrad_insert_control_structure sdrad_check_init_config
    sdrad_search_udi_control sdrad_malloc_mdd sdrad_get_config sdrad_execution_domain_init
left_kept = refl

main_comes_back_example :
    Returns
      (λ result x.
        (result ≡ (pos 0, 0x7010)) × (x.pkru ≡ left_thread.pkru_config 1) × (x.sgm ≡ left.sgm))
      (fake_main small_platform single small_main 0x7008 start)
main_comes_back_example =
    main_comes_back small_platform single start 1 0x7008 root_thread start-Running small_main
      (pos 0) left left_thread (omega arith) main_ends left-Running left_kept

check_init_config_exact_example :
    sdrad_check_init_config 24 ≡ (if excluded 24 then sdrad_error_wrong_config else pos 1)
check_init_config_exact_example = check_init_config_exact 24
