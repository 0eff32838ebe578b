-- ===== src/Call/Outcome.antt =====
-- A call whose domain cannot be made.
use secure_rewind_and_discar.Base.{ℕ, ◌+◌, ◌<◌, ◌≡◌, refl, ◌∙◌, true, none, arith, update}
use secure_rewind_and_discar.Base.Int.{ℤ, pos}
use secure_rewind_and_discar.Codes.{
  total_domain, sdrad_error_domain_already_init, sdrad_execution_domain, sdrad_nonisolated_domain,
}
use secure_rewind_and_discar.State.{Thread}
use secure_rewind_and_discar.Platform.{Build, Platform}
use secure_rewind_and_discar.Control.{sdrad_search_udi_control}
use secure_rewind_and_discar.Domain.{sdrad_check_init_config}
use secure_rewind_and_discar.Init.{sdrad_init_base}
use secure_rewind_and_discar.Init.Refusal.{init_again}
use secure_rewind_and_discar.Machine.{World, Cmd, done}
use secure_rewind_and_discar.Running.{Running}
use secure_rewind_and_discar.Call.{Site, sdrad_init, sdrad_call}

check_nine : sdrad_check_init_config (sdrad_execution_domain + sdrad_nonisolated_domain) ≡ pos 1
unfolding sdrad_check_init_config
check_nine = refl

module _ {S : Type 0} (p : Platform S) (b : Build) (w : World S) (site : Site) (udi : ℕ) where
  -- The state with the frame of the stub.
  unfoldable pub framed : World S
  framed = record w {
    frames = update w.frames site.frame (record {
      buffer = site.jump;
      domain_feature = sdrad_execution_domain + sdrad_nonisolated_domain;
      udi = udi;
      return_address = site.init_return;
    });
  }

  pub frame_there : framed.frames site.frame ≡ record {
    buffer = site.jump;
    domain_feature = sdrad_execution_domain + sdrad_nonisolated_domain;
    udi = udi;
    return_address = site.init_return;
  }
  unfolding framed
  frame_there = ground arith

  refused_lem :
      (sti sdi : ℕ) (t : Thread)
      → Running p b w sti t
      → sdrad_search_udi_control udi w.sgm.udi_control_head ≡ pos sdi
      → sdi < total_domain
      → (t.sdrad_d_info sdi).sdi_saved_ex ≡ true
      → sdrad_init_base p b site.frame framed
        ≡ done sdrad_error_domain_already_init (record framed { pkru = 0 })
  unfolding framed
  refused_lem sti sdi t run mapped inside saved =
      let at : sdrad_search_udi_control (framed.frames site.frame).udi w.sgm.udi_control_head
          ≡ pos sdi =
        rw frame_there mapped in
      let options : sdrad_check_init_config (framed.frames site.frame).domain_feature ≡ pos 1 =
        rw frame_there check_nine in
      let again =
        init_again p b framed site.frame sti t
          (record { located = run.located; present = run.present; in_range = run.in_range }) options
          sdi at inside in
      again ∙ rw saved refl

  -- A call under a user index whose domain has a saved context is refused with that code: the function
  -- is not run and nothing is stored; only the stub's frame has been written, and the register is left
  -- with all rights.
  pub call_refused :
      (sti sdi : ℕ) (t : Thread) (funcptr : ℕ → Cmd S ℤ) (argument argument_size : ℕ)
      → Running p b w sti t
      → sdrad_search_udi_control udi w.sgm.udi_control_head ≡ pos sdi
      → sdi < total_domain
      → (t.sdrad_d_info sdi).sdi_saved_ex ≡ true
      → sdrad_call p b site udi funcptr argument argument_size w
        ≡ done (sdrad_error_domain_already_init, none) (record framed { pkru = 0 })
  unfolding sdrad_call sdrad_init framed
  call_refused sti sdi t funcptr argument argument_size run mapped inside saved =
      rw (refused_lem sti sdi t run mapped inside saved) refl
