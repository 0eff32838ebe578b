-- ===== src/Init/Refusal.antt =====
-- When `__sdrad_init` makes no domain.
use secure_rewind_and_discar.Base.{ℕ, ◌<◌, ◌≡◌, refl, true, some, [], arith, if◌then◌else◌, update}
use secure_rewind_and_discar.Base.Int.{pos, negsuc}
use secure_rewind_and_discar.Codes.{
  total_domain, sdrad_successful_returned, sdrad_error_wrong_config, sdrad_error_no_pkey,
  sdrad_error_domain_already_init,
}
use secure_rewind_and_discar.State.{Thread}
use secure_rewind_and_discar.Platform.{Build, Platform}
use secure_rewind_and_discar.Control.{sdrad_search_udi_control}
use secure_rewind_and_discar.Domain.{sdrad_check_init_config}
use secure_rewind_and_discar.Machine.{World, done}
use secure_rewind_and_discar.Running.{Running}
use secure_rewind_and_discar.Init.{sdrad_init_base, save_context, init_new, choose_pkey}

module _ {S : Type 0} (p : Platform S) (b : Build) (w : World S) (base : ℕ) where
  -- Options that exclude one another are refused, whatever the state is; nothing has changed but the
  -- register, which is left with all rights.
  pub init_wrong_config :
      sdrad_check_init_config (w.frames base).domain_feature ≡ sdrad_error_wrong_config
      → sdrad_init_base p b base w ≡ done sdrad_error_wrong_config (record w { pkru = 0 })
  unfolding sdrad_init_base
  init_wrong_config h = ground arith

  module _ (sti : ℕ) (t : Thread) (run : Running p b w sti t)
      (options : sdrad_check_init_config (w.frames base).domain_feature ≡ pos 1) where
    new_lem :
        w.sgm.sgm_head ≡ []
        → (p.pkey_alloc w.os).0 ≡ negsuc 0
        → init_new p b sti base (record w { pkru = 0 })
          ≡ done sdrad_error_no_pkey (record w { pkru = 0; os = (p.pkey_alloc w.os).1 })
    unfolding init_new
    new_lem empty none_left = rw (init_new, choose_pkey, empty, none_left) refl

    -- With no cached domain and no key left, a new user index gets the code for that; only the register,
    -- which is left with all rights, and the platform have changed.
    pub init_no_pkey :
        (n : ℕ)
        → sdrad_search_udi_control (w.frames base).udi w.sgm.udi_control_head ≡ negsuc n
        → w.sgm.sgm_head ≡ []
        → (p.pkey_alloc w.os).0 ≡ negsuc 0
        → sdrad_init_base p b base w
          ≡ done sdrad_error_no_pkey (record w { pkru = 0; os = (p.pkey_alloc w.os).1 })
    unfolding sdrad_init_base
    init_no_pkey n unmapped empty none_left = ground (arith, new_lem empty none_left)

    -- A user index that has a domain gets no second one. If the domain's context is saved the call is
    -- refused; otherwise the caller's context, return address and frame are saved and the caller
    -- becomes the parent. No slot, key, list or configuration changes, and the register is left with
    -- all rights.
    pub init_again :
        (sdi : ℕ)
        → sdrad_search_udi_control (w.frames base).udi w.sgm.udi_control_head ≡ pos sdi
        → sdi < total_domain
        → let d = t.sdrad_d_info sdi in
          let saved = record d {
            sdi_buffer = (w.frames base).buffer;
            sdi_return_address = (w.frames base).return_address;
            sdi_parent_domain = t.active_domain;
            sdi_base_address = base;
            sdi_saved_ex = true;
          } in
          sdrad_init_base p b base w ≡ (
            if d.sdi_saved_ex
            then done sdrad_error_domain_already_init (record w { pkru = 0 })
            else done sdrad_successful_returned (record w {
              pkru = 0;
              sgm = record (w.sgm) {
                stm_ptr =
                    update w.sgm.stm_ptr sti
                      (some (record t { sdrad_d_info = update t.sdrad_d_info sdi saved }));
              };
            }))
    unfolding sdrad_init_base save_context
    init_again sdi mapped inside = ground arith
