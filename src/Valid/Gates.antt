-- ===== src/Valid/Gates.antt =====
-- Entering, leaving and deinitialising a domain keep the manager valid.
use secure_rewind_and_discar.Base.{
  ℕ, ◌+◌, ◌-◌, ◌<◌, ◌≡◌, refl, inl, inr, false, some, arith, update,
}
use secure_rewind_and_discar.Base.Int.{ℤ, pos, negsuc, ℤ-cases}
use secure_rewind_and_discar.Codes.{total_domain, root_domain}
use secure_rewind_and_discar.State.{Thread}
use secure_rewind_and_discar.Platform.{Build, Platform}
use secure_rewind_and_discar.Control.{sdrad_search_udi_control}
use secure_rewind_and_discar.Machine.{World}
use secure_rewind_and_discar.Machine.Ensures.{Ensures, Ensures-mono}
use secure_rewind_and_discar.Running.{Running}
use secure_rewind_and_discar.Gate.{
  sdrad_enter, sdrad_enter_base, sdrad_exit, sdrad_enter_root, sdrad_exit_root,
  sdrad_enter_root_base, sdrad_exit_root_base,
}
use secure_rewind_and_discar.Gate.RoundTrip.{exit_or_fault, entered}
use secure_rewind_and_discar.Destroy.{sdrad_deinit}
use secure_rewind_and_discar.Valid.{IsValid, IsValidWith, IsValid-put, Sound, found-Occupied}

module _ {S : Type 0} (p : Platform S) (b : Build) (w : World S) (rk sti : ℕ) (t : Thread)
    (ok : IsValid rk w.sgm) (run : Running p b w sti t) where
  sound : Sound t
  sound = ok.threads sti t run.present

  entered-Sound : (sdi rsp : ℕ) → sdi < total_domain → Sound (entered t sdi rsp)
  unfolding entered
  entered-Sound sdi rsp inside = record {
    active = inside;
    parents =
        λ d. ground (arith, sound.parents d, sound.parents (t.sdrad_d_info sdi).sdi_parent_domain);
  }

  enter_state :
      (udi rsp sdi : ℕ)
      → sdrad_search_udi_control udi w.sgm.udi_control_head ≡ pos sdi
      → Ensures
          (λ r v.
            v.sgm
            ≡ record (w.sgm) { stm_ptr = update w.sgm.stm_ptr sti (some (entered t sdi rsp)) })
          (sdrad_enter p b udi rsp w)
  unfolding sdrad_enter sdrad_enter_base entered
  enter_state udi rsp sdi mapped = ground arith

  enter_nowhere :
      (udi rsp m : ℕ)
      → sdrad_search_udi_control udi w.sgm.udi_control_head ≡ negsuc m
      → Ensures (λ r v. IsValidWith rk w.sgm.udi_control_head v.sgm) (sdrad_enter p b udi rsp w)
  unfolding sdrad_enter sdrad_enter_base
  enter_nowhere udi rsp m unmapped = ground arith

  pub enter-IsValid :
      (udi rsp : ℕ)
      → Ensures (λ r v. IsValidWith rk w.sgm.udi_control_head v.sgm) (sdrad_enter p b udi rsp w)
  enter-IsValid udi rsp = elim (ℤ-cases (sdrad_search_udi_control udi w.sgm.udi_control_head)) [
    | inr (m, unmapped) ↦ enter_nowhere udi rsp m unmapped
    | inl (sdi, mapped) ↦
        let found =
          found-Occupied rk udi sdi w.sgm.status w.sgm.pdi w.sgm.udi_control_head ok.listed
            mapped in
        Ensures-mono _ _ (sdrad_enter p b udi rsp w) (enter_state udi rsp sdi mapped) λ r v e.
          rw e
            (IsValid-put rk w.sgm ok sti (entered t sdi rsp) (entered-Sound sdi rsp found.0), refl)
  ]

  pub exit-IsValid : Ensures (λ r v. IsValidWith rk w.sgm.udi_control_head v.sgm) (sdrad_exit p b w)
  exit-IsValid =
      let parent = (t.sdrad_d_info t.active_domain).sdi_parent_domain in
      Ensures-mono _ _ (sdrad_exit p b w)
        (exit_or_fault p b w sti t run (sound.parents t.active_domain))
        λ r v e. rw e (
          IsValid-put rk w.sgm ok sti (record t { active_domain = parent })
              (record { active = sound.parents t.active_domain; parents = sound.parents }),
          refl,
        )

  deinit_state :
      (udi : ℕ) (z : ℤ)
      → sdrad_search_udi_control udi w.sgm.udi_control_head ≡ z
      → Ensures
          (λ r v. v.sgm ≡ (elim z [
            | negsuc _ ↦ w.sgm
            | pos sdi ↦ record (w.sgm) {
              stm_ptr = update w.sgm.stm_ptr sti (
                  some (record t {
                    sdrad_d_info =
                        update t.sdrad_d_info sdi
                          (record (t.sdrad_d_info sdi) { sdi_saved_ex = false });
                  }));
            }
          ]))
          (sdrad_deinit p b udi w)
  unfolding sdrad_deinit
  deinit_state udi (pos sdi) e = ground arith
  deinit_state udi (negsuc m) e = ground arith

  deinit_valid :
      (udi : ℕ) (z : ℤ)
      → sdrad_search_udi_control udi w.sgm.udi_control_head ≡ z
      → Ensures (λ r v. IsValidWith rk w.sgm.udi_control_head v.sgm) (sdrad_deinit p b udi w)
  deinit_valid udi (negsuc m) e =
      Ensures-mono _ _ (sdrad_deinit p b udi w) (deinit_state udi (negsuc m) e)
        λ r v q. rw q (ok, refl)
  deinit_valid udi (pos sdi) e =
      Ensures-mono _ _ (sdrad_deinit p b udi w) (deinit_state udi (pos sdi) e) λ r v q. rw q (
        IsValid-put rk w.sgm ok sti _
            (record { active = sound.active; parents = λ d. ground (arith, sound.parents d) }),
        refl,
      )

  pub deinit-IsValid :
      (udi : ℕ)
      → Ensures (λ r v. IsValidWith rk w.sgm.udi_control_head v.sgm) (sdrad_deinit p b udi w)
  deinit-IsValid udi = deinit_valid udi (sdrad_search_udi_control udi w.sgm.udi_control_head) refl

  root_state :
      (rsp : ℕ)
      → Ensures
          (λ r v. v.sgm ≡ record (w.sgm) {
            stm_ptr = update w.sgm.stm_ptr sti (
                some (record t {
                  sdrad_d_info =
                      update t.sdrad_d_info root_domain
                        (record (t.sdrad_d_info root_domain) { sdi_root_rsp = rsp - 8 + 16 });
                }));
          })
          (sdrad_enter_root p b rsp w)
  unfolding sdrad_enter_root sdrad_enter_root_base
  root_state rsp = ground arith

  pub enter_root-IsValid :
      (rsp : ℕ)
      → Ensures (λ r v. IsValidWith rk w.sgm.udi_control_head v.sgm) (sdrad_enter_root p b rsp w)
  enter_root-IsValid rsp = Ensures-mono _ _ (sdrad_enter_root p b rsp w) (root_state rsp) λ r v q.
      rw q (
        IsValid-put rk w.sgm ok sti _
            (record { active = sound.active; parents = λ d. ground (arith, sound.parents d) }),
        refl,
      )

  pub exit_root-IsValid :
      Ensures (λ r v. IsValidWith rk w.sgm.udi_control_head v.sgm) (sdrad_exit_root p b w)
  unfolding sdrad_exit_root sdrad_exit_root_base
  exit_root-IsValid = ground (arith, run)
