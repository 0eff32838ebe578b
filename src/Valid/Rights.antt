-- ===== src/Valid/Rights.antt =====
-- Changing the rights between domains keeps the manager valid.
use secure_rewind_and_discar.Base.{ℕ, not, List, ◌==◌}
use secure_rewind_and_discar.Base.Int.{eqb_ℤ}
use secure_rewind_and_discar.State.{UdiControl, Thread}
use secure_rewind_and_discar.Platform.{Build, Platform}
use secure_rewind_and_discar.Machine.{World}
use secure_rewind_and_discar.Machine.Ensures.{Ensures}
use secure_rewind_and_discar.Protect.{sdrad_dprotect, protect, maker_info, domain_of}
use secure_rewind_and_discar.Valid.{IsValidWith, IsValid-put}
use secure_rewind_and_discar.Slots.{sdrad_get_sti}
use secure_rewind_and_discar.Valid.Keeps.{
  Keeps, Keeps-bind, Keeps-thread, Keeps-bounds, Keeps-index, Keeps-key, Keeps-if, Keeps-ℤ,
}

module _ {S : Type 0} (p : Platform S) (b : Build) (rk : ℕ) (l : List UdiControl) where
  maker_info-Keeps : (t : Thread) (ssdi : ℕ) → Keeps rk l (maker_info p b t ssdi)
  unfolding maker_info
  maker_info-Keeps t ssdi = Keeps-bounds rk l ssdi _ λ _ w.
      Keeps-if rk l (w.sgm.sgm_sdi_to_tdi ssdi == t.active_domain) _ _ (λ _ ok. ok)
        (Keeps-thread rk l (w.sgm.sgm_sdi_to_tdi ssdi) _ λ _ _ _ ok. ok) w

  protect-Keeps : (sdi ssdi access_status : ℕ) → Keeps rk l (protect p b sdi ssdi access_status)
  unfolding protect
  protect-Keeps sdi ssdi access_status =
      Keeps-index rk l (λ w. sdrad_get_sti b.multithread w.sgm (p.pthread_self w.os)) _
        λ sti. Keeps-thread rk l sti _ λ t sound.
          Keeps-bind rk l (maker_info p b t ssdi) _ (maker_info-Keeps t ssdi) λ d w.
            Keeps-bounds rk l d.sdi_parent_domain _
              (λ _. Keeps-bounds rk l t.active_domain _ λ _.
                Keeps-if rk l
                  (not (eqb_ℤ (w.sgm.pdi t.active_domain) (w.sgm.pdi d.sdi_parent_domain))) _ _
                  (λ _ ok. ok)
                  (Keeps-bounds rk l sdi _ λ _. Keeps-key rk l (w.sgm.pdi ssdi) _ λ key v valid. (
                    IsValid-put rk v.sgm valid.0 sti _
                        (record { active = sound.active; parents = sound.parents }),
                    valid.1,
                  )))
              w

  pub dprotect-IsValid :
      (udi source access_status : ℕ) (w : World S)
      → IsValidWith rk l w.sgm
      → Ensures (λ r v. IsValidWith rk l v.sgm) (sdrad_dprotect p b udi source access_status w)
  unfolding sdrad_dprotect
  dprotect-IsValid udi source access_status w ok =
      Keeps-ℤ rk l (domain_of udi w.sgm.udi_control_head) _ _
        (λ sdi.
          Keeps-ℤ rk l (domain_of source w.sgm.udi_control_head) _ _
            (λ ssdi. protect-Keeps sdi ssdi access_status) λ _ _ valid. valid)
        (λ _ _ valid. valid) (record w { pkru = 0 }) ok
