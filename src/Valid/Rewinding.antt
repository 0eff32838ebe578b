-- ===== src/Valid/Rewinding.antt =====
-- The rewinding after a fault keeps the manager valid.
use secure_rewind_and_discar.Base.{ℕ, ◌≡◌, ◌≢◌, refl, ap, false, some, arith, update, All}
use secure_rewind_and_discar.Base.Int.{ℤ, pos, negsuc}
use secure_rewind_and_discar.Codes.{
  root_domain, domain_nonoccupied, sdrad_return_to_parent, has_flag,
}
use secure_rewind_and_discar.State.{DomainInfo, Thread, Manager}
use secure_rewind_and_discar.Platform.{Build, Platform}
use secure_rewind_and_discar.Control.{sdrad_search_udi_control, unlink}
use secure_rewind_and_discar.Domain.{sdrad_destroy_domain}
use secure_rewind_and_discar.Machine.{World, Run, done, ◌>>◌, and_then}
use secure_rewind_and_discar.Machine.Ensures.{Ensures, Ensures-and_then, Ensures-mono}
use secure_rewind_and_discar.Running.{Running}
use secure_rewind_and_discar.Rewind.{sdrad_init_destroy, hand_over, unmap}
use secure_rewind_and_discar.Machine.{modify_sgm}
use secure_rewind_and_discar.Control.Gone.{unlink-gone}
use secure_rewind_and_discar.Valid.{
  IsValid, IsValidWith, IsValid-put, IsValid-free, IsValid-clear, Sound, found-Occupied,
}
use secure_rewind_and_discar.Valid.Heaps.{IsValid-Running, SameTables}
use secure_rewind_and_discar.Valid.Caching.{unlinked, cached, destroy_domain-IsValid}

module _ {S : Type 0} (p : Platform S) (b : Build) (single : b.multithread ≡ false) (rk : ℕ) where
  -- After the fault: the active domain is destroyed, its slot is freed, and its parent goes on.
  module _ (rk_pos : rk ≢ 0) (udi : ℕ) (w : World S) (ok : IsValid rk w.sgm) (t : Thread)
      (run : Running p b w root_domain t) (other_key : w.sgm.pdi t.active_domain ≢ pos rk)
      (to_current : has_flag (t.sdrad_d_info t.active_domain).sdi_options sdrad_return_to_parent
        ≡ false) where
    d : DomainInfo
    d = t.sdrad_d_info t.active_domain

    sound : Sound t
    sound = ok.threads root_domain t run.present

    -- The state in which the domain is destroyed.
    left : World S
    unfolding d
    left = record w {
      pkru = 0;
      sgm = record (w.sgm) {
        stm_ptr =
            update w.sgm.stm_ptr root_domain
              (some (record t { active_domain = d.sdi_parent_domain }));
      };
    }

    left-IsValid : IsValid rk left.sgm
    unfolding left
    left-IsValid =
        IsValid-put rk w.sgm ok root_domain _
          (record { active = sound.parents t.active_domain; parents = sound.parents })

    -- What follows the destruction.
    abbrev settle : ℤ → World S → Run S ℕ
    settle z = do
      modify_sgm (λ g. record g { status = update g.status t.active_domain domain_nonoccupied })
      hand_over p b root_domain t.active_domain
      unmap p b z
      (λ x. done udi x)

    rewind_lem :
        sdrad_init_destroy p b udi w
        ≡ and_then
            (sdrad_destroy_domain p b d t.active_domain left)
            λ _. settle (sdrad_search_udi_control udi w.sgm.udi_control_head)
    unfolding sdrad_init_destroy left
    rewind_lem = ground arith

    settle_state :
        (v : World S) (u : Thread) (i : ℕ)
        → v.sgm.stm_ptr root_domain ≡ some u
        → Ensures
            (λ r z. z.sgm ≡ record (v.sgm) {
              status = update v.sgm.status t.active_domain domain_nonoccupied;
              stm_ptr = update v.sgm.stm_ptr root_domain (
                  some (record u {
                    active_domain = (u.sdrad_d_info t.active_domain).sdi_parent_domain;
                  }));
              sgm_udi_to_sdi = update v.sgm.sgm_udi_to_sdi i 0;
              pdi = update v.sgm.pdi i (pos 0);
            })
            (settle (pos i) v)
    unfolding hand_over unmap
    settle_state v u i there = ground arith

    settle-IsValid :
        (v : World S) (z : ℤ)
        → IsValid rk v.sgm
        → SameTables (unlinked t.active_domain (cached p b d t.active_domain left)).sgm v.sgm
        → sdrad_search_udi_control udi w.sgm.udi_control_head ≡ z
        → Ensures
            (λ r x. IsValidWith rk (unlink t.active_domain w.sgm.udi_control_head).0 x.sgm)
            (settle z v)
    unfolding hand_over unmap left
    settle-IsValid v (negsuc m) valid same e = ground arith
    settle-IsValid v (pos i) valid same e =
        let (u, here) = IsValid-Running p b single rk v valid in
        let known = valid.threads root_domain u here.present in
        let active_other : t.active_domain ≢ root_domain =
          λ q. ground (arith, q, other_key, ok.root_key) in
        let found =
          found-Occupied rk udi i w.sgm.status w.sgm.pdi w.sgm.udi_control_head ok.listed e in
        let i_other : i ≢ root_domain = λ q. ground (arith, q, found, ok.root_key) in
        let gone : All (λ o. o.sdi ≢ t.active_domain) v.sgm.udi_control_head =
          rw (ap (λ (g : Manager). g.udi_control_head) same)
            (unlink-gone t.active_domain w.sgm.udi_control_head ok.distinct) in
        let freed = IsValid-free rk v.sgm valid t.active_domain active_other gone in
        let put =
          IsValid-put rk _ freed root_domain
            (record u { active_domain = (u.sdrad_d_info t.active_domain).sdi_parent_domain })
            (record { active = known.parents t.active_domain; parents = known.parents }) in
        Ensures-mono _ _ (settle (pos i) v) (settle_state v u i here.present) λ r x q.
          rw q
            (IsValid-clear rk _ put i rk_pos i_other, ap (λ (g : Manager). g.udi_control_head) same)

    pub rewind-IsValid :
        Ensures
          (λ r v. IsValidWith rk (unlink t.active_domain w.sgm.udi_control_head).0 v.sgm)
          (sdrad_init_destroy p b udi w)
    unfolding left d
    rewind-IsValid = rw rewind_lem (
        Ensures-and_then _ _ (sdrad_destroy_domain p b d t.active_domain left) _
          (destroy_domain-IsValid p b single rk d t.active_domain left left-IsValid other_key)
          λ _ v (valid, same).
            settle-IsValid v (sdrad_search_udi_control udi w.sgm.udi_control_head) valid same refl)
