-- ===== src/Valid/Heaps.antt =====
-- Making a heap keeps the manager valid.
use secure_rewind_and_discar.Base.{
  ℕ, ◌≡◌, refl, inl, inr, false, arith, ◌==◌, Bool-cases, Option-cases,
}
use secure_rewind_and_discar.Base.Int.{ℤ}
use secure_rewind_and_discar.Codes.{root_domain}
use secure_rewind_and_discar.State.{DomainInfo, Thread, Manager}
use secure_rewind_and_discar.Platform.{Build, Platform}
use secure_rewind_and_discar.Slots.{sdrad_get_sti}
use secure_rewind_and_discar.Pools.{sdrad_heap_domain_init}
use secure_rewind_and_discar.Alloc.{free}
use secure_rewind_and_discar.Alloc.FirstUse.{ready, allocates_in_active}
use secure_rewind_and_discar.Machine.{World}
use secure_rewind_and_discar.Machine.Returns.{Returns}
use secure_rewind_and_discar.Running.{Running}
use secure_rewind_and_discar.Valid.{IsValid, IsValid-put}

-- The manager but for the threads' records.
abbrev pub SameTables : Manager → Manager → Type 0
SameTables g h = h ≡ record g { stm_ptr = h.stm_ptr }

pub heap_init_parent :
    {S : Type 0} (p : Platform S) (d : DomainInfo) (pkey : ℤ) (os : S)
    → (sdrad_heap_domain_init p d pkey os).0.sdi_parent_domain ≡ d.sdi_parent_domain
unfolding sdrad_heap_domain_init
heap_init_parent p d pkey os = refl

module _ {S : Type 0} (p : Platform S) (b : Build) (single : b.multithread ≡ false) (rk : ℕ) where
  -- The root thread runs.
  pub IsValid-Running :
      (w : World S) → IsValid rk w.sgm → (t : Thread) × Running p b w root_domain t
  unfolding sdrad_get_sti
  IsValid-Running w ok = elim (Option-cases (w.sgm.stm_ptr root_domain)) [
    | inl gone ↦ absurd (ok.present gone)
    | inr (t, here) ↦ (
      t,
      record {
        located = rw single refl;
        present = here;
        in_range = (ok.threads root_domain t here).active;
      },
    )
  ]

  module _ (w : World S) (ok : IsValid rk w.sgm) (t : Thread)
      (run : Running p b w root_domain t) where
    pub ready-IsValid :
        IsValid rk (ready p b w root_domain t run).sgm
        × SameTables w.sgm (ready p b w root_domain t run).sgm
    unfolding ready
    ready-IsValid = elim (Bool-cases (w.tlsf_structure == 0)) [
      | inr has ↦ rw has (ok, refl)
      | inl lacks ↦
          let sound = ok.threads root_domain t run.present in
          rw lacks (
            IsValid-put rk w.sgm ok root_domain _ (record {
              active = sound.active;
              parents = λ d. ground (
                arith,
                sound.parents d,
                heap_init_parent p (t.sdrad_d_info t.active_domain) (w.sgm.pdi t.active_domain)
                    w.os,
              );
            }),
            refl,
          )
    ]

    pub free-IsValid :
        (ptr : ℕ) → Returns (λ _ v. IsValid rk v.sgm × SameTables w.sgm v.sgm) (free p b ptr w)
    free-IsValid ptr = rw ((allocates_in_active p b w root_domain t run ptr 0 0).0) ready-IsValid
