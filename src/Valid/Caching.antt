-- ===== src/Valid/Caching.antt =====
-- The memory and the node of a domain that ends.
use secure_rewind_and_discar.Base.{
  ℕ, ◌≡◌, ◌≢◌, refl, inl, inr, false, ◌∷◌, arith, ◌==◌, ltb, if◌then◌else◌, Bool-cases,
  Option-cases,
}
use secure_rewind_and_discar.Base.Int.{ℤ, pos}
use secure_rewind_and_discar.Codes.{total_domain}
use secure_rewind_and_discar.State.{DomainInfo, CacheDomain}
use secure_rewind_and_discar.Platform.{Build, Platform}
use secure_rewind_and_discar.Control.{unlink}
use secure_rewind_and_discar.Alloc.{sdrad_malloc_mdd}
use secure_rewind_and_discar.Domain.{
  cache_entry, sdrad_insert_cache_domain, sdrad_delete_control_structure, sdrad_destroy_domain,
}
use secure_rewind_and_discar.Machine.{World, fault}
use secure_rewind_and_discar.Machine.Returns.{Returns}
use secure_rewind_and_discar.Machine.Ensures.{Ensures, Ensures-Returns}
use secure_rewind_and_discar.Valid.{IsValid, IsValid-cache, IsValid-unlink}
use secure_rewind_and_discar.Valid.Heaps.{IsValid-Running, SameTables, free-IsValid}

module _ {S : Type 0} where
  -- The state in which the freed node, if any, is given back.
  abbrev pub unlinked : (d : ℕ) → World S → World S
  unlinked d w = record w {
    sgm = record (w.sgm) { udi_control_head = (unlink d w.sgm.udi_control_head).0 };
  }

module _ {S : Type 0} (p : Platform S) where
  -- The new node, and the platform, when the node is deleted.
  abbrev pub cache_memory : World S → ℕ × S
  cache_memory w = p.tlsf_malloc w.sgm.sdrad_monitor_domain.smd_tlsf p.size_of_cache w.os

  abbrev pub entry : DomainInfo → (a : ℕ) → World S → CacheDomain
  entry d a w = cache_entry d (w.sgm.pdi a) (p.raw_cache (cache_memory w).0 (cache_memory w).1)

module _ {S : Type 0} (p : Platform S) (b : Build) where
  pub wiped : DomainInfo → S → S
  wiped d os =
      let os₁ = if b.zero_domain then p.bzero d.sdi_address_stack d.sdi_size_of_stack os else os in
      if d.sdi_init_heap_flag
      then (if b.zero_domain then p.bzero d.sdi_address_of_heap d.sdi_size_of_heap os₁ else os₁)
      else os₁

  abbrev pub cached : DomainInfo → (a : ℕ) → World S → World S
  cached d a w = record w {
    os = wiped d (cache_memory p w).1;
    sgm = record (w.sgm) { sgm_head = entry p d a w ∷ w.sgm.sgm_head };
  }

module _ {S : Type 0} (p : Platform S) (b : Build) (single : b.multithread ≡ false) (rk : ℕ) where
  pub delete-IsValid :
      (d : ℕ) (w : World S)
      → IsValid rk w.sgm
      → Returns
          (λ _ v. IsValid rk v.sgm × SameTables (unlinked d w).sgm v.sgm)
          (sdrad_delete_control_structure p b d w)
  unfolding sdrad_delete_control_structure
  delete-IsValid d w ok =
      let kept = IsValid-unlink rk w.sgm ok d in
      elim (Option-cases (unlink d w.sgm.udi_control_head).1) [
        | inl nothing ↦ rw nothing (kept, refl)
        | inr (node, something) ↦
            let (t, run) = IsValid-Running p b single rk (unlinked d w) kept in
            rw something (free-IsValid p b single rk (unlinked d w) kept t run node)
      ]

  destroy_domain_lem :
      (d : DomainInfo) (a : ℕ) (w : World S)
      → sdrad_destroy_domain p b d a w ≡ (
          if (cache_memory p w).0 == 0
          then fault
          else (if ltb a total_domain
              then sdrad_delete_control_structure p b a (cached p b d a w)
              else fault))
  unfolding sdrad_destroy_domain sdrad_insert_cache_domain sdrad_malloc_mdd wiped
  destroy_domain_lem d a w = ground arith

  entry_pkey :
      (d : DomainInfo) (pkey : ℤ) (c : CacheDomain) → (cache_entry d pkey c).scdi_pkey ≡ pkey
  unfolding cache_entry
  entry_pkey d pkey c = ground arith

  pub destroy_domain-IsValid :
      (d : DomainInfo) (a : ℕ) (w : World S)
      → IsValid rk w.sgm
      → w.sgm.pdi a ≢ pos rk
      → Ensures
          (λ _ v. IsValid rk v.sgm × SameTables (unlinked a (cached p b d a w)).sgm v.sgm)
          (sdrad_destroy_domain p b d a w)
  destroy_domain-IsValid d a w ok other_key =
      let key =
        entry_pkey d (w.sgm.pdi a) (p.raw_cache (cache_memory p w).0 (cache_memory p w).1) in
      let kept = IsValid-cache rk w.sgm ok (entry p d a w) (rw key other_key) in
      rw (destroy_domain_lem d a w) (elim (Bool-cases ((cache_memory p w).0 == 0)) [
        | inl gone ↦ rw gone tt
        | inr there ↦ elim (Bool-cases (ltb a total_domain)) [
          | inr out ↦ rw (there, out) tt
          | inl inside ↦
              rw (there, inside)
                (Ensures-Returns _ (sdrad_delete_control_structure p b a (cached p b d a w))
                  (delete-IsValid a (cached p b d a w) kept))
        ]
      ])
