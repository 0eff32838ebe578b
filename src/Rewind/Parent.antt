-- ===== src/Rewind/Parent.antt =====
-- The rewinding of a domain that is made with SDRAD_RETURN_TO_PARENT.
use secure_rewind_and_discar.Base.{ℕ, ◌<◌, ◌≡◌, ◌≢◌, refl, ap, ◌∙◌, true, some, ◌∷◌, arith, update}
use secure_rewind_and_discar.Base.Int.{pos}
use secure_rewind_and_discar.Codes.{
  total_domain, domain_nonoccupied, sdrad_return_to_parent, has_flag,
}
use secure_rewind_and_discar.State.{DomainInfo, CacheDomain, Thread, Manager}
use secure_rewind_and_discar.Platform.{Build, Platform}
use secure_rewind_and_discar.Control.{sdrad_search_udi_control, unlink}
use secure_rewind_and_discar.Alloc.{sdrad_malloc_mdd, free, first_use}
use secure_rewind_and_discar.Domain.{
  cache_entry, sdrad_destroy_domain, sdrad_insert_cache_domain, sdrad_delete_control_structure,
}
use secure_rewind_and_discar.Machine.{World, Run, done, modify_sgm, thread, ◌>>=◌, ◌>>◌, and_then}
use secure_rewind_and_discar.Machine.Ensures.{Ensures, Returns-Ensures}
use secure_rewind_and_discar.Machine.Returns.{Returns, Returns-and_then, Returns-mono}
use secure_rewind_and_discar.Running.{Running, active_of}
use secure_rewind_and_discar.Rewind.{sdrad_init_destroy, leave, hand_over, unmap, set_active}

module _ {S : Type 0} (p : Platform S) (b : Build) where
  entry : DomainInfo → (a : ℕ) → World S → CacheDomain
  entry d a w =
      let node = p.tlsf_malloc w.sgm.sdrad_monitor_domain.smd_tlsf p.size_of_cache w.os in
      cache_entry d (w.sgm.pdi a) (p.raw_cache node.0 node.1)

  entry_facts :
      (d : DomainInfo) (a : ℕ) (w : World S)
      → ((entry d a w).scdi_pkey ≡ w.sgm.pdi a)
        × ((entry d a w).scdi_address_stack ≡ d.sdi_address_stack)
  unfolding entry cache_entry
  entry_facts d a w = ground arith

  destroy_lem :
      (d : DomainInfo) (a : ℕ) (w : World S)
      → a < total_domain
      → (p.tlsf_malloc w.sgm.sdrad_monitor_domain.smd_tlsf p.size_of_cache w.os).0 ≢ 0
      → w.tlsf_structure ≢ 0
      → Returns
          (λ _ v.
            (v.sgm ≡ record (w.sgm) {
              sgm_head = entry d a w ∷ w.sgm.sgm_head;
              udi_control_head = (unlink a w.sgm.udi_control_head).0;
            })
            × (v.tlsf_structure ≡ w.tlsf_structure))
          (sdrad_destroy_domain p b d a w)
  unfolding sdrad_destroy_domain sdrad_insert_cache_domain sdrad_malloc_mdd
      sdrad_delete_control_structure free first_use entry
  destroy_lem d a w inside memory allocator = ground arith

module _ {S : Type 0} (p : Platform S) (b : Build) (w : World S) (sti udi : ℕ) (t : Thread)
    (run : Running p b w sti t)
    (mapped : sdrad_search_udi_control udi w.sgm.udi_control_head ≡ pos t.active_domain)
    (to_parent : has_flag (t.sdrad_d_info t.active_domain).sdi_options sdrad_return_to_parent
      ≡ true)
    (parent_inside : (t.sdrad_d_info t.active_domain).sdi_parent_domain < total_domain)
    (allocator : w.tlsf_structure ≢ 0)
    (memory : (p.tlsf_malloc w.sgm.sdrad_monitor_domain.smd_tlsf p.size_of_cache w.os).0 ≢ 0) where
  abbrev d : DomainInfo
  d = t.sdrad_d_info t.active_domain

  -- The thread has gone on in the grandparent.
  abbrev grand : Thread
  grand = record t {
    active_domain =
        (t.sdrad_d_info (t.sdrad_d_info t.active_domain).sdi_parent_domain).sdi_parent_domain;
  }

  abbrev left : World S
  left = record w {
    pkru = 0;
    sgm = record (w.sgm) { stm_ptr = update w.sgm.stm_ptr sti (some grand) };
  }

  abbrev settle : World S → Run S ℕ
  settle = do
    modify_sgm (λ g. record g { status = update g.status t.active_domain domain_nonoccupied })
    hand_over p b sti t.active_domain
    unmap p b (pos t.active_domain)
    (λ x. done udi x)

  abbrev second : World S → Run S ℕ
  second = do
    u ← thread sti
    sdrad_destroy_domain p b (u.sdrad_d_info t.active_domain) t.active_domain
    settle

  first_lem :
      sdrad_init_destroy p b udi w
      ≡ and_then (sdrad_destroy_domain p b d d.sdi_parent_domain left) λ _. second
  unfolding sdrad_init_destroy leave set_active
  first_lem = ground arith

  second_lem :
      (v : World S)
      → v.sgm.stm_ptr sti ≡ some grand
      → second v ≡ and_then (sdrad_destroy_domain p b d t.active_domain v) λ _. settle
  second_lem v here = ground arith

  settle_lem :
      (v : World S)
      → v.sgm.stm_ptr sti ≡ some grand
      → Returns
          (λ r z.
            (r ≡ udi)
            × (z.sgm ≡ record (v.sgm) {
              status = update v.sgm.status t.active_domain domain_nonoccupied;
              stm_ptr =
                  update v.sgm.stm_ptr sti
                    (some (record grand { active_domain = d.sdi_parent_domain }));
              sgm_udi_to_sdi = update v.sgm.sgm_udi_to_sdi t.active_domain 0;
              pdi = update v.sgm.pdi t.active_domain (pos 0);
            }))
          (settle v)
  unfolding hand_over unmap set_active
  settle_lem v here = ground (arith, run)

  -- Rewinding the active domain of a thread under SDRAD_RETURN_TO_PARENT, when the user index given is
  -- the domain's, its parent is a domain, an allocator is set, and the monitor's heap has memory for a
  -- cache node at first and again after the parent's end, ends the parent too. The list nodes of both
  -- are unlinked, and only the slot of the faulting domain is freed. The cache gets two nodes, with the
  -- keys of the two domains, but with the stack of the faulting domain in both; and the active domain
  -- is the parent, which has just been destroyed.
  pub parent_destroyed :
      Ensures
        (λ _ v. (p.tlsf_malloc w.sgm.sdrad_monitor_domain.smd_tlsf p.size_of_cache v.os).0 ≢ 0)
        (sdrad_destroy_domain p b d d.sdi_parent_domain left)
      → Returns
          (λ r z.
            (r ≡ udi)
            × (active_of z sti ≡ some d.sdi_parent_domain)
            × (z.sgm.udi_control_head
                ≡ (unlink t.active_domain (unlink d.sdi_parent_domain w.sgm.udi_control_head).0).0)
            × (z.sgm.status ≡ update w.sgm.status t.active_domain domain_nonoccupied)
            × ((new old : CacheDomain) × (z.sgm.sgm_head ≡ new ∷ old ∷ w.sgm.sgm_head)
                × (new.scdi_pkey ≡ w.sgm.pdi t.active_domain)
                × (old.scdi_pkey ≡ w.sgm.pdi d.sdi_parent_domain)
                × (new.scdi_address_stack ≡ d.sdi_address_stack)
                × (old.scdi_address_stack ≡ d.sdi_address_stack)))
          (sdrad_init_destroy p b udi w)
  parent_destroyed again = rw first_lem (
      Returns-and_then _ _ (sdrad_destroy_domain p b d d.sdi_parent_domain left) _
        (Returns-Ensures _ _ (sdrad_destroy_domain p b d d.sdi_parent_domain left)
          (destroy_lem p b d d.sdi_parent_domain left parent_inside memory allocator) again)
        λ _ v ((one, tlsf), room).
          let here : v.sgm.stm_ptr sti ≡ some grand = rw one (ground arith) in
          rw (second_lem v here) (
            Returns-and_then _ _ (sdrad_destroy_domain p b d t.active_domain v) _
              (destroy_lem p b d t.active_domain v run.in_range (rw one room) (rw tlsf allocator))
              λ _ x (two, _).
                let there : x.sgm.stm_ptr sti ≡ some grand = rw (two, one) (ground arith) in
                Returns-mono _ _ (settle x) (settle_lem x there) λ r z (is, three).
                  let old = entry_facts p b d d.sdi_parent_domain left in
                  let new = entry_facts p b d t.active_domain v in
                  (
                    is,
                    rw three (ground arith),
                    rw (three, two, one) refl,
                    rw (three, two, one) refl,
                    (
                      entry p b d t.active_domain v,
                      entry p b d d.sdi_parent_domain left,
                      ground (arith, three, two, one),
                      new.0 ∙ ap (λ (g : Manager). g.pdi t.active_domain) one,
                      old.0,
                      new.1,
                      old.1,
                    ),
                  )))
