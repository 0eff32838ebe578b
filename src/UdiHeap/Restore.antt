-- ===== src/UdiHeap/Restore.antt =====
-- The heap functions that take a user index: what they leave of the rights.
use secure_rewind_and_discar.Base.{
  Bool-cases, inl, inr, ℕ, ◌<◌, ◌≡◌, ◌≢◌, refl, some, arith, if◌then◌else◌, update,
}
use secure_rewind_and_discar.Base.Int.{pos, negsuc}
use secure_rewind_and_discar.Codes.{total_domain}
use secure_rewind_and_discar.State.{DomainInfo, Thread}
use secure_rewind_and_discar.Platform.{Build, Platform}
use secure_rewind_and_discar.Control.{sdrad_search_udi_control}
use secure_rewind_and_discar.Machine.{World, done}
use secure_rewind_and_discar.Machine.Returns.{Returns}
use secure_rewind_and_discar.Running.{Running}
use secure_rewind_and_discar.Pools.{sdrad_heap_domain_init}
use secure_rewind_and_discar.Alloc.{heap_init_at}
use secure_rewind_and_discar.UdiHeap.{
  sdrad_malloc, sdrad_realloc, sdrad_memalign, sdrad_calloc, no_domain_pointer, heap_for_malloc,
}

module _ {S : Type 0} (p : Platform S) (b : Build) (w : World S) (sti udi : ℕ) (t : Thread)
    (run : Running p b w sti t) where
  -- Each of the four allocation functions gives the error code as its pointer when the user index stands
  -- for no domain; nothing has changed but the register, which is left with all rights.
  pub heap_refused :
      (n size align ptr nelem elsize : ℕ)
      → sdrad_search_udi_control udi w.sgm.udi_control_head ≡ negsuc n
      → let refused = done no_domain_pointer (record w { pkru = 0 }) in
        (sdrad_malloc p b udi size w ≡ refused)
        × (sdrad_realloc p b udi ptr size w ≡ refused)
        × (sdrad_memalign p b udi align size w ≡ refused)
        × (sdrad_calloc p b udi nelem elsize w ≡ refused)
  unfolding sdrad_malloc sdrad_realloc sdrad_memalign sdrad_calloc
  heap_refused n size align ptr nelem elsize h = ground arith

  module _ (sdi : ℕ) (mapped : sdrad_search_udi_control udi w.sgm.udi_control_head ≡ pos sdi)
      (inside : sdi < total_domain) (own : w.sgm.sgm_sdi_to_tdi sdi ≡ sti) where
    -- The record of the domain and the platform once the domain has a heap.
    unfoldable pub with_heap : DomainInfo × S
    with_heap =
        if (t.sdrad_d_info sdi).sdi_init_heap_flag
        then (t.sdrad_d_info sdi, w.os)
        else sdrad_heap_domain_init p (t.sdrad_d_info sdi) (w.sgm.pdi sdi) w.os

    heaped : World S
    unfolding with_heap
    heaped = record w {
      pkru = 0;
      os = with_heap.1;
      sgm = record (w.sgm) {
        stm_ptr =
            if (t.sdrad_d_info sdi).sdi_init_heap_flag
            then w.sgm.stm_ptr
            else update w.sgm.stm_ptr sti
                (some (record t { sdrad_d_info = update t.sdrad_d_info sdi with_heap.0 }));
      };
    }

    heap_lem : heap_for_malloc p b sti sdi (record w { pkru = 0 }) ≡ done tt heaped
    unfolding heap_for_malloc heap_init_at heaped
    heap_lem = ground arith

    heap_present :
        (u : Thread) × (heaped.sgm.stm_ptr sti ≡ some u)
        × (u.sdrad_d_info sdi ≡ with_heap.0)
        × (u.active_domain ≡ t.active_domain)
        × (u.pkru_config ≡ t.pkru_config)
    unfolding heaped
    heap_present = elim (Bool-cases (t.sdrad_d_info sdi).sdi_init_heap_flag) [
      | inl has ↦ (t, ground arith, ground arith, refl, refl)
      | inr lacks ↦ (
        record t { sdrad_d_info = update t.sdrad_d_info sdi with_heap.0 },
        ground arith,
        ground arith,
        refl,
        refl,
      )
    ]

    heaped_rest :
        (heaped.os ≡ with_heap.1)
        × (heaped.tlsf_structure ≡ w.tlsf_structure)
        × (heaped.sgm ≡ record (w.sgm) { stm_ptr = heaped.sgm.stm_ptr })
    unfolding heaped
    heaped_rest = (refl, refl, refl)

    pub with_heap_keeps :
        (with_heap.0.sdi_options ≡ (t.sdrad_d_info sdi).sdi_options)
        × (with_heap.0.sdi_saved_ex ≡ (t.sdrad_d_info sdi).sdi_saved_ex)
        × (with_heap.0.sdi_parent_domain ≡ (t.sdrad_d_info sdi).sdi_parent_domain)
    unfolding with_heap sdrad_heap_domain_init
    with_heap_keeps = ground arith

    heap_others :
        (u : Thread) (d : ℕ)
        → heaped.sgm.stm_ptr sti ≡ some u
        → sdi ≢ d
        → u.sdrad_d_info d ≡ t.sdrad_d_info d
    unfolding heaped
    heap_others u d e other = ground arith

    -- The thread's record and the rest of the state afterwards.
    pub malloc_lem :
        (size : ℕ)
        → (u : Thread) × (x : World S) × ((ptr : ℕ) × (sdrad_malloc p b udi size w ≡ done ptr x))
          × (x.sgm.stm_ptr sti ≡ some u)
          × (x.sgm ≡ record (w.sgm) { stm_ptr = x.sgm.stm_ptr })
          × (u.sdrad_d_info sdi ≡ with_heap.0)
          × (u.active_domain ≡ t.active_domain)
          × (u.pkru_config ≡ t.pkru_config)
          × ((d : ℕ) → sdi ≢ d → u.sdrad_d_info d ≡ t.sdrad_d_info d)
    unfolding sdrad_malloc
    malloc_lem size =
        let (u, present, heap, active, config) = heap_present in
        let r = p.tlsf_malloc with_heap.0.sdi_tlsf size with_heap.1 in
        (
          u,
          record heaped { os = r.1; pkru = t.pkru_config t.active_domain },
          (r.0, ground (arith, heap_lem, heaped_rest, present, heap, active, config)),
          present,
          heaped_rest.2,
          heap,
          active,
          config,
          λ d other. heap_others u d present other,
        )

    -- In a domain that the calling thread made, `sdrad_malloc` makes the heap if there is none yet, asks
    -- the domain's own allocator for the memory, and ends with the rights of the active domain; of the
    -- manager nothing but the threads' records can have changed.
    pub malloc_own :
        (size : ℕ)
        → Returns
            (λ ptr v.
              (ptr ≡ (p.tlsf_malloc with_heap.0.sdi_tlsf size with_heap.1).0)
              × (v.os ≡ (p.tlsf_malloc with_heap.0.sdi_tlsf size with_heap.1).1)
              × (v.pkru ≡ t.pkru_config t.active_domain)
              × (v.tlsf_structure ≡ w.tlsf_structure)
              × (v.sgm ≡ record (w.sgm) { stm_ptr = v.sgm.stm_ptr }))
            (sdrad_malloc p b udi size w)
    unfolding sdrad_malloc
    malloc_own size =
        let (u, present, heap, active, config) = heap_present in
        ground (arith, heap_lem, heaped_rest, present, heap, active, config)
