-- ===== src/Alloc/FirstUse.antt =====
-- The first allocation in a domain makes its heap.
use secure_rewind_and_discar.Base.{ℕ, ◌≡◌, ◌≢◌, true, some, arith, ◌==◌, if◌then◌else◌, update}
use secure_rewind_and_discar.State.{DomainInfo, Thread}
use secure_rewind_and_discar.Platform.{Build, Platform}
use secure_rewind_and_discar.Pools.{sdrad_heap_domain_init}
use secure_rewind_and_discar.Machine.{World, done}
use secure_rewind_and_discar.Running.{Running}
use secure_rewind_and_discar.Alloc.{
  free, realloc, posix_memalign, malloc, first_use, make_active_heap, heap_init_at,
}

module _ {S : Type 0} (p : Platform S) (b : Build) (w : World S) (sti : ℕ) (t : Thread)
    (run : Running p b w sti t) where
  new_heap : DomainInfo × S
  new_heap =
      sdrad_heap_domain_init p (t.sdrad_d_info t.active_domain) (w.sgm.pdi t.active_domain) w.os

  -- The state in which the allocator is called: as it is, or with a new heap in the active domain.
  unfoldable pub ready : World S
  unfolding new_heap
  ready =
      if w.tlsf_structure == 0
      then record w {
        pkru = t.pkru_config t.active_domain;
        tlsf_structure = new_heap.0.sdi_tlsf;
        os = new_heap.1;
        sgm = record (w.sgm) {
          stm_ptr =
              update w.sgm.stm_ptr sti (
                some
                  (record t { sdrad_d_info = update t.sdrad_d_info t.active_domain new_heap.0 }));
        };
      }
      else w

  first_use_lem : first_use p b w ≡ done tt ready
  unfolding first_use make_active_heap heap_init_at ready
  first_use_lem = ground arith

  -- The allocation functions give the heap of the active domain to the domain's record and to the
  -- allocator at the first call only, with the rights set back to the domain's; then each makes one
  -- call of the allocator, on that heap, and changes nothing else.
  pub allocates_in_active :
      (ptr size align : ℕ)
      → (free p b ptr w
          ≡ done tt (record ready { os = p.tlsf_free ready.tlsf_structure ptr ready.os }))
        × (realloc p b ptr size w ≡ (
            let r = p.tlsf_realloc ready.tlsf_structure ptr size ready.os in
            done r.0 (record ready { os = r.1 })))
        × (posix_memalign p b align size w ≡ (
            let r = p.tlsf_memalign ready.tlsf_structure align size ready.os in
            done r.0 (record ready { os = r.1 })))
  unfolding free realloc posix_memalign
  allocates_in_active ptr size align = ground (arith, first_use_lem)

  make_lem : w.tlsf_structure ≡ 0 → make_active_heap p b (record w { pkru = 0 }) ≡ done tt ready
  unfolding make_active_heap heap_init_at ready
  make_lem unset = ground arith

  ready_lem : w.tlsf_structure ≢ 0 → ready ≡ w
  unfolding ready
  ready_lem set = ground arith

  -- After the constructor `malloc` does the same.
  pub malloc_in_active :
      w.sdrad_constructor_flag ≡ true
      → (size : ℕ)
      → malloc p b size w ≡ (
          let r = p.tlsf_malloc ready.tlsf_structure size ready.os in
          done r.0 (record ready { os = r.1 }))
  unfolding malloc
  malloc_in_active booted size = ground (arith, make_lem, ready_lem)
