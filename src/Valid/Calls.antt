-- ===== src/Valid/Calls.antt =====
-- Allocation keeps the manager valid.
use secure_rewind_and_discar.Base.{
  arith, ℕ, ◌≡◌, ap, ◌∙◌, true, false, not, ◌&&◌, List, ◌==◌, if◌then◌else◌,
}
use secure_rewind_and_discar.Codes.{root_domain}
use secure_rewind_and_discar.State.{UdiControl, Manager, Thread, Tlsf}
use secure_rewind_and_discar.Platform.{Build, Platform}
use secure_rewind_and_discar.Control.{sdrad_search_udi_control}
use secure_rewind_and_discar.Pools.{sdrad_heap_domain_init}
use secure_rewind_and_discar.Alloc.{heap_init_at, malloc, realloc, posix_memalign, product}
use secure_rewind_and_discar.Alloc.FirstUse.{ready, allocates_in_active, malloc_in_active}
use secure_rewind_and_discar.UdiHeap.{
  borrow, heap_missing, heap_for_malloc, heap_for_realloc, heap_for_calloc, heap_for_memalign,
  within, find_heap, needs, sdrad_malloc, sdrad_realloc, sdrad_calloc, sdrad_memalign, sdrad_free,
}
use secure_rewind_and_discar.Machine.{World, Cmd, ◌>>=◌, ◌>>◌, pure, call_void, call}
use secure_rewind_and_discar.Machine.Ensures.{Ensures}
use secure_rewind_and_discar.Running.{Running}
use secure_rewind_and_discar.Valid.{IsValidWith, IsValid-put}
use secure_rewind_and_discar.Slots.{sdrad_get_sti}
use secure_rewind_and_discar.Valid.Keeps.{
  Keeps, Keeps-bind, Keeps-thread, Keeps-bounds, Keeps-index, Keeps-if, Keeps-ℤ, Sound-info,
}
use secure_rewind_and_discar.Valid.Heaps.{IsValid-Running, heap_init_parent, ready-IsValid}

module _ {S : Type 0} (rk : ℕ) (l : List UdiControl) (p : Platform S) (b : Build) where
  borrow-Keeps : (sti parent sdi : ℕ) → Keeps rk l (borrow {S = S} sti parent sdi)
  borrow-Keeps sti parent sdi = Keeps-thread rk l parent _ λ from known.
      Keeps-thread rk l sti _ λ t sound v valid. (
        IsValid-put rk v.sgm valid.0 sti _ (
            Sound-info t sdi (record (from.sdrad_d_info sdi) { sdi_init_heap_flag = true }) sound
              (known.parents sdi)),
        valid.1,
      )

  heap_init_at-Keeps : (sti d : ℕ) → Keeps rk l (heap_init_at p b sti d)
  unfolding heap_init_at
  heap_init_at-Keeps sti d = Keeps-bounds rk l d _ λ _. Keeps-thread rk l sti _ λ t sound v valid. (
    IsValid-put rk v.sgm valid.0 sti _ (
        Sound-info t d (sdrad_heap_domain_init p (t.sdrad_d_info d) (v.sgm.pdi d) v.os).0 sound
          (rw (heap_init_parent p (t.sdrad_d_info d) (v.sgm.pdi d) v.os) (sound.parents d))),
    valid.1,
  )

  missing-Keeps : (sti d : ℕ) → Keeps rk l (heap_missing p b sti d)
  unfolding heap_missing
  missing-Keeps sti d = Keeps-bounds rk l d _ λ _. Keeps-thread rk l sti _ λ _ _ _ valid. valid

  skip-Keeps : Keeps {S = S} rk l (pure tt)
  skip-Keeps w ok = ok

  malloc_heap-Keeps : (sti d : ℕ) → Keeps rk l (heap_for_malloc p b sti d)
  unfolding heap_for_malloc
  malloc_heap-Keeps sti d =
      Keeps-bind rk l (heap_missing p b sti d) _ (missing-Keeps sti d) λ missing w.
        let parent = w.sgm.sgm_sdi_to_tdi d in
        Keeps-if rk l (not missing) _ _ skip-Keeps
          (Keeps-if rk l (parent == sti) _ _ (heap_init_at-Keeps sti d) (
            Keeps-bind rk l (heap_missing p b parent d) _ (missing-Keeps parent d) λ parent_missing.
              Keeps-bind rk l (if parent_missing then heap_init_at p b parent d else pure tt) _
                (Keeps-if rk l parent_missing _ _ (heap_init_at-Keeps parent d) skip-Keeps)
                λ _. borrow-Keeps sti parent d))
          w

  realloc_heap-Keeps : (sti d : ℕ) → Keeps rk l (heap_for_realloc p b sti d)
  unfolding heap_for_realloc
  realloc_heap-Keeps sti d =
      Keeps-bind rk l (heap_missing p b sti d) _ (missing-Keeps sti d) λ missing w.
        let parent = w.sgm.sgm_sdi_to_tdi d in
        Keeps-if rk l (not missing) _ _ skip-Keeps
          (Keeps-if rk l (parent == sti) _ _ (heap_init_at-Keeps sti d) (
            Keeps-bind rk l (borrow sti parent d) _ (borrow-Keeps sti parent d) λ _.
              Keeps-bind rk l (heap_missing p b parent d) _ (missing-Keeps parent d)
                λ parent_missing.
                  Keeps-if rk l parent_missing _ _ (heap_init_at-Keeps parent d) skip-Keeps))
          w

  calloc_heap-Keeps : (sti d : ℕ) → Keeps rk l (heap_for_calloc p b sti d)
  unfolding heap_for_calloc
  calloc_heap-Keeps sti d =
      Keeps-bind rk l (heap_missing p b sti d) _ (missing-Keeps sti d) λ missing w.
        let parent = w.sgm.sgm_sdi_to_tdi d in
        Keeps-if rk l (not missing) _ _ skip-Keeps
          (Keeps-if rk l (parent == sti) _ _ (heap_init_at-Keeps sti d) (borrow-Keeps sti parent d))
          w

  memalign_heap-Keeps : (sti d : ℕ) → Keeps rk l (heap_for_memalign p b sti d)
  unfolding heap_for_memalign
  memalign_heap-Keeps sti d =
      Keeps-bind rk l (heap_missing p b sti d) _ (missing-Keeps sti d)
        λ missing. Keeps-if rk l missing _ _ (heap_init_at-Keeps sti d) skip-Keeps

  within-Keeps :
      (udi : ℕ) (heap : (sti sdi : ℕ) → Cmd S (Unit {0})) (run : Tlsf → Cmd S ℕ)
      → ((sti sdi : ℕ) → Keeps rk l (heap sti sdi))
      → ((tlsf : Tlsf) → Keeps rk l (run tlsf))
      → Keeps rk l (within p b udi heap run)
  unfolding within
  within-Keeps udi heap run heap_keeps run_keeps w ok =
      Keeps-index rk l (λ w. sdrad_get_sti b.multithread w.sgm (p.pthread_self w.os)) _
        (λ sti v.
          Keeps-ℤ rk l (sdrad_search_udi_control udi v.sgm.udi_control_head) _ _
            (λ sdi. Keeps-bind rk l (heap sti sdi) _ (heap_keeps sti sdi) λ _.
              Keeps-thread rk l sti _ λ t _.
                Keeps-bind rk l (run (t.sdrad_d_info sdi).sdi_tlsf) _ (run_keeps _) λ ptr.
                  Keeps-thread rk l sti _
                    λ u _. Keeps-bounds rk l u.active_domain _ λ _ _ valid. valid)
            (λ _ _ valid. valid) v)
        (record w { pkru = 0 }) ok

  pub malloc-Keeps : (udi size : ℕ) → Keeps rk l (sdrad_malloc p b udi size)
  unfolding sdrad_malloc
  malloc-Keeps udi size =
      within-Keeps udi (heap_for_malloc p b) (λ tlsf. call (p.tlsf_malloc tlsf size))
        malloc_heap-Keeps λ _ _ ok. ok

  needs-Keeps : (tlsf size : ℕ) → Keeps rk l (needs p b tlsf size)
  unfolding needs
  needs-Keeps tlsf size w ok = ground arith

  pub realloc-Keeps : (udi ptr size : ℕ) → Keeps rk l (sdrad_realloc p b udi ptr size)
  unfolding sdrad_realloc
  realloc-Keeps udi ptr size =
      within-Keeps udi (heap_for_realloc p b)
        (λ tlsf. do needs p b tlsf size; call (p.tlsf_realloc tlsf ptr size)) realloc_heap-Keeps
        λ tlsf. Keeps-bind rk l (needs p b tlsf size) _ (needs-Keeps tlsf size) λ _ _ ok. ok

  pub memalign-Keeps : (udi alignment size : ℕ) → Keeps rk l (sdrad_memalign p b udi alignment size)
  unfolding sdrad_memalign
  memalign-Keeps udi alignment size =
      within-Keeps udi (heap_for_memalign p b) (λ tlsf. call (p.tlsf_memalign tlsf alignment size))
        memalign_heap-Keeps λ _ _ ok. ok

  pub calloc-Keeps : (udi nelem elsize : ℕ) → Keeps rk l (sdrad_calloc p b udi nelem elsize)
  unfolding sdrad_calloc
  calloc-Keeps udi nelem elsize =
      let cleared : Tlsf → Cmd S ℕ = λ tlsf. do
        needs p b tlsf (product nelem elsize)
        ptr ← call (p.tlsf_malloc tlsf (product nelem elsize))
        if ptr == 0 then pure tt else call_void (p.bzero ptr (product nelem elsize))
        pure ptr
      in within-Keeps udi (heap_for_calloc p b) cleared calloc_heap-Keeps λ tlsf.
        Keeps-bind rk l (needs p b tlsf (product nelem elsize)) _
          (needs-Keeps tlsf (product nelem elsize))
          λ _.
            Keeps-bind rk l (call (p.tlsf_malloc tlsf (product nelem elsize))) _ (λ _ ok. ok)
              λ ptr.
                Keeps-bind rk l
                  (if ptr == 0 then pure tt else call_void (p.bzero ptr (product nelem elsize)))
                  (λ _. pure ptr) (Keeps-if rk l (ptr == 0) _ _ (λ _ ok. ok) (λ _ ok. ok))
                  λ _ _ ok. ok

  find_heap-Keeps : (sti udi ptr : ℕ) → Keeps rk l (find_heap p b sti udi ptr)
  unfolding find_heap
  find_heap-Keeps sti udi ptr w =
      Keeps-thread rk l sti _
        (λ t sound.
          Keeps-if rk l b.multithread _ _
            (Keeps-ℤ rk l (sdrad_search_udi_control udi w.sgm.udi_control_head) _ _
              (λ sdi.
                Keeps-bind rk l (heap_missing p b sti sdi) _ (missing-Keeps sti sdi) λ missing.
                  Keeps-bind rk l
                    (if missing && not (w.sgm.sgm_sdi_to_tdi sdi == sti)
                      then borrow sti (w.sgm.sgm_sdi_to_tdi sdi) sdi
                      else pure tt)
                    _
                    (Keeps-if rk l (missing && not (w.sgm.sgm_sdi_to_tdi sdi == sti)) _ _
                      (borrow-Keeps sti (w.sgm.sgm_sdi_to_tdi sdi) sdi) skip-Keeps)
                    λ _. Keeps-thread rk l sti _ λ _ _ _ ok. ok)
              λ _ _ ok. tt)
            (λ _ ok. ok))
        w

  pub sdrad_free-Keeps : (udi ptr : ℕ) → Keeps rk l (sdrad_free p b udi ptr)
  unfolding sdrad_free
  sdrad_free-Keeps udi ptr w ok =
      Keeps-index rk l (λ w. sdrad_get_sti b.multithread w.sgm (p.pthread_self w.os)) _
        (λ sti.
          Keeps-bind rk l (find_heap p b sti udi ptr) _ (find_heap-Keeps sti udi ptr) λ tlsf v.
            Keeps-thread rk l sti _ (λ t _. Keeps-bounds rk l t.active_domain _ λ _ _ valid. valid)
              (record v { os = p.tlsf_free tlsf ptr v.os }))
        (record w { pkru = 0 }) ok

  -- Of the C functions, once the constructor has run.
  module _ (single : b.multithread ≡ false) (w : World S) (ok : IsValidWith rk l w.sgm) where
    ready-With :
        (t : Thread) (run : Running p b w root_domain t)
        → IsValidWith rk l (ready p b w root_domain t run).sgm
    ready-With t run =
        let (valid, same) = ready-IsValid p b single rk w ok.0 t run in
        (valid, ap (λ (g : Manager). g.udi_control_head) same ∙ ok.1)

    pub c_malloc-IsValid :
        w.sdrad_constructor_flag ≡ true
        → (size : ℕ) → Ensures (λ r v. IsValidWith rk l v.sgm) (malloc p b size w)
    c_malloc-IsValid booted size =
        let (t, run) = IsValid-Running p b single rk w ok.0 in
        rw (malloc_in_active p b w root_domain t run booted size) (ready-With t run)

    pub c_realloc-IsValid :
        (ptr size : ℕ) → Ensures (λ r v. IsValidWith rk l v.sgm) (realloc p b ptr size w)
    c_realloc-IsValid ptr size =
        let (t, run) = IsValid-Running p b single rk w ok.0 in
        rw ((allocates_in_active p b w root_domain t run ptr size 0).1) (ready-With t run)

    pub c_memalign-IsValid :
        (alignment size : ℕ)
        → Ensures (λ r v. IsValidWith rk l v.sgm) (posix_memalign p b alignment size w)
    c_memalign-IsValid alignment size =
        let (t, run) = IsValid-Running p b single rk w ok.0 in
        rw ((allocates_in_active p b w root_domain t run 0 size alignment).2) (ready-With t run)
