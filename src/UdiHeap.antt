-- ===== src/UdiHeap.antt =====
-- Allocation in the heap of a given domain (src/sdrad_heap_mng.c), and the search for the heap that an
-- address lies in (src/sdrad.c).
pub mod Restore
pub mod Search
pub mod Exclusive
pub mod Borrow
use secure_rewind_and_discar.Base.{
  ℕ, ◌+◌, ◌-◌, ◌^◌, Bool, true, not, ◌&&◌, List, [], ◌∷◌, ◌==◌, ltb, if◌then◌else◌, update,
}
use secure_rewind_and_discar.Base.Int.{ℤ, pos, negsuc}
use secure_rewind_and_discar.Codes.{root_domain}
use secure_rewind_and_discar.State.{Tlsf, DomainInfo, UdiControl, Thread, Manager}
use secure_rewind_and_discar.Platform.{Build, Platform}
use secure_rewind_and_discar.Pkey.{pkru_all_unset}
use secure_rewind_and_discar.Control.{sdrad_search_udi_control}
use secure_rewind_and_discar.Alloc.{current, heap_init_at, product}
use secure_rewind_and_discar.Machine.{
  World, Cmd, pure, fail, and_then, ◌>>=◌, ◌>>◌, get, get_sgm, call, call_void, deref,
  sdrad_store_pkru_config, in_bounds, thread, put_thread,
}

-- SDRAD_ERROR_NO_DOMAIN as a pointer.
abbrev pub no_domain_pointer : ℕ
no_domain_pointer = 2 ^ 64 - 6

pub holds : DomainInfo → (ptr : ℕ) → Bool
holds d ptr = ltb d.sdi_tlsf ptr && ltb ptr (d.sdi_tlsf + d.sdi_size_of_heap)

pub search_tlsf : (ℕ → DomainInfo) → (ptr : ℕ) → List UdiControl → Tlsf
unfolding holds
search_tlsf info ptr [] = 0
search_tlsf info ptr (c ∷ rest) =
    if holds (info c.sdi) ptr then (info c.sdi).sdi_tlsf else search_tlsf info ptr rest

-- The root domain's heap first, then those of the list; NULL if none holds the address.
unfoldable pub sdrad_search_tlsf_control : (ptr : ℕ) → Manager → Thread → Tlsf
unfolding search_tlsf holds
sdrad_search_tlsf_control ptr g t =
    if holds (t.sdrad_d_info root_domain) ptr
    then (t.sdrad_d_info root_domain).sdi_tlsf
    else search_tlsf t.sdrad_d_info ptr g.udi_control_head

-- `memcpy(sdi_ptr, shm_parent_ptr, ...)` and `sdi_ptr->sdi_init_heap_flag = true`.
abbrev pub borrow : {S : Type 0} → (sti parent sdi : ℕ) → Cmd S (Unit {0})
borrow sti parent sdi = do
  from ← thread parent
  t ← thread sti
  put_thread sti (record t {
    sdrad_d_info =
        update t.sdrad_d_info sdi (record (from.sdrad_d_info sdi) { sdi_init_heap_flag = true });
  })

module _ {S : Type 0} (p : Platform S) (b : Build) where
  unfoldable pub heap_missing : (sti sdi : ℕ) → Cmd S Bool
  heap_missing sti sdi = do
    in_bounds sdi
    t ← thread sti
    pure (not (t.sdrad_d_info sdi).sdi_init_heap_flag)

  -- The heap of a domain that another thread made is taken over from that thread.
  unfoldable pub heap_for_malloc : (sti sdi : ℕ) → Cmd S (Unit {0})
  unfolding heap_missing
  heap_for_malloc sti sdi = do
    missing ← heap_missing sti sdi
    g ← get_sgm
    let parent = g.sgm_sdi_to_tdi sdi
    if not missing
        then pure tt
        else (if parent == sti then heap_init_at p b sti sdi else (do
          parent_missing ← heap_missing parent sdi
          if parent_missing then heap_init_at p b parent sdi else pure tt
          borrow sti parent sdi))

  -- `sdrad_realloc` copies the record before it makes the heap.
  unfoldable pub heap_for_realloc : (sti sdi : ℕ) → Cmd S (Unit {0})
  unfolding heap_missing
  heap_for_realloc sti sdi = do
    missing ← heap_missing sti sdi
    g ← get_sgm
    let parent = g.sgm_sdi_to_tdi sdi
    if not missing
        then pure tt
        else (if parent == sti then heap_init_at p b sti sdi else (do
          borrow sti parent sdi
          parent_missing ← heap_missing parent sdi
          if parent_missing then heap_init_at p b parent sdi else pure tt))

  -- `sdrad_calloc` does not make it at all.
  unfoldable pub heap_for_calloc : (sti sdi : ℕ) → Cmd S (Unit {0})
  unfolding heap_missing
  heap_for_calloc sti sdi = do
    missing ← heap_missing sti sdi
    g ← get_sgm
    let parent = g.sgm_sdi_to_tdi sdi
    if not missing
        then pure tt
        else (if parent == sti then heap_init_at p b sti sdi else borrow sti parent sdi)

  unfoldable pub heap_for_memalign : (sti sdi : ℕ) → Cmd S (Unit {0})
  unfolding heap_missing
  heap_for_memalign sti sdi = do
    missing ← heap_missing sti sdi
    if missing then heap_init_at p b sti sdi else pure tt

  -- What the four functions share: all rights, the domain of the index (a negative one is the error),
  -- the heap, the allocation, and the rights of the active domain again.
  unfoldable pub within :
      (udi : ℕ) (heap : (sti sdi : ℕ) → Cmd S (Unit {0})) (run : Tlsf → Cmd S ℕ) → Cmd S ℕ
  within udi heap run = do
    sdrad_store_pkru_config pkru_all_unset
    sti ← current p b
    g ← get_sgm
    elim (sdrad_search_udi_control udi g.udi_control_head) [
      | negsuc _ ↦ pure no_domain_pointer
      | pos sdi ↦ do
        heap sti sdi
        t ← thread sti
        ptr ← run (t.sdrad_d_info sdi).sdi_tlsf
        t ← thread sti
        in_bounds t.active_domain
        sdrad_store_pkru_config (t.pkru_config t.active_domain)
        pure ptr
    ]

  unfoldable pub sdrad_malloc : (udi size : ℕ) → Cmd S ℕ
  unfolding within
  sdrad_malloc udi size = within udi heap_for_malloc (λ tlsf. call (p.tlsf_malloc tlsf size))

  -- A request of some bytes reads the allocator's control block, which is not at 0.
  unfoldable pub needs : Tlsf → (size : ℕ) → Cmd S (Unit {0})
  needs tlsf size = if size == 0 then pure tt else deref tlsf

  unfoldable pub sdrad_realloc : (udi ptr size : ℕ) → Cmd S ℕ
  unfolding within needs
  sdrad_realloc udi ptr size =
      within udi heap_for_realloc (λ tlsf. do needs tlsf size; call (p.tlsf_realloc tlsf ptr size))

  -- The result is what is stored through `memptr`, or the error code.
  unfoldable pub sdrad_memalign : (udi alignment size : ℕ) → Cmd S ℕ
  unfolding within
  sdrad_memalign udi alignment size =
      within udi heap_for_memalign (λ tlsf. call (p.tlsf_memalign tlsf alignment size))

  unfoldable pub sdrad_calloc : (udi nelem elsize : ℕ) → Cmd S ℕ
  unfolding within needs
  sdrad_calloc udi nelem elsize = within udi heap_for_calloc λ tlsf. do
    needs tlsf (product nelem elsize)
    ptr ← call (p.tlsf_malloc tlsf (product nelem elsize))
    if ptr == 0 then pure tt else call_void (p.bzero ptr (product nelem elsize))
    pure ptr

  -- In the multithreaded build the domain of the index, and another thread's heap, if the thread has
  -- none of its own; otherwise the heap that the address lies in.
  unfoldable pub find_heap : (sti udi ptr : ℕ) → Cmd S Tlsf
  unfolding heap_missing
  find_heap sti udi ptr = do
    g ← get_sgm
    t ← thread sti
    let here : Tlsf = sdrad_search_tlsf_control ptr g t
    let there : Cmd S Tlsf = elim (sdrad_search_udi_control udi g.udi_control_head) [
      | negsuc _ ↦ fail
      | pos sdi ↦ do
        missing ← heap_missing sti sdi
        if missing && not (g.sgm_sdi_to_tdi sdi == sti)
            then borrow sti (g.sgm_sdi_to_tdi sdi) sdi
            else pure tt
        t ← thread sti
        pure (t.sdrad_d_info sdi).sdi_tlsf
    ]
    if b.multithread then there else pure here

  unfoldable pub sdrad_free : (udi ptr : ℕ) → Cmd S (Unit {0})
  unfolding find_heap
  sdrad_free udi ptr = do
    sdrad_store_pkru_config pkru_all_unset
    sti ← current p b
    tlsf ← find_heap sti udi ptr
    call_void (p.tlsf_free tlsf ptr)
    t ← thread sti
    in_bounds t.active_domain
    sdrad_store_pkru_config (t.pkru_config t.active_domain)
