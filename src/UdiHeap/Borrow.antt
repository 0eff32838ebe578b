-- ===== src/UdiHeap/Borrow.antt =====
-- The heap functions in a domain that another thread has made.
use secure_rewind_and_discar.Base.{
  ℕ, ◌<◌, ◌≡◌, ◌≢◌, refl, true, false, some, arith, if◌then◌else◌, update, Bool-cases, inl, inr,
}
use secure_rewind_and_discar.Base.Int.{pos}
use secure_rewind_and_discar.Codes.{total_domain}
use secure_rewind_and_discar.State.{DomainInfo, Thread}
use secure_rewind_and_discar.Platform.{Build, Platform}
use secure_rewind_and_discar.Control.{sdrad_search_udi_control}
use secure_rewind_and_discar.Machine.{World, done}
use secure_rewind_and_discar.Machine.Returns.{Returns}
use secure_rewind_and_discar.Running.{Running, info_of}
use secure_rewind_and_discar.Pools.{sdrad_heap_domain_init}
use secure_rewind_and_discar.Alloc.{heap_init_at}
use secure_rewind_and_discar.UdiHeap.{sdrad_malloc, heap_for_malloc}

-- The running thread has no record of the domain's heap, and thread `maker` made the domain.
pub record Borrowing {S : Type 0} (p : Platform S) (b : Build) (w : World S) (sti udi sdi maker : ℕ)
    (t from : Thread) : Type 0 where
  pub run : Running p b w sti t
  pub mapped : sdrad_search_udi_control udi w.sgm.udi_control_head ≡ pos sdi
  pub inside : sdi < total_domain
  pub made : w.sgm.sgm_sdi_to_tdi sdi ≡ maker
  pub other : maker ≢ sti
  pub present : w.sgm.stm_ptr maker ≡ some from
  pub lacks : (t.sdrad_d_info sdi).sdi_init_heap_flag ≡ false

module _ {S : Type 0} (p : Platform S) (b : Build) (w : World S) (sti udi sdi maker : ℕ)
    (t from : Thread) (h : Borrowing p b w sti udi sdi maker t from) where
  -- The maker's record of the domain and the platform once the maker has the heap.
  unfoldable pub made_heap : DomainInfo × S
  made_heap =
      if (from.sdrad_d_info sdi).sdi_init_heap_flag
      then (from.sdrad_d_info sdi, w.os)
      else sdrad_heap_domain_init p (from.sdrad_d_info sdi) (w.sgm.pdi sdi) w.os

  unfoldable pub taken : DomainInfo → Thread
  taken info = record t {
    sdrad_d_info = update t.sdrad_d_info sdi (record info { sdi_init_heap_flag = true });
  }

  unfoldable pub giving : Thread
  unfolding made_heap
  giving = record from { sdrad_d_info = update from.sdrad_d_info sdi made_heap.0 }

  -- The state with the heap, when the thread has taken over the record `info`.
  unfoldable pub borrowed : DomainInfo → World S
  unfolding made_heap giving taken
  borrowed info = record w {
    pkru = 0;
    os = made_heap.1;
    sgm = record (w.sgm) {
      stm_ptr =
          if (from.sdrad_d_info sdi).sdi_init_heap_flag
          then update w.sgm.stm_ptr sti (some (taken info))
          else update (update w.sgm.stm_ptr maker (some giving)) sti (some (taken info));
    };
  }

  malloc_heap : heap_for_malloc p b sti sdi (record w { pkru = 0 }) ≡ done tt (borrowed made_heap.0)
  unfolding heap_for_malloc heap_init_at made_heap borrowed giving taken
  malloc_heap = elim (Bool-cases (from.sdrad_d_info sdi).sdi_init_heap_flag) [
    | inl has ↦ ground (arith, h.run.present, h.inside, h.made, h.other, h.present, h.lacks)
    | inr misses ↦ ground (arith, h.run.present, h.inside, h.made, h.other, h.present, h.lacks)
  ]

  borrowed_own : (info : DomainInfo) → (borrowed info).sgm.stm_ptr sti ≡ some (taken info)
  unfolding borrowed
  borrowed_own info = ground arith

  borrowed_maker : (info : DomainInfo) → info_of (borrowed info) maker sdi ≡ some made_heap.0
  unfolding borrowed giving made_heap
  borrowed_maker info = elim (Bool-cases (from.sdrad_d_info sdi).sdi_init_heap_flag) [
    | inl has ↦ ground (arith, h.other, h.present)
    | inr misses ↦ ground (arith, h.other)
  ]

  borrowed_os : (info : DomainInfo) → (borrowed info).os ≡ made_heap.1
  unfolding borrowed
  borrowed_os info = refl

  taken_info :
      (info : DomainInfo)
      → ((taken info).sdrad_d_info sdi ≡ record info { sdi_init_heap_flag = true })
        × ((taken info).active_domain ≡ t.active_domain)
        × ((taken info).pkru_config ≡ t.pkru_config)
  unfolding taken
  taken_info info = (ground arith, refl, refl)

  -- In a domain that another thread made, and for which the calling thread's own record has no heap,
  -- `sdrad_malloc` asks the allocator of the maker's heap, which it makes if there is none yet, and
  -- ends with the rights of the active domain. Both threads then have that allocator for the domain.
  pub malloc_shares :
      (size : ℕ)
      → Returns
          (λ ptr v.
            (ptr ≡ (p.tlsf_malloc made_heap.0.sdi_tlsf size made_heap.1).0)
            × (v.os ≡ (p.tlsf_malloc made_heap.0.sdi_tlsf size made_heap.1).1)
            × (v.pkru ≡ t.pkru_config t.active_domain)
            × (info_of v maker sdi ≡ some made_heap.0)
            × (info_of v sti sdi ≡ some (record (made_heap.0) { sdi_init_heap_flag = true })))
          (sdrad_malloc p b udi size w)
  unfolding sdrad_malloc
  malloc_shares size = ground (
    arith,
    h.run.located,
    h.run.in_range,
    h.mapped,
    malloc_heap,
    borrowed_own made_heap.0,
    borrowed_maker made_heap.0,
    borrowed_os made_heap.0,
    taken_info made_heap.0,
  )
