-- ===== src/UdiHeap/Exclusive.antt =====
-- Which functions of src/sdrad_heap_mng.c work in a heap at the same time, in the multithreaded build:
-- where each of them takes and releases `sgm_lock` and `malloc_mutex`.
use secure_rewind_and_discar.Base.{ℕ, suc, ◌<◌, ◌≡◌, refl, Option, some, none, arith}
use secure_rewind_and_discar.Lock.{
  Mutex, default, proceeds, sdrad_mutex_unlock, sdrad_mutex_constructor, sdrad_malloc_lock,
  sdrad_malloc_unlock,
}
use secure_rewind_and_discar.Lock.Interleave
use secure_rewind_and_discar.Lock.Interleave.{
  Program, Threads, Reach, here, next, access, acquire, release, lock-unlock, constructor-IsFree,
}

-- The functions that search first and then work under `sgm_lock`.
pub data Function : Type 0 where
  mallocs reallocs callocs : Function

-- Where a thread stands in a call for the domain `sdi`.
pub data Pc : Type 0 where
  idle : Pc
  call : Function → (sdi : ℕ) → Pc
  look : Function → (sdi : ℕ) → Pc
  found : Function → (sdi : ℕ) → Pc
  work : Function → (sdi : ℕ) → Pc
  -- `sdrad_free` searches while it holds the mutex.
  call_free : (sdi : ℕ) → Pc
  free_search : (sdi : ℕ) → Pc
  free_look : (sdi : ℕ) → Pc
  free_work : (sdi : ℕ) → Pc
  -- `sdrad_memalign` works under `malloc_mutex`.
  call_memalign : (sdi : ℕ) → Pc
  memalign_look : (sdi : ℕ) → Pc
  memalign_found : (sdi : ℕ) → Pc
  memalign_work : (sdi : ℕ) → Pc

-- The domain in whose heap the thread works, in the functions that work under `sgm_lock`.
abbrev pub works_locked : Pc → Option ℕ
works_locked (work f d) = some d
works_locked (free_work d) = some d
works_locked _ = none

abbrev pub holds : Pc → ℕ
holds (look _ _) = 1
holds (work _ _) = 1
holds (free_search _) = 1
holds (free_look _) = 2
holds (free_work _) = 1
holds (memalign_look _) = 1
holds _ = 0

pub data Acquire : Pc → Pc → Type 0 where
  search_locks : {f : Function} {d : ℕ} → Acquire (call f d) (look f d)
  work_locks : {f : Function} {d : ℕ} → Acquire (found f d) (work f d)
  free_locks : {d : ℕ} → Acquire (call_free d) (free_search d)
  free_search_locks : {d : ℕ} → Acquire (free_search d) (free_look d)
  memalign_search_locks : {d : ℕ} → Acquire (call_memalign d) (memalign_look d)

pub data Release : Pc → Pc → Type 0 where
  search_unlocks : {f : Function} {d : ℕ} → Release (look f d) (found f d)
  -- The index has no domain: the error is returned.
  search_fails : {f : Function} {d : ℕ} → Release (look f d) idle
  work_unlocks : {f : Function} {d : ℕ} → Release (work f d) idle
  free_search_unlocks : {d : ℕ} → Release (free_look d) (free_work d)
  free_unlocks : {d : ℕ} → Release (free_work d) idle
  memalign_search_unlocks : {d : ℕ} → Release (memalign_look d) (memalign_found d)
  memalign_search_fails : {d : ℕ} → Release (memalign_look d) idle

module _ (x : Mutex) where
  -- The threads share `malloc_mutex`.
  pub data Access (i : ℕ) (g : x.State) : Pc → x.State → Pc → Type 0 where
    calls : (f : Function) (d : ℕ) → Access i g idle g (call f d)
    calls_free : (d : ℕ) → Access i g idle g (call_free d)
    calls_memalign : (d : ℕ) → Access i g idle g (call_memalign d)
    memalign_locks :
        {d : ℕ} {m : x.State}
        → sdrad_malloc_lock x i g ≡ proceeds m
        → Access i g (memalign_found d) m (memalign_work d)
    memalign_unlocks : {d : ℕ} → Access i g (memalign_work d) (sdrad_malloc_unlock x i g) idle

  pub Access-holds : (i : ℕ) (g g' : x.State) (p q : Pc) → Access i g p g' q → holds q ≡ holds p
  Access-holds i g g' p q (calls f d) = refl
  Access-holds i g g' p q a = refl

  pub Acquire-holds : (p q : Pc) → Acquire p q → holds q ≡ suc (holds p)
  Acquire-holds p q search_locks = refl
  Acquire-holds p q a = refl

  pub Release-holds : (p q : Pc) → Release p q → holds p ≡ suc (holds q)
  Release-holds p q search_unlocks = refl
  Release-holds p q a = refl

  abbrev pub heap_calls : Program (x.State) Pc
  heap_calls = record {
    Access = Access;
    Acquire = Acquire;
    Release = Release;
    holds = holds;
    Access-holds = Access-holds;
    Acquire-holds = Acquire-holds;
    Release-holds = Release-holds;
  }

  -- `malloc_mutex` is PTHREAD_MUTEX_INITIALIZER.
  abbrev pub begin : Threads (x.State) (x.State) Pc
  begin = Interleave.start x heap_calls (x.init default) (λ i. idle)

  works-holds : (p : Pc) (d : ℕ) → works_locked p ≡ some d → 0 < holds p
  works-holds (work f e) d h = omega arith
  works-holds (free_work e) d h = omega arith
  works-holds p d h = cc

  -- In the multithreaded build one thread at a time is inside the allocator for `sdrad_malloc`,
  -- `sdrad_realloc`, `sdrad_calloc` or `sdrad_free`, in whatever heaps they work.
  pub heap_alone :
      {s : Threads (x.State) (x.State) Pc} (i j d e : ℕ)
      → Reach x heap_calls begin s
      → works_locked (s.pc i) ≡ some d
      → works_locked (s.pc j) ≡ some e
      → i ≡ j
  heap_alone {s} i j d e r hi hj =
      let held = Interleave.Reach-IsHeld x heap_calls (x.init default) (λ i. idle) (λ i. refl) r in
      held.alone i j (works-holds (s.pc i) d hi) (works-holds (s.pc j) e hj)

  first_malloc_lock :
      (i : ℕ) → (m : x.State) × (sdrad_malloc_lock x i (x.init default) ≡ proceeds m)
  unfolding sdrad_malloc_lock
  first_malloc_lock i =
      let (m, e) = x.lock_free i (x.init default) (x.depth-init default) in (m, ground (arith, e))

  -- `sdrad_memalign` takes the other mutex, so it can work in a heap while `sdrad_malloc`,
  -- `sdrad_realloc` or `sdrad_calloc` works in the same one, whichever it is.
  pub memalign_overlaps :
      (f : Function) (d : ℕ)
      → (s : Threads (x.State) (x.State) Pc) × Reach x heap_calls begin s
        × (s.pc 1 ≡ work f d)
        × (s.pc 2 ≡ memalign_work d)
  memalign_overlaps f d =
      let (m1, e1, free1) = lock-unlock x 2 (sdrad_mutex_constructor x).0 (constructor-IsFree x) in
      let (m2, e2, free2) = lock-unlock x 1 (sdrad_mutex_unlock x 2 m1) free1 in
      let (m3, e3, free3) = lock-unlock x 1 (sdrad_mutex_unlock x 1 m2) free2 in
      let (m4, e4) = first_malloc_lock 2 in
      (
        _,
        next
            (next
              (next
                (next
                  (next
                    (next
                      (next (next here (access 2 (calls_memalign d)))
                        (acquire 2 memalign_search_locks e1))
                      (release 2 memalign_search_unlocks))
                    (access 1 (calls f d)))
                  (acquire 1 search_locks e2))
                (release 1 search_unlocks))
              (acquire 1 work_locks e3))
            (access 2 (memalign_locks e4)),
        refl,
        refl,
      )
