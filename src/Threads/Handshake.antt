-- ===== src/Threads/Handshake.antt =====
-- `pthread_create` and the routine of the new thread (src/sdrad_thread.c) side by side, in the
-- multithreaded build: every access of a thread to what the threads share is a step, and the threads
-- take turns in any order. Thread `i` is the one for which `pthread_self` gives `i`; numbers are not used
-- twice, and THREAD_NONOCCUPIED is no thread. Thread 1 is the first. A new thread takes memory for its record and a
-- slot; what it writes to its record is left out here, Threads has it.
pub mod Invariant
pub mod Moves
pub mod Table
pub mod Safety
pub mod Progress
use secure_rewind_and_discar.Base.{
  ℕ, suc, ◌≡◌, ◌≢◌, refl, Bool, true, false, Option, some, none, ◌==◌, if◌then◌else◌, arith, update,
}
use secure_rewind_and_discar.Base.Int.{pos}
use secure_rewind_and_discar.Codes.{root_domain, domain_occupied, thread_nonoccupied}
use secure_rewind_and_discar.State.{Manager}
use secure_rewind_and_discar.Slots.{sdrad_find_free_domain, sdrad_find_free_thread_id}
use secure_rewind_and_discar.Lock.Interleave.{Program}

-- The manager, and what the kernel knows: the routine and the argument that a thread's creator wants it
-- to run, those that it has been started with, and whether it has ended.
pub record Shared : Type 0 where
  pub sgm : Manager
  pub asked : (thread : ℕ) → Option (ℕ × ℕ)
  pub started : (thread : ℕ) → Option (ℕ × ℕ)
  pub ended : (thread : ℕ) → Bool
  pub monitor_room : Bool  -- whether the monitor's heap has memory for the record of another thread

-- Where a thread stands, with the local variables that are live there.
pub data Pc : Type 0 where
  unborn : Pc
  idle : Pc  -- in the program's own code
  gone : Pc
  -- `pthread_create`; the thread that it waits for, if there is one
  create : (start_routine arg : ℕ) → Pc
  store_routine : (start_routine arg : ℕ) → Pc
  store_arg : (start_routine arg : ℕ) → Pc
  reset : (start_routine arg : ℕ) → Pc
  clone : (start_routine arg : ℕ) → Pc
  wait : (child : Option ℕ) → Pc
  clear : Pc
  create_unlock : Pc
  -- `sdrad_pthread_construstor`
  enrolling : Pc
  file : (thread_id : ℕ) → Pc
  prepare : Pc
  fetch_routine : Pc
  fetch_arg : (fun_ptr : ℕ) → Pc
  signal : (fun_ptr arg : ℕ) → Pc
  share_lock : (fun_ptr arg : ℕ) → Pc
  sharing : (fun_ptr arg : ℕ) → Pc
  share_unlock : (fun_ptr arg : ℕ) → Pc
  launch : (fun_ptr arg : ℕ) → Pc

-- One access of thread `i`.
pub data Access (i : ℕ) (g : Shared) : Pc → Shared → Pc → Type 0 where
  calls_create : (r a : ℕ) → Access i g idle g (create r a)
  stores_routine :
      {r a : ℕ}
      → Access i g
          (store_routine r a)
          (record g { sgm = record (g.sgm) { real_start_routine = r } })
          (store_arg r a)
  stores_arg :
      {r a : ℕ}
      → Access i g (store_arg r a) (record g { sgm = record (g.sgm) { start_arg = a } }) (reset r a)
  resets :
      {r a : ℕ}
      → Access i g
          (reset r a)
          (record g { sgm = record (g.sgm) { sdrad_pthread_constructor_done = 0 } })
          (clone r a)
  -- `real_pthread_create` succeeds with a new thread, or fails; the status is only returned.
  clones :
      {r a : ℕ} (j : ℕ)
      → j ≢ thread_nonoccupied
      → g.asked j ≡ none
      → Access i g (clone r a) (record g { asked = update g.asked j (some (r, a)) }) (wait (some j))
  clone_fails : {r a : ℕ} → Access i g (clone r a) g (wait none)
  -- The calls of `sdrad_wait_cond` in the loop are compiled out.
  spins : {c : Option ℕ} → g.sgm.sdrad_pthread_constructor_done ≡ 0 → Access i g (wait c) g (wait c)
  sees_done :
      {c : Option ℕ} → g.sgm.sdrad_pthread_constructor_done ≢ 0 → Access i g (wait c) g clear
  clears :
      Access i g clear
        (record g { sgm = record (g.sgm) { sdrad_pthread_constructor_done = 0 } })
        create_unlock
  -- The kernel lets the new thread run.
  begins : {q : ℕ × ℕ} → g.asked i ≡ some q → Access i g unborn g enrolling
  -- The scan of the table is one step. A table that is full makes the index -1, where the thread stops.
  finds_index : {k : ℕ} → sdrad_find_free_thread_id g.sgm ≡ pos k → Access i g enrolling g (file k)
  files :
      {k : ℕ}
      → Access i g
          (file k)
          (record g { sgm = record (g.sgm) { sgm_thread_id = update g.sgm.sgm_thread_id k i } })
          prepare
  -- `sdrad_malloc_mdd` and `sdrad_request_sdi`. Without memory, or without a free slot, the thread stops here:
  -- the NULL pointer and the index -1 that it gets then are not tested.
  prepares :
      (slot : ℕ) (room_left : Bool)
      → g.monitor_room ≡ true
      → (sdrad_find_free_domain g.sgm).0 ≡ pos slot
      → Access i g prepare
          (record g {
            sgm = record (g.sgm) { status = update g.sgm.status slot domain_occupied };
            monitor_room = room_left;
          })
          fetch_routine
  fetches_routine : Access i g fetch_routine g (fetch_arg g.sgm.real_start_routine)
  fetches_arg : {f : ℕ} → Access i g (fetch_arg f) g (signal f g.sgm.start_arg)
  signals :
      {f a : ℕ}
      → Access i g
          (signal f a)
          (record g { sgm = record (g.sgm) { sdrad_pthread_constructor_done = 1 } })
          (share_lock f a)
  shares : {f a : ℕ} → Access i g (sharing f a) g (share_unlock f a)
  -- `fun_ptr(arg)`
  launches :
      {f a : ℕ}
      → Access i g (launch f a) (record g { started = update g.started i (some (f, a)) }) idle
  ends : Access i g idle (record g { ended = update g.ended i true }) gone
  -- `pthread_join` of a thread that has ended frees its index.
  joins :
      (j k : ℕ)
      → g.ended j ≡ true
      → g.sgm.sgm_thread_id k ≡ j
      → Access i g idle
          (record g {
            sgm = record (g.sgm) {
              sgm_thread_id = update g.sgm.sgm_thread_id k thread_nonoccupied;
            };
          })
          idle

pub data Acquire : Pc → Pc → Type 0 where
  create_locks : {r a : ℕ} → Acquire (create r a) (store_routine r a)
  share_locks : {f a : ℕ} → Acquire (share_lock f a) (sharing f a)

pub data Release : Pc → Pc → Type 0 where
  create_unlocks : Release create_unlock idle
  share_unlocks : {f a : ℕ} → Release (share_unlock f a) (launch f a)

abbrev pub holds : Pc → ℕ
holds (store_routine _ _) = 1
holds (store_arg _ _) = 1
holds (reset _ _) = 1
holds (clone _ _) = 1
holds (wait _) = 1
holds clear = 1
holds create_unlock = 1
holds (sharing _ _) = 1
holds (share_unlock _ _) = 1
holds _ = 0

pub Access-holds : (i : ℕ) (g g' : Shared) (p p' : Pc) → Access i g p g' p' → holds p' ≡ holds p
Access-holds i g g' p p' (calls_create r a) = refl
Access-holds i g g' p p' a = refl

pub Acquire-holds : (p p' : Pc) → Acquire p p' → holds p' ≡ suc (holds p)
Acquire-holds p p' create_locks = refl
Acquire-holds p p' share_locks = refl

pub Release-holds : (p p' : Pc) → Release p p' → holds p ≡ suc (holds p')
Release-holds p p' create_unlocks = refl
Release-holds p p' share_unlocks = refl

abbrev pub handshake : Program Shared Pc
handshake = record {
  Access = Access;
  Acquire = Acquire;
  Release = Release;
  holds = holds;
  Access-holds = Access-holds;
  Acquire-holds = Acquire-holds;
  Release-holds = Release-holds;
}

-- The process after the constructor: the first thread runs and has its index.
abbrev pub first_thread : Manager → Shared
first_thread g = record {
  sgm = record g { sgm_thread_id = λ k. if k == root_domain then 1 else thread_nonoccupied };
  asked = λ j. if j == 1 then some (0, 0) else none;
  started = λ j. none;
  ended = λ j. false;
  monitor_room = true;
}

abbrev pub first_pc : ℕ → Pc
first_pc i = if i == 1 then idle else unborn
