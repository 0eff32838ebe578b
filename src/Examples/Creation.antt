-- ===== src/Examples/Creation.antt =====
-- Thread 1 creates thread 2.
use secure_rewind_and_discar.Base.{true, ℕ, ◌≡◌, ◌≢◌, ◌⊎◌, refl, some, none, arith}
use secure_rewind_and_discar.Slots.{sdrad_find_free_domain, sdrad_find_free_thread_id, find_entry}
use secure_rewind_and_discar.Lock.{
  waits, sdrad_mutex_lock, sdrad_mutex_unlock, sdrad_mutex_constructor,
}
use secure_rewind_and_discar.Lock.Interleave.{Threads, Reach, here, next, access, acquire, release}
use secure_rewind_and_discar.Threads.Handshake.{
  Shared, Pc, Access, wait, clear, handshake, calls_create, stores_routine, stores_arg, resets,
  clones, clone_fails, sees_done, clears, begins, finds_index, files, prepares, fetches_routine,
  fetches_arg, signals, shares, launches, create_locks, share_locks, create_unlocks, share_unlocks,
}
use secure_rewind_and_discar.Threads.Handshake.Moves.{begin}
use secure_rewind_and_discar.Threads.Handshake.Safety.{
  started_as_asked, set_up_alone, failed_create_hangs,
}
use secure_rewind_and_discar.Threads.Handshake.Progress.{wait_moves, IsStuck}
use secure_rewind_and_discar.Examples.{start_manager}
use secure_rewind_and_discar.Examples.Mutexes.{counted, Counted}

abbrev Run : Type 0
Run = (s : Threads Counted Shared Pc) × Reach counted handshake (begin counted start_manager) s

-- Before the call of `real_pthread_create`.
ready_to_clone : Run
unfolding sdrad_mutex_lock sdrad_mutex_constructor
ready_to_clone = (
  _,
  next
      (next
        (next (next (next here (access 1 (calls_create 7 8))) (acquire 1 create_locks refl))
          (access 1 stores_routine))
        (access 1 stores_arg))
      (access 1 resets),
)

-- The kernel has made thread 2, and thread 1 waits.
created : Run
unfolding ready_to_clone
created = (_, next ready_to_clone.1 (access 1 (clones 2 (λ e. omega arith) refl)))

-- The kernel has made no thread.
failed : Run
unfolding ready_to_clone
failed = (_, next ready_to_clone.1 (access 1 clone_fails))

-- Thread 2 runs its routine.
launched : Run
unfolding created sdrad_find_free_domain sdrad_find_free_thread_id find_entry sdrad_mutex_lock
    sdrad_mutex_unlock
launched = (
  _,
  next
      (next
        (next
          (next
            (next
              (next
                (next
                  (next
                    (next
                      (next
                        (next
                          (next
                            (next (next created.1 (access 2 (begins {q = (7, 8)} refl)))
                              (access 2 (finds_index {k = 0} refl)))
                            (access 2 files))
                          (access 2 (prepares 2 true refl refl)))
                        (access 2 fetches_routine))
                      (access 2 fetches_arg))
                    (access 2 signals))
                  (access 1 (sees_done (λ e. omega arith))))
                (access 1 clears))
              (release 1 create_unlocks))
            (acquire 2 share_locks refl))
          (access 2 shares))
        (release 2 share_unlocks))
      (access 2 launches),
)

started_as_asked_example : launched.0.mem.asked 2 ≡ some (7, 8)
unfolding launched
started_as_asked_example = started_as_asked counted start_manager launched.1 2 (7, 8) refl

set_up_alone_example : ◌≡◌ {A = ℕ} 2 2
unfolding created
set_up_alone_example =
    set_up_alone counted start_manager created.1 2 2 ((7, 8), refl) ((7, 8), refl)

failed_create_hangs_example :
    (failed.0.pc 1 ≡ wait none)
    × ((j : ℕ) → j ≢ 1 → sdrad_mutex_lock counted j failed.0.sgm_lock ≡ waits)
unfolding failed
failed_create_hangs_example = failed_create_hangs counted start_manager failed.1 1 refl here

wait_moves_example :
    Access 1 created.0.mem (created.0.pc 1) created.0.mem clear
    ⊎ (((g : Shared) × (q : Pc) × Access 2 created.0.mem (created.0.pc 2) g q)
        ⊎ IsStuck created.0.mem (created.0.pc 2))
unfolding created
wait_moves_example = wait_moves counted start_manager created.1 1 2 refl
