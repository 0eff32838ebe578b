-- ===== src/Threads/Handshake/Safety.antt =====
-- What holds in every state that the threads reach.
use secure_rewind_and_discar.Base.{ℕ, ◌≡◌, ◌≢◌, none, some, arith, ◌==◌, Bool-cases, inl, inr}
use secure_rewind_and_discar.Lock.{Mutex, waits, sdrad_mutex_lock}
use secure_rewind_and_discar.Lock.Interleave
use secure_rewind_and_discar.Lock.Interleave.{Threads, Step, Reach, access, acquire, release}
use secure_rewind_and_discar.State.{Manager}
use secure_rewind_and_discar.Threads.Handshake.{
  Shared, Pc, wait, Access, spins, sees_done, Acquire, create_locks, share_locks, Release,
  create_unlocks, share_unlocks, handshake, first_thread, first_pc,
}
use secure_rewind_and_discar.Threads.Handshake.Invariant.{IsFresh, fresh_alone}
use secure_rewind_and_discar.Threads.Handshake.Moves.{begin, first-quiet, Reach-IsHeld, Reach-Inv}

none-Access :
    (i : ℕ) (g g' : Shared) (p q : Pc)
    → Access i g p g' q
    → p ≡ wait none
    → g.sgm.sdrad_pthread_constructor_done ≡ 0
    → q ≡ wait none
none-Access i g g' p q (spins e) h d = h
none-Access i g g' p q (sees_done e) h d = absurd (e d)
none-Access i g g' p q a h d = cc

none-Acquire : (p q : Pc) → Acquire p q → p ≢ wait none
none-Acquire p q create_locks h = cc
none-Acquire p q share_locks h = cc

none-Release : (p q : Pc) → Release p q → p ≢ wait none
none-Release p q create_unlocks h = cc
none-Release p q share_unlocks h = cc

module _ (x : Mutex) (g : Manager) {s : Threads (x.State) Shared Pc}
    (r : Reach x handshake (begin x g) s) where
  -- In the multithreaded build, whatever the order in which threads take turns: a thread that has been
  -- started runs the routine, and gets the argument, that its creator gave to `pthread_create`, also
  -- when several threads create threads at once.
  pub started_as_asked : (j : ℕ) (q : ℕ × ℕ) → s.mem.started j ≡ some q → s.mem.asked j ≡ some q
  started_as_asked j q e = (Reach-Inv x g r).as_asked j q e

  -- In the multithreaded build one thread at a time is new, from its creation until it tells its creator:
  -- two never look for an index at once, although the routine takes no mutex there.
  pub set_up_alone : (i j : ℕ) → IsFresh s.mem i (s.pc i) → IsFresh s.mem j (s.pc j) → i ≡ j
  set_up_alone = fresh_alone (Reach-Inv x g r) (Reach-IsHeld x g r).alone

  hangs-Step :
      (i : ℕ) {t : Threads (x.State) Shared Pc}
      → s.pc i ≡ wait none
      → Step x handshake s t
      → t.pc i ≡ wait none
  hangs-Step i e (access k {g = m} {q = q} a) = elim (Bool-cases (k == i)) [
    | inl own ↦
        let same : k ≡ i = ground arith in
        let now : s.pc k ≡ wait none = rw same e in
        let flag : s.mem.sgm.sdrad_pthread_constructor_done ≡ 0 =
          rw now at ((Reach-Inv x g r).knows k) in
        rw own (none-Access k s.mem m (s.pc k) q a now flag)
    | inr other ↦ rw other e
  ]
  hangs-Step i e (acquire k {q = q} a l) = ground (arith, none-Acquire (s.pc k) q a)
  hangs-Step i e (release k {q = q} a) = ground (arith, none-Release (s.pc k) q a)

module _ (x : Mutex) (g : Manager) {s : Threads (x.State) Shared Pc}
    (r : Reach x handshake (begin x g) s) (i : ℕ) (e : s.pc i ≡ wait none) where
  hangs-Reach :
      {t : Threads (x.State) Shared Pc}
      → Reach x handshake s t
      → Reach x handshake (begin x g) t × (t.pc i ≡ wait none)
  hangs-Reach Interleave.here = (r, e)
  hangs-Reach (Interleave.next rest st) =
      let (before, at) = hangs-Reach rest in
      (Interleave.next before st, hangs-Step x g before i at st)

  -- A creator whose `real_pthread_create` has failed never leaves the loop that waits for the thread,
  -- and never releases the mutex: in every later state an attempt of another thread to take it waits.
  pub failed_create_hangs :
      {t : Threads (x.State) Shared Pc}
      → Reach x handshake s t
      → (t.pc i ≡ wait none) × ((j : ℕ) → j ≢ i → sdrad_mutex_lock x j t.sgm_lock ≡ waits)
  failed_create_hangs rest =
      let (all, at) = hangs-Reach rest in
      (
        at,
        λ j ne.
            Interleave.held-waits x handshake (first_thread g) first_pc first-quiet i j all
              (rw at (omega arith)) ne,
      )
