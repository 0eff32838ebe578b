-- ===== src/Threads/Handshake/Table.antt =====
-- The thread table `sgm_thread_id`, which new threads write and `pthread_join` clears without the mutex.
use secure_rewind_and_discar.Base.{ℕ, ◌<◌, ◌≡◌, ◌≢◌, Bool, true, false, some}
use secure_rewind_and_discar.Codes.{num_of_threads, thread_nonoccupied}
use secure_rewind_and_discar.Lock.Interleave
use secure_rewind_and_discar.Lock.Interleave.{Threads}
use secure_rewind_and_discar.Threads.Handshake.{Shared, Pc, unborn, gone, enrolling, file}

-- The thread has written its number into the table.
abbrev pub filed : Pc → Bool
filed unborn = false
filed enrolling = false
filed (file _) = false
filed _ = true

-- The same, and the thread has not ended.
abbrev pub live : Pc → Bool
live gone = false
live p = filed p

record Filed (g : Shared) (pc : ℕ → Pc) : Type 0 where
  own : (i : ℕ) → live (pc i) ≡ true → (k : ℕ) × (k < num_of_threads) × (g.sgm.sgm_thread_id k ≡ i)
  owner : (k i : ℕ) → g.sgm.sgm_thread_id k ≡ i → i ≢ thread_nonoccupied → filed (pc i) ≡ true
  distinct :
      (k l i : ℕ)
      → g.sgm.sgm_thread_id k ≡ i
      → g.sgm.sgm_thread_id l ≡ i
      → i ≢ thread_nonoccupied
      → k ≡ l
  spare :
      (i k : ℕ)
      → pc i ≡ file k
      → (k < num_of_threads) × (g.sgm.sgm_thread_id k ≡ thread_nonoccupied)
  real : (i : ℕ) (q : ℕ × ℕ) → g.asked i ≡ some q → i ≢ thread_nonoccupied
  over : (i : ℕ) → g.ended i ≡ true → pc i ≡ gone
