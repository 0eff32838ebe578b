-- ===== src/Lock.antt =====
-- The mutexes (src/sdrad_thread.h, src/sdrad_thread.c), as SDRAD_MUTEX_LOCK and its kin use them in the
-- multithreaded build.
pub mod Interleave
use secure_rewind_and_discar.Base.{
  ℕ, suc, ◌-◌, ◌<◌, ◌≡◌, ◌≢◌, Option, none, some, ◌==◌, if◌then◌else◌,
}

-- PTHREAD_MUTEX_RECURSIVE, or what a mutex is without an attribute.
pub data MutexKind : Type 0 where
  recursive default : MutexKind

-- A mutex of the C library, with what its documentation says. `depth m t` is how often thread `t` holds
-- it. `lock` gives a status and the mutex; `none` means that the thread waits.
pub record Mutex : Type 1 where
  pub State : Type 0
  pub edeadlk : ℕ
  pub init : MutexKind → State
  pub kind : State → MutexKind
  pub depth : State → (thread : ℕ) → ℕ
  pub lock : (thread : ℕ) → State → Option (ℕ × State)
  pub unlock : (thread : ℕ) → State → State
  pub kind-init : (k : MutexKind) → kind (init k) ≡ k
  pub depth-init : (k : MutexKind) (t : ℕ) → depth (init k) t ≡ 0
  -- A status other than 0 leaves the mutex alone, and only an error-checking mutex reports a deadlock.
  pub lock-ne-edeadlk :
      (t r : ℕ) (m m' : State) → kind m ≡ recursive → lock t m ≡ some (r, m') → r ≢ edeadlk
  pub lock-kind : (t r : ℕ) (m m' : State) → lock t m ≡ some (r, m') → kind m' ≡ kind m
  pub lock-depth :
      (t j : ℕ) (m m' : State)
      → lock t m ≡ some (0, m')
      → depth m' j ≡ (if t == j then suc (depth m j) else depth m j)
  -- A thread waits while another one holds the mutex.
  pub lock_waits : (t j : ℕ) (m : State) → j ≢ t → 0 < depth m j → lock t m ≡ none
  -- Nobody waits for a mutex that nobody holds.
  pub lock_free :
      (t : ℕ) (m : State) → ((j : ℕ) → depth m j ≡ 0) → (m' : State) × (lock t m ≡ some (0, m'))
  pub unlock-kind : (t : ℕ) (m : State) → kind (unlock t m) ≡ kind m
  pub unlock-depth :
      (t j : ℕ) (m : State)
      → 0 < depth m t
      → depth (unlock t m) j ≡ (if t == j then depth m j - 1 else depth m j)

-- What an attempt to take a mutex comes to; `exits` is SDRADEXIT.
pub data Attempt {ℓ} (M : Type ℓ) : Type ℓ where
  waits : Attempt M
  proceeds : M → Attempt M
  exits : Attempt M

module _ (x : Mutex) where
  -- A deadlock that is reported is printed, and the caller goes on.
  unfoldable pub sdrad_mutex_lock : (thread : ℕ) → x.State → Attempt (x.State)
  sdrad_mutex_lock thread m = elim (x.lock thread m) [
    | none ↦ waits
    | some (ret, m') ↦
        if ret == 0 then proceeds m' else (if ret == x.edeadlk then proceeds m' else exits)
  ]

  unfoldable pub sdrad_mutex_unlock : (thread : ℕ) → x.State → x.State
  sdrad_mutex_unlock thread m = x.unlock thread m

  -- The same on `malloc_mutex`.
  unfoldable pub sdrad_malloc_lock : (thread : ℕ) → x.State → Attempt (x.State)
  sdrad_malloc_lock thread m = elim (x.lock thread m) [
    | none ↦ waits
    | some (ret, m') ↦
        if ret == 0 then proceeds m' else (if ret == x.edeadlk then proceeds m' else exits)
  ]

  unfoldable pub sdrad_malloc_unlock : (thread : ℕ) → x.State → x.State
  sdrad_malloc_unlock thread m = x.unlock thread m

  -- `sgm_lock` and `sgm_condmutex`; nothing reads the condition variable.
  unfoldable pub sdrad_mutex_constructor : x.State × x.State
  sdrad_mutex_constructor = (x.init recursive, x.init default)

  -- The asserts that hold the calls of the condition variable are compiled out, and the calls with them.
  unfoldable pub sdrad_signal_cond : x.State → x.State
  sdrad_signal_cond m = m

  unfoldable pub sdrad_wait_cond : x.State → x.State
  sdrad_wait_cond m = m
