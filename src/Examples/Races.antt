-- ===== src/Examples/Races.antt =====
-- Threads in the allocators; and a dynamic loader.
use secure_rewind_and_discar.Base.{ℕ, ◌≡◌, ◌≢◌, ◌⊎◌, refl}
use secure_rewind_and_discar.Lock.{sdrad_mutex_lock, sdrad_mutex_unlock, sdrad_mutex_constructor}
use secure_rewind_and_discar.Lock.Interleave.{Threads, Reach, here, next, access, acquire, release}
use secure_rewind_and_discar.UdiHeap.Exclusive.{
  Pc, calls_free, free_locks, free_search_locks, free_search_unlocks, heap_calls, begin, heap_alone,
}
use secure_rewind_and_discar.Symbols.{
  Loader, Symbol, sym_pthread_create, sym_pthread_join, sym_libc_start_main, loads, exits,
  load_for_join, load_for_join_exact,
}
use secure_rewind_and_discar.Examples.Mutexes.{counted, Counted}

-- Thread 1 frees memory of domain 3.
freeing : (s : Threads Counted Counted Pc) × Reach counted (heap_calls counted) (begin counted) s
unfolding sdrad_mutex_lock sdrad_mutex_unlock sdrad_mutex_constructor
freeing = (
  _,
  next
      (next (next (next here (access 1 (calls_free 3))) (acquire 1 free_locks refl))
        (acquire 1 free_search_locks refl))
      (release 1 free_search_unlocks),
)

heap_alone_example : ◌≡◌ {A = ℕ} 1 1
unfolding freeing
heap_alone_example = heap_alone counted 1 1 3 3 freeing.1 refl refl

-- A C library without `pthread_join`.
abbrev symbol : Symbol → ℕ
symbol sym_pthread_create = 100
symbol sym_pthread_join = 0
symbol sym_libc_start_main = 300

abbrev no_join : Loader ℕ
no_join = record {
  dlopen = λ s. (9, s);
  dlsym = λ handle name s. (symbol name, s);
  dlclose = λ handle s. (0, s);
}

load_for_join_exact_example :
    ((◌≢◌ {A = ℕ} 9 0)
      × (◌≢◌ {A = ℕ} 100 0)
      × (◌≡◌ {A = ℕ} 0 0)
      × (load_for_join no_join (0, 0) 4 ≡ loads (100, 0) 4))
    ⊎ (((◌≡◌ {A = ℕ} 9 0) ⊎ ((◌≡◌ {A = ℕ} 100 0) ⊎ (◌≢◌ {A = ℕ} 0 0)))
        × (load_for_join no_join (0, 0) 4 ≡ exits))
load_for_join_exact_example = load_for_join_exact no_join 4 0
