-- ===== src/Slots.antt =====
-- The tables of the global manager: domain slots and thread indices (src/sdrad.c,
-- src/sdrad_thread.h).
pub mod Free
pub mod Race
pub mod Threads
use secure_rewind_and_discar.Base.{
  ℕ, zero, suc, ◌+◌, Bool, Option, none, some, ◌==◌, ltb, if◌then◌else◌, update,
}
use secure_rewind_and_discar.Base.Int.{ℤ, pos, negsuc}
use secure_rewind_and_discar.Codes.{
  total_domain, num_of_threads, root_domain, domain_occupied, domain_nonoccupied,
  thread_nonoccupied,
}
use secure_rewind_and_discar.State.{Manager}

-- The loop of `sdrad_find_free_domain`, with `rounds` left at index `i`; the first index whose entry
-- is `wanted`, or -1.
unfoldable pub find_entry : (wanted rounds i : ℕ) → (ℕ → ℕ) → ℤ
find_entry wanted zero i table = negsuc 0
find_entry wanted (suc rounds) i table =
    let rest = find_entry wanted rounds (i + 1) table in if table i == wanted then pos i else rest

occupy : ℤ → Manager → Manager
occupy (pos i) g = record g { status = update g.status i domain_occupied }
occupy (negsuc _) g = g

-- The index is returned with the manager in which its slot is marked.
unfoldable pub sdrad_find_free_domain : Manager → ℤ × Manager
unfolding occupy
sdrad_find_free_domain g =
    let found = find_entry domain_nonoccupied total_domain 0 g.status in (found, occupy found g)

-- Unlike a domain, a thread index is not marked here.
unfoldable pub sdrad_find_free_thread_id : Manager → ℤ
sdrad_find_free_thread_id g = find_entry thread_nonoccupied num_of_threads 0 g.sgm_thread_id

-- `sdrad_get_sti_from_tid`: `total_thread + 1` rounds; `none` is a read past the end of the table.
unfoldable pub find_tid : (tid rounds k : ℕ) → (ℕ → ℕ) → Option ℤ
find_tid tid zero k table = some (negsuc 0)
find_tid tid (suc rounds) k table =
    let rest = find_tid tid rounds (k + 1) table in
    if ltb k num_of_threads then (if tid == table k then some (pos k) else rest) else none

unfoldable pub sdrad_get_sti_from_tid : Manager → (tid : ℕ) → Option ℤ
sdrad_get_sti_from_tid g tid = find_tid tid (g.sgm_total_thread + 1) 0 g.sgm_thread_id

-- `sdrad_get_sti` of the running thread: a constant in the single-threaded build.
unfoldable pub sdrad_get_sti : (multithread : Bool) → Manager → (self : ℕ) → Option ℤ
unfolding sdrad_get_sti_from_tid
sdrad_get_sti multithread g self =
    if multithread then sdrad_get_sti_from_tid g self else some (pos root_domain)
