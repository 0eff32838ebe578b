-- ===== src/Slots/Race.antt =====
-- `sdrad_find_free_domain` (src/sdrad.c) in several threads at once: it takes no mutex.
use secure_rewind_and_discar.Base.{ℕ, ◌≡◌, refl, update}
use secure_rewind_and_discar.Base.Int.{pos}
use secure_rewind_and_discar.Codes.{total_domain, domain_occupied, domain_nonoccupied}
use secure_rewind_and_discar.State.{Manager}
use secure_rewind_and_discar.Lock.{Mutex}
use secure_rewind_and_discar.Lock.Interleave
use secure_rewind_and_discar.Lock.Interleave.{Program, Threads, Reach, here, next, access}
use secure_rewind_and_discar.Slots.{sdrad_find_free_domain, find_entry}

-- Where a thread stands in the function.
pub data Pc : Type 0 where
  idle : Pc
  scan : Pc
  mark : (slot : ℕ) → Pc
  returned : (slot : ℕ) → Pc

-- The scan up to the first free slot is one step, its store another. A thread that finds no free slot stops.
pub data Access (i : ℕ) (g : Manager) : Pc → Manager → Pc → Type 0 where
  calls : Access i g idle g scan
  finds :
      {n : ℕ}
      → find_entry domain_nonoccupied total_domain 0 g.status ≡ pos n
      → Access i g scan g (mark n)
  marks :
      {n : ℕ}
      → Access i g (mark n) (record g { status = update g.status n domain_occupied }) (returned n)

-- No mutex is taken or released.
pub data Locks : Pc → Pc → Type 0 where

pub Access-holds : (i : ℕ) (g g' : Manager) (p q : Pc) → Access i g p g' q → ◌≡◌ {A = ℕ} 0 0
Access-holds i g g' p q a = refl

pub Locks-holds : (p q : Pc) (m n : ℕ) → Locks p q → m ≡ n
Locks-holds p q m n a = elim a [ ]

abbrev pub find_slot : Program Manager Pc
find_slot = record {
  Access = Access;
  Acquire = Locks;
  Release = Locks;
  holds = λ p. 0;
  Access-holds = Access-holds;
  Acquire-holds = λ p q. Locks-holds p q 0 1;
  Release-holds = λ p q. Locks-holds p q 0 1;
}

-- In the multithreaded build two threads that ask for a slot at once can both be given the first free
-- one, `n`, in whatever state the tables are.
pub slot_twice :
    (x : Mutex) (g : Manager) (n : ℕ)
    → (sdrad_find_free_domain g).0 ≡ pos n
    → (s : Threads (x.State) Manager Pc) × Reach x find_slot
        (Interleave.start x find_slot g (λ i. idle))
        s
      × (s.pc 1 ≡ returned n)
      × (s.pc 2 ≡ returned n)
unfolding sdrad_find_free_domain
slot_twice x g n e = (
  _,
  next
      (next
        (next (next (next (next here (access 1 calls)) (access 2 calls)) (access 1 (finds e)))
          (access 2 (finds e)))
        (access 1 marks))
      (access 2 marks),
  refl,
  refl,
)
