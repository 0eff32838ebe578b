-- ===== src/Control/Memory.antt =====
-- The list at `udi_control_head` in memory, in the multithreaded build (src/sdrad.c): the three functions
-- that walk or change it there, an access to what the threads share at a time.
pub mod Chain
pub mod Listed
pub mod Inserted
pub mod Lost
pub mod Walk
pub mod Delete
pub mod Insert
pub mod Found
use secure_rewind_and_discar.Base.{
  ℕ, suc, ◌+◌, ◌≡◌, ◌≢◌, refl, Bool, true, false, ◌==◌, if◌then◌else◌, arith, update,
}
use secure_rewind_and_discar.Base.Int.{ℤ, pos}
use secure_rewind_and_discar.Codes.{sdrad_error_domain_no_map}
use secure_rewind_and_discar.Lock.Interleave.{Program}

-- The head and the fields of the nodes by their addresses, 0 for NULL; and which addresses the
-- allocator has given out.
pub record Nodes : Type 0 where
  pub udi_control_head : ℕ
  pub next : (node : ℕ) → ℕ
  pub udi : (node : ℕ) → ℕ
  pub sdi : (node : ℕ) → ℕ
  pub taken : (node : ℕ) → Bool

-- Where a thread stands in a function, with its live variables.
pub data Spot : Type 0 where
  idle : Spot
  -- `sdrad_search_udi_control`, after its argument `udi_control_head` has been read
  searches : (udi udi_ptr : ℕ) → Spot
  walk : (udi udi_ptr : ℕ) → Spot
  found : (udi_ptr : ℕ) → Spot
  answer : (udi_ptr : ℕ) → Spot
  answered : ℤ → Spot
  -- `sdrad_insert_control_structure`, and the two stores of `__sdrad_init` that follow it
  insert : (udi sdi : ℕ) → Spot
  allocate : (udi sdi : ℕ) → Spot
  link : (udi sdi udi_ptr : ℕ) → Spot
  publish : (udi sdi udi_ptr : ℕ) → Spot
  insert_unlock : (udi sdi udi_ptr : ℕ) → Spot
  fill_udi : (udi sdi udi_ptr : ℕ) → Spot
  fill_sdi : (sdi udi_ptr : ℕ) → Spot
  -- `sdrad_delete_control_structure`
  delete_first : (sdi head : ℕ) → Spot
  delete_head : (rest : ℕ) → Spot
  delete_walk : (sdi current : ℕ) → Spot

-- With the number of times that the thread holds the mutex outside these functions.
pub data Pc : Type 0 where
  at : (kept : ℕ) → Spot → Pc

-- Accesses within one function, which leave `kept` alone. In a search and a deletion the reads of one
-- test are one step. `deletes` says whether the threads delete nodes at all.
pub data Move (deletes : Bool) (m : Nodes) : Spot → Nodes → Spot → Type 0 where
  calls_search : (udi : ℕ) → Move deletes m idle m (searches udi m.udi_control_head)
  walks :
      {udi ptr : ℕ}
      → ptr ≢ 0
      → m.udi ptr ≢ udi
      → Move deletes m (walk udi ptr) m (walk udi (m.next ptr))
  finds : {udi ptr : ℕ} → ptr ≢ 0 → m.udi ptr ≡ udi → Move deletes m (walk udi ptr) m (found ptr)
  misses : {udi ptr : ℕ} → ptr ≡ 0 → Move deletes m (walk udi ptr) m (found ptr)
  answers :
      {ptr : ℕ}
      → Move deletes m
          (answer ptr)
          m
          (answered (if ptr == 0 then sdrad_error_domain_no_map else pos (m.sdi ptr)))
  goes_on : {r : ℤ} → Move deletes m (answered r) m idle
  calls_insert : (udi sdi : ℕ) → Move deletes m idle m (insert udi sdi)
  -- Memory that is not in use, with whatever it holds. Its address is not tested.
  allocates :
      {udi sdi : ℕ} (node : ℕ)
      → node ≢ 0
      → m.taken node ≡ false
      → Move deletes m
          (allocate udi sdi)
          (record m { taken = update m.taken node true })
          (link udi sdi node)
  links :
      {udi sdi ptr : ℕ}
      → Move deletes m
          (link udi sdi ptr)
          (record m { next = update m.next ptr m.udi_control_head })
          (publish udi sdi ptr)
  publishes :
      {udi sdi ptr : ℕ}
      → Move deletes m
          (publish udi sdi ptr)
          (record m { udi_control_head = ptr })
          (insert_unlock udi sdi ptr)
  fills_udi :
      {udi sdi ptr : ℕ}
      → Move deletes m
          (fill_udi udi sdi ptr)
          (record m { udi = update m.udi ptr udi })
          (fill_sdi sdi ptr)
  fills_sdi :
      {sdi ptr : ℕ}
      → Move deletes m (fill_sdi sdi ptr) (record m { sdi = update m.sdi ptr sdi }) idle
  calls_delete :
      (sdi : ℕ)
      → deletes ≡ true
      → m.udi_control_head ≢ 0
      → Move deletes m idle m (delete_first sdi m.udi_control_head)
  deletes_first :
      {sdi head : ℕ}
      → m.sdi m.udi_control_head ≡ sdi
      → Move deletes m (delete_first sdi head) m (delete_head (m.next m.udi_control_head))
  stores_head :
      {rest : ℕ} → Move deletes m (delete_head rest) (record m { udi_control_head = rest }) idle
  keeps_first :
      {sdi head : ℕ}
      → m.sdi m.udi_control_head ≢ sdi
      → Move deletes m (delete_first sdi head) m (delete_walk sdi head)
  delete_ends : {sdi cur : ℕ} → m.next cur ≡ 0 → Move deletes m (delete_walk sdi cur) m idle
  delete_walks :
      {sdi cur : ℕ}
      → m.next cur ≢ 0
      → m.sdi (m.next cur) ≢ sdi
      → Move deletes m (delete_walk sdi cur) m (delete_walk sdi (m.next cur))
  unlinks :
      {sdi cur : ℕ}
      → m.next cur ≢ 0
      → m.sdi (m.next cur) ≡ sdi
      → Move deletes m
          (delete_walk sdi cur)
          (record m {
            next = update m.next cur (m.next (m.next cur));
            taken = update m.taken (m.next cur) false;
          })
          idle

pub data Access (deletes : Bool) (i : ℕ) (m : Nodes) : Pc → Nodes → Pc → Type 0 where
  within :
      {k : ℕ} {a b : Spot} {m' : Nodes}
      → Move deletes m a m' b
      → Access deletes i m (at k a) m' (at k b)

pub data Acquire : Pc → Pc → Type 0 where
  search_locks : {k udi ptr : ℕ} → Acquire (at k (searches udi ptr)) (at k (walk udi ptr))
  insert_locks : {k udi sdi : ℕ} → Acquire (at k (insert udi sdi)) (at k (allocate udi sdi))

pub data Release : Pc → Pc → Type 0 where
  search_unlocks : {k ptr : ℕ} → Release (at k (found ptr)) (at k (answer ptr))
  insert_unlocks :
      {k udi sdi ptr : ℕ} → Release (at k (insert_unlock udi sdi ptr)) (at k (fill_udi udi sdi ptr))

abbrev pub spot_holds : Spot → ℕ
spot_holds (walk _ _) = 1
spot_holds (found _) = 1
spot_holds (allocate _ _) = 1
spot_holds (link _ _ _) = 1
spot_holds (publish _ _ _) = 1
spot_holds (insert_unlock _ _ _) = 1
spot_holds _ = 0

abbrev pub holds : Pc → ℕ
holds (at k spot) = k + spot_holds spot

Move-spot_holds :
    (d : Bool) (m m' : Nodes) (a b : Spot) → Move d m a m' b → spot_holds b ≡ spot_holds a
Move-spot_holds d m m' a b (calls_search udi) = refl
Move-spot_holds d m m' a b v = refl

pub Access-holds :
    (d : Bool) (i : ℕ) (m m' : Nodes) (p q : Pc) → Access d i m p m' q → holds q ≡ holds p
Access-holds d i m m' p q (within {k} {a} {b} v) = omega (arith, Move-spot_holds d m m' a b v)

pub Acquire-holds : (p q : Pc) → Acquire p q → holds q ≡ suc (holds p)
Acquire-holds p q search_locks = omega arith
Acquire-holds p q insert_locks = omega arith

pub Release-holds : (p q : Pc) → Release p q → holds p ≡ suc (holds q)
Release-holds p q search_unlocks = omega arith
Release-holds p q insert_unlocks = omega arith

abbrev pub control_list : Bool → Program Nodes Pc
control_list deletes = record {
  Access = Access deletes;
  Acquire = Acquire;
  Release = Release;
  holds = holds;
  Access-holds = Access-holds deletes;
  Acquire-holds = Acquire-holds;
  Release-holds = Release-holds;
}

abbrev pub first_pc : ℕ → Pc
first_pc i = at 0 idle
