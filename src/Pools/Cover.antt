-- ===== src/Pools/Cover.antt =====
-- The loop over the pools of a large heap: how far it gets, and where.
use secure_rewind_and_discar.Base.{
  ℕ, zero, suc, ◌+◌, ◌-◌, ◌*◌, ◌/◌, Bool-cases, inl, inr, ◌<◌, ◌≤◌, ◌≡◌, Bool, arith, if◌then◌else◌,
  ltb,
}
use secure_rewind_and_discar.Codes.{sdrad_tlsf_max_heap_size}
use secure_rewind_and_discar.State.{Tlsf}
use secure_rewind_and_discar.Platform.{Platform}
use secure_rewind_and_discar.Pools.{add_pools, large_heap}

-- The pools of the loop, from an address on, for a given number of rounds.
pub pools : {S : Type 0} → Platform S → (k : ℕ) (tlsf : Tlsf) (address : ℕ) → S → S
pools p zero tlsf address os = os
pools p (suc k) tlsf address os =
    pools p k tlsf (address + sdrad_tlsf_max_heap_size)
      (p.tlsf_add_pool tlsf address sdrad_tlsf_max_heap_size os)

-- The number of full pools that the loop makes.
abbrev pub full_pools : (heap_size : ℕ) → ℕ
full_pools heap_size = (heap_size - 1) / sdrad_tlsf_max_heap_size

module _ {S : Type 0} (p : Platform S) (tlsf : Tlsf) where
  -- With `heap_size / max` rounds or more the loop ends by its own condition. It has made
  -- `(heap_size - 1) / max` pools of the largest size side by side; what is left is the rest of the size,
  -- at most the largest size, behind them.
  pub add_pools_exact :
      (rounds heap_size address : ℕ) (os : S)
      → heap_size / sdrad_tlsf_max_heap_size ≤ rounds
      → let k = full_pools heap_size in
        let done_size = k * sdrad_tlsf_max_heap_size in
        (add_pools p rounds tlsf heap_size address os
          ≡ (heap_size - done_size, address + done_size, pools p k tlsf address os))
        × (heap_size - done_size ≤ sdrad_tlsf_max_heap_size)
  unfolding add_pools pools
  add_pools_exact zero heap_size address os enough =
      let small : full_pools heap_size ≡ 0 = omega arith in rw small (ground arith)
  add_pools_exact (suc rounds) heap_size address os enough =
      elim (Bool-cases (ltb sdrad_tlsf_max_heap_size heap_size)) [
        | inr is_small ↦
            let small : full_pools heap_size ≡ 0 = ground arith in
            rw (is_small, small) (ground arith)
        | inl is_large ↦
            let above : sdrad_tlsf_max_heap_size < heap_size = ground arith in
            let left : ℕ = heap_size - sdrad_tlsf_max_heap_size in
            let more : full_pools heap_size ≡ suc (full_pools left) = omega (arith, above) in
            let ih =
              add_pools_exact rounds left (address + sdrad_tlsf_max_heap_size)
                (p.tlsf_add_pool tlsf address sdrad_tlsf_max_heap_size os)
                (omega (arith, above, enough)) in
            let size : left - full_pools left * sdrad_tlsf_max_heap_size
                ≡ heap_size - suc (full_pools left) * sdrad_tlsf_max_heap_size =
              omega arith in
            let at : address + sdrad_tlsf_max_heap_size + full_pools left * sdrad_tlsf_max_heap_size
                ≡ address + suc (full_pools left) * sdrad_tlsf_max_heap_size =
              omega arith in
            rw (is_large, more) (rw (size, at) at ih)
      ]

module _ {S : Type 0} (p : Platform S) (address size : ℕ) (os : S)
    (large : sdrad_tlsf_max_heap_size < size) where
  -- A heap of more than one pool: the first pool, then the full pools side by side, then, if the tail is
  -- wanted, a pool for what is left. The left piece is not empty and no larger than a pool, and together they
  -- have the size of the heap.
  pub large_heap_tiles :
      (tail : Bool)
      → let first = p.tlsf_create_with_pool address sdrad_tlsf_max_heap_size os in
        let k = full_pools (size - sdrad_tlsf_max_heap_size) in
        let left = size - suc k * sdrad_tlsf_max_heap_size in
        let full = pools p k first.0 (address + sdrad_tlsf_max_heap_size) first.1 in
        (large_heap p tail address size os ≡ (
          first.0,
          if tail
              then p.tlsf_add_pool first.0 (address + suc k * sdrad_tlsf_max_heap_size) left full
              else full,
        ))
        × (0 < left)
        × (left ≤ sdrad_tlsf_max_heap_size)
        × (suc k * sdrad_tlsf_max_heap_size + left ≡ size)
  unfolding large_heap
  large_heap_tiles tail =
      let first = p.tlsf_create_with_pool address sdrad_tlsf_max_heap_size os in
      let (loop, bound) =
        add_pools_exact p first.0 ((size - sdrad_tlsf_max_heap_size) / sdrad_tlsf_max_heap_size)
          (size - sdrad_tlsf_max_heap_size) (address + sdrad_tlsf_max_heap_size) first.1
          (omega arith) in
      (rw loop (ground arith), omega arith, omega arith, omega arith)
