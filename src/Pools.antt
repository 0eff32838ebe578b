-- ===== src/Pools.antt =====
-- The heap of a domain as TLSF pools: `sdrad_heap_domain_init` (src/sdrad_heap_mng.c) and the two
-- functions that give a new domain its memory, with or without a cached one (src/sdrad.c). A
-- `sdrad_d_info_t *` goes in as the record it points to, and comes out as the changed record.
pub mod Cover
use secure_rewind_and_discar.Base.{
  ℕ, zero, suc, ◌+◌, ◌-◌, ◌/◌, Bool, true, false, get_or, List, [], ◌∷◌, leb, ltb, if◌then◌else◌,
}
use secure_rewind_and_discar.Base.Int.{ℤ}
use secure_rewind_and_discar.Codes.{
  sdrad_default_stack_size, sdrad_default_heap_size, sdrad_tlsf_max_heap_size,
  sdrad_default_data_domain_size,
}
use secure_rewind_and_discar.State.{Tlsf, DomainInfo, CacheDomain, Manager}
use secure_rewind_and_discar.Platform.{
  EnvVar, sdrad_stack_size, sdrad_heap_size, sdrad_data_domain_size, Build, Platform,
}

-- The cache without its first node. A call on an empty cache, which no caller makes, would read NULL.
abbrev pub sdrad_delete_cache_domain : List CacheDomain → List CacheDomain
sdrad_delete_cache_domain [] = []
sdrad_delete_cache_domain (_ ∷ rest) = rest

module _ {S : Type 0} (p : Platform S) where
  -- The `while` loop that both functions have: pools of the largest size, as long as more than that
  -- is left. `rounds` bounds the rounds; `heap_size / max` of them are enough. The result is the
  -- size and the address that are left, and the platform's state.
  pub add_pools : (rounds : ℕ) (tlsf : Tlsf) (heap_size address : ℕ) → S → ℕ × ℕ × S
  add_pools zero tlsf heap_size address os = (heap_size, address, os)
  add_pools (suc rounds) tlsf heap_size address os =
      let rest =
        add_pools rounds tlsf (heap_size - sdrad_tlsf_max_heap_size)
          (address + sdrad_tlsf_max_heap_size)
          (p.tlsf_add_pool tlsf address sdrad_tlsf_max_heap_size os) in
      if ltb sdrad_tlsf_max_heap_size heap_size then rest else (heap_size, address, os)

  -- The pools of a heap that is larger than one: the first, the loop, and the last piece, which
  -- `sdrad_data_domain_init` leaves out (`tail` is false).
  unfoldable pub large_heap : (tail : Bool) (address size : ℕ) → S → Tlsf × S
  large_heap tail address size os =
      let (tlsf, os₁) = p.tlsf_create_with_pool address sdrad_tlsf_max_heap_size os in
      let left = size - sdrad_tlsf_max_heap_size in
      let (heap_size, next, os₂) =
        add_pools (left / sdrad_tlsf_max_heap_size) tlsf left (address + sdrad_tlsf_max_heap_size)
          os₁ in
      (tlsf, if tail then p.tlsf_add_pool tlsf next heap_size os₂ else os₂)

  unfoldable pub sdrad_heap_domain_init : DomainInfo → ℤ → S → DomainInfo × S
  sdrad_heap_domain_init d pkey os =
      let size : ℕ = sdrad_default_heap_size in
      let (address, os₁) = p.mmap size os in
      let os₂ = p.pkey_mprotect address size pkey os₁ in
      let (tlsf, os₃) =
        if leb size sdrad_tlsf_max_heap_size
        then p.tlsf_create_with_pool address size os₂
        else large_heap true address size os₂ in
      (
        record d {
          sdi_size_of_heap = size;
          sdi_address_of_heap = address;
          sdi_tlsf = tlsf;
          sdi_init_heap_flag = true;
        },
        os₃,
      )

  unfoldable pub sdrad_get_config : DomainInfo → S → DomainInfo
  sdrad_get_config d os = record d {
    sdi_size_of_stack = get_or (p.getenv sdrad_stack_size os) sdrad_default_stack_size;
    sdi_size_of_heap = get_or (p.getenv sdrad_heap_size os) sdrad_default_heap_size;
  }

  -- The mapping grows downwards; its status is not looked at.
  abbrev pub sdrad_allocate_stack : (stack_size : ℕ) → S → ℕ × S
  sdrad_allocate_stack stack_size os = p.mmap stack_size os

  -- A domain with a stack: the first cached one, whatever it holds, or a new mapping. `head` is the
  -- list at `sgm_head`; `sdrad_delete_cache_domain` drops its first node.
  unfoldable pub sdrad_execution_domain_init :
      Build → List CacheDomain → DomainInfo → ℤ → S → List CacheDomain × DomainInfo × S
  sdrad_execution_domain_init b [] d pkey os =
      let d₁ = sdrad_get_config d os in
      let (address, os₁) = sdrad_allocate_stack d₁.sdi_size_of_stack os in
      (
        [],
        record d₁ { sdi_address_stack = address },
        if b.pkey_enable then p.pkey_mprotect address d₁.sdi_size_of_stack pkey os₁ else os₁,
      )
  sdrad_execution_domain_init b (c ∷ rest) d pkey os =
      let d₁ = record d {
        sdi_address_stack = c.scdi_address_stack;
        sdi_size_of_stack = c.scdi_size_of_stack;
      } in
      let (tlsf, os₁) = p.tlsf_create_with_pool c.scdi_address_heap c.scdi_size_of_heap os in
      if c.scdi_init_heap_domain_flag
      then (
        sdrad_delete_cache_domain (c ∷ rest),
        record d₁ {
          sdi_address_of_heap = c.scdi_address_heap;
          sdi_size_of_heap = c.scdi_size_of_heap;
          sdi_tlsf = tlsf;
        },
        os₁,
      )
      else (sdrad_delete_cache_domain (c ∷ rest), record d₁ { sdi_init_heap_flag = false }, os)

  -- The second half of `sdrad_data_domain_init`: a new heap, unless the slot has one from before.
  unfoldable pub new_data_heap : DomainInfo → ℤ → S → DomainInfo × S
  new_data_heap d pkey os =
      let size = get_or (p.getenv sdrad_data_domain_size os) sdrad_default_data_domain_size in
      let (address, os₁) = p.mmap size os in
      let os₂ = p.pkey_mprotect address size pkey os₁ in
      let (tlsf, os₃) =
        if leb size sdrad_tlsf_max_heap_size
        then p.tlsf_create_with_pool address size os₂
        else large_heap false address size os₂ in
      if d.sdi_init_heap_flag then (d, os) else (
        record d {
          sdi_size_of_heap = size;
          sdi_address_of_heap = address;
          sdi_tlsf = tlsf;
          sdi_init_heap_flag = true;
        },
        os₃,
      )

  unfoldable pub sdrad_data_domain_init :
      List CacheDomain → DomainInfo → ℤ → S → List CacheDomain × DomainInfo × S
  sdrad_data_domain_init [] d pkey os = let (d₁, os₁) = new_data_heap d pkey os in ([], d₁, os₁)
  sdrad_data_domain_init (c ∷ rest) d pkey os =
      let (tlsf, os₁) = p.tlsf_create_with_pool c.scdi_address_heap c.scdi_size_of_heap os in
      let (d₂, os₂) = new_data_heap d pkey os in
      if c.scdi_init_heap_domain_flag
      then (
        sdrad_delete_cache_domain (c ∷ rest),
        record d {
          sdi_address_of_heap = c.scdi_address_heap;
          sdi_size_of_heap = c.scdi_size_of_heap;
          sdi_tlsf = tlsf;
          sdi_init_heap_flag = true;
        },
        os₁,
      )
      else (c ∷ rest, d₂, os₂)
