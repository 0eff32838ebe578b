-- ===== src/Domain.antt =====
-- The bookkeeping of domains (src/sdrad.c, src/sdrad_cache.c): a slot and its settings, the nodes of
-- the two linked lists, and the record of a domain that is gone.
pub mod Options
use Prim.Native.Nat.{bit_and, bit_or}
use secure_rewind_and_discar.Base.{
  ℕ, Bool, true, Option, none, some, List, [], ◌∷◌, ◌==◌, if◌then◌else◌, update,
}
use secure_rewind_and_discar.Base.Int.{ℤ, pos, negsuc}
use secure_rewind_and_discar.Codes.{
  sdrad_error_wrong_config, sdrad_execution_domain, sdrad_data_domain, sdrad_isolated_domain,
  sdrad_nonisolated_domain, sdrad_return_to_parent, sdrad_return_to_current,
}
use secure_rewind_and_discar.State.{CacheDomain, DomainInfo}
use secure_rewind_and_discar.Platform.{Build, Platform}
use secure_rewind_and_discar.Slots.{sdrad_find_free_domain}
use secure_rewind_and_discar.Control.{unlink}
use secure_rewind_and_discar.Pools.{sdrad_get_config}
use secure_rewind_and_discar.Alloc.{current, sdrad_malloc_mdd, free}
use secure_rewind_and_discar.Machine.{
  deref, Cmd, pure, fail, ◌>>=◌, ◌>>◌, get, get_sgm, modify_sgm, call_void, in_bounds, thread,
  put_thread,
}

unfoldable pub pair_of_flags : (domain_feature first second : ℕ) → Bool
pair_of_flags domain_feature first second =
    bit_and domain_feature (bit_or first second) == bit_or first second

-- Three pairs of options exclude one another.
unfoldable pub sdrad_check_init_config : (domain_feature : ℕ) → ℤ
unfolding pair_of_flags
sdrad_check_init_config domain_feature =
    if pair_of_flags domain_feature sdrad_data_domain sdrad_execution_domain
    then sdrad_error_wrong_config
    else (if pair_of_flags domain_feature sdrad_isolated_domain sdrad_nonisolated_domain
        then sdrad_error_wrong_config
        else (if pair_of_flags domain_feature sdrad_return_to_parent sdrad_return_to_current
            then sdrad_error_wrong_config
            else pos 1))

-- A write through the pointer to the first node, which was just linked in.
abbrev pub at_head {ℓ} : {A : Type ℓ} → (A → A) → List A → List A
at_head f [] = []
at_head f (x ∷ rest) = f x ∷ rest

-- The fields of the new cache node that are written. A node whose domain has no heap keeps
-- whatever its flag held.
unfoldable pub cache_entry : DomainInfo → ℤ → CacheDomain → CacheDomain
cache_entry d pkey c =
    let c₁ = record c {
      scdi_address_stack = d.sdi_address_stack;
      scdi_size_of_stack = d.sdi_size_of_stack;
      scdi_pkey = pkey;
    } in
    if d.sdi_init_heap_flag
    then record c₁ {
      scdi_init_heap_domain_flag = true;
      scdi_address_heap = d.sdi_address_of_heap;
      scdi_size_of_heap = d.sdi_size_of_heap;
      scdi_tlsf = 0;
    }
    else c₁

module _ {S : Type 0} (p : Platform S) (b : Build) where
  -- Without a free slot the settings are written in front of the array.
  unfoldable pub sdrad_request_sdi : Cmd S ℕ
  sdrad_request_sdi = do
    sti ← current p b
    t ← thread sti
    g ← get_sgm
    let (found, g') = sdrad_find_free_domain g
    modify_sgm (λ _. g')
    elim found [
      | negsuc _ ↦ fail
      | pos free_domain ↦ do
        in_bounds free_domain
        w ← get
        put_thread sti (record t {
          sdrad_d_info =
              update t.sdrad_d_info free_domain
                (sdrad_get_config p (t.sdrad_d_info free_domain) w.os);
        })
        pure free_domain
    ]

  -- The same without the mutex; no file of the library calls it.
  sdrad_domain_init : Cmd S ℕ
  sdrad_domain_init = do
    sti ← current p b
    t ← thread sti
    g ← get_sgm
    let (found, g') = sdrad_find_free_domain g
    modify_sgm (λ _. g')
    elim found [
      | negsuc _ ↦ fail
      | pos free_domain ↦ do
        in_bounds free_domain
        w ← get
        put_thread sti (record t {
          sdrad_d_info =
              update t.sdrad_d_info free_domain
                (sdrad_get_config p (t.sdrad_d_info free_domain) w.os);
        })
        pure free_domain
    ]

  -- The table of user indices that the list has replaced; no file of the library calls it.
  sdrad_map_udi_to_sdi : (udi : ℕ) → Cmd S ℕ
  sdrad_map_udi_to_sdi udi = do
    g ← get_sgm
    let (found, g') = sdrad_find_free_domain g
    modify_sgm (λ _. g')
    elim found [
      | negsuc _ ↦ fail
      | pos sdi ↦ do
        in_bounds sdi
        modify_sgm (λ g. record g { sgm_udi_to_sdi = update g.sgm_udi_to_sdi sdi udi })
        pure sdi
    ]

  -- A new first node; its other fields hold what the memory held.
  unfoldable pub sdrad_insert_control_structure : Cmd S (Unit {0})
  sdrad_insert_control_structure = do
    node ← sdrad_malloc_mdd p b p.size_of_control
    deref node
    w ← get
    modify_sgm (λ g. record g {
      udi_control_head = record (p.raw_control node w.os) { node = node } ∷ g.udi_control_head;
    })

  unfoldable pub sdrad_insert_cache_domain : Cmd S (Unit {0})
  sdrad_insert_cache_domain = do
    node ← sdrad_malloc_mdd p b p.size_of_cache
    deref node
    w ← get
    modify_sgm (λ g. record g { sgm_head = p.raw_cache node w.os ∷ g.sgm_head })

  free_node : Option ℕ → Cmd S (Unit {0})
  free_node none = pure tt
  free_node (some node) = free p b node

  unfoldable pub sdrad_delete_control_structure : (sdi : ℕ) → Cmd S (Unit {0})
  unfolding free_node
  sdrad_delete_control_structure sdi = do
    g ← get_sgm
    let (kept, freed) = unlink sdi g.udi_control_head
    modify_sgm (λ g. record g { udi_control_head = kept })
    free_node freed

  clear_memory : (address size : ℕ) → Cmd S (Unit {0})
  clear_memory address size = if b.zero_domain then call_void (p.bzero address size) else pure tt

  -- `d` is `*sdi_ptr`.
  unfoldable pub sdrad_destroy_domain : (d : DomainInfo) (active_domain : ℕ) → Cmd S (Unit {0})
  unfolding clear_memory
  sdrad_destroy_domain d active_domain = do
    sdrad_insert_cache_domain
    in_bounds active_domain
    modify_sgm
        (λ g. record g { sgm_head = at_head (cache_entry d (g.pdi active_domain)) g.sgm_head })
    clear_memory d.sdi_address_stack d.sdi_size_of_stack
    if d.sdi_init_heap_flag then clear_memory d.sdi_address_of_heap d.sdi_size_of_heap else pure tt
    sdrad_delete_control_structure active_domain
