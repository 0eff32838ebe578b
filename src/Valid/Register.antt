-- ===== src/Valid/Register.antt =====
-- The key, the slot and the list node of a new domain.
use secure_rewind_and_discar.Base.{
  ℕ, ◌<◌, ◌≡◌, ◌≢◌, refl, inl, inr, false, List, [], ◌∷◌, arith, ◌==◌, update, Bool-cases, All,
}
use secure_rewind_and_discar.Base.Int.{ℤ, pos, negsuc, ℤ-cases}
use secure_rewind_and_discar.Codes.{total_domain, root_domain, domain_nonoccupied}
use secure_rewind_and_discar.State.{CacheDomain, Thread}
use secure_rewind_and_discar.Platform.{Build, Platform}
use secure_rewind_and_discar.Slots.{sdrad_find_free_domain}
use secure_rewind_and_discar.Slots.Free.{find_free_domain_first}
use secure_rewind_and_discar.Control.{sdrad_search_udi_control}
use secure_rewind_and_discar.Pools.{sdrad_get_config}
use secure_rewind_and_discar.Alloc.{sdrad_malloc_mdd}
use secure_rewind_and_discar.Domain.{sdrad_request_sdi, sdrad_insert_control_structure}
use secure_rewind_and_discar.Machine.{World, fault}
use secure_rewind_and_discar.Machine.Ensures.{Ensures}
use secure_rewind_and_discar.Running.{Running}
use secure_rewind_and_discar.Init.{choose_pkey, register}
use secure_rewind_and_discar.Init.Register.{
  registered, registered_thread, registered_info, register_lem,
}
use secure_rewind_and_discar.Valid.{IsValid, Grown, IsValid-put, IsValid-take, Sound}

module _ {S : Type 0} (p : Platform S) (b : Build) (single : b.multithread ≡ false) (rk : ℕ) where
  pub choose-other :
      (l : List CacheDomain) (w : World S)
      → (p.pkey_alloc w.os).0 ≢ pos rk
      → w.sgm.sgm_head ≡ l
      → All (λ c. c.scdi_pkey ≢ pos rk) l
      → Ensures (λ k v. (k ≢ pos rk) × (v.sgm ≡ w.sgm)) (choose_pkey p b w)
  unfolding choose_pkey
  choose-other [] w fresh e ok = rw e (fresh, refl)
  choose-other (c ∷ l) w fresh e ok = rw e (ok.0, refl)

  -- Naming a domain under a user index that has none.
  module _ (w : World S) (ok : IsValid rk w.sgm) (udi features m : ℕ) (pkey : ℤ)
      (unmapped : sdrad_search_udi_control udi w.sgm.udi_control_head ≡ negsuc m)
      (other_key : pkey ≢ pos rk) (t : Thread) (run : Running p b w root_domain t) where
    registered-Sound : (n : ℕ) → Sound (registered_thread p w root_domain udi features n t pkey)
    unfolding registered_thread registered_info sdrad_get_config
    registered-Sound n =
        let sound = ok.threads root_domain t run.present in
        record { active = sound.active; parents = λ d. ground (arith, sound.parents d) }

    configured-Sound :
        (n : ℕ)
        → Sound (record t {
          sdrad_d_info = update t.sdrad_d_info n (sdrad_get_config p (t.sdrad_d_info n) w.os);
        })
    unfolding sdrad_get_config
    configured-Sound n =
        let sound = ok.threads root_domain t run.present in
        record { active = sound.active; parents = λ d. ground (arith, sound.parents d) }

    registered-IsValid :
        (n : ℕ)
        → n < total_domain
        → w.sgm.status n ≡ domain_nonoccupied
        → IsValid rk (registered p w root_domain udi features n t pkey).sgm
    unfolding registered
    registered-IsValid n room free =
        let taken =
          IsValid-take rk w.sgm ok _ udi n m root_domain pkey room free unmapped other_key in
        let one = IsValid-put rk _ taken root_domain _ (configured-Sound n) in
        IsValid-put rk _ one root_domain _ (registered-Sound n)

    no_slot :
        (k : ℕ)
        → (sdrad_find_free_domain w.sgm).0 ≡ negsuc k
        → register p b root_domain udi features pkey w ≡ fault
    unfolding register sdrad_request_sdi sdrad_find_free_domain
    no_slot k full = ground (arith, run)

    no_node :
        (n : ℕ)
        → (sdrad_find_free_domain w.sgm).0 ≡ pos n
        → (p.tlsf_malloc w.sgm.sdrad_monitor_domain.smd_tlsf p.size_of_control w.os).0 ≡ 0
        → register p b root_domain udi features pkey w ≡ fault
    unfolding register sdrad_request_sdi sdrad_insert_control_structure sdrad_malloc_mdd
        sdrad_find_free_domain
    no_node n slot gone = ground (arith, run)

    node_memory : ℕ
    node_memory = (p.tlsf_malloc w.sgm.sdrad_monitor_domain.smd_tlsf p.size_of_control w.os).0

    unmapped_here : sdrad_search_udi_control udi w.sgm.udi_control_head ≡ negsuc m
    unmapped_here = unmapped

    register_free :
        (n : ℕ)
        → (sdrad_find_free_domain w.sgm).0 ≡ pos n
        → (n < total_domain) × (w.sgm.status n ≡ domain_nonoccupied)
    register_free n slot = ground (arith, find_free_domain_first w.sgm)

    pub register-IsValid :
        Ensures
          (λ n v. IsValid rk v.sgm × Grown udi w.sgm v.sgm)
          (register p b root_domain udi features pkey w)
    unfolding node_memory registered
    register-IsValid = elim (ℤ-cases (sdrad_find_free_domain w.sgm).0) [
      | inr (k, full) ↦ rw (no_slot k full) tt
      | inl (n, slot) ↦ elim (Bool-cases (node_memory == 0)) [
        | inl gone ↦ rw (no_node n slot (ground arith)) tt
        | inr there ↦
            let (room, free) = register_free n slot in
            rw (register_lem p w root_domain udi features n t pkey b run slot room (ground arith))
              (registered-IsValid n room free, inr (node_memory, n, (m, unmapped_here), free, refl))
      ]
    ]
