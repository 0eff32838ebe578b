-- ===== src/Init/Outcome.antt =====
-- What an application sees of a new execution domain.
use secure_rewind_and_discar.Base.{
  ℕ, ◌≡◌, refl, ◌⊎◌, inl, inr, Bool-cases, true, false, some, List, [], ◌∷◌, arith, ◌==◌,
  if◌then◌else◌, update,
}
use secure_rewind_and_discar.Base.Int.{ℤ, pos}
use secure_rewind_and_discar.Codes.{
  domain_occupied, sdrad_successful_returned, sdrad_return_to_parent, has_flag,
}
use secure_rewind_and_discar.State.{DomainInfo, CacheDomain, Thread}
use secure_rewind_and_discar.Platform.{Build, Platform}
use secure_rewind_and_discar.Pkey.{sdrad_pkru_default_config}
use secure_rewind_and_discar.Control.{sdrad_search_udi_control}
use secure_rewind_and_discar.Pools.{sdrad_execution_domain_init, sdrad_get_config}
use secure_rewind_and_discar.Machine.{World}
use secure_rewind_and_discar.Machine.Returns.{Returns}
use secure_rewind_and_discar.Running.{Running, active_of, config_of, info_of}
use secure_rewind_and_discar.Init.{sdrad_init_base}
use secure_rewind_and_discar.Init.Register.{registered, registered_thread, registered_info}
use secure_rewind_and_discar.Init.Fresh.{
  Creatable, created, created_thread, built, placed, placed_thread, keyed, saved_info, init_lem,
}

-- The memory of a domain is set up without a change to who made it, where it returns and its options.
execution_keeps :
    {S : Type 0} (p : Platform S) (b : Build) (head : List CacheDomain) (d : DomainInfo) (pkey : ℤ)
    (os : S)
    → let d' = (sdrad_execution_domain_init p b head d pkey os).1 in
      (d'.sdi_parent_domain ≡ d.sdi_parent_domain)
      × (d'.sdi_base_address ≡ d.sdi_base_address)
      × (d'.sdi_options ≡ d.sdi_options)
      × (d'.sdi_saved_ex ≡ d.sdi_saved_ex)
unfolding sdrad_execution_domain_init sdrad_get_config
execution_keeps p b [] d pkey os = ground arith
execution_keeps p b (c ∷ rest) d pkey os = ground arith

module _ {S : Type 0} (p : Platform S) (b : Build) (w : World S) (sti base n key : ℕ) (t : Thread)
    (run : Running p b w sti t) (able : Creatable p b w (w.frames base) n key) where
  -- The record of the new domain. Only a domain that is made without SDRAD_RETURN_TO_PARENT gets the
  -- context of the caller.
  made_record :
      let info = (created_thread p b w sti base n key t).sdrad_d_info n in
      (info.sdi_parent_domain ≡ t.active_domain)
      × (info.sdi_base_address ≡ base)
      × (info.sdi_options ≡ (w.frames base).domain_feature)
      × ((has_flag (w.frames base).domain_feature sdrad_return_to_parent ≡ true)
          ⊎ ((info.sdi_saved_ex ≡ true)
              × (info.sdi_buffer ≡ (w.frames base).buffer)
              × (info.sdi_return_address ≡ (w.frames base).return_address)))
  unfolding created_thread registered_thread registered_info placed_thread saved_info built placed
      keyed
  made_record =
      let keeps =
        execution_keeps p b (placed p b w sti base n key t).sgm.sgm_head
          (record ((placed_thread p b w sti base n key t).sdrad_d_info n) {
            sdi_parent_domain = t.active_domain;
            sdi_base_address = base;
          })
          (pos key) (placed p b w sti base n key t).os in
      elim (Bool-cases (has_flag (w.frames base).domain_feature sdrad_return_to_parent)) [
        | inl e ↦
            rw e (ground (arith, keeps), ground (arith, keeps), ground (arith, keeps), inl refl)
        | inr e ↦ rw e (
          ground (arith, keeps),
          ground (arith, keeps),
          ground (arith, keeps),
          inr (ground arith, ground arith, ground arith),
        )
      ]

  active_made : active_of (created p b w sti base n key t) sti ≡ some t.active_domain
  unfolding created created_thread
  active_made = ground arith

  config_made :
      config_of (created p b w sti base n key t) sti t.active_domain
      ≡ some (created p b w sti base n key t).pkru
  unfolding created created_thread
  config_made = ground arith

  config_new :
      config_of (created p b w sti base n key t) sti n ≡ some (sdrad_pkru_default_config key)
  unfolding created created_thread
  config_new = ground arith

  -- Let the calling thread initialise an execution domain under a user index that has none, with valid
  -- options, a free slot, a protection key and the memory that the domain needs, on a platform whose
  -- calls leave the number of the running thread alone. Then the call succeeds. The index stands for
  -- the slot, which was the first free one and is occupied, with the chosen protection key; every other
  -- index stands for what it stood for; the caller stays active, the register holds the rights that are
  -- kept for it, and the new domain's rights are the default ones of its key. The domain's record has
  -- the caller as its parent, the frame of the call and the options that were asked for; and, if the
  -- domain is made without SDRAD_RETURN_TO_PARENT, the context that was saved in the frame and its
  -- return address.
  pub init_creates :
      (other : ℕ)
      → Returns
          (λ code v.
            (code ≡ sdrad_successful_returned)
            × (sdrad_search_udi_control other v.sgm.udi_control_head ≡ (
                if (w.frames base).udi == other
                then pos n
                else sdrad_search_udi_control other w.sgm.udi_control_head))
            × (v.sgm.status ≡ update w.sgm.status n domain_occupied)
            × (v.sgm.pdi ≡ update w.sgm.pdi n (pos key))
            × (active_of v sti ≡ some t.active_domain)
            × (config_of v sti t.active_domain ≡ some v.pkru)
            × (config_of v sti n ≡ some (sdrad_pkru_default_config key))
            × ((d : DomainInfo) × (info_of v sti n ≡ some d)
                × (d.sdi_parent_domain ≡ t.active_domain)
                × (d.sdi_base_address ≡ base)
                × (d.sdi_options ≡ (w.frames base).domain_feature)
                × ((has_flag (w.frames base).domain_feature sdrad_return_to_parent ≡ true)
                    ⊎ ((d.sdi_saved_ex ≡ true)
                        × (d.sdi_buffer ≡ (w.frames base).buffer)
                        × (d.sdi_return_address ≡ (w.frames base).return_address)))))
          (sdrad_init_base p b base w)
  unfolding created placed keyed sdrad_search_udi_control registered
  init_creates other =
      let (parent, frame, options, context) = made_record in
      rw (init_lem p b w sti base n key t run able) (
        refl,
        ground arith,
        refl,
        refl,
        active_made,
        config_made,
        config_new,
        (
          (created_thread p b w sti base n key t).sdrad_d_info n,
          ground arith,
          parent,
          frame,
          options,
          context,
        ),
      )

  module _ (returns : has_flag (w.frames base).domain_feature sdrad_return_to_parent ≡ false) where
    -- The record of the new domain is made by the caller, has the options that were asked for, and holds
    -- the context of the caller; the records of the other domains are as they were.
    pub init_records :
        (d : ℕ)
        → let made = created_thread p b w sti base n key t in
          let info = made.sdrad_d_info n in
          (info.sdi_parent_domain ≡ t.active_domain)
          × (info.sdi_base_address ≡ base)
          × (info.sdi_options ≡ (w.frames base).domain_feature)
          × (info.sdi_saved_ex ≡ true)
          × (info.sdi_buffer ≡ (w.frames base).buffer)
          × (info.sdi_return_address ≡ (w.frames base).return_address)
          × (made.sdrad_d_info d ≡ (if n == d then info else t.sdrad_d_info d))
    unfolding created_thread registered_thread registered_info placed_thread saved_info built placed
        keyed
    init_records d = ground (
      arith,
      returns,
      execution_keeps p b (placed p b w sti base n key t).sgm.sgm_head
          (record ((placed_thread p b w sti base n key t).sdrad_d_info n) {
            sdi_parent_domain = t.active_domain;
            sdi_base_address = base;
          })
          (pos key) (placed p b w sti base n key t).os,
    )
