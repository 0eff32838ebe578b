-- ===== src/Rewind/Whole.antt =====
-- A whole life: a domain is made, entered, hit by a fault, and rewound.
use secure_rewind_and_discar.Base.{
  ℕ, ◌+◌, ◌-◌, ◌≡◌, ◌≢◌, refl, sym, ap, ◌∙◌, inl, false, some, none, arith, update,
}
use secure_rewind_and_discar.Base.Int.{pos, eqb_ℤ}
use secure_rewind_and_discar.Codes.{
  root_domain, domain_nonoccupied, sdrad_return_to_parent, has_flag,
}
use secure_rewind_and_discar.State.{Thread}
use secure_rewind_and_discar.Platform.{Build, Platform}
use secure_rewind_and_discar.Slots.{sdrad_get_sti, sdrad_get_sti_from_tid}
use secure_rewind_and_discar.Control.{sdrad_search_udi_control, unlink}
use secure_rewind_and_discar.Machine.{World, modify, pure, ◌>>=◌, ◌>>◌}
use secure_rewind_and_discar.Machine.Returns.{Returns, Returns-and_then}
use secure_rewind_and_discar.Running.{Running, active_of}
use secure_rewind_and_discar.Init.{sdrad_init_base}
use secure_rewind_and_discar.Init.Register.{registered}
use secure_rewind_and_discar.Init.Fresh.{
  Creatable, created, created_thread, placed, keyed, init_lem,
}
use secure_rewind_and_discar.Init.Outcome.{init_records}
use secure_rewind_and_discar.Gate.{sdrad_enter}
use secure_rewind_and_discar.Gate.RoundTrip.{Enterable, entered, enter_lem}
use secure_rewind_and_discar.Rewind.{Exit, jumps, sdrad_abnormal_domain_exit, sdrad_init_rewound}
use secure_rewind_and_discar.Rewind.Discard.{abnormal_exit_target, init_rewound_lem, Discardable}

module _ {S : Type 0} (p : Platform S) (b : Build) (w : World S) (sti base n key rsp : ℕ)
    (t : Thread) (run : Running p b w sti t) (able : Creatable p b w (w.frames base) n key)
    (returns : has_flag (w.frames base).domain_feature sdrad_return_to_parent ≡ false)
    (other_slot : n ≢ t.active_domain)
    (still : p.pthread_self (created p b w sti base n key t).os ≡ p.pthread_self w.os) where
  abbrev made : World S
  made = created p b w sti base n key t

  abbrev maker : Thread
  maker = created_thread p b w sti base n key t

  Running-made : Running p b made sti maker
  unfolding created created_thread placed keyed registered sdrad_get_sti sdrad_get_sti_from_tid
  Running-made = record {
    located = rw still run.located;
    present = ground arith;
    in_range = run.in_range;
  }

  maker_active : maker.active_domain ≡ t.active_domain
  unfolding created_thread
  maker_active = refl

  made_mapped : sdrad_search_udi_control (w.frames base).udi made.sgm.udi_control_head ≡ pos n
  unfolding created placed registered sdrad_search_udi_control
  made_mapped = ground arith

  -- The new domain's node is the first one.
  made-unlink : unlink n made.sgm.udi_control_head ≡ (w.sgm.udi_control_head, none)
  unfolding created placed registered keyed unlink
  made-unlink = ground arith

  made_frames : made.frames ≡ w.frames
  unfolding created placed registered keyed
  made_frames = refl

  made_pdi : made.sgm.pdi ≡ update w.sgm.pdi n (pos key)
  unfolding created placed registered keyed
  made_pdi = refl

  maker_domain : maker.sdrad_d_info t.active_domain ≡ t.sdrad_d_info t.active_domain
  maker_domain =
      let facts = init_records p b w sti base n key t run able returns t.active_domain in
      ground (arith, facts)

  Enterable-made : Enterable made maker (w.frames base).udi n
  Enterable-made =
      let facts = init_records p b w sti base n key t run able returns n in
      record {
        found = made_mapped;
        inside = able.room;
        executes = rw facts.2 able.executes;
        saved = facts.3;
        parent = facts.0 ∙ sym maker_active;
      }

  abbrev inside : World S
  inside = record made {
    pkru = maker.pkru_config n;
    tlsf_structure = (maker.sdrad_d_info n).sdi_tlsf;
    sgm = record (made.sgm) { stm_ptr = update made.sgm.stm_ptr sti (some (entered maker n rsp)) };
  }

  module _ (code : World S → World S) (quiet : (v : World S) → (code v).sgm ≡ v.sgm)
      (frames_kept : (v : World S) → (code v).frames ≡ v.frames)
      (same : (v : World S) → p.pthread_self (code v).os ≡ p.pthread_self v.os)
      (signals : (signum : ℕ) (os : S) → p.pthread_self (p.sigaction signum os) ≡ p.pthread_self os)
      (not_root_slot : n ≢ root_domain)
      (not_root_key : eqb_ℤ (pos key) (w.sgm.pdi root_domain) ≡ false)
      (memory : (p.tlsf_malloc made.sgm.sdrad_monitor_domain.smd_tlsf p.size_of_cache
          (p.sigaction 14 (p.sigaction 11 (code inside).os))).0
        ≢ 0) where
    abbrev handled : World S
    handled = record (code inside) {
      pkru = 0;
      os = p.sigaction 14 (p.sigaction 11 (code inside).os);
    }

    Running-inside : Running p b (code inside) sti (entered maker n rsp)
    unfolding sdrad_get_sti sdrad_get_sti_from_tid entered
    Running-inside = record {
      located = rw (quiet inside, same inside) Running-made.located;
      present = rw (quiet inside) (ground arith);
      in_range = able.room;
    }

    Running-handled : Running p b handled sti (entered maker n rsp)
    Running-handled = record {
      located =
          rw (signals 14 (p.sigaction 11 (code inside).os), signals 11 (code inside).os)
            Running-inside.located;
      present = Running-inside.present;
      in_range = Running-inside.in_range;
    }

    entered-n : (entered maker n rsp).sdrad_d_info n ≡ maker.sdrad_d_info n
    unfolding entered
    entered-n =
        let facts = init_records p b w sti base n key t run able returns n in
        rw facts.0 (ground arith)

    Discardable-handled : Discardable p handled (entered maker n rsp) (w.frames base).udi
    unfolding entered
    Discardable-handled =
        let facts = init_records p b w sti base n key t run able returns n in
        record {
          mapped = rw (quiet inside) made_mapped;
          parent_inside = rw (entered-n, facts.0) run.in_range;
          to_current = rw (entered-n, facts.2) returns;
          memory = rw (quiet inside) memory;
          allocator = inl (rw (quiet inside) (ap (λ r. r.1) made-unlink));
        }

    entered-active :
        (entered maker n rsp).sdrad_d_info t.active_domain
        ≡ record (t.sdrad_d_info t.active_domain) { sdi_last_rsp = rsp - 8 + 16 }
    unfolding entered
    entered-active =
        let facts = init_records p b w sti base n key t run able returns n in
        ground (arith, facts.0, maker_domain)

    entered-shape :
        ((entered maker n rsp).active_domain ≡ n)
        × ((entered maker n rsp).pkru_config ≡ maker.pkru_config)
        × (made.pkru ≡ maker.pkru_config t.active_domain)
    unfolding entered created
    entered-shape = (refl, refl, refl)

    entered_base :
        ((entered maker n rsp).sdrad_d_info (entered maker n rsp).active_domain).sdi_base_address
        ≡ base
    entered_base =
        let facts = init_records p b w sti base n key t run able returns n in
        rw entered-shape.0 (rw entered-n facts.1)

    -- On a platform whose calls leave the number of the running thread alone, a thread makes an
    -- execution domain without SDRAD_RETURN_TO_PARENT, under a user index that has none, with valid
    -- options, a free slot that is neither the active domain's nor the root domain's, a key that is not
    -- the root domain's, and the memory that the domain and a cache node need; enters it; and code that
    -- leaves the manager, the callers' frames and the thread's number alone is hit by a fault.
    -- `sdrad_abnormal_domain_exit` goes to the context that was saved for the domain. When the register
    -- `rdi`, which the stub does not load, happens to hold the domain's user index, the stub returns to
    -- where the initialisation was called, with the rights that the maker had once the domain was made.
    -- The maker is then the active domain, on its own allocator; the list of user indices is what it
    -- was before, and the domain's slot is free and has no key.
    pub fault_rewinds :
        Returns {A = Exit × ℕ}
          (λ r v.
            (r.0 ≡ jumps (w.frames base).buffer)
            × (r.1 ≡ (w.frames base).return_address)
            × (v.pkru ≡ made.pkru)
            × (active_of v sti ≡ some t.active_domain)
            × (v.tlsf_structure ≡ (t.sdrad_d_info t.active_domain).sdi_tlsf)
            × (v.sgm.udi_control_head ≡ w.sgm.udi_control_head)
            × (v.sgm.status n ≡ domain_nonoccupied)
            × (v.sgm.pdi n ≡ pos 0))
          ((do
            sdrad_init_base p b base
            sdrad_enter p b (w.frames base).udi rsp
            modify code
            exit ← sdrad_abnormal_domain_exit p b
            (result, address) ← sdrad_init_rewound p b base (w.frames base).udi
            pure (exit, address))
            w)
    fault_rewinds = rw (init_lem p b w sti base n key t run able) (
        Returns-and_then _ _ (sdrad_enter p b (w.frames base).udi rsp made) _
          (enter_lem p b made sti (w.frames base).udi n rsp maker Running-made Enterable-made)
          λ r v (_, _, e). rw e (
            Returns-and_then _ _ (sdrad_abnormal_domain_exit p b (code inside)) _
              (abnormal_exit_target p b (code inside) sti (entered maker n rsp) Running-inside)
              λ exit u (at, is). rw is (
                Returns-and_then _ _ (sdrad_init_rewound p b base (w.frames base).udi handled) _
                  (rw entered_base at (
                    init_rewound_lem p b handled sti (w.frames base).udi (entered maker n rsp)
                      Running-handled Discardable-handled))
                  λ result z post.
                    let facts = init_records p b w sti base n key t run able returns n in
                    ground (
                      arith,
                      facts,
                      quiet inside,
                      frames_kept inside,
                      made-unlink,
                      made_frames,
                      made_pdi,
                      entered-n,
                      entered-active,
                      entered-shape,
                    ))))
