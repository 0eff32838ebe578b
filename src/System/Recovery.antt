-- ===== src/System/Recovery.antt =====
-- From a fault to the parent domain, in every state that the process reaches.
use secure_rewind_and_discar.Base.{ℕ, ◌<◌, ◌≡◌, ◌≢◌, ◌⊎◌, refl, false, some, none, arith}
use secure_rewind_and_discar.Base.Int.{pos}
use secure_rewind_and_discar.Codes.{
  root_domain, domain_nonoccupied, sdrad_return_to_parent, sdrad_error_domain_no_map, has_flag,
}
use secure_rewind_and_discar.State.{Thread}
use secure_rewind_and_discar.Platform.{Build, Platform}
use secure_rewind_and_discar.Slots.{sdrad_get_sti}
use secure_rewind_and_discar.Control.{sdrad_search_udi_control, unlink}
use secure_rewind_and_discar.Control.Lookup.{unlink-search}
use secure_rewind_and_discar.Boot.{sdrad_constructor}
use secure_rewind_and_discar.Machine.{World, done, pure, ◌>>=◌}
use secure_rewind_and_discar.Machine.Returns.{Returns, Returns-and_then}
use secure_rewind_and_discar.Machine.Ensures.{Returns-Ensures}
use secure_rewind_and_discar.Running.{Running, active_of}
use secure_rewind_and_discar.Rewind.{
  Exit, jumps, sdrad_abnormal_domain_exit, sdrad_signal_handler, sdrad_init_destroy,
  sdrad_init_rewound,
}
use secure_rewind_and_discar.Rewind.Discard.{
  abnormal_exit_target, init_destroy_discards, Discardable,
}
use secure_rewind_and_discar.Valid.{IsValid, found-Occupied}
use secure_rewind_and_discar.Valid.Start.{Zeroed, Startable}
use secure_rewind_and_discar.Valid.Rewinding.{rewind-IsValid}
use secure_rewind_and_discar.System.{Reach}
use secure_rewind_and_discar.System.Process.{reached-IsValid}

module _ {S : Type 0} (p : Platform S) (b : Build) (single : b.multithread ≡ false) (key : ℕ)
    (rk_pos : key ≢ 0) (v : World S) (ok : IsValid key v.sgm) (t : Thread) (udi : ℕ)
    (here : v.sgm.stm_ptr root_domain ≡ some t)
    (mapped : sdrad_search_udi_control udi v.sgm.udi_control_head ≡ pos t.active_domain)
    (to_current : has_flag (t.sdrad_d_info t.active_domain).sdi_options sdrad_return_to_parent
      ≡ false)
    (allocator : ((unlink t.active_domain v.sgm.udi_control_head).1 ≡ none)
      ⊎ (v.tlsf_structure ≢ 0))
    (memory : (p.tlsf_malloc v.sgm.sdrad_monitor_domain.smd_tlsf p.size_of_cache
        (p.sigaction 14 (p.sigaction 11 (p.sigprocmask 11 v.os)))).0
      ≢ 0) where
  abbrev signalled : World S
  signalled = record v { pkru = 0; os = p.sigprocmask 11 v.os }

  abbrev handled : World S
  handled = record v { pkru = 0; os = p.sigaction 14 (p.sigaction 11 (p.sigprocmask 11 v.os)) }

  in_range : t.active_domain < 30
  in_range = (ok.threads root_domain t here).active

  Running-signalled : Running p b signalled root_domain t
  unfolding sdrad_get_sti
  Running-signalled = record { located = rw single refl; present = here; in_range = in_range }

  Running-handled : Running p b handled root_domain t
  unfolding sdrad_get_sti
  Running-handled = record { located = rw single refl; present = here; in_range = in_range }

  other_key : v.sgm.pdi t.active_domain ≢ pos key
  other_key =
      (found-Occupied key udi t.active_domain v.sgm.status v.sgm.pdi v.sgm.udi_control_head
        ok.listed mapped).2

  Discardable-handled : Discardable p handled t udi
  Discardable-handled = record {
    mapped = mapped;
    parent_inside = (ok.threads root_domain t here).parents t.active_domain;
    to_current = to_current;
    memory = memory;
    allocator = allocator;
  }

  frame : ℕ
  frame = (t.sdrad_d_info t.active_domain).sdi_base_address

  rewound_lem :
      Returns
        (λ r x.
          (r.1 ≡ (t.sdrad_d_info t.active_domain).sdi_return_address)
          × (x.pkru ≡ t.pkru_config (t.sdrad_d_info t.active_domain).sdi_parent_domain)
          × (active_of x root_domain ≡ some (t.sdrad_d_info t.active_domain).sdi_parent_domain)
          × (sdrad_search_udi_control udi x.sgm.udi_control_head ≡ sdrad_error_domain_no_map)
          × (x.sgm.status t.active_domain ≡ domain_nonoccupied)
          × IsValid key x.sgm)
        (sdrad_init_rewound p b frame udi handled)
  unfolding sdrad_init_rewound frame
  rewound_lem =
      Returns-and_then _ _ (sdrad_init_destroy p b udi handled) _
        (Returns-Ensures _ _ (sdrad_init_destroy p b udi handled)
          (init_destroy_discards p b handled root_domain udi t Running-handled Discardable-handled)
          (rewind-IsValid p b single key rk_pos udi handled ok t Running-handled other_key
            to_current))
        λ result z (post, valid).
          let gone = (unlink-search t.active_domain udi v.sgm.udi_control_head ok.distinct).1 in
          (
            ground (arith, post),
            ground (arith, post),
            ground (arith, post),
            rw post.3 (ground (arith, gone, mapped)),
            ground (arith, post),
            valid.0,
          )

  recovery_lem :
      Returns {A = Exit × ℕ}
        (λ r x.
          (r.0 ≡ jumps (t.sdrad_d_info t.active_domain).sdi_buffer)
          × (r.1 ≡ (t.sdrad_d_info t.active_domain).sdi_return_address)
          × (x.pkru ≡ t.pkru_config (t.sdrad_d_info t.active_domain).sdi_parent_domain)
          × (active_of x root_domain ≡ some (t.sdrad_d_info t.active_domain).sdi_parent_domain)
          × (sdrad_search_udi_control udi x.sgm.udi_control_head ≡ sdrad_error_domain_no_map)
          × (x.sgm.status t.active_domain ≡ domain_nonoccupied)
          × IsValid key x.sgm)
        ((do
          exit ← sdrad_signal_handler p b
          (result, address) ←
              sdrad_init_rewound p b (t.sdrad_d_info t.active_domain).sdi_base_address udi
          pure (exit, address))
          v)
  unfolding sdrad_signal_handler frame
  recovery_lem =
      Returns-and_then _ _ (sdrad_abnormal_domain_exit p b signalled) _
        (abnormal_exit_target p b signalled root_domain t Running-signalled)
        λ exit x (at, is). rw is (
          Returns-and_then _ _ (sdrad_init_rewound p b frame udi handled) _ rewound_lem
            λ result z (to, rights, active, gone, free, valid).
              (ground (arith, at, other_key, ok.root_key), to, rights, active, gone, free, valid))

module _ {S : Type 0} (p : Platform S) (b : Build) (single : b.multithread ≡ false) (key : ℕ)
    (w : World S) (zero : Zeroed w.sgm) (able : Startable p b w key) (u v : World S)
    (boot : sdrad_constructor p b w ≡ done tt u) (reach : Reach p b u v) where
  -- In the single-threaded build, from zeroed static data and with what the constructor needs of the
  -- platform: take any state that the process reaches, in which the active domain has a user index and
  -- is made without SDRAD_RETURN_TO_PARENT, there is memory for the cache node, and an allocator is set
  -- if a list node is to be freed. A signal then goes to the buffer in the domain's record. When
  -- control comes back to the stub by the frame that the record names, and the register `rdi`, which
  -- the stub does not load, happens to hold that user index, the stub goes on at the return address in
  -- the record with the parent's rights. The parent is then the active domain, the user index is
  -- unknown, the domain's slot is free, and the manager is valid.
  pub fault_recovers :
      (t : Thread) (udi : ℕ)
      → v.sgm.stm_ptr root_domain ≡ some t
      → sdrad_search_udi_control udi v.sgm.udi_control_head ≡ pos t.active_domain
      → has_flag (t.sdrad_d_info t.active_domain).sdi_options sdrad_return_to_parent ≡ false
      → ((unlink t.active_domain v.sgm.udi_control_head).1 ≡ none) ⊎ (v.tlsf_structure ≢ 0)
      → (p.tlsf_malloc v.sgm.sdrad_monitor_domain.smd_tlsf p.size_of_cache
          (p.sigaction 14 (p.sigaction 11 (p.sigprocmask 11 v.os)))).0
        ≢ 0
      → Returns {A = Exit × ℕ}
          (λ r x.
            (r.0 ≡ jumps (t.sdrad_d_info t.active_domain).sdi_buffer)
            × (r.1 ≡ (t.sdrad_d_info t.active_domain).sdi_return_address)
            × (x.pkru ≡ t.pkru_config (t.sdrad_d_info t.active_domain).sdi_parent_domain)
            × (active_of x root_domain ≡ some (t.sdrad_d_info t.active_domain).sdi_parent_domain)
            × (sdrad_search_udi_control udi x.sgm.udi_control_head ≡ sdrad_error_domain_no_map)
            × (x.sgm.status t.active_domain ≡ domain_nonoccupied)
            × IsValid key x.sgm)
          ((do
            exit ← sdrad_signal_handler p b
            (result, address) ←
                sdrad_init_rewound p b (t.sdrad_d_info t.active_domain).sdi_base_address udi
            pure (exit, address))
            v)
  fault_recovers t udi here mapped to_current allocator memory =
      recovery_lem p b single key able.positive v
        (reached-IsValid p b single key w zero able u v boot reach) t udi here mapped to_current
        allocator memory
