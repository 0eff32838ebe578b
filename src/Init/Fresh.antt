-- ===== src/Init/Fresh.antt =====
-- A new execution domain.
use secure_rewind_and_discar.Base.{
  ℕ, ◌<◌, ◌≡◌, ◌≢◌, true, false, some, List, [], ◌∷◌, arith, update, if◌then◌else◌,
}
use secure_rewind_and_discar.Base.Int.{pos}
use secure_rewind_and_discar.Codes.{
  total_domain, sdrad_successful_returned, sdrad_error_domain_no_map, sdrad_data_domain,
  sdrad_nonisolated_domain, sdrad_return_to_parent, has_flag,
}
use secure_rewind_and_discar.State.{InitStack, DomainInfo, CacheDomain, Thread}
use secure_rewind_and_discar.Platform.{Build, Platform}
use secure_rewind_and_discar.Pkey.{sdrad_pkru_default_config, sdrad_set_access_pdi}
use secure_rewind_and_discar.Slots.{sdrad_find_free_domain, sdrad_get_sti, sdrad_get_sti_from_tid}
use secure_rewind_and_discar.Control.{sdrad_search_udi_control}
use secure_rewind_and_discar.Pools.{sdrad_execution_domain_init}
use secure_rewind_and_discar.Domain.{sdrad_check_init_config}
use secure_rewind_and_discar.Machine.{World, done}
use secure_rewind_and_discar.Running.{Running}
use secure_rewind_and_discar.Init.{sdrad_init_base, init_new, choose_pkey, init_execution, register}
use secure_rewind_and_discar.Init.Register.{registered, register_lem, registered_thread}

-- The key that a new domain gets is `key`: that of the first cached domain, or a new one.
abbrev pub KeyIs : {S : Type 0} → Platform S → World S → ℕ → Type 0
KeyIs p w key = elim w.sgm.sgm_head [
  | [] ↦ (p.pkey_alloc w.os).0 ≡ pos key
  | c ∷ _ ↦ c.scdi_pkey ≡ pos key
]

-- The platform once the key is chosen.
abbrev pub after_key : {S : Type 0} → Platform S → World S → S
after_key p w = elim w.sgm.sgm_head [ [] ↦ (p.pkey_alloc w.os).1 | _ ∷ _ ↦ w.os ]

-- What `__sdrad_init` needs to make a new execution domain in slot `n` with protection key `key`.
pub record Creatable {S : Type 0} (p : Platform S) (b : Build) (w : World S) (ss : InitStack)
    (n key : ℕ) : Type 0 where
  pub options : sdrad_check_init_config ss.domain_feature ≡ pos 1
  pub executes : has_flag ss.domain_feature sdrad_data_domain ≡ false
  pub unmapped : sdrad_search_udi_control ss.udi w.sgm.udi_control_head ≡ sdrad_error_domain_no_map
  pub slot : (sdrad_find_free_domain w.sgm).0 ≡ pos n
  pub room : n < total_domain
  pub chosen : KeyIs p w key
  pub is_key : key < 16
  pub same_thread : p.pthread_self (after_key p w) ≡ p.pthread_self w.os
  pub memory :
      (p.tlsf_malloc w.sgm.sdrad_monitor_domain.smd_tlsf p.size_of_control (after_key p w)).0 ≢ 0

module _ {S : Type 0} (p : Platform S) (b : Build) (w : World S) (sti base n key : ℕ)
    (t : Thread) where
  unfoldable pub keyed : World S
  keyed = record w { pkru = 0; os = after_key p w }

  unfoldable pub placed : World S
  unfolding keyed
  placed = registered p keyed sti (w.frames base).udi (w.frames base).domain_feature n t (pos key)

  unfoldable pub placed_thread : Thread
  unfolding keyed
  placed_thread =
      registered_thread p keyed sti (w.frames base).udi (w.frames base).domain_feature n t (pos key)

  -- The memory of the new domain: what is left of the cache, the record, and the platform.
  unfoldable pub built : List CacheDomain × DomainInfo × S
  unfolding placed placed_thread
  built =
      sdrad_execution_domain_init p b placed.sgm.sgm_head
        (record (placed_thread.sdrad_d_info n) {
          sdi_parent_domain = t.active_domain;
          sdi_base_address = base;
        })
        (pos key) placed.os

  -- The record and the rights that the thread ends up with.
  unfoldable pub saved_info : DomainInfo
  unfolding built
  saved_info =
      if has_flag (w.frames base).domain_feature sdrad_return_to_parent
      then built.1
      else record (built.1) {
        sdi_buffer = (w.frames base).buffer;
        sdi_return_address = (w.frames base).return_address;
        sdi_saved_ex = true;
      }

  unfoldable pub granted : ℕ → ℕ
  granted =
      let active = t.active_domain in
      if has_flag (w.frames base).domain_feature sdrad_nonisolated_domain
      then update t.pkru_config active (sdrad_set_access_pdi (t.pkru_config active) key 0)
      else t.pkru_config

  unfoldable pub created_thread : Thread
  unfolding saved_info granted placed_thread
  created_thread = record t {
    sdrad_d_info = update placed_thread.sdrad_d_info n saved_info;
    pkru_config = update granted n (sdrad_pkru_default_config key);
  }

  unfoldable pub created : World S
  unfolding placed built created_thread
  created = record placed {
    pkru = created_thread.pkru_config t.active_domain;
    os = built.2;
    sgm = record (placed.sgm) {
      sgm_head = built.0;
      stm_ptr = update placed.sgm.stm_ptr sti (some created_thread);
    };
  }

  module _ (run : Running p b w sti t) (able : Creatable p b w (w.frames base) n key) where
    choose_lem : choose_pkey p b (record w { pkru = 0 }) ≡ done (pos key) keyed
    unfolding choose_pkey keyed
    choose_lem = ground arith

    place_lem :
        register p b sti (w.frames base).udi (w.frames base).domain_feature (pos key) keyed
        ≡ done n placed
    unfolding placed keyed sdrad_get_sti sdrad_get_sti_from_tid
    place_lem =
        register_lem p keyed sti (w.frames base).udi (w.frames base).domain_feature n t (pos key) b
          (record {
            located = rw able.same_thread run.located;
            present = run.present;
            in_range = run.in_range;
          })
          (ground arith) able.room able.memory

    execution_lem :
        init_execution p b sti n base (pos key) placed ≡ done sdrad_successful_returned created
    unfolding init_execution created built placed placed_thread registered_thread registered keyed
        saved_info granted created_thread
    execution_lem = ground (arith, run, able)

    pub init_lem : sdrad_init_base p b base w ≡ done sdrad_successful_returned created
    unfolding sdrad_init_base init_new
    init_lem = ground (arith, choose_lem, place_lem, execution_lem)
