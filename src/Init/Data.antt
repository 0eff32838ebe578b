-- ===== src/Init/Data.antt =====
-- A new data domain.
use secure_rewind_and_discar.Base.{
  ℕ, ◌<◌, ◌≡◌, ◌≢◌, true, some, List, [], ◌∷◌, update, if◌then◌else◌,
}
use secure_rewind_and_discar.Base.Int.{pos}
use secure_rewind_and_discar.Codes.{
  total_domain, sdrad_error_domain_no_map, sdrad_data_domain, has_flag,
}
use secure_rewind_and_discar.State.{InitStack, DomainInfo, CacheDomain, Thread}
use secure_rewind_and_discar.Platform.{Build, Platform}
use secure_rewind_and_discar.Pkey.{sdrad_set_access_pdi}
use secure_rewind_and_discar.Slots.{sdrad_find_free_domain}
use secure_rewind_and_discar.Control.{sdrad_search_udi_control}
use secure_rewind_and_discar.Pools.{sdrad_data_domain_init}
use secure_rewind_and_discar.Domain.{sdrad_check_init_config}
use secure_rewind_and_discar.Machine.{World}
use secure_rewind_and_discar.Machine.Returns.{Returns}
use secure_rewind_and_discar.Running.{Running}
use secure_rewind_and_discar.Init.Fresh.{KeyIs, after_key, placed, placed_thread}

-- What `__sdrad_init` needs to make a new data domain in slot `n` with protection key `key`.
pub record DataCreatable {S : Type 0} (p : Platform S) (b : Build) (w : World S) (ss : InitStack)
    (n key : ℕ) : Type 0 where
  pub options : sdrad_check_init_config ss.domain_feature ≡ pos 1
  pub data_only : has_flag ss.domain_feature sdrad_data_domain ≡ true
  pub unmapped : sdrad_search_udi_control ss.udi w.sgm.udi_control_head ≡ sdrad_error_domain_no_map
  pub slot : (sdrad_find_free_domain w.sgm).0 ≡ pos n
  pub room : n < total_domain
  pub chosen : KeyIs p w key
  pub is_key : key < 16
  pub same_thread : p.pthread_self (after_key p w) ≡ p.pthread_self w.os
  pub memory :
      (p.tlsf_malloc w.sgm.sdrad_monitor_domain.smd_tlsf p.size_of_control (after_key p w)).0 ≢ 0

-- What is left of the cache: a first node whose domain had no heap stays.
abbrev pub left_cache : List CacheDomain → List CacheDomain
left_cache [] = []
left_cache (c ∷ rest) = if c.scdi_init_heap_domain_flag then rest else c ∷ rest

module _ {S : Type 0} (p : Platform S) (b : Build) (w : World S) (sti base n key : ℕ) (t : Thread)
    (run : Running p b w sti t) (able : DataCreatable p b w (w.frames base) n key) where
  before : World S
  before = placed p b w sti base n key t

  data_built : List CacheDomain × DomainInfo × S
  unfolding before
  data_built =
      sdrad_data_domain_init p before.sgm.sgm_head
        ((placed_thread p b w sti base n key t).sdrad_d_info n) (pos key) before.os

  data_thread : Thread
  unfolding data_built
  data_thread = record t {
    sdrad_d_info =
        update (placed_thread p b w sti base n key t).sdrad_d_info n
          (record (data_built.1) { sdi_parent_domain = t.active_domain });
    pkru_config =
        update t.pkru_config t.active_domain
          (sdrad_set_access_pdi (t.pkru_config t.active_domain) key 0);
  }

  data_created : World S
  unfolding before data_built data_thread
  data_created = record before {
    pkru = sdrad_set_access_pdi (t.pkru_config t.active_domain) key 0;
    os = data_built.2;
    sgm = record (before.sgm) {
      sgm_head = data_built.0;
      stm_ptr = update before.sgm.stm_ptr sti (some data_thread);
    };
  }
