-- ===== src/Init.antt =====
-- `__sdrad_init` (src/sdrad_api.c): a new domain, or the context to return to for an old one.
pub mod Register
pub mod Fresh
pub mod Outcome
pub mod Isolation
pub mod Data
pub mod Refusal
use secure_rewind_and_discar.Base.{
  ℕ, ◌+◌, ◌-◌, Bool, true, false, not, List, [], ◌∷◌, ◌==◌, if◌then◌else◌, update,
}
use secure_rewind_and_discar.Base.Int.{ℤ, pos, negsuc, eqb_ℤ}
use secure_rewind_and_discar.Codes.{
  root_domain, sdrad_successful_returned, sdrad_error_no_pkey, sdrad_error_domain_already_init,
  sdrad_error_wrong_config, sdrad_error_no_domain, sdrad_execution_domain, sdrad_data_domain,
  sdrad_nonisolated_domain, sdrad_return_to_parent, sdrad_heap_merge, sdrad_no_heap_merge, has_flag,
}
use secure_rewind_and_discar.State.{
  InitStack, EeStack, DomainInfo, CacheDomain, UdiControl, Thread, Manager,
}
use secure_rewind_and_discar.Platform.{Build, Platform}
use secure_rewind_and_discar.Pkey.{pkru_all_unset, sdrad_pkru_default_config, sdrad_set_access_pdi}
use secure_rewind_and_discar.Control.{sdrad_search_udi_control}
use secure_rewind_and_discar.Pools.{sdrad_execution_domain_init, sdrad_data_domain_init}
use secure_rewind_and_discar.Alloc.{current}
use secure_rewind_and_discar.UdiHeap.{sdrad_malloc}
use secure_rewind_and_discar.Domain.{
  sdrad_check_init_config, at_head, sdrad_request_sdi, sdrad_insert_control_structure,
  sdrad_insert_cache_domain, sdrad_delete_control_structure,
}
use secure_rewind_and_discar.Machine.{
  World, Cmd, pure, fail, and_then, ◌>>=◌, ◌>>◌, get, get_sgm, modify, modify_sgm, call, call_void,
  deref, as_key, sdrad_store_pkru_config, in_bounds, thread, put_thread,
}

module _ {S : Type 0} (p : Platform S) (b : Build) where
  -- `__sdrad_init` for a user index that has a domain: only the context to return to is saved, and
  -- the rights are left open.
  unfoldable pub save_context : (sti sdi base_address : ℕ) → Cmd S ℤ
  save_context sti sdi base_address = do
    in_bounds sdi
    t ← thread sti
    w ← get
    let ss = w.frames base_address
    if (t.sdrad_d_info sdi).sdi_saved_ex then pure sdrad_error_domain_already_init else (do
      put_thread sti (record t {
        sdrad_d_info = update t.sdrad_d_info sdi (record (t.sdrad_d_info sdi) {
          sdi_buffer = ss.buffer;
          sdi_return_address = ss.return_address;
          sdi_parent_domain = t.active_domain;
          sdi_base_address = base_address;
          sdi_saved_ex = true;
        });
      })
      pure sdrad_successful_returned)

  -- The key of the first cached domain, which stays in the list for now, or a new one.
  unfoldable pub choose_pkey : Cmd S ℤ
  choose_pkey = do
    g ← get_sgm
    elim g.sgm_head [ [] ↦ call p.pkey_alloc | c ∷ _ ↦ pure c.scdi_pkey ]

  -- The part of `__sdrad_init` that names the new domain; the result is its slot.
  unfoldable pub register : (sti udi domain_feature : ℕ) (pkey : ℤ) → Cmd S ℕ
  register sti udi domain_feature pkey = do
    new_domain ← sdrad_request_sdi p b
    modify_sgm (λ g. record g { sgm_sdi_to_tdi = update g.sgm_sdi_to_tdi new_domain sti })
    sdrad_insert_control_structure p b
    modify_sgm (λ g. record g {
      udi_control_head = at_head (λ c. record c { udi = udi; sdi = new_domain }) g.udi_control_head;
      pdi = update g.pdi new_domain pkey;
    })
    t ← thread sti
    put_thread sti (record t {
      sdrad_d_info =
          update t.sdrad_d_info new_domain
            (record (t.sdrad_d_info new_domain) { sdi_options = domain_feature });
    })
    pure new_domain

  unfoldable pub init_data : (sti new_domain : ℕ) (pkey : ℤ) → Cmd S ℤ
  init_data sti new_domain pkey = do
    t ← thread sti
    w ← get
    let (rest, d, os) =
        sdrad_data_domain_init p w.sgm.sgm_head (t.sdrad_d_info new_domain) pkey w.os
    modify (λ w. record w { sgm = record (w.sgm) { sgm_head = rest }; os = os })
    let active = t.active_domain
    in_bounds active
    key ← as_key pkey
    let config = update t.pkru_config active (sdrad_set_access_pdi (t.pkru_config active) key 0)
    put_thread sti (record t {
      sdrad_d_info = update t.sdrad_d_info new_domain (record d { sdi_parent_domain = active });
      pkru_config = config;
    })
    sdrad_store_pkru_config (config active)
    pure sdrad_successful_returned

  unfoldable pub init_execution : (sti new_domain base_address : ℕ) (pkey : ℤ) → Cmd S ℤ
  init_execution sti new_domain base_address pkey = do
    t ← thread sti
    w ← get
    let active = t.active_domain
    let ss = w.frames base_address
    let d₀ = record (t.sdrad_d_info new_domain) {
      sdi_parent_domain = active;
      sdi_base_address = base_address;
    }
    let (rest, d, os) = sdrad_execution_domain_init p b w.sgm.sgm_head d₀ pkey w.os
    modify (λ w. record w { sgm = record (w.sgm) { sgm_head = rest }; os = os })
    in_bounds active
    key ← as_key pkey
    let shared =
        if has_flag ss.domain_feature sdrad_nonisolated_domain
        then update t.pkru_config active (sdrad_set_access_pdi (t.pkru_config active) key 0)
        else t.pkru_config
    let config = update shared new_domain (sdrad_pkru_default_config key)
    let saved = if has_flag ss.domain_feature sdrad_return_to_parent then d else record d {
      sdi_buffer = ss.buffer;
      sdi_return_address = ss.return_address;
      sdi_saved_ex = true;
    }
    put_thread sti
        (record t { sdrad_d_info = update t.sdrad_d_info new_domain saved; pkru_config = config })
    sdrad_store_pkru_config (config active)
    pure sdrad_successful_returned

  unfoldable pub init_new : (sti base_address : ℕ) → Cmd S ℤ
  unfolding choose_pkey register init_data init_execution
  init_new sti base_address = do
    w ← get
    let ss = w.frames base_address
    pkey ← choose_pkey
    g ← get_sgm
    let create : Cmd S ℤ = do
      new_domain ← register sti ss.udi ss.domain_feature pkey
      if has_flag ss.domain_feature sdrad_data_domain
          then init_data sti new_domain pkey
          else init_execution sti new_domain base_address pkey
    elim g.sgm_head [
      | [] ↦ if eqb_ℤ pkey (negsuc 0) then pure sdrad_error_no_pkey else create
      | _ ∷ _ ↦ create
    ]

  -- `__sdrad_init`
  unfoldable pub sdrad_init_base : (base_address : ℕ) → Cmd S ℤ
  unfolding save_context init_new
  sdrad_init_base base_address = do
    sdrad_store_pkru_config pkru_all_unset
    w ← get
    let ss = w.frames base_address
    if eqb_ℤ (sdrad_check_init_config ss.domain_feature) sdrad_error_wrong_config
        then pure sdrad_error_wrong_config
        else (do
          sti ← current p b
          thread sti
          elim (sdrad_search_udi_control ss.udi w.sgm.udi_control_head) [
            | pos sdi ↦ save_context sti sdi base_address
            | negsuc _ ↦ init_new sti base_address
          ])
