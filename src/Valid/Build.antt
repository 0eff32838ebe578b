-- ===== src/Valid/Build.antt =====
-- The memory and the record of a new domain, or of an old one that gets a new context.
use secure_rewind_and_discar.Base.{
  ℕ, ◌≡◌, ◌≢◌, refl, ◌⊎◌, inl, inr, true, some, List, [], ◌∷◌, arith, if◌then◌else◌, update,
  Bool-cases, All,
}
use secure_rewind_and_discar.Base.Int.{ℤ, pos, negsuc, ℤ-cases}
use secure_rewind_and_discar.Codes.{
  root_domain, sdrad_return_to_parent, has_flag, sdrad_nonisolated_domain,
}
use secure_rewind_and_discar.State.{DomainInfo, CacheDomain, Thread, Manager}
use secure_rewind_and_discar.Platform.{Build, Platform}
use secure_rewind_and_discar.Pkey.{sdrad_set_access_pdi, sdrad_pkru_default_config}
use secure_rewind_and_discar.Pools.{
  sdrad_get_config, sdrad_data_domain_init, sdrad_execution_domain_init,
}
use secure_rewind_and_discar.Machine.{World, fault}
use secure_rewind_and_discar.Machine.Ensures.{Ensures, Ensures-mono}
use secure_rewind_and_discar.Running.{Running}
use secure_rewind_and_discar.Init.{init_data, init_execution, save_context}
use secure_rewind_and_discar.Valid.{IsValid, IsValidWith, Grown, IsValid-put, Sound}

-- What is left of the cache is part of it.
module _ {S : Type 0} (p : Platform S) (P : CacheDomain → Type 0) where
  data_rest :
      (l : List CacheDomain) (d : DomainInfo) (pkey : ℤ) (os : S)
      → All P l
      → All P (sdrad_data_domain_init p l d pkey os).0
  unfolding sdrad_data_domain_init
  data_rest [] d pkey os ok = tt
  data_rest (c ∷ l) d pkey os ok = elim (Bool-cases c.scdi_init_heap_domain_flag) [
    | inl has ↦ simp has ok.1
    | inr lacks ↦ simp lacks ok
  ]

  execution_rest :
      (b : Build) (l : List CacheDomain) (d : DomainInfo) (pkey : ℤ) (os : S)
      → All P l
      → All P (sdrad_execution_domain_init p b l d pkey os).0
  unfolding sdrad_execution_domain_init
  execution_rest b [] d pkey os ok = tt
  execution_rest b (c ∷ l) d pkey os ok = elim (Bool-cases c.scdi_init_heap_domain_flag) [
    | inl has ↦ rw has ok.1
    | inr lacks ↦ rw lacks ok.1
  ]

module _ (rk : ℕ) (g : Manager) (ok : IsValid rk g) where
  IsValid-rest :
      (l : List CacheDomain)
      → All (λ c. c.scdi_pkey ≢ pos rk) l
      → IsValid rk (record g { sgm_head = l })
  IsValid-rest l other_keys = record {
    threads = ok.threads;
    present = ok.present;
    root_taken = ok.root_taken;
    root_key = ok.root_key;
    keys = ok.keys;
    distinct = ok.distinct;
    listed = ok.listed;
    cached = other_keys;
  }

module _ {S : Type 0} (p : Platform S) (b : Build) where
  execution_parent :
      (l : List CacheDomain) (d : DomainInfo) (pkey : ℤ) (os : S)
      → (sdrad_execution_domain_init p b l d pkey os).1.sdi_parent_domain ≡ d.sdi_parent_domain
  unfolding sdrad_execution_domain_init sdrad_get_config
  execution_parent [] d pkey os = refl
  execution_parent (c ∷ l) d pkey os = ground arith

  -- A world whose cache is shorter and in which one thread's record is another.
  abbrev pub Replaced : (rk : ℕ) → World S → World S → Type 0
  Replaced rk w v =
      (l : List CacheDomain) × (u : Thread) × All (λ c. c.scdi_pkey ≢ pos rk) l
      × Sound u
      × (v.sgm
          ≡ record (w.sgm) { sgm_head = l; stm_ptr = update w.sgm.stm_ptr root_domain (some u) })

  pub Replaced-Grown :
      (rk udi : ℕ) (o w v : World S)
      → Grown udi o.sgm w.sgm
      → Replaced rk w v
      → Grown udi o.sgm v.sgm
  Replaced-Grown rk udi o w v grown (l, u, cached, sound, e) = rw e grown

  pub Replaced-IsValid :
      (rk : ℕ) (w v : World S) → IsValid rk w.sgm → Replaced rk w v → IsValid rk v.sgm
  Replaced-IsValid rk w v ok (l, u, cached, sound, e) =
      rw e (IsValid-put rk _ (IsValid-rest rk w.sgm ok l cached) root_domain u sound)

  module _ (rk : ℕ) (w : World S) (ok : IsValid rk w.sgm) (n base : ℕ) (pkey : ℤ) (t : Thread)
      (run : Running p b w root_domain t) where
    sound : Sound t
    sound = ok.threads root_domain t run.present

    data_built : List CacheDomain × DomainInfo × S
    data_built = sdrad_data_domain_init p w.sgm.sgm_head (t.sdrad_d_info n) pkey w.os

    data_thread : ℕ → Thread
    unfolding data_built
    data_thread key = record t {
      sdrad_d_info =
          update t.sdrad_d_info n (record (data_built.1) { sdi_parent_domain = t.active_domain });
      pkru_config =
          update t.pkru_config t.active_domain
            (sdrad_set_access_pdi (t.pkru_config t.active_domain) key 0);
    }

    data_state :
        (key : ℕ)
        → pkey ≡ pos key
        → Ensures
            (λ r v. v.sgm ≡ record (w.sgm) {
              sgm_head = data_built.0;
              stm_ptr = update w.sgm.stm_ptr root_domain (some (data_thread key));
            })
            (init_data p b root_domain n pkey w)
    unfolding init_data data_thread data_built
    data_state key e = ground (arith, run)

    data_no_key : (m : ℕ) → pkey ≡ negsuc m → init_data p b root_domain n pkey w ≡ fault
    unfolding init_data
    data_no_key m e = ground (arith, run)

    pub data-Replaced : Ensures (λ r v. Replaced rk w v) (init_data p b root_domain n pkey w)
    unfolding data_built data_thread
    data-Replaced = elim (ℤ-cases pkey) [
      | inr (m, e) ↦ rw (data_no_key m e) tt
      | inl (key, e) ↦
          Ensures-mono _ _ (init_data p b root_domain n pkey w) (data_state key e) λ r v q. (
            data_built.0,
            data_thread key,
            data_rest p _ w.sgm.sgm_head (t.sdrad_d_info n) pkey w.os ok.cached,
            record {
              active = sound.active;
              parents = λ d. ground (arith, sound.parents d, sound.active);
            },
            q,
          )
    ]

    execution_built : List CacheDomain × DomainInfo × S
    execution_built =
        sdrad_execution_domain_init p b w.sgm.sgm_head
          (record (t.sdrad_d_info n) {
            sdi_parent_domain = t.active_domain;
            sdi_base_address = base;
          })
          pkey w.os

    execution_thread : ℕ → Thread
    unfolding execution_built
    execution_thread key =
        let d = execution_built.1 in
        let features = (w.frames base).domain_feature in
        let active = t.active_domain in
        record t {
          sdrad_d_info = update t.sdrad_d_info n (
              if has_flag features sdrad_return_to_parent then d else record d {
                sdi_buffer = (w.frames base).buffer;
                sdi_return_address = (w.frames base).return_address;
                sdi_saved_ex = true;
              });
          pkru_config =
              update
                (if has_flag features sdrad_nonisolated_domain
                  then update t.pkru_config active
                      (sdrad_set_access_pdi (t.pkru_config active) key 0)
                  else t.pkru_config)
                n (sdrad_pkru_default_config key);
        }

    execution_state :
        (key : ℕ)
        → pkey ≡ pos key
        → Ensures
            (λ r v. v.sgm ≡ record (w.sgm) {
              sgm_head = execution_built.0;
              stm_ptr = update w.sgm.stm_ptr root_domain (some (execution_thread key));
            })
            (init_execution p b root_domain n base pkey w)
    unfolding init_execution execution_thread execution_built
    execution_state key e = ground (arith, run)

    execution_no_key :
        (m : ℕ) → pkey ≡ negsuc m → init_execution p b root_domain n base pkey w ≡ fault
    unfolding init_execution
    execution_no_key m e = ground (arith, run)

    execution-Sound : (key : ℕ) → Sound (execution_thread key)
    unfolding execution_thread execution_built
    execution-Sound key = record {
      active = sound.active;
      parents = λ d. ground (
        arith,
        sound.parents d,
        sound.active,
        execution_parent w.sgm.sgm_head
            (record (t.sdrad_d_info n) {
              sdi_parent_domain = t.active_domain;
              sdi_base_address = base;
            })
            pkey w.os,
      );
    }

    pub execution-Replaced :
        Ensures (λ r v. Replaced rk w v) (init_execution p b root_domain n base pkey w)
    unfolding execution_built
    execution-Replaced = elim (ℤ-cases pkey) [
      | inr (m, e) ↦ rw (execution_no_key m e) tt
      | inl (key, e) ↦
          Ensures-mono _ _ (init_execution p b root_domain n base pkey w) (execution_state key e)
            λ r v q. (
              execution_built.0,
              execution_thread key,
              execution_rest p _ b w.sgm.sgm_head _ pkey w.os ok.cached,
              execution-Sound key,
              q,
            )
    ]

    -- For a user index that has a domain only its record changes.
    saved_thread : Thread
    saved_thread = record t {
      sdrad_d_info = update t.sdrad_d_info n (record (t.sdrad_d_info n) {
        sdi_buffer = (w.frames base).buffer;
        sdi_return_address = (w.frames base).return_address;
        sdi_parent_domain = t.active_domain;
        sdi_base_address = base;
        sdi_saved_ex = true;
      });
    }

    save_state :
        Ensures
          (λ r v.
            (v.sgm ≡ w.sgm)
            ⊎ (v.sgm ≡ record (w.sgm) {
              stm_ptr = update w.sgm.stm_ptr root_domain (some saved_thread);
            }))
          (save_context p b root_domain n base w)
    unfolding save_context saved_thread
    save_state = ground (arith, run)

    pub save-IsValid :
        Ensures
          (λ r v. IsValidWith rk w.sgm.udi_control_head v.sgm)
          (save_context p b root_domain n base w)
    unfolding saved_thread
    save-IsValid = Ensures-mono _ _ (save_context p b root_domain n base w) save_state λ r v. elim [
      | inl e ↦ rw e (ok, refl)
      | inr e ↦ rw e (
        IsValid-put rk w.sgm ok root_domain saved_thread (record {
          active = sound.active;
          parents = λ d. ground (arith, sound.parents d, sound.active);
        }),
        refl,
      )
    ]
