-- ===== src/Init/Isolation.antt =====
-- Which protection keys a new execution domain and its maker can use.
use secure_rewind_and_discar.Base.{
  ℕ, ◌<◌, ◌^◌, ◌≡◌, ◌≢◌, ◌&&◌, Option, none, some, arith, ◌==◌, if◌then◌else◌,
}
use secure_rewind_and_discar.Codes.{sdrad_nonisolated_domain, has_flag}
use secure_rewind_and_discar.State.{Thread}
use secure_rewind_and_discar.Platform.{Build, Platform}
use secure_rewind_and_discar.Pkey.Rights.{
  key_rights, base_rights, default_config_isolates, set_access_exact,
}
use secure_rewind_and_discar.Machine.{World}
use secure_rewind_and_discar.Machine.Returns.{Returns}
use secure_rewind_and_discar.Running.{Running}
use secure_rewind_and_discar.Init.{sdrad_init_base}
use secure_rewind_and_discar.Init.Fresh.{Creatable, created, created_thread, granted, init_lem}

-- The rights on key `k` that the thread keeps for domain `d`.
abbrev pub rights_of : {S : Type 0} → World S → (sti d k : ℕ) → Option ℕ
rights_of w sti d k = elim (w.sgm.stm_ptr sti) [
  | none ↦ none
  | some t ↦ some (key_rights (t.pkru_config d) k)
]

module _ {S : Type 0} (p : Platform S) (b : Build) (w : World S) (sti base n key : ℕ) (t : Thread)
    (run : Running p b w sti t) (able : Creatable p b w (w.frames base) n key)
    (other_slot : n ≢ t.active_domain) (word : t.pkru_config t.active_domain < 2 ^ 32) where
  -- Let the calling thread initialise an execution domain under a user index that has none, with valid
  -- options, a free slot other than the active one, a protection key and the memory that the domain
  -- needs, on a platform whose calls leave the number of the running thread alone, and let the active
  -- domain's rights be a 32-bit word. Then the new domain may use its own key and key 0, may read what
  -- has key 2, and is shut out from every other key. Its maker gains the new key if the domain is made
  -- non-isolated, and otherwise has for every key the rights that it had.
  pub init_isolates :
      (k : ℕ)
      → k < 16
      → Returns
          (λ code v.
            (rights_of v sti n k ≡ some (if key == k then 0 else base_rights k))
            × (key_rights v.pkru k ≡ (
                if has_flag (w.frames base).domain_feature sdrad_nonisolated_domain && (key == k)
                then 0
                else key_rights (t.pkru_config t.active_domain) k)))
          (sdrad_init_base p b base w)
  unfolding created created_thread granted
  init_isolates k h = rw (init_lem p b w sti base n key t run able) (
      ground (
        arith,
        default_config_isolates key k able.is_key h,
        (set_access_exact (t.pkru_config t.active_domain) key 0 word able.is_key (omega arith)).0 k,
      ))
