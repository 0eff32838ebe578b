-- ===== src/Valid/Makes.antt =====
-- Making a domain keeps the manager valid.
use secure_rewind_and_discar.Base.{
  ℕ, ◌≡◌, ◌≢◌, refl, ap, ◌⊎◌, inl, inr, false, List, [], ◌∷◌, arith, if◌then◌else◌, Bool-cases,
}
use secure_rewind_and_discar.Base.Int.{ℤ, pos, negsuc, eqb_ℤ, ℤ-cases}
use secure_rewind_and_discar.Codes.{
  root_domain, has_flag, sdrad_error_wrong_config, sdrad_data_domain,
}
use secure_rewind_and_discar.State.{InitStack, CacheDomain, Thread, Manager}
use secure_rewind_and_discar.Platform.{Build, Platform}
use secure_rewind_and_discar.Control.{sdrad_search_udi_control}
use secure_rewind_and_discar.Domain.{sdrad_check_init_config}
use secure_rewind_and_discar.Machine.{World, Run, ◌>>=◌}
use secure_rewind_and_discar.Machine.Ensures.{Ensures, Ensures-and_then, Ensures-mono}
use secure_rewind_and_discar.Running.{Running}
use secure_rewind_and_discar.Init.{
  sdrad_init_base, init_new, choose_pkey, register, init_data, init_execution, save_context,
}
use secure_rewind_and_discar.Valid.{IsValid, Grown}
use secure_rewind_and_discar.Valid.Heaps.{IsValid-Running}
use secure_rewind_and_discar.Valid.Register.{choose-other, register-IsValid}
use secure_rewind_and_discar.Valid.Build.{
  data-Replaced, execution-Replaced, Replaced-IsValid, Replaced-Grown, save-IsValid,
}

module _ {S : Type 0} (p : Platform S) (b : Build) (single : b.multithread ≡ false) (rk : ℕ)
    (base : ℕ) where
  -- What follows the choice of the key.
  abbrev create : InitStack → ℤ → World S → Run S ℤ
  create ss pkey = do
    new_domain ← register p b root_domain ss.udi ss.domain_feature pkey
    if has_flag ss.domain_feature sdrad_data_domain
        then init_data p b root_domain new_domain pkey
        else init_execution p b root_domain new_domain base pkey

  create-IsValid :
      (ss : InitStack) (pkey : ℤ) (w : World S) (m : ℕ)
      → IsValid rk w.sgm
      → pkey ≢ pos rk
      → sdrad_search_udi_control ss.udi w.sgm.udi_control_head ≡ negsuc m
      → Ensures (λ r v. IsValid rk v.sgm × Grown ss.udi w.sgm v.sgm) (create ss pkey w)
  create-IsValid ss pkey w m ok other_key unmapped =
      let (t, run) = IsValid-Running p b single rk w ok in
      Ensures-and_then _ _ (register p b root_domain ss.udi ss.domain_feature pkey w) _
        (register-IsValid p b single rk w ok ss.udi ss.domain_feature m pkey unmapped other_key t
          run)
        λ n v (valid, grown).
          let (u, runs) = IsValid-Running p b single rk v valid in
          elim (Bool-cases (has_flag ss.domain_feature sdrad_data_domain)) [
            | inl data_only ↦ rw data_only (
                Ensures-mono _ _ (init_data p b root_domain n pkey v)
                  (data-Replaced p b rk v valid n base pkey u runs)
                  λ r x replaced. (
                    Replaced-IsValid p b rk v x valid replaced,
                    Replaced-Grown p b rk ss.udi w v x grown replaced,
                  ))
            | inr executes ↦ rw executes (
                Ensures-mono _ _ (init_execution p b root_domain n base pkey v)
                  (execution-Replaced p b rk v valid n base pkey u runs)
                  λ r x replaced. (
                    Replaced-IsValid p b rk v x valid replaced,
                    Replaced-Grown p b rk ss.udi w v x grown replaced,
                  ))
          ]

  cache-cases :
      (l : List CacheDomain) → (l ≡ []) ⊎ ((c : CacheDomain) × (r : List CacheDomain) × (l ≡ c ∷ r))
  cache-cases [] = inl refl
  cache-cases (c ∷ r) = inr (c, r, refl)

  new-IsValid :
      (w : World S) (m : ℕ)
      → (p.pkey_alloc w.os).0 ≢ pos rk
      → IsValid rk w.sgm
      → sdrad_search_udi_control (w.frames base).udi w.sgm.udi_control_head ≡ negsuc m
      → Ensures
          (λ r v. IsValid rk v.sgm × Grown (w.frames base).udi w.sgm v.sgm)
          (init_new p b root_domain base w)
  unfolding init_new
  new-IsValid w m fresh ok unmapped =
      Ensures-and_then _ _ (choose_pkey p b w) _
        (choose-other p b single rk w.sgm.sgm_head w fresh refl ok.cached)
        λ pkey v (other_key, same).
          let valid : IsValid rk v.sgm = rw same ok in
          let unmapped_v : sdrad_search_udi_control (w.frames base).udi v.sgm.udi_control_head
              ≡ negsuc m =
            rw same unmapped in
          let made : Ensures (λ r x. IsValid rk x.sgm × Grown (w.frames base).udi w.sgm x.sgm)
              (create (w.frames base) pkey v) =
            rw⁻¹ same (create-IsValid (w.frames base) pkey v m valid other_key unmapped_v) in
          elim (cache-cases v.sgm.sgm_head) [
            | inr (c, l, e) ↦ simp e made
            | inl e ↦ elim (Bool-cases (eqb_ℤ pkey (negsuc 0))) [
              | inl none_left ↦
                  simp (e, none_left) (valid, inl (ap (λ (g : Manager). g.udi_control_head) same))
              | inr got ↦ simp (e, got) made
            ]
          ]

  init_lem :
      (w : World S) (t : Thread) (z : ℤ)
      → Running p b w root_domain t
      → eqb_ℤ (sdrad_check_init_config (w.frames base).domain_feature) sdrad_error_wrong_config
        ≡ false
      → sdrad_search_udi_control (w.frames base).udi w.sgm.udi_control_head ≡ z
      → sdrad_init_base p b base w ≡ (elim z [
        | pos sdi ↦ save_context p b root_domain sdi base (record w { pkru = 0 })
        | negsuc _ ↦ init_new p b root_domain base (record w { pkru = 0 })
      ])
  unfolding sdrad_init_base
  init_lem w t (pos sdi) run right e = ground (arith, run)
  init_lem w t (negsuc m) run right e = ground (arith, run)

  pub init-IsValid :
      (w : World S)
      → (p.pkey_alloc w.os).0 ≢ pos rk
      → IsValid rk w.sgm
      → Ensures
          (λ r v. IsValid rk v.sgm × Grown (w.frames base).udi w.sgm v.sgm)
          (sdrad_init_base p b base w)
  unfolding sdrad_init_base
  init-IsValid w fresh ok =
      let (t, run) = IsValid-Running p b single rk w ok in
      let runs : Running p b (record w { pkru = 0 }) root_domain t = record {
        located = run.located;
        present = run.present;
        in_range = run.in_range;
      } in
      elim (Bool-cases
        (eqb_ℤ (sdrad_check_init_config (w.frames base).domain_feature) sdrad_error_wrong_config)) [
          | inl wrong ↦ rw wrong (ok, inl refl)
          | inr right ↦
              elim (ℤ-cases (sdrad_search_udi_control (w.frames base).udi w.sgm.udi_control_head)) [
                | inl (sdi, e) ↦ rw (init_lem w t (pos sdi) run right e) (
                    Ensures-mono _ _ (save_context p b root_domain sdi base (record w { pkru = 0 }))
                      (save-IsValid p b rk (record w { pkru = 0 }) ok sdi base (pos 0) t runs)
                      λ r v (valid, same). (valid, inl same))
                | inr (m, e) ↦
                    rw (init_lem w t (negsuc m) run right e)
                      (new-IsValid (record w { pkru = 0 }) m fresh ok e)
              ]
        ]
