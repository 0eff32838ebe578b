-- ===== src/System/Invariant.antt =====
-- What holds in every state that the process reaches.
use secure_rewind_and_discar.Base.{ℕ, ◌≡◌, ◌≢◌, refl, ap, ◌∙◌, inr, false, List, some, arith}
use secure_rewind_and_discar.Base.Int.{pos}
use secure_rewind_and_discar.Codes.{root_domain, sdrad_return_to_parent, has_flag}
use secure_rewind_and_discar.State.{UdiControl, Thread, Manager}
use secure_rewind_and_discar.Platform.{Build, Platform}
use secure_rewind_and_discar.Control.{unlink}
use secure_rewind_and_discar.Alloc.{malloc, realloc, posix_memalign, free}
use secure_rewind_and_discar.UdiHeap.{sdrad_malloc, sdrad_realloc, sdrad_calloc, sdrad_memalign}
use secure_rewind_and_discar.Protect.{sdrad_dprotect}
use secure_rewind_and_discar.Machine.{World, Run, Cmd, done, pure, ◌>>◌}
use secure_rewind_and_discar.Machine.Ensures.{
  Ensures, Ensures-mono, Ensures-and_then, Ensures-Returns,
}
use secure_rewind_and_discar.Gate.{sdrad_enter, sdrad_exit, sdrad_enter_root, sdrad_exit_root}
use secure_rewind_and_discar.Destroy.{sdrad_destroy, sdrad_deinit}
use secure_rewind_and_discar.Init.{sdrad_init_base}
use secure_rewind_and_discar.Rewind.{jumps, sdrad_abnormal_domain_exit, sdrad_init_destroy}
use secure_rewind_and_discar.Rewind.Discard.{abnormal_exit_target}
use secure_rewind_and_discar.Valid.{IsValid, IsValidWith, Grown, Shrunk}
use secure_rewind_and_discar.Valid.Heaps.{IsValid-Running, free-IsValid}
use secure_rewind_and_discar.Valid.Gates.{
  enter-IsValid, exit-IsValid, deinit-IsValid, enter_root-IsValid, exit_root-IsValid,
}
use secure_rewind_and_discar.Valid.Rights.{dprotect-IsValid}
use secure_rewind_and_discar.Valid.Calls.{
  malloc-Keeps, realloc-Keeps, calloc-Keeps, memalign-Keeps, sdrad_free-Keeps, c_malloc-IsValid,
  c_realloc-IsValid, c_memalign-IsValid,
}
use secure_rewind_and_discar.Valid.Makes.{init-IsValid}
use secure_rewind_and_discar.Valid.Ends.{destroy-IsValid}
use secure_rewind_and_discar.Valid.Rewinding.{rewind-IsValid}
use secure_rewind_and_discar.System.{
  Request, enter, exit, enter_root, exit_root, deinit, dprotect, domain_malloc, domain_realloc,
  domain_calloc, domain_memalign, domain_free, c_realloc, c_memalign, c_free, perform, Label, makes,
  ends, other, Step,
}

-- What a postcondition says of a command that is known to end.
pub Ensures-done :
    {S A : Type 0} (P : A → World S → Type 0) (r : Run S A) (a : A) (v : World S)
    → r ≡ done a v
    → Ensures P r
    → P a v
Ensures-done P r a v e h = rw e at h

-- What a step does to the list of user indices.
abbrev pub Changed : Label → Manager → Manager → Type 0
Changed (makes udi) g h = Grown udi g h
Changed ends g h = Shrunk g h
Changed other g h = h.udi_control_head ≡ g.udi_control_head

module _ {S : Type 0} (p : Platform S) (b : Build) (single : b.multithread ≡ false) (rk : ℕ) where
  module _ {A : Type 0} (l : List UdiControl) where
    drop-Ensures :
        (m : Cmd S A) (w : World S)
        → Ensures (λ r v. IsValidWith rk l v.sgm) (m w)
        → Ensures (λ r v. IsValidWith rk l v.sgm) ((m >> pure tt) w)
    drop-Ensures m w h = Ensures-and_then _ _ (m w) (λ _. pure tt) h λ _ v valid. valid

  perform-IsValid :
      (q : Request) (w : World S)
      → IsValid rk w.sgm
      → Ensures (λ r v. IsValidWith rk w.sgm.udi_control_head v.sgm) (perform p b q w)
  perform-IsValid q w ok =
      let (t, run) = IsValid-Running p b single rk w ok in
      let l : List UdiControl = w.sgm.udi_control_head in
      elim q
        as (λ k. Ensures (λ r v. IsValidWith rk w.sgm.udi_control_head v.sgm) (perform p b k w)) [
          | enter udi rsp ↦
              drop-Ensures l (sdrad_enter p b udi rsp) w
                (enter-IsValid p b w rk root_domain t ok run udi rsp)
          | exit ↦ drop-Ensures l (sdrad_exit p b) w (exit-IsValid p b w rk root_domain t ok run)
          | enter_root rsp ↦
              drop-Ensures l (sdrad_enter_root p b rsp) w
                (enter_root-IsValid p b w rk root_domain t ok run rsp)
          | exit_root ↦
              drop-Ensures l (sdrad_exit_root p b) w
                (exit_root-IsValid p b w rk root_domain t ok run)
          | deinit udi ↦
              drop-Ensures l (sdrad_deinit p b udi) w
                (deinit-IsValid p b w rk root_domain t ok run udi)
          | dprotect udi source access_status ↦
              drop-Ensures l (sdrad_dprotect p b udi source access_status) w
                (dprotect-IsValid p b rk l udi source access_status w (ok, refl))
          | domain_malloc udi size ↦
              drop-Ensures l (sdrad_malloc p b udi size) w
                (malloc-Keeps rk l p b udi size w (ok, refl))
          | domain_realloc udi ptr size ↦
              drop-Ensures l (sdrad_realloc p b udi ptr size) w
                (realloc-Keeps rk l p b udi ptr size w (ok, refl))
          | domain_calloc udi nelem elsize ↦
              drop-Ensures l (sdrad_calloc p b udi nelem elsize) w
                (calloc-Keeps rk l p b udi nelem elsize w (ok, refl))
          | domain_memalign udi alignment size ↦
              drop-Ensures l (sdrad_memalign p b udi alignment size) w
                (memalign-Keeps rk l p b udi alignment size w (ok, refl))
          | domain_free udi ptr ↦ sdrad_free-Keeps rk l p b udi ptr w (ok, refl)
          | c_realloc ptr size ↦
              drop-Ensures l (realloc p b ptr size) w
                (c_realloc-IsValid rk l p b single w (ok, refl) ptr size)
          | c_memalign alignment size ↦
              drop-Ensures l (posix_memalign p b alignment size) w
                (c_memalign-IsValid rk l p b single w (ok, refl) alignment size)
          | c_free ptr ↦
              Ensures-mono _ _ (free p b ptr w)
                (Ensures-Returns _ (free p b ptr w) (free-IsValid p b single rk w ok t run ptr))
                λ _ v (valid, same). (valid, ap (λ (g : Manager). g.udi_control_head) same)
        ]

  module _ (rk_pos : rk ≢ 0) where
    rewind-Shrunk :
        (w u v : World S) (udi buffer r : ℕ) (t : Thread)
        → IsValid rk w.sgm
        → w.sgm.stm_ptr root_domain ≡ some t
        → has_flag (t.sdrad_d_info t.active_domain).sdi_options sdrad_return_to_parent ≡ false
        → sdrad_abnormal_domain_exit p b w ≡ done (jumps buffer) u
        → sdrad_init_destroy p b udi u ≡ done r v
        → IsValid rk v.sgm × Shrunk w.sgm v.sgm
    rewind-Shrunk w u v udi buffer r t ok here to_current exits done_ =
        let (t', run) = IsValid-Running p b single rk w ok in
        let e : t ≡ t' = ground (arith, run, here) in
        let (target, at) =
          Ensures-done _ (sdrad_abnormal_domain_exit p b w) (jumps buffer) u exits (
            Ensures-Returns _ (sdrad_abnormal_domain_exit p b w)
              (abnormal_exit_target p b w root_domain t' run)) in
        let same : u.sgm ≡ w.sgm = ap (λ (x : World S). x.sgm) at in
        let other_key : w.sgm.pdi t'.active_domain ≢ pos rk =
          λ q. ground (arith, q, target, ok.root_key) in
        let valid : IsValid rk u.sgm = rw same ok in
        let (t'', run'') = IsValid-Running p b single rk u valid in
        let e'' : t' ≡ t'' = ground (arith, run, run'', same) in
        let e₀ : t ≡ t'' = e ∙ e'' in
        let other : u.sgm.pdi t''.active_domain ≢ pos rk = ground (arith, other_key, e'', same) in
        let current : has_flag (t''.sdrad_d_info t''.active_domain).sdi_options
              sdrad_return_to_parent
            ≡ false =
          ground (arith, to_current, e₀) in
        let kept =
          Ensures-done _ (sdrad_init_destroy p b udi u) r v done_
            (rewind-IsValid p b single rk rk_pos udi u valid t'' run'' other current) in
        (
          kept.0,
          inr (
            t''.active_domain,
            kept.1 ∙ ap (λ (g : Manager). (unlink t''.active_domain g.udi_control_head).0) same,
          ),
        )

    -- A step keeps the manager valid, and changes the list of user indices as its label says.
    pub Step-IsValid :
        (a : Label) {w v : World S}
        → IsValid rk w.sgm
        → Step p b a w v
        → IsValid rk v.sgm × Changed a w.sgm v.sgm
    Step-IsValid other ok (Step.runs same) =
        (rw same ok, ap (λ (g : Manager). g.udi_control_head) same)
    Step-IsValid other {w} {v} ok (Step.calls q e) =
        Ensures-done _ (perform p b q w) tt v e (perform-IsValid q w ok)
    Step-IsValid other {w} {v} ok (Step.allocates size r booted e) =
        Ensures-done _ (malloc p b size w) r v e
          (c_malloc-IsValid rk w.sgm.udi_control_head p b single w (ok, refl) booted size)
    Step-IsValid (makes udi) {w} {v} ok (Step.inits base _ r at fresh e) = rw (← at) (
        Ensures-done _ (sdrad_init_base p b base w) r v e
          (init-IsValid p b single rk base w (rw (← ok.root_key) fresh) ok))
    Step-IsValid ends {w} {v} ok (Step.destroys udi options r e) =
        Ensures-done _ (sdrad_destroy p b udi options w) r v e
          (destroy-IsValid p b single rk udi options w rk_pos ok)
    Step-IsValid ends ok (Step.rewinds udi buffer r t here to_current exits e) =
        rewind-Shrunk _ _ _ udi buffer r t ok here to_current exits e
