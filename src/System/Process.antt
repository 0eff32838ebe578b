-- ===== src/System/Process.antt =====
-- A process from its start on: the constructor, and then any steps.
use native.Mathlib.Decide.{ℕ_discrete}
use secure_rewind_and_discar.Base.{
  All, ℕ, ◌<◌, ◌≡◌, ◌≢◌, refl, ◌⊎◌, inl, inr, false, List, [], ◌∷◌, some, none, arith, ◌==◌,
  if◌then◌else◌,
}
use secure_rewind_and_discar.Base.Int.{pos}
use secure_rewind_and_discar.Codes.{
  total_domain, root_domain, domain_occupied, sdrad_successful_returned, sdrad_error_wrong_config,
}
use secure_rewind_and_discar.State.{EeStack, UdiControl, Thread}
use secure_rewind_and_discar.Platform.{Build, Platform}
use secure_rewind_and_discar.Control.{sdrad_search_udi_control}
use secure_rewind_and_discar.Control.Lookup.{Distinct}
use secure_rewind_and_discar.Boot.{sdrad_constructor, free_tables}
use secure_rewind_and_discar.Boot.Started.{booted, threaded, tabled, handled}
use secure_rewind_and_discar.Machine.{World, Run, done}
use secure_rewind_and_discar.Machine.Returns.{Returns, Returns-mono}
use secure_rewind_and_discar.Running.{active_of}
use secure_rewind_and_discar.Gate.{sdrad_enter_base, sdrad_exit, sdrad_exit_base}
use secure_rewind_and_discar.Destroy.{sdrad_deinit}
use secure_rewind_and_discar.Rewind.{
  Exit, aborts, jumps, sdrad_abnormal_domain_exit, sdrad_signal_handler, stack_chk_fail,
}
use secure_rewind_and_discar.Rewind.Discard.{abnormal_exit_target}
use secure_rewind_and_discar.Valid.{IsValid, found-Occupied}
use secure_rewind_and_discar.Valid.Heaps.{IsValid-Running}
use secure_rewind_and_discar.Valid.Start.{Zeroed, Startable, started, start_lem, start-IsValid}
use secure_rewind_and_discar.System.{Label, Step, Reach}
use secure_rewind_and_discar.System.Invariant.{Step-IsValid}
use secure_rewind_and_discar.System.Refine.{MapStep, map_of, simulates_map}

-- Two user indices in the list with the same domain are the same.
none_after :
    (udi n : ℕ) (c : UdiControl) (l : List UdiControl)
    → All (λ o. (o.udi ≢ c.udi) × (o.sdi ≢ c.sdi)) l
    → sdrad_search_udi_control udi l ≡ pos n
    → (udi ≢ c.udi) × (n ≢ c.sdi)
unfolding sdrad_search_udi_control
none_after udi n c [] h e = ground arith
none_after udi n c (o ∷ l) h e = ground (arith, none_after udi n c l h.1)

one_index :
    (udi other n : ℕ) (l : List UdiControl)
    → Distinct l
    → sdrad_search_udi_control udi l ≡ pos n
    → sdrad_search_udi_control other l ≡ pos n
    → udi ≡ other
unfolding sdrad_search_udi_control
one_index udi other n [] h e q = ground arith
one_index udi other n (c ∷ l) h e q =
    ground
      (arith, none_after udi n c l h.0, none_after other n c l h.0, one_index udi other n l h.1)

module _ {S : Type 0} (p : Platform S) (b : Build) (single : b.multithread ≡ false) (key : ℕ)
    (w : World S) (zero : Zeroed w.sgm) (able : Startable p b w key) (u v : World S)
    (boot : sdrad_constructor p b w ≡ done tt u) (reach : Reach p b u v) where
  done_same : (r : Run S (Unit {0})) (x y : World S) → r ≡ done tt x → r ≡ done tt y → x ≡ y
  done_same r x y e q = ground arith

  booted-IsValid : IsValid key u.sgm
  booted-IsValid =
      let e : started p b w key zero able ≡ u =
        done_same _ _ _ (start_lem p b w key zero able) boot in
      rw (← e) (start-IsValid p b w key zero able)

  from : {x : World S} → Reach p b u x → IsValid key x.sgm
  from Reach.here = booted-IsValid
  from (Reach.next a before step) =
      (Step-IsValid p b single key able.positive a (from before) step).0

  -- In the single-threaded build, from zeroed static data and with what the constructor needs
  -- of the platform: every state that the process reaches after the constructor, by calls, code
  -- that leaves the manager alone and caught faults, has a valid manager. The active domain and
  -- all parents are among the thirty, the root domain's slot is taken and no other slot has its
  -- key, the user indices and their domains are distinct, each of these domains is taken and is
  -- not the root domain, and no cached key is the root domain's. The kernel is taken not to
  -- give the root domain's key out again, `malloc` is called after the constructor, and caught
  -- faults are those of domains without SDRAD_RETURN_TO_PARENT.
  pub reached-IsValid : IsValid key v.sgm
  reached-IsValid = from reach

  exit_target :
      (t : Thread) (x : World S)
      → x.sgm ≡ v.sgm
      → v.sgm.stm_ptr root_domain ≡ some t
      → Returns
          (λ exit _. exit ≡ (
            if t.active_domain == root_domain
            then aborts
            else jumps (t.sdrad_d_info t.active_domain).sdi_buffer))
          (sdrad_abnormal_domain_exit p b x)
  exit_target t x same here =
      let valid : IsValid key x.sgm = rw same reached-IsValid in
      let (t', run) = IsValid-Running p b single key x valid in
      Returns-mono _ _ (sdrad_abnormal_domain_exit p b x)
        (abnormal_exit_target p b x root_domain t' run)
        λ exit _ (at, _).
          ground (arith, at, same, here, run, valid.root_key, valid.keys t.active_domain)

  -- In the single-threaded build, from zeroed static data and with what the constructor needs of the
  -- platform: in every state that the process reaches, the handler returns when a signal or the stack
  -- protector shows a fault. The process ends if the active domain is the root domain; in any other
  -- domain control goes to the buffer that the domain's record holds, whatever that is. It is not
  -- looked at whether a context is saved there.
  pub fault_contained :
      (t : Thread)
      → v.sgm.stm_ptr root_domain ≡ some t
      → let target : Exit =
          if t.active_domain == root_domain
          then aborts
          else jumps (t.sdrad_d_info t.active_domain).sdi_buffer in
        Returns (λ exit _. exit ≡ target) (sdrad_signal_handler p b v)
        × Returns (λ exit _. exit ≡ target) (stack_chk_fail p b v)
  unfolding sdrad_signal_handler stack_chk_fail
  fault_contained t here =
      let signalled : World S = record v { pkru = 0; os = p.sigprocmask 11 v.os } in
      (exit_target t signalled refl here, exit_target t v refl here)

  -- In the single-threaded build, from zeroed static data and with what the constructor needs
  -- of the platform: in every state that the process reaches, a user index that has a domain
  -- has it alone. The domain is one of the thirty and not the root domain, its slot is taken,
  -- its key is not the root domain's, and no other user index has it.
  pub index_owns_domain :
      (udi other n : ℕ)
      → sdrad_search_udi_control udi v.sgm.udi_control_head ≡ pos n
      → (n < total_domain)
        × (n ≢ root_domain)
        × (v.sgm.status n ≡ domain_occupied)
        × (v.sgm.pdi n ≢ v.sgm.pdi root_domain)
        × ((udi ≡ other) ⊎ (sdrad_search_udi_control other v.sgm.udi_control_head ≢ pos n))
  index_owns_domain udi other n mapped =
      let ok = reached-IsValid in
      let (inside, taken, other_key) =
        found-Occupied key udi n v.sgm.status v.sgm.pdi v.sgm.udi_control_head ok.listed mapped in
      (
        inside,
        (λ e. other_key (rw e ok.root_key)),
        taken,
        rw ok.root_key other_key,
        elim (ℕ_discrete udi other) [
          | yes same ↦ inl same
          | no different ↦
              inr
                (λ q. different (one_index udi other n v.sgm.udi_control_head ok.distinct mapped q))
        ],
      )

  -- In the single-threaded build, from zeroed static data and with what the constructor needs of the
  -- platform: in every state that the process reaches these calls end without a fault. Leaving makes
  -- the parent of the active domain the active one, if that parent has a stack pointer, which it gets
  -- when a domain is entered from it. For a user index that has a domain, giving its saved context up
  -- succeeds, and `__sdrad_enter` either makes it the active domain or refuses it and leaves the active
  -- domain as it was.
  pub calls_return :
      (t : Thread) (udi n : ℕ) (ss : EeStack)
      → v.sgm.stm_ptr root_domain ≡ some t
      → sdrad_search_udi_control udi v.sgm.udi_control_head ≡ pos n
      → (t.sdrad_d_info (t.sdrad_d_info t.active_domain).sdi_parent_domain).sdi_last_rsp ≢ 0
      → Returns
          (λ _ x. active_of x root_domain ≡ some (t.sdrad_d_info t.active_domain).sdi_parent_domain)
          (sdrad_exit p b v)
        × Returns (λ r _. r ≡ sdrad_successful_returned) (sdrad_deinit p b udi v)
        × Returns
            (λ r x.
              ((r.0 ≡ pos n) × (active_of x root_domain ≡ some n))
              ⊎ ((r.0 ≡ sdrad_error_wrong_config)
                  × (active_of x root_domain ≡ some t.active_domain)))
            (sdrad_enter_base p b udi ss v)
  unfolding sdrad_exit sdrad_exit_base sdrad_deinit sdrad_enter_base
  calls_return t udi n ss here mapped stack =
      let ok = reached-IsValid in
      let (t', run) = IsValid-Running p b single key v ok in
      let sound = ok.threads root_domain t here in
      let found =
        found-Occupied key udi n v.sgm.status v.sgm.pdi v.sgm.udi_control_head ok.listed mapped in
      (
        ground (arith, run, here, sound.parents t.active_domain, sound.active),
        ground (arith, run, here, sound.active, found),
        ground (arith, run, here, sound.parents n, found),
      )

  empty_at_start : (i : ℕ) → map_of u.sgm i ≡ none
  unfolding map_of sdrad_search_udi_control started booted threaded handled tabled free_tables
  empty_at_start i =
      let e : started p b w key zero able ≡ u =
        done_same _ _ _ (start_lem p b w key zero able) boot in
      rw (← e, zero.listed) refl

  -- In the single-threaded build, from zeroed static data and with what the constructor needs
  -- of the platform: the list of user indices implements a partial map from user indices to
  -- domains, empty after the constructor. In every state that the process reaches, a step by
  -- which a domain may be made leaves the map or adds the requested index with a domain that no
  -- index has, a step that may end a domain leaves the map or takes one domain out, and every
  -- other step leaves it.
  pub list_refines_map :
      (a : Label) (x : World S)
      → Step p b a v x
      → ((i : ℕ) → map_of u.sgm i ≡ none) × MapStep a (map_of v.sgm) (map_of x.sgm)
  list_refines_map a x step =
      (empty_at_start, simulates_map p b single key able.positive a reached-IsValid step)
