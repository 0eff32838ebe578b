-- ===== src/Call/Inside.antt =====
-- A call in a domain that is there, from the copy of the argument to the end of the domain.
use secure_rewind_and_discar.Base.{
  ◌==◌, if◌then◌else◌, ℕ, ◌<◌, ◌≡◌, ◌≢◌, refl, ap, ◌∙◌, inl, false, Option, some, none, arith,
  update,
}
use secure_rewind_and_discar.Base.Int.{ℤ}
use secure_rewind_and_discar.Codes.{total_domain, root_domain, sdrad_no_heap_merge}
use secure_rewind_and_discar.State.{Thread, Manager}
use secure_rewind_and_discar.Platform.{Build, Platform}
use secure_rewind_and_discar.Slots.{sdrad_get_sti}
use secure_rewind_and_discar.Control.{unlink}
use secure_rewind_and_discar.Machine.{World, Cmd, pure, done, deref, call_void, ◌>>=◌, ◌>>◌}
use secure_rewind_and_discar.Machine.Returns.{Returns, Returns-and_then}
use secure_rewind_and_discar.Running.{Running, active_of}
use secure_rewind_and_discar.Gate.{sdrad_enter, sdrad_exit}
use secure_rewind_and_discar.Gate.RoundTrip.{Enterable, entered, enter_lem, exit_lem}
use secure_rewind_and_discar.Destroy.{sdrad_destroy}
use secure_rewind_and_discar.Destroy.Outcome.{Destroyable, destroy_unmaps}

-- How the call ends, from the state `x` with the thread's record `u`.
abbrev pub Ended :
    {S : Type 0} → World S → ℕ → Thread → (answer err : ℤ) → ℤ × Option ℤ → World S → Type 0
Ended x n u answer err result f =
    (result ≡ (err, some answer))
    × (f.sgm.udi_control_head ≡ (unlink n x.sgm.udi_control_head).0)
    × (f.sgm.status ≡ x.sgm.status)
    × (active_of f root_domain ≡ some u.active_domain)
    × (f.pkru ≡ u.pkru_config u.active_domain)

-- The monitor's heap of `w` has memory for a cache node in the platform's state `os`.
abbrev pub HasRoom : {S : Type 0} → Platform S → World S → S → Type 0
HasRoom p w os = (p.tlsf_malloc w.sgm.sdrad_monitor_domain.smd_tlsf p.size_of_cache os).0 ≢ 0

-- `sdrad_call` behind the allocation.
abbrev pub body :
    {S : Type 0}
    → Platform S
    → Build
    → (udi rsp argument size : ℕ) → (ℕ → Cmd S ℤ)
    → ℤ
    → ℕ
    → Cmd S (ℤ × Option ℤ)
body p b udi rsp argument size funcptr err ptr = do
  if size == 0 then pure tt else (do deref ptr; deref argument)
  call_void (p.memcpy ptr argument size)
  sdrad_enter p b udi rsp
  ret_val ← funcptr ptr
  sdrad_exit p b
  call_void (p.memcpy argument ptr size)
  sdrad_destroy p b udi sdrad_no_heap_merge
  pure (err, some ret_val)

module _ {S : Type 0} (p : Platform S) (b : Build) (single : b.multithread ≡ false) (x : World S)
    (udi n rsp ptr argument size : ℕ) (u : Thread) (funcptr : ℕ → Cmd S ℤ) (answer err : ℤ)
    (here : x.sgm.stm_ptr root_domain ≡ some u) (in_range : u.active_domain < total_domain)
    (able : Enterable x u udi n) (first : (unlink n x.sgm.udi_control_head).1 ≡ none)
    (given : ptr ≢ 0) (source : argument ≢ 0) (room : HasRoom p x x.os)
    (copies : (to from n : ℕ) (os : S) → HasRoom p x os → HasRoom p x (p.memcpy to from n os))
    (quiet : (v : World S)
      → HasRoom p x v.os
      → Returns (λ r z. (r ≡ answer) × (z.sgm ≡ v.sgm) × HasRoom p x z.os) (funcptr ptr v)) where
  abbrev copied : World S
  copied = record x { os = p.memcpy ptr argument size x.os }

  Running-copied : Running p b copied root_domain u
  unfolding sdrad_get_sti
  Running-copied = record { located = rw single refl; present = here; in_range = in_range }

  Enterable-copied : Enterable copied u udi n
  Enterable-copied = record {
    found = able.found;
    inside = able.inside;
    executes = able.executes;
    saved = able.saved;
    parent = able.parent;
  }

  within : Thread
  within = entered u n rsp

  abbrev inner : World S
  inner = record copied {
    pkru = u.pkru_config n;
    tlsf_structure = (u.sdrad_d_info n).sdi_tlsf;
    sgm = record (copied.sgm) {
      stm_ptr = update copied.sgm.stm_ptr root_domain (some (entered u n rsp));
    };
  }

  within_facts :
      (within.active_domain ≡ n)
      × ((within.sdrad_d_info n).sdi_parent_domain ≡ u.active_domain)
      × (within.pkru_config ≡ u.pkru_config)
  unfolding within entered
  within_facts = ground (arith, able.parent)

  module _ (z : World S) (same : z.sgm ≡ inner.sgm) (left : HasRoom p x z.os) where
    Running-z : Running p b z root_domain within
    unfolding sdrad_get_sti within
    Running-z = record {
      located = rw single refl;
      present = rw same (ground arith);
      in_range = rw within_facts.0 able.inside;
    }

    parent_inside : (within.sdrad_d_info within.active_domain).sdi_parent_domain < total_domain
    parent_inside = rw (within_facts.0, within_facts.1) in_range

    within_rsp :
        (within.sdrad_d_info
          (within.sdrad_d_info within.active_domain).sdi_parent_domain).sdi_last_rsp
        ≢ 0
    unfolding within entered
    within_rsp = ground arith

    back_thread : Thread
    back_thread = record within {
      active_domain = (within.sdrad_d_info within.active_domain).sdi_parent_domain;
    }

    abbrev back : World S
    back = record z {
      os = p.memcpy argument ptr size z.os;
      pkru = within.pkru_config (within.sdrad_d_info within.active_domain).sdi_parent_domain;
      tlsf_structure =
          (within.sdrad_d_info
            (within.sdrad_d_info within.active_domain).sdi_parent_domain).sdi_tlsf;
      sgm = record (z.sgm) {
        stm_ptr = update z.sgm.stm_ptr root_domain (
            some (record within {
              active_domain = (within.sdrad_d_info within.active_domain).sdi_parent_domain;
            }));
      };
    }

    Running-back : Running p b back root_domain back_thread
    unfolding sdrad_get_sti back_thread
    Running-back = record {
      located = rw single refl;
      present = ground arith;
      in_range = parent_inside;
    }

    Destroyable-back : Destroyable p back back_thread udi n
    unfolding back_thread
    Destroyable-back = record {
      mapped = rw same able.found;
      inside = able.inside;
      parent_inside = rw within_facts.1 in_range;
      memory = rw same (copies argument ptr size z.os left);
      allocator = inl (rw same first);
    }

    ending :
        Returns {A = ℤ × Option ℤ}
          (λ result f.
            (result ≡ (err, some answer))
            × (f.sgm.udi_control_head ≡ (unlink n x.sgm.udi_control_head).0)
            × (f.sgm.status ≡ x.sgm.status)
            × (active_of f root_domain ≡ some u.active_domain)
            × (f.pkru ≡ u.pkru_config u.active_domain))
          ((do
            sdrad_exit p b
            call_void (p.memcpy argument ptr size)
            sdrad_destroy p b udi sdrad_no_heap_merge
            pure (err, some answer))
            z)
    unfolding back_thread
    ending =
        Returns-and_then _ _ (sdrad_exit p b z) _
          (exit_lem p b z root_domain within Running-z parent_inside within_rsp)
          λ at q (_, is). rw is (
            Returns-and_then _ _ (sdrad_destroy p b udi sdrad_no_heap_merge back) _
              (destroy_unmaps p b back root_domain udi n sdrad_no_heap_merge back_thread
                Running-back Destroyable-back)
              λ code f post. (
                refl,
                post.1 ∙ ap (λ (g : Manager). (unlink n g.udi_control_head).0) same,
                post.4 ∙ ap (λ (g : Manager). g.status) same,
                ground (arith, post, within_facts),
                ground (arith, post, within_facts),
              ))

  pub inside_lem :
      Returns (Ended x n u answer err) (body p b udi rsp argument size funcptr err ptr x)
  inside_lem =
      let copy_lem : (if size == 0 then pure tt else (do deref ptr; deref argument)) x ≡ done tt x =
        ground arith in
      rw copy_lem (
        Returns-and_then _ _ (sdrad_enter p b udi rsp copied) _
          (enter_lem p b copied root_domain udi n rsp u Running-copied Enterable-copied)
          λ r v (_, _, e). rw e (
            Returns-and_then _ _ (funcptr ptr inner) _
              (quiet inner (copies ptr argument size x.os room))
              λ a z (is, same, left). rw is (ending z same left)))
