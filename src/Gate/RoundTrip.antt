-- ===== src/Gate/RoundTrip.antt =====
-- Entering a domain and leaving it again.
use secure_rewind_and_discar.Base.{
  ◌≢◌, ℕ, ◌+◌, ◌-◌, ◌<◌, ◌≤◌, ◌≡◌, true, false, some, arith, update,
}
use secure_rewind_and_discar.Base.Int.{pos}
use secure_rewind_and_discar.Codes.{total_domain, sdrad_data_domain, has_flag}
use secure_rewind_and_discar.State.{Thread}
use secure_rewind_and_discar.Platform.{Build, Platform}
use secure_rewind_and_discar.Control.{sdrad_search_udi_control}
use secure_rewind_and_discar.Slots.{sdrad_get_sti, sdrad_get_sti_from_tid}
use secure_rewind_and_discar.Machine.{World, modify, ◌>>◌}
use secure_rewind_and_discar.Machine.Ensures.{Ensures}
use secure_rewind_and_discar.Machine.Returns.{Returns, Returns-and_then, Returns-mono}
use secure_rewind_and_discar.Running.{Running, active_of}
use secure_rewind_and_discar.Gate.{
  sdrad_enter, sdrad_enter_base, enter_at, sdrad_exit, sdrad_exit_base,
}

-- What a call into a domain asks for: the domain of the user index is an execution domain with a
-- saved context, made by the domain that is active now.
pub record Enterable {S : Type 0} (w : World S) (t : Thread) (udi sdi : ℕ) : Type 0 where
  pub found : sdrad_search_udi_control udi w.sgm.udi_control_head ≡ pos sdi
  pub inside : sdi < total_domain
  pub executes : has_flag (t.sdrad_d_info sdi).sdi_options sdrad_data_domain ≡ false
  pub saved : (t.sdrad_d_info sdi).sdi_saved_ex ≡ true
  pub parent : (t.sdrad_d_info sdi).sdi_parent_domain ≡ t.active_domain

-- The thread's record inside the domain.
unfoldable pub entered : (t : Thread) (sdi rsp : ℕ) → Thread
entered t sdi rsp =
    let parent = (t.sdrad_d_info sdi).sdi_parent_domain in
    record t {
      active_domain = sdi;
      sdrad_d_info =
          update t.sdrad_d_info parent
            (record (t.sdrad_d_info parent) { sdi_last_rsp = rsp - 8 + 16 });
    }

module _ {S : Type 0} (p : Platform S) (b : Build) (w : World S) (sti : ℕ) (t : Thread)
    (run : Running p b w sti t)
    (inside : (t.sdrad_d_info t.active_domain).sdi_parent_domain < total_domain) where
  -- Leaving a domain whose parent has a stack pointer makes the parent the active one, and continues on
  -- that stack, with the parent's rights and allocator; nothing else changes.
  pub exit_lem :
      (t.sdrad_d_info (t.sdrad_d_info t.active_domain).sdi_parent_domain).sdi_last_rsp ≢ 0
      → let parent = (t.sdrad_d_info t.active_domain).sdi_parent_domain in
        Returns
          (λ back u.
            (back ≡ (t.sdrad_d_info parent).sdi_last_rsp)
            × (u ≡ record w {
              pkru = t.pkru_config parent;
              tlsf_structure = (t.sdrad_d_info parent).sdi_tlsf;
              sgm = record (w.sgm) {
                stm_ptr = update w.sgm.stm_ptr sti (some (record t { active_domain = parent }));
              };
            }))
          (sdrad_exit p b w)
  unfolding sdrad_exit sdrad_exit_base
  exit_lem real = ground arith

  -- Without a stack pointer the call ends in a fault.
  pub exit_or_fault :
      let parent = (t.sdrad_d_info t.active_domain).sdi_parent_domain in
      Ensures
        (λ back u. u ≡ record w {
          pkru = t.pkru_config parent;
          tlsf_structure = (t.sdrad_d_info parent).sdi_tlsf;
          sgm = record (w.sgm) {
            stm_ptr = update w.sgm.stm_ptr sti (some (record t { active_domain = parent }));
          };
        })
        (sdrad_exit p b w)
  unfolding sdrad_exit sdrad_exit_base
  exit_or_fault = ground arith

module _ {S : Type 0} (p : Platform S) (b : Build) (w : World S) (sti udi sdi rsp : ℕ) (t : Thread)
    (run : Running p b w sti t) (able : Enterable w t udi sdi) where
  -- Entering a domain returns its number, continues on the top of its stack with its rights and its
  -- allocator, and makes it the active domain; the rest of the manager and the platform stay.
  pub enter_lem :
      Returns
        (λ r v.
          (r.0 ≡ pos sdi)
          × (r.1 ≡ (t.sdrad_d_info sdi).sdi_address_stack + (t.sdrad_d_info sdi).sdi_size_of_stack)
          × (v ≡ record w {
            pkru = t.pkru_config sdi;
            tlsf_structure = (t.sdrad_d_info sdi).sdi_tlsf;
            sgm = record (w.sgm) { stm_ptr = update w.sgm.stm_ptr sti (some (entered t sdi rsp)) };
          }))
        (sdrad_enter p b udi rsp w)
  unfolding sdrad_enter sdrad_enter_base enter_at entered
  enter_lem = ground arith

  entered-parent : ((entered t sdi rsp).sdrad_d_info sdi).sdi_parent_domain ≡ t.active_domain
  unfolding entered
  entered-parent = ground arith

  entered_rsp :
      ((entered t sdi rsp).sdrad_d_info
        ((entered t sdi rsp).sdrad_d_info sdi).sdi_parent_domain).sdi_last_rsp
      ≢ 0
  unfolding entered
  entered_rsp = ground arith

  -- What runs inside sees the thread as `sdrad_enter` left it.
  inside_v : World S
  inside_v = record w {
    pkru = t.pkru_config sdi;
    tlsf_structure = (t.sdrad_d_info sdi).sdi_tlsf;
    sgm = record (w.sgm) { stm_ptr = update w.sgm.stm_ptr sti (some (entered t sdi rsp)) };
  }

  module _ (code : World S → World S) (quiet : (v : World S) → (code v).sgm ≡ v.sgm)
      (same : (v : World S) → p.pthread_self (code v).os ≡ p.pthread_self v.os)
      (room : 8 ≤ rsp) where
    Running-inside : Running p b (code inside_v) sti (entered t sdi rsp)
    unfolding inside_v entered sdrad_get_sti sdrad_get_sti_from_tid
    Running-inside = record {
      located = rw (quiet inside_v, same inside_v) run.located;
      present = rw (quiet inside_v) (ground arith);
      in_range = able.inside;
    }

    -- When the active domain is the parent of an execution domain that has a saved context and a user
    -- index, and the stack pointer is at least 8: entering that domain, running any code that leaves
    -- the manager and the thread's number alone, and leaving it again gives the caller back its stack
    -- pointer behind the call, its rights, its allocator and its place as the active domain.
    pub enter-exit_restores :
        Returns
          (λ back u.
            (back ≡ rsp + 8)
            × (u.pkru ≡ t.pkru_config t.active_domain)
            × (u.tlsf_structure ≡ (t.sdrad_d_info t.active_domain).sdi_tlsf)
            × (active_of u sti ≡ some t.active_domain))
          ((do sdrad_enter p b udi rsp; modify code; sdrad_exit p b) w)
    unfolding inside_v entered
    enter-exit_restores =
        Returns-and_then _ _ (sdrad_enter p b udi rsp w) _ enter_lem λ r v (_, _, e). rw e (
          Returns-mono _ _ (sdrad_exit p b (code inside_v))
            (exit_lem p b (code inside_v) sti (entered t sdi rsp) Running-inside
              (rw entered-parent run.in_range) entered_rsp)
            λ back u (at, is). ground (arith, entered-parent))
