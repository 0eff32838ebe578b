-- ===== src/Threads/Created.antt =====
-- A new thread and its end.
use secure_rewind_and_discar.Base.{ℕ, ◌+◌, ◌<◌, ◌≡◌, ◌≢◌, true, false, some, arith, update}
use secure_rewind_and_discar.Base.Int.{pos}
use secure_rewind_and_discar.Codes.{
  total_domain, root_domain, domain_nonoccupied, domain_occupied, thread_nonoccupied,
}
use secure_rewind_and_discar.State.{Thread}
use secure_rewind_and_discar.Platform.{Build, Platform}
use secure_rewind_and_discar.Slots.{
  sdrad_find_free_thread_id, sdrad_find_free_domain, sdrad_get_sti, sdrad_get_sti_from_tid,
}
use secure_rewind_and_discar.Pools.{sdrad_get_config}
use secure_rewind_and_discar.Alloc.{sdrad_malloc_mdd}
use secure_rewind_and_discar.Domain.{sdrad_request_sdi}
use secure_rewind_and_discar.Machine.{World, done}
use secure_rewind_and_discar.Machine.Returns.{Returns}
use secure_rewind_and_discar.Running.{active_of, config_of}
use secure_rewind_and_discar.Threads.{
  enroll, share_root, sdrad_pthread_construstor, pthread_create, pthread_create_wait, pthread_join,
}

request_lem :
    {S : Type 0} (p : Platform S) (b : Build) (v : World S) (sti n : ℕ) (t : Thread)
    → sdrad_get_sti b.multithread v.sgm (p.pthread_self v.os) ≡ some (pos sti)
    → v.sgm.stm_ptr sti ≡ some t
    → (sdrad_find_free_domain v.sgm).0 ≡ pos n
    → n < total_domain
    → sdrad_request_sdi p b v
      ≡ done n (record v {
        sgm = record (v.sgm) {
          status = update v.sgm.status n domain_occupied;
          stm_ptr = update v.sgm.stm_ptr sti (
              some (record t {
                sdrad_d_info = update t.sdrad_d_info n (sdrad_get_config p (t.sdrad_d_info n) v.os);
              }));
        };
      })
unfolding sdrad_request_sdi sdrad_find_free_domain
request_lem p b v sti n t located present slot room = ground arith

module _ {S : Type 0} (p : Platform S) (b : Build) (w : World S) (i : ℕ) where
  -- The memory for the record.
  node : ℕ × S
  node = p.tlsf_malloc w.sgm.sdrad_monitor_domain.smd_tlsf p.size_of_thread w.os

  fresh_thread : Thread
  unfolding node
  fresh_thread = p.raw_thread node.0 node.1

  -- The state in which the new thread asks for a slot.
  unfoldable pub enrolled : World S
  unfolding node fresh_thread
  enrolled = record w {
    pkru = 0;
    os = node.1;
    sgm = record (w.sgm) {
      sgm_thread_id = update w.sgm.sgm_thread_id i (p.pthread_self w.os);
      stm_ptr = update w.sgm.stm_ptr i (some fresh_thread);
      sgm_total_thread = w.sgm.sgm_total_thread + 1;
    };
  }

-- What a new thread needs: a free index `i` at which it then finds itself, memory for its record, a
-- free slot `n`, and the root thread's record at another index.
pub record Enrollable {S : Type 0} (p : Platform S) (b : Build) (w : World S) (i n : ℕ)
    (root : Thread) : Type 0 where
  pub index : sdrad_find_free_thread_id w.sgm ≡ pos i
  pub memory : (p.tlsf_malloc w.sgm.sdrad_monitor_domain.smd_tlsf p.size_of_thread w.os).0 ≢ 0
  pub found :
      sdrad_get_sti b.multithread (enrolled p b w i).sgm (p.pthread_self (enrolled p b w i).os)
      ≡ some (pos i)
  pub slot : (sdrad_find_free_domain (enrolled p b w i).sgm).0 ≡ pos n
  pub room : n < total_domain
  pub present : w.sgm.stm_ptr root_domain ≡ some root
  pub other : i ≢ root_domain

module _ {S : Type 0} (p : Platform S) (b : Build) (w : World S) (i n : ℕ) (root : Thread)
    (able : Enrollable p b w i n root) where
  enroll_lem : enroll p b (record w { pkru = 0 }) ≡ done i (enrolled p b w i)
  unfolding enroll sdrad_malloc_mdd enrolled
  enroll_lem = ground arith

  enrolled_present : (enrolled p b w i).sgm.stm_ptr i ≡ some (fresh_thread p b w i)
  unfolding enrolled
  enrolled_present = ground arith

  enrolled_root : (enrolled p b w i).sgm.stm_ptr root_domain ≡ some root
  unfolding enrolled
  enrolled_root = ground (arith, able.other, able.present)

  -- A new thread that finds a free index and a free slot starts its routine in the slot as its active
  -- domain. The slot has the root domain's protection key, and the register the rights that the root
  -- thread has in the root domain; the creator is told that the thread is set up.
  pub construstor_joins_root :
      Returns
        (λ r v.
          (r ≡ (w.sgm.real_start_routine, w.sgm.start_arg))
          × (active_of v i ≡ some n)
          × (v.sgm.pdi n ≡ w.sgm.pdi root_domain)
          × (v.pkru ≡ root.pkru_config root_domain)
          × (config_of v i n ≡ some v.pkru)
          × (v.sgm.sgm_thread_id i ≡ p.pthread_self w.os)
          × (v.sgm.sgm_total_thread ≡ w.sgm.sgm_total_thread + 1)
          × (v.sgm.status n ≡ domain_occupied)
          × (v.sgm.sdrad_pthread_constructor_done ≡ 1))
        (sdrad_pthread_construstor p b w)
  unfolding sdrad_pthread_construstor share_root enrolled
  construstor_joins_root =
      let request =
        request_lem p b (enrolled p b w i) i n (fresh_thread p b w i) able.found enrolled_present
          able.slot able.room in
      ground (arith, enroll_lem, request, enrolled_root)

module _ {S : Type 0} (p : Platform S) (b : Build) (w : World S) where
  -- `pthread_create` records the routine and its argument for the new thread and then waits: until the
  -- new thread has set the flag each round of the loop changes nothing and is not the last, and once
  -- the flag is set the next round is the last and resets it. The register is left with all rights.
  pub create_waits :
      (start_routine arg : ℕ)
      → Returns
          (λ ret v.
            (ret ≡ (p.real_pthread_create arg w.os).0)
            × (v.sgm.real_start_routine ≡ start_routine)
            × (v.sgm.start_arg ≡ arg)
            × (v.pkru ≡ 0)
            × (pthread_create_wait p b v ≡ done false v)
            × (pthread_create_wait p b
                  (record v { sgm = record (v.sgm) { sdrad_pthread_constructor_done = 1 } })
                ≡ done true v))
          (pthread_create p b start_routine arg w)
  unfolding pthread_create pthread_create_wait
  create_waits start_routine arg = ground arith

  -- Joining a thread that the table knows frees its index and the slot of its active domain and nothing
  -- else: the number of threads stays, and the register is left with all rights.
  pub join_frees :
      (tid i : ℕ) (t : Thread)
      → sdrad_get_sti_from_tid w.sgm tid ≡ some (pos i)
      → w.sgm.stm_ptr i ≡ some t
      → t.active_domain < total_domain
      → let joined = p.real_pthread_join tid w.os in
        pthread_join p b tid w
        ≡ done joined.0 (record w {
          pkru = 0;
          os = joined.1;
          sgm = record (w.sgm) {
            status = update w.sgm.status t.active_domain domain_nonoccupied;
            sgm_thread_id = update w.sgm.sgm_thread_id i thread_nonoccupied;
          };
        })
  unfolding pthread_join
  join_frees tid i t located present inside = ground arith
