-- ===== src/Control/Memory/Lost.antt =====
-- What the mutex does not prevent: a deletion takes none, so it can undo an insertion that it does not know
-- of; and an inserted node is filled in behind it.
use secure_rewind_and_discar.Base.{ℕ, ◌≡◌, ◌≢◌, refl, sym, ◌∙◌, true, false, List, ◌∷◌, arith}
use secure_rewind_and_discar.Lock.{Mutex, sdrad_mutex_constructor}
use secure_rewind_and_discar.Lock.Interleave
use secure_rewind_and_discar.Lock.Interleave.{
  Threads, Reach, here, next, access, acquire, release, lock-unlock, constructor-IsFree,
}
use secure_rewind_and_discar.Control.Memory.{
  Nodes, Pc, at, idle, within, calls_insert, allocates, links, publishes, deletes_first,
  stores_head, insert_locks, insert_unlocks, control_list, first_pc,
}
use secure_rewind_and_discar.Base.{ap, ◌==◌, if◌then◌else◌}
use secure_rewind_and_discar.Base.Int.{pos}
use secure_rewind_and_discar.Codes.{sdrad_error_domain_no_map}
use secure_rewind_and_discar.Lock.{sdrad_mutex_unlock}
use secure_rewind_and_discar.Control.Memory.{
  fill_udi, answered, calls_search, search_locks, finds, search_unlocks, answers,
}
use mathlib.Core.Path.{subst}
use secure_rewind_and_discar.Base.{All, [], update}
use secure_rewind_and_discar.State.{UdiControl}
use secure_rewind_and_discar.Lock.Interleave.{
  StepBy, ReachBy, stay, go, moves, locks, unlocks, IsFree,
}
use secure_rewind_and_discar.Control.Memory.{insert, delete_first, delete_head}
use secure_rewind_and_discar.Control.Memory.Walk.{Holds}
use secure_rewind_and_discar.Control.Memory.Insert.{insert-cons}
use secure_rewind_and_discar.Control.Memory.Delete.{Holds-same, unmoved}

-- The list from an address on begins at that address, so two memories with one list agree on it.
Holds-head : (m m' : Nodes) (h h' : ℕ) (l : List UdiControl) → Holds m h l → Holds m' h' l → h ≡ h'
Holds-head m m' h h' [] a b = a ∙ sym b
Holds-head m m' h h' (c ∷ l) a b = a.0 ∙ sym b.0

module _ (x : Mutex) (i j ki kj : ℕ) where
  -- The steps of one thread leave the others where they stand.
  ReachBy-others :
      {s t : Threads (x.State) Nodes Pc}
      → i ≢ j
      → ReachBy x (control_list true) i s t
      → t.pc j ≡ s.pc j
  ReachBy-others ne stay = refl
  ReachBy-others ne (go r (moves a)) = ground (arith, ReachBy-others ne r)
  ReachBy-others ne (go r (locks a e)) = ground (arith, ReachBy-others ne r)
  ReachBy-others ne (go r (unlocks a)) = ground (arith, ReachBy-others ne r)

  -- In the multithreaded build, from any state with a free mutex in which thread `i` has called the
  -- insertion and thread `j` the deletion of the first node's domain: `j` reads what comes behind the
  -- first node, then `i` runs to the end of its insertion, and the list begins with the new node,
  -- filled in, before the old list; then `j` stores what it has read, and the list is what came behind
  -- the old first node. The new node is lost.
  pub insertion_lost :
      (s : Threads (x.State) Nodes Pc) (c : UdiControl) (l : List UdiControl) (u d n : ℕ)
      → i ≢ j
      → s.pc i ≡ at ki (insert u d)
      → s.pc j ≡ at kj (delete_first c.sdi s.mem.udi_control_head)
      → Holds s.mem s.mem.udi_control_head (c ∷ l)
      → All (λ o. o.node ≢ n) (c ∷ l)
      → n ≢ 0
      → s.mem.taken n ≡ false
      → IsFree x s.sgm_lock
      → (v : Threads (x.State) Nodes Pc) × StepBy x (control_list true) j s v
        × (v.pc j ≡ at kj (delete_head (s.mem.next s.mem.udi_control_head)))
        × ((w : Threads (x.State) Nodes Pc) × ReachBy x (control_list true) i v w
            × (w.pc i ≡ at ki idle)
            × Holds w.mem w.mem.udi_control_head (record { node = n; udi = u; sdi = d } ∷ c ∷ l)
            × ((t : Threads (x.State) Nodes Pc) × StepBy x (control_list true) j w t
                × (t.pc j ≡ at kj idle)
                × Holds t.mem t.mem.udi_control_head l))
  insertion_lost s c l u d n ne called_i called_j h out real new free =
      let rest : ℕ = s.mem.next s.mem.udi_control_head in
      let v : Threads (x.State) Nodes Pc = record s {
        pc = update s.pc j (at kj (delete_head rest));
      } in
      let key : s.mem.sdi s.mem.udi_control_head ≡ c.sdi = ap s.mem.sdi h.0 ∙ h.3 in
      let reads : StepBy x (control_list true) j s v =
        moves (rw called_j (within (deletes_first key))) in
      let stands : v.pc i ≡ at ki (insert u d) = ground (arith, called_i) in
      let (w, run, back, free', held) =
        insert-cons x true i ki u d n v (c ∷ l) h out real new stands free in
      let waits_there : w.pc j ≡ at kj (delete_head rest) = ReachBy-others ne run ∙ ground arith in
      let m' : Nodes = record (w.mem) { udi_control_head = rest } in
      let t : Threads (x.State) Nodes Pc = record w { mem = m'; pc = update w.pc j (at kj idle) } in
      let stores : StepBy x (control_list true) j w t =
        moves (rw waits_there (within stores_head)) in
      let tail : Holds s.mem (s.mem.next c.node) l = h.4 in
      let behind : w.mem.next c.node ≡ rest =
        Holds-head w.mem s.mem (w.mem.next c.node) (s.mem.next c.node) l held.4.4 tail
        ∙ ap s.mem.next (sym h.0) in
      (
        v,
        reads,
        ground arith,
        (
          w,
          run,
          back,
          held,
          (
            t,
            stores,
            ground arith,
            Holds-same w.mem m' rest l refl refl (unmoved w.mem l)
                (subst (λ z. Holds w.mem z l) behind held.4.4),
          ),
        ),
      )

module _ (x : Mutex) where
  -- In the multithreaded build, from any list: thread 1 has inserted the node `n` and not yet filled it in,
  -- and a search of thread 2, for the user index that the node's memory held before, returns the domain
  -- that it held before.
  pub stale_found :
      (m : Nodes) (u d n : ℕ)
      → n ≢ 0
      → m.taken n ≡ false
      → (t : Threads (x.State) Nodes Pc) × Reach x
          (control_list false)
          (Interleave.start x (control_list false) m first_pc)
          t
        × (t.pc 1 ≡ at 0 (fill_udi u d n))
        × (t.pc 2 ≡ at 0 (answered (pos (m.sdi n))))
  stale_found m u d n real new =
      let (m1, e1, free1) = lock-unlock x 1 (sdrad_mutex_constructor x).0 (constructor-IsFree x) in
      let (m2, e2, free2) = lock-unlock x 2 (sdrad_mutex_unlock x 1 m1) free1 in
      let answer_of : (if n == 0 then sdrad_error_domain_no_map else pos (m.sdi n))
          ≡ pos (m.sdi n) =
        ground arith in
      (
        _,
        next
            (next
              (next
                (next
                  (next
                    (next
                      (next
                        (next
                          (next
                            (next (next here (access 1 (within (calls_insert u d))))
                              (acquire 1 insert_locks e1))
                            (access 1 (within (allocates n real new))))
                          (access 1 (within links)))
                        (access 1 (within publishes)))
                      (release 1 insert_unlocks))
                    (access 2 (within (calls_search (m.udi n)))))
                  (acquire 2 search_locks e2))
                (access 2 (within (finds real refl))))
              (release 2 search_unlocks))
            (access 2 (within answers)),
        refl,
        ap (λ r. at 0 (answered r)) answer_of,
      )
