-- ===== src/Control/Memory/Insert.antt =====
-- `sdrad_insert_control_structure` and the two stores that follow it, on the nodes in memory.
use secure_rewind_and_discar.Base.{
  ℕ, ◌≡◌, ◌≢◌, refl, Bool, true, false, List, [], ◌∷◌, arith, update, All,
}
use secure_rewind_and_discar.State.{UdiControl}
use secure_rewind_and_discar.Lock.{Mutex, sdrad_mutex_unlock}
use secure_rewind_and_discar.Lock.Interleave.{
  Threads, StepBy, ReachBy, stay, go, moves, locks, unlocks, IsFree, lock-unlock,
}
use secure_rewind_and_discar.Control.Memory.{
  Nodes, Pc, at, idle, insert, allocate, link, publish, insert_unlock, fill_udi, fill_sdi, within,
  allocates, links, publishes, fills_udi, fills_sdi, insert_locks, insert_unlocks, control_list,
}
use secure_rewind_and_discar.Control.Memory.Walk.{Holds}

-- The memory with the node `n` in front.
pub with_node : Nodes → (u c n : ℕ) → Nodes
with_node m u c n = record m {
  udi_control_head = n;
  next = update m.next n m.udi_control_head;
  udi = update m.udi n u;
  sdi = update m.sdi n c;
  taken = update m.taken n true;
}

Holds-with_node :
    (m : Nodes) (u c n h : ℕ) (l : List UdiControl)
    → All (λ o. o.node ≢ n) l
    → Holds m h l
    → Holds (with_node m u c n) h l
unfolding with_node
Holds-with_node m u c n h [] out c' = c'
Holds-with_node m u c n h (o ∷ l) out c' =
    let rest = Holds-with_node m u c n (m.next o.node) l out.1 c'.4 in
    let kept : update m.next n m.udi_control_head o.node ≡ m.next o.node = ground (arith, out.0) in
    (c'.0, c'.1, ground (arith, out.0, c'.2), ground (arith, out.0, c'.3), rw kept rest)

with_node-Holds :
    (m : Nodes) (u c n : ℕ) (l : List UdiControl)
    → n ≢ 0
    → All (λ o. o.node ≢ n) l
    → Holds m m.udi_control_head l
    → Holds (with_node m u c n) n (record { node = n; udi = u; sdi = c } ∷ l)
unfolding with_node
with_node-Holds m u c n l real out h =
    let linked : update m.next n m.udi_control_head n ≡ m.udi_control_head = ground arith in
    (
      refl,
      real,
      ground arith,
      ground arith,
      rw linked (Holds-with_node m u c n m.udi_control_head l out h),
    )

module _ (x : Mutex) (d : Bool) (i k u c n : ℕ) where
  -- The thread `i`, which has called the insertion, runs alone and finds the mutex free. It comes to
  -- the end with the mutex free again; and the nodes in memory are then those from before behind a new
  -- first node with the user index and the domain.
  pub insert-cons :
      (s : Threads (x.State) Nodes Pc) (l : List UdiControl)
      → Holds s.mem s.mem.udi_control_head l
      → All (λ o. o.node ≢ n) l
      → n ≢ 0
      → s.mem.taken n ≡ false
      → s.pc i ≡ at k (insert u c)
      → IsFree x s.sgm_lock
      → (t : Threads (x.State) Nodes Pc) × ReachBy x (control_list d) i s t
        × (t.pc i ≡ at k idle)
        × IsFree x t.sgm_lock
        × Holds t.mem t.mem.udi_control_head (record { node = n; udi = u; sdi = c } ∷ l)
  unfolding with_node
  insert-cons s l h out real new e1 free =
      let (locked, taken, unlocked) = lock-unlock x i s.sgm_lock free in
      let m : Nodes = s.mem in
      let s2 : Threads (x.State) Nodes Pc = record s {
        sgm_lock = locked;
        pc = update s.pc i (at k (allocate u c));
      } in
      let r2 : StepBy x (control_list d) i s s2 = locks (rw e1 insert_locks) taken in
      let e2 : s2.pc i ≡ at k (allocate u c) = ground arith in
      let m3 : Nodes = record m { taken = update m.taken n true } in
      let s3 : Threads (x.State) Nodes Pc = record s2 {
        mem = m3;
        pc = update s2.pc i (at k (link u c n));
      } in
      let r3 : StepBy x (control_list d) i s2 s3 = moves (rw e2 (within (allocates n real new))) in
      let e3 : s3.pc i ≡ at k (link u c n) = ground arith in
      let m4 : Nodes = record m3 { next = update m.next n m.udi_control_head } in
      let s4 : Threads (x.State) Nodes Pc = record s3 {
        mem = m4;
        pc = update s3.pc i (at k (publish u c n));
      } in
      let r4 : StepBy x (control_list d) i s3 s4 = moves (rw e3 (within links)) in
      let e4 : s4.pc i ≡ at k (publish u c n) = ground arith in
      let m5 : Nodes = record m4 { udi_control_head = n } in
      let s5 : Threads (x.State) Nodes Pc = record s4 {
        mem = m5;
        pc = update s4.pc i (at k (insert_unlock u c n));
      } in
      let r5 : StepBy x (control_list d) i s4 s5 = moves (rw e4 (within publishes)) in
      let e5 : s5.pc i ≡ at k (insert_unlock u c n) = ground arith in
      let s6 : Threads (x.State) Nodes Pc = record s5 {
        sgm_lock = sdrad_mutex_unlock x i locked;
        pc = update s5.pc i (at k (fill_udi u c n));
      } in
      let r6 : StepBy x (control_list d) i s5 s6 = unlocks (rw e5 insert_unlocks) in
      let e6 : s6.pc i ≡ at k (fill_udi u c n) = ground arith in
      let m7 : Nodes = record m5 { udi = update m.udi n u } in
      let s7 : Threads (x.State) Nodes Pc = record s6 {
        mem = m7;
        pc = update s6.pc i (at k (fill_sdi c n));
      } in
      let r7 : StepBy x (control_list d) i s6 s7 = moves (rw e6 (within fills_udi)) in
      let e7 : s7.pc i ≡ at k (fill_sdi c n) = ground arith in
      let s8 : Threads (x.State) Nodes Pc = record s7 {
        mem = with_node m u c n;
        pc = update s7.pc i (at k idle);
      } in
      let r8 : StepBy x (control_list d) i s7 s8 = moves (rw e7 (within fills_sdi)) in
      (
        s8,
        go (go (go (go (go (go (go stay r2) r3) r4) r5) r6) r7) r8,
        ground arith,
        unlocked,
        with_node-Holds m u c n l real out h,
      )
