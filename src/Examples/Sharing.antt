-- ===== src/Examples/Sharing.antt =====
-- Two threads and the list of user indices, the heaps and the slots; and the dynamic loader.
use secure_rewind_and_discar.Base.{
  ℕ, ◌≡◌, refl, true, false, List, [], ◌∷◌, ◌++◌, update, arith, ◌==◌, if◌then◌else◌,
}
use secure_rewind_and_discar.State.{UdiControl}
use secure_rewind_and_discar.Lock.{sdrad_mutex_lock, sdrad_mutex_constructor}
use secure_rewind_and_discar.Lock.Interleave
use secure_rewind_and_discar.Lock.Interleave.{
  Threads, Step, StepBy, Reach, ReachBy, here, next, access, acquire, release,
}
use secure_rewind_and_discar.Control.{unlink}
use secure_rewind_and_discar.Control.Memory.{
  Nodes, Pc, at, idle, within, calls_insert, allocates, links, publishes, insert_locks,
  insert_unlocks, control_list, first_pc,
}
use secure_rewind_and_discar.Control.Memory.Chain.{Linked, In}
use secure_rewind_and_discar.Control.Memory.Inserted
use secure_rewind_and_discar.Control.Memory.Inserted.{inserted_stays}
use secure_rewind_and_discar.Control.Memory.Lost.{insertion_lost}
use secure_rewind_and_discar.Control.Memory.Walk.{Holds}
use secure_rewind_and_discar.Lock.Interleave.{constructor-IsFree}
use secure_rewind_and_discar.Control.Memory.{Spot, insert, delete_first, delete_head}
use secure_rewind_and_discar.Control.Memory.Delete.{delete-unlink}
use secure_rewind_and_discar.Examples.Mutexes.{counted, Counted}

abbrev no_nodes : Nodes
no_nodes = record {
  udi_control_head = 0;
  next = λ a. 0;
  udi = λ a. 99;
  sdi = λ a. 0;
  taken = λ a. false;
}

-- Thread 1 has put the node at 16 into the list.
inserted :
    (s : Threads Counted Nodes Pc) × Reach counted
      (control_list false)
      (Inserted.begin counted no_nodes refl)
      s
unfolding sdrad_mutex_lock sdrad_mutex_constructor
inserted = (
  _,
  next
      (next
        (next
          (next
            (next (next here (access 1 (within (calls_insert 5 3)))) (acquire 1 insert_locks refl))
            (access 1 (within (allocates 16 (λ e. omega arith) refl))))
          (access 1 (within links)))
        (access 1 (within publishes)))
      (release 1 insert_unlocks),
)

inserted_stays_example :
    (l : List ℕ) × (new : List ℕ) × Linked inserted.0.mem.next inserted.0.mem.udi_control_head l
    × In 16 l
    × Linked inserted.0.mem.next inserted.0.mem.udi_control_head (new ++ l)
unfolding inserted
inserted_stays_example = inserted_stays counted no_nodes refl 1 0 5 3 16 inserted.1 refl here

-- A list of two nodes, at 16 and 32.
abbrev two_nodes : Nodes
two_nodes = record {
  udi_control_head = 16;
  next = λ a. if a == 16 then 32 else 0;
  udi = λ a. if a == 16 then 5 else 6;
  sdi = λ a. if a == 16 then 3 else 4;
  taken = λ a. if a == 16 then true else a == 32;
}

abbrev two_controls : List UdiControl
two_controls = record { node = 16; udi = 5; sdi = 3 } ∷ record { node = 32; udi = 6; sdi = 4 } ∷ []

abbrev at_start : Threads Counted Nodes Pc
at_start = Interleave.start counted (control_list true) two_nodes first_pc

two_controls-Holds : Holds two_nodes 16 two_controls
two_controls-Holds =
    (refl, (λ e. omega arith), refl, refl, (refl, (λ e. omega arith), refl, refl, refl))

called_as : Spot → Threads Counted Nodes Pc
called_as spot = record at_start { pc = update first_pc 1 (at 0 spot) }

-- Thread 1 has called the insertion, and thread 2 the deletion of the first node's domain.
deleting : Threads Counted Nodes Pc
unfolding called_as
deleting = record (called_as (insert 7 9)) {
  pc = update (called_as (insert 7 9)).pc 2 (at 0 (delete_first 3 16));
}

insertion_lost_example :
    let s : Threads Counted Nodes Pc = deleting in
    (v : Threads Counted Nodes Pc) × StepBy counted (control_list true) 2 s v
    × (v.pc 2 ≡ at 0 (delete_head 32))
    × ((w : Threads Counted Nodes Pc) × ReachBy counted (control_list true) 1 v w
        × (w.pc 1 ≡ at 0 idle)
        × Holds w.mem w.mem.udi_control_head (record { node = 48; udi = 7; sdi = 9 } ∷ two_controls)
        × ((t : Threads Counted Nodes Pc) × StepBy counted (control_list true) 2 w t
            × (t.pc 2 ≡ at 0 idle)
            × Holds t.mem t.mem.udi_control_head (record { node = 32; udi = 6; sdi = 4 } ∷ [])))
unfolding deleting called_as
insertion_lost_example =
    insertion_lost counted 1 2 0 0 deleting (record { node = 16; udi = 5; sdi = 3 })
      (record { node = 32; udi = 6; sdi = 4 } ∷ []) 7 9 48 (λ e. omega arith) refl refl
      two_controls-Holds ((λ e. omega arith), ((λ e. omega arith), tt)) (λ e. omega arith) refl
      (constructor-IsFree counted)

delete-unlink_example :
    let s : Threads Counted Nodes Pc = called_as (delete_first 4 two_nodes.udi_control_head) in
    (t : Threads Counted Nodes Pc) × ReachBy counted (control_list true) 1 s t
    × (t.pc 1 ≡ at 0 idle)
    × Holds t.mem t.mem.udi_control_head (unlink 4 two_controls).0
unfolding called_as
delete-unlink_example =
    delete-unlink counted 1 0 4 (called_as (delete_first 4 two_nodes.udi_control_head)) two_controls
      (((λ e. omega arith), tt), (tt, tt)) two_controls-Holds (λ e. omega arith) refl
