-- ===== src/Control/Memory/Inserted.antt =====
-- While no thread deletes, a node that has been inserted stays in the list.
use mathlib.Core.Path.{subst}
use mathlib.Core.List.{append_assoc}
use secure_rewind_and_discar.Base.{
  ℕ, ◌<◌, ◌≡◌, refl, inl, inr, false, List, [], ◌∷◌, ◌++◌, ◌==◌, arith, update, Bool-cases,
}
use secure_rewind_and_discar.Lock.{Mutex}
use secure_rewind_and_discar.Lock.Interleave
use secure_rewind_and_discar.Lock.Interleave.{
  Threads, Step, Reach, IsHeld, access, acquire, release,
}
use secure_rewind_and_discar.Control.Memory.{
  Nodes, Spot, Pc, at, holds, fill_udi, Move, Access, within, publishes, Acquire, search_locks,
  insert_locks, Release, search_unlocks, insert_unlocks, control_list, first_pc,
}
use secure_rewind_and_discar.Control.Memory.Listed.{KnowsAt, Inv, Move-Inv}
use secure_rewind_and_discar.Control.Memory.Chain.{Linked, In}

-- Where only the thread's place changes.
stays-Inv :
    {m : Nodes} {l : List ℕ} {pc : ℕ → Pc} (inv : Inv m l pc) (i : ℕ) (q : Pc)
    → KnowsAt m l q
    → Inv m l (update pc i q)
stays-Inv inv i q known = record {
  chain = inv.chain;
  used = inv.used;
  knows = λ j. elim (Bool-cases (i == j)) [ inl e ↦ rw e known | inr e ↦ rw e (inv.knows j) ];
}

Acquire-Knows : (m : Nodes) (l : List ℕ) (p q : Pc) → Acquire p q → KnowsAt m l p → KnowsAt m l q
Acquire-Knows m l p q search_locks k = tt
Acquire-Knows m l p q insert_locks k = tt

Release-Knows : (m : Nodes) (l : List ℕ) (p q : Pc) → Release p q → KnowsAt m l p → KnowsAt m l q
Release-Knows m l p q search_unlocks k = tt
Release-Knows m l p q insert_unlocks k = k

-- The list, with what was put in front of `l`.
record Grown (m : Nodes) (pc : ℕ → Pc) (l : List ℕ) : Type 0 where
  new : List ℕ
  inv : Inv m (new ++ l) pc

Move-Grown :
    {m : Nodes} {l : List ℕ} {pc : ℕ → Pc} (inv : Inv m l pc)
    (alone : (i j : ℕ) → 0 < holds (pc i) → 0 < holds (pc j) → i ≡ j) (i k : ℕ) {m' : Nodes}
    {a b : Spot} (here : pc i ≡ at k a) (v : Move false m a m' b)
    → Grown m' (update pc i (at k b)) l
Move-Grown inv alone i k here (publishes {ptr = n}) = record {
  new = n ∷ [];
  inv = Move-Inv inv alone i here publishes;
}
Move-Grown inv alone i k here v = record { new = []; inv = Move-Inv inv alone i here v }

Access-Grown :
    {m : Nodes} {l : List ℕ} {pc : ℕ → Pc} (inv : Inv m l pc)
    (alone : (i j : ℕ) → 0 < holds (pc i) → 0 < holds (pc j) → i ≡ j) (i : ℕ) {m' : Nodes}
    {p q : Pc} (here : pc i ≡ p) (v : Access false i m p m' q)
    → Grown m' (update pc i q) l
Access-Grown inv alone i here (within {k} v) = Move-Grown inv alone i k here v

pub first-quiet : (i : ℕ) → holds (first_pc i) ≡ 0
first-quiet i = omega arith

module _ (x : Mutex) where
  Step-Grown :
      {s t : Threads (x.State) Nodes Pc} (l : List ℕ)
      → IsHeld x (control_list false) s
      → Inv s.mem l s.pc
      → Step x (control_list false) s t
      → Grown t.mem t.pc l
  Step-Grown l held inv (access i a) = Access-Grown inv held.alone i refl a
  Step-Grown {s} l held inv (acquire i {q = q} a e) = record {
    new = [];
    inv = stays-Inv inv i q (Acquire-Knows s.mem l (s.pc i) q a (inv.knows i));
  }
  Step-Grown {s} l held inv (release i {q = q} a) = record {
    new = [];
    inv = stays-Inv inv i q (Release-Knows s.mem l (s.pc i) q a (inv.knows i));
  }

  module _ (m : Nodes) (e : m.udi_control_head ≡ 0) where
    -- After the constructor, with an empty list.
    abbrev pub begin : Threads (x.State) Nodes Pc
    begin = Interleave.start x (control_list false) m first_pc

    begin-Inv : Inv m [] first_pc
    begin-Inv = record { chain = e; used = λ n h. absurd h; knows = λ i. tt }

    begin-IsHeld :
        {s : Threads (x.State) Nodes Pc}
        → Reach x (control_list false) begin s
        → IsHeld x (control_list false) s
    begin-IsHeld r = Interleave.Reach-IsHeld x (control_list false) m first_pc first-quiet r

    module _ {s : Threads (x.State) Nodes Pc} (l : List ℕ)
        (r : Reach x (control_list false) begin s) (inv : Inv s.mem l s.pc) where
      Reach-Grown :
          {t : Threads (x.State) Nodes Pc}
          → Reach x (control_list false) s t
          → Reach x (control_list false) begin t × Grown t.mem t.pc l
      Reach-Grown Interleave.here = (r, record { new = []; inv = inv })
      Reach-Grown (Interleave.next {t = u} {u = t} later st) =
          let (all, g) = Reach-Grown later in
          let g' = Step-Grown (g.new ++ l) (begin-IsHeld all) g.inv st in
          let whole : Inv t.mem ((g'.new ++ g.new) ++ l) t.pc =
            rw (append_assoc g'.new g.new l) g'.inv in
          (Interleave.next all st, record { new = g'.new ++ g.new; inv = whole })

    -- In the multithreaded build, while no thread deletes a node, and whatever the order in which threads
    -- take turns: a node that `sdrad_insert_control_structure` has returned is in the list, and in every
    -- later state the list is what it was with more nodes in front. No insertion is lost.
    pub inserted_stays :
        {s t : Threads (x.State) Nodes Pc} (i kept u d n : ℕ)
        → Reach x (control_list false) begin s
        → s.pc i ≡ at kept (fill_udi u d n)
        → Reach x (control_list false) s t
        → (l : List ℕ) × (new : List ℕ) × Linked s.mem.next s.mem.udi_control_head l
          × In n l
          × Linked t.mem.next t.mem.udi_control_head (new ++ l)
    inserted_stays {s} {t} i kept u d n r stands later =
        let (same, g) = Reach-Grown [] Interleave.here begin-Inv r in
        let (all, g') = Reach-Grown (g.new ++ []) r g.inv later in
        let listed : In n (g.new ++ []) =
          subst (KnowsAt s.mem (g.new ++ [])) stands (g.inv.knows i) in
        (g.new ++ [], g'.new, g.inv.chain, listed, g'.inv.chain)
