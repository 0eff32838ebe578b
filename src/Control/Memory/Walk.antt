-- ===== src/Control/Memory/Walk.antt =====
-- The loops over the nodes in memory and the functions on lists that Control has for them.
use secure_rewind_and_discar.Base.{
  ℕ, ◌≡◌, ◌≢◌, refl, sym, ap, ◌∙◌, Bool, List, [], ◌∷◌, ◌==◌, if◌then◌else◌, arith, update,
  Bool-cases, inl, inr,
}
use secure_rewind_and_discar.Base.Int.{ℤ, pos}
use secure_rewind_and_discar.State.{UdiControl}
use secure_rewind_and_discar.Codes.{sdrad_error_domain_no_map}
use secure_rewind_and_discar.Lock.{Mutex}
use secure_rewind_and_discar.Lock.Interleave.{Threads, ReachBy, ReachBy-trans, stay, go, moves}
use secure_rewind_and_discar.Control.{sdrad_search_udi_control}
use secure_rewind_and_discar.Control.Memory.{
  Nodes, Pc, at, walk, found, within, walks, finds, misses, control_list,
}

-- The nodes from the address `h` on are those of the list, with what they hold.
abbrev pub Holds : Nodes → (h : ℕ) → List UdiControl → Type 0
Holds m h [] = h ≡ 0
Holds m h (c ∷ l) =
    (h ≡ c.node)
    × (c.node ≢ 0)
    × (m.udi c.node ≡ c.udi)
    × (m.sdi c.node ≡ c.sdi)
    × Holds m (m.next c.node) l

-- What `sdrad_search_udi_control` returns for the node at which its loop stops.
abbrev pub search_result : Nodes → (udi_ptr : ℕ) → ℤ
search_result m ptr = if ptr == 0 then sdrad_error_domain_no_map else pos (m.sdi ptr)

module _ (x : Mutex) (d : Bool) (i k udi : ℕ) where
  -- The loop of one thread from `ptr` on, when no other thread comes in between: it leaves the memory
  -- and the mutex alone, it ends, and the node at which it stops is the one that the function on lists finds.
  pub walk-search :
      (s : Threads (x.State) Nodes Pc) (ptr : ℕ) (l : List UdiControl)
      → Holds s.mem ptr l
      → s.pc i ≡ at k (walk udi ptr)
      → (t : Threads (x.State) Nodes Pc) × (r : ℕ) × ReachBy x (control_list d) i s t
        × (t.pc i ≡ at k (found r))
        × (t.mem ≡ s.mem)
        × (t.sgm_lock ≡ s.sgm_lock)
        × (search_result s.mem r ≡ sdrad_search_udi_control udi l)
  unfolding sdrad_search_udi_control
  walk-search s ptr [] h e = (
    record s { pc = update s.pc i (at k (found ptr)) },
    ptr,
    go stay (moves (rw e (within (misses h)))),
    ground arith,
    refl,
    refl,
    ground arith,
  )
  walk-search s ptr (c ∷ l) h e =
      let real : ptr ≢ 0 = λ z. h.1 (sym h.0 ∙ z) in
      let key : s.mem.udi ptr ≡ c.udi = rw h.0 h.2 in
      elim (Bool-cases (c.udi == udi)) [
        | inl hit ↦ (
          record s { pc = update s.pc i (at k (found ptr)) },
          ptr,
          go stay (moves (rw e (within (finds real (ground arith))))),
          ground arith,
          refl,
          refl,
          ground (arith, ap s.mem.sdi h.0),
        )
        | inr miss ↦
            let s' : Threads (x.State) Nodes Pc = record s {
              pc = update s.pc i (at k (walk udi (s.mem.next ptr)));
            } in
            let (t, r, rest, stop, same, still, eq) =
              walk-search s' (s.mem.next ptr) l (rw h.0 h.4) (ground arith) in
            (
              t,
              r,
              ReachBy-trans x (control_list d) i
                  (go stay (moves (rw e (within (walks real (ground arith)))))) rest,
              stop,
              same,
              still,
              rw miss eq,
            )
      ]
