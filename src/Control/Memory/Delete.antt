-- ===== src/Control/Memory/Delete.antt =====
-- `sdrad_delete_control_structure` on the nodes in memory, and `unlink` on their list.
use mathlib.Core.Path.{subst}
use secure_rewind_and_discar.Base.{
  ℕ, ◌≡◌, ◌≢◌, refl, sym, ap, ◌∙◌, true, false, List, [], ◌∷◌, ◌==◌, arith, update, All, Bool-cases,
  inl, inr,
}
use secure_rewind_and_discar.State.{UdiControl}
use secure_rewind_and_discar.Lock.{Mutex}
use secure_rewind_and_discar.Lock.Interleave.{
  Threads, StepBy, ReachBy, ReachBy-trans, stay, go, moves,
}
use secure_rewind_and_discar.Control.{unlink, unlink_after}
use secure_rewind_and_discar.Control.Memory.{
  Nodes, Pc, at, idle, delete_first, delete_head, delete_walk, within, deletes_first, stores_head,
  keeps_first, delete_ends, delete_walks, unlinks, control_list,
}
use secure_rewind_and_discar.Control.Memory.Walk.{Holds}

-- No address stands for two nodes.
abbrev pub Apart : List UdiControl → Type 0
Apart [] = Unit {0}
Apart (c ∷ l) = All (λ o. o.node ≢ c.node) l × Apart l

-- What the loop leaves: everything but the links of the nodes of the list.
record Framed (m m' : Nodes) (l : List UdiControl) : Type 0 where
  head : m'.udi_control_head ≡ m.udi_control_head
  udi : m'.udi ≡ m.udi
  sdi : m'.sdi ≡ m.sdi
  next : (a : ℕ) → All (λ o. o.node ≢ a) l → m'.next a ≡ m.next a

-- A memory with the same links and contents holds the same nodes.
pub Holds-same :
    (m m' : Nodes) (h : ℕ) (l : List UdiControl)
    → m'.udi ≡ m.udi
    → m'.sdi ≡ m.sdi
    → All (λ o. m'.next o.node ≡ m.next o.node) l
    → Holds m h l
    → Holds m' h l
Holds-same m m' h [] u s n c = c
Holds-same m m' h (o ∷ l) u s n c = (
  c.0,
  c.1,
  ap (λ f. f o.node) u ∙ c.2,
  ap (λ f. f o.node) s ∙ c.3,
  rw n.0 (Holds-same m m' (m.next o.node) l u s n.1 c.4),
)

outside :
    (f : ℕ → ℕ) (a v : ℕ) (l : List UdiControl)
    → All (λ o. o.node ≢ a) l
    → All (λ o. update f a v o.node ≡ f o.node) l
outside f a v [] h = tt
outside f a v (o ∷ l) h = (ground arith, outside f a v l h.1)

pub unmoved : (m : Nodes) (l : List UdiControl) → All (λ o. m.next o.node ≡ m.next o.node) l
unmoved m [] = tt
unmoved m (o ∷ l) = (refl, unmoved m l)

module _ (x : Mutex) (i k d : ℕ) where
  -- The loop behind the node `c`.
  walk-unlink_after :
      (s : Threads (x.State) Nodes Pc) (c : UdiControl) (l : List UdiControl)
      → Apart (c ∷ l)
      → Holds s.mem (s.mem.next c.node) l
      → s.pc i ≡ at k (delete_walk d c.node)
      → (t : Threads (x.State) Nodes Pc) × ReachBy x (control_list true) i s t
        × (t.pc i ≡ at k idle)
        × Framed s.mem t.mem (c ∷ l)
        × Holds t.mem (t.mem.next c.node) (unlink_after d l).0
  unfolding unlink_after
  walk-unlink_after s c [] apart h e = (
    record s { pc = update s.pc i (at k idle) },
    go stay (moves (rw e (within (delete_ends h)))),
    ground arith,
    record { head = refl; udi = refl; sdi = refl; next = λ a o. refl },
    h,
  )
  walk-unlink_after s c (o ∷ l) apart h e = elim (Bool-cases (o.sdi == d)) [
    | inl hit ↦
        let m' : Nodes = record (s.mem) {
          next = update s.mem.next c.node (s.mem.next (s.mem.next c.node));
          taken = update s.mem.taken (s.mem.next c.node) false;
        } in
        let real : s.mem.next c.node ≢ 0 = λ z. h.1 (sym h.0 ∙ z) in
        let key : s.mem.sdi (s.mem.next c.node) ≡ d = ground (arith, ap s.mem.sdi h.0, h.3) in
        let link : m'.next c.node ≡ s.mem.next o.node = ground (arith, ap s.mem.next h.0) in
        let rest : Holds m' (s.mem.next o.node) l =
          Holds-same s.mem m' (s.mem.next o.node) l refl refl
            (outside s.mem.next c.node (s.mem.next (s.mem.next c.node)) l apart.0.1) h.4 in
        (
          record s { mem = m'; pc = update s.pc i (at k idle) },
          go stay (moves (rw e (within (unlinks real key)))),
          ground arith,
          record { head = refl; udi = refl; sdi = refl; next = λ a out. ground (arith, out.0) },
          rw hit (subst (λ z. Holds m' z l) (sym link) rest),
        )
    | inr miss ↦
        let real : s.mem.next c.node ≢ 0 = λ z. h.1 (sym h.0 ∙ z) in
        let key : s.mem.sdi (s.mem.next c.node) ≢ d = ground (arith, ap s.mem.sdi h.0, h.3) in
        let s' : Threads (x.State) Nodes Pc = record s {
          pc = update s.pc i (at k (delete_walk d (s.mem.next c.node)));
        } in
        let (t, run, stop, fr, rest) = walk-unlink_after s' o l apart.1 h.4 (ground (arith, h.0)) in
        (
          t,
          ReachBy-trans x (control_list true) i
              (go stay (moves (rw e (within (delete_walks real key))))) run,
          stop,
          record { head = fr.head; udi = fr.udi; sdi = fr.sdi; next = λ a out. fr.next a out.1 },
          rw miss (
            fr.next c.node apart.0 ∙ h.0,
            h.1,
            ap (λ f. f o.node) fr.udi ∙ h.2,
            ap (λ f. f o.node) fr.sdi ∙ h.3,
            rest,
          ),
        )
  ]

  -- The thread `i`, which has called the deletion of the domain `d` on a list with a node, and so has
  -- read the head of the list, runs alone. It comes to the end of the deletion, and the nodes in memory
  -- are then those that `unlink` for `d` leaves of their list.
  pub delete-unlink :
      (s : Threads (x.State) Nodes Pc) (l : List UdiControl)
      → Apart l
      → Holds s.mem s.mem.udi_control_head l
      → s.mem.udi_control_head ≢ 0
      → s.pc i ≡ at k (delete_first d s.mem.udi_control_head)
      → (t : Threads (x.State) Nodes Pc) × ReachBy x (control_list true) i s t
        × (t.pc i ≡ at k idle)
        × Holds t.mem t.mem.udi_control_head (unlink d l).0
  unfolding unlink
  delete-unlink s [] apart h some_node e = absurd (some_node h)
  delete-unlink s (c ∷ l) apart h some_node e1 =
      let head : ℕ = s.mem.udi_control_head in
      elim (Bool-cases (c.sdi == d)) [
        | inl hit ↦
            let key : s.mem.sdi head ≡ d = ground (arith, ap s.mem.sdi h.0, h.3) in
            let s2 : Threads (x.State) Nodes Pc = record s {
              pc = update s.pc i (at k (delete_head (s.mem.next head)));
            } in
            let e2 : s2.pc i ≡ at k (delete_head (s.mem.next head)) = ground arith in
            let s3 : Threads (x.State) Nodes Pc = record s2 {
              mem = record (s.mem) { udi_control_head = s.mem.next head };
              pc = update s2.pc i (at k idle);
            } in
            let stored : StepBy x (control_list true) i s2 s3 =
              moves (rw e2 (within stores_head)) in
            (
              s3,
              go (go stay (moves (rw e1 (within (deletes_first key))))) stored,
              ground arith,
              rw (hit, h.0)
                  (Holds-same s.mem (record (s.mem) { udi_control_head = s.mem.next head })
                    (s.mem.next c.node) l refl refl (unmoved s.mem l) h.4),
            )
        | inr miss ↦
            let key : s.mem.sdi head ≢ d = ground (arith, ap s.mem.sdi h.0, h.3) in
            let s2 : Threads (x.State) Nodes Pc = record s {
              pc = update s.pc i (at k (delete_walk d head));
            } in
            let (t, run, stop, fr, rest) =
              walk-unlink_after s2 c l apart h.4 (ground (arith, h.0)) in
            (
              t,
              ReachBy-trans x (control_list true) i
                  (go stay (moves (rw e1 (within (keeps_first key))))) run,
              stop,
              rw miss (
                fr.head ∙ h.0,
                h.1,
                ap (λ f. f c.node) fr.udi ∙ h.2,
                ap (λ f. f c.node) fr.sdi ∙ h.3,
                rest,
              ),
            )
      ]
