-- ===== src/Control/Memory/Listed.antt =====
-- While no thread deletes: what a thread knows of the list where it stands, and what a move leaves of it.
use mathlib.Core.Path.{subst}
use secure_rewind_and_discar.Base.{
  ℕ, ◌<◌, ◌≡◌, ◌≢◌, refl, inl, inr, Bool, true, false, List, ◌∷◌, ◌==◌, arith, update, Bool-cases,
}
use secure_rewind_and_discar.Control.Memory.{
  Nodes, Spot, Pc, at, holds, spot_holds, unlinks, stores_head, link, publish, insert_unlock,
  fill_udi, fill_sdi, delete_first, delete_head, delete_walk, Move, allocates, links, publishes,
  calls_delete,
}
use secure_rewind_and_discar.Control.Memory.Chain.{Linked, In, Linked-update}

abbrev pub Knows : Nodes → List ℕ → Spot → Type 0
Knows m l (link _ _ n) = (n ≢ 0) × (m.taken n ≡ true) × (In n l → ⊥)
Knows m l (publish _ _ n) =
    (n ≢ 0) × (m.taken n ≡ true) × (In n l → ⊥) × (m.next n ≡ m.udi_control_head)
Knows m l (insert_unlock _ _ n) = In n l
Knows m l (fill_udi _ _ n) = In n l
Knows m l (fill_sdi _ n) = In n l
Knows m l (delete_first _ _) = ⊥
Knows m l (delete_head _) = ⊥
Knows m l (delete_walk _ _) = ⊥
Knows m l _ = Unit

abbrev pub KnowsAt : Nodes → List ℕ → Pc → Type 0
KnowsAt m l (at k spot) = Knows m l spot

pub record Inv (m : Nodes) (l : List ℕ) (pc : ℕ → Pc) : Type 0 where
  pub chain : Linked m.next m.udi_control_head l
  pub used : (n : ℕ) → In n l → m.taken n ≡ true
  pub knows : (i : ℕ) → KnowsAt m l (pc i)

-- What a move makes of the list.
abbrev pub listed : {d : Bool} {m m' : Nodes} {a b : Spot} → Move d m a m' b → List ℕ → List ℕ
listed (publishes {ptr = n}) l = n ∷ l
listed v l = l

Move-chain :
    (m m' : Nodes) (l : List ℕ) {a b : Spot} (v : Move false m a m' b)
    → Knows m l a
    → Linked m.next m.udi_control_head l
    → Linked m'.next m'.udi_control_head (listed v l)
Move-chain m m' l (links {ptr = n}) k c =
    Linked-update m.next n m.udi_control_head m.udi_control_head l k.2 c
Move-chain m m' l (publishes {ptr = n}) k c = (refl, k.0, rw k.3 c)
Move-chain m m' l v k c = ground arith

Move-own :
    (m m' : Nodes) (l : List ℕ) {a b : Spot} (v : Move false m a m' b)
    → ((n : ℕ) → In n l → m.taken n ≡ true)
    → Knows m l a
    → Knows m' (listed v l) b
Move-own m m' l (allocates n real new) used k = (real, ground arith, λ h. cc (used n h))
Move-own m m' l (links) used k = (k.0, k.1, k.2, ground arith)
Move-own m m' l publishes used k = inl refl
Move-own m m' l (calls_delete sdi e real) used k = cc
Move-own m m' l v used k = ground arith

Move-used :
    (m m' : Nodes) (l : List ℕ) {a b : Spot} (v : Move false m a m' b)
    → ((n : ℕ) → In n l → m.taken n ≡ true)
    → Knows m l a
    → (n : ℕ) → In n (listed v l)
    → m'.taken n ≡ true
Move-used m m' l (allocates o real new) used k n h = ground (arith, used n h)
Move-used m m' l (publishes {ptr = o}) used k n h = elim h [
  | inl e ↦ rw e k.1
  | inr old ↦ used n old
]
Move-used m m' l (unlinks e f) used k n h = absurd k
Move-used m m' l v used k n h = used n h

Move-taken :
    (m m' : Nodes) (l : List ℕ) {a b : Spot} (v : Move false m a m' b)
    → Knows m l a
    → (n : ℕ) → m.taken n ≡ true
    → m'.taken n ≡ true
Move-taken m m' l (allocates o real new) k n h = ground arith
Move-taken m m' l (unlinks e f) k n h = absurd k
Move-taken m m' l v k n h = h

Move-listed :
    (m m' : Nodes) (l : List ℕ) {a b : Spot} (v : Move false m a m' b) (n : ℕ)
    → In n l
    → In n (listed v l)
Move-listed m m' l publishes n h = inr h
Move-listed m m' l v n h = h

-- The list, the head and the links are changed under the mutex.
Unchanged : (m m' : Nodes) (l l' : List ℕ) → Type 0
Unchanged m m' l l' = (m'.next ≡ m.next) × (m'.udi_control_head ≡ m.udi_control_head) × (l' ≡ l)

Move-Unchanged :
    (m m' : Nodes) (l : List ℕ) {a b : Spot} (v : Move false m a m' b)
    → Knows m l a
    → spot_holds a ≡ 0
    → Unchanged m m' l (listed v l)
unfolding Unchanged
Move-Unchanged m m' l links k h = cc
Move-Unchanged m m' l publishes k h = cc
Move-Unchanged m m' l (unlinks e f) k h = absurd k
Move-Unchanged m m' l stores_head k h = absurd k
Move-Unchanged m m' l v k h = (refl, refl, refl)

Knows-keep :
    (m m' : Nodes) (l l' : List ℕ) (s : Spot)
    → ((n : ℕ) → m.taken n ≡ true → m'.taken n ≡ true)
    → ((n : ℕ) → In n l → In n l')
    → (0 < spot_holds s → Unchanged m m' l l')
    → Knows m l s
    → Knows m' l' s
unfolding Unchanged
Knows-keep m m' l l' (link u d n) t i same k =
    let (e, h, w) = same (omega arith) in (k.0, t n k.1, rw w k.2)
Knows-keep m m' l l' (publish u d n) t i same k =
    let (e, h, w) = same (omega arith) in (k.0, t n k.1, rw w k.2, rw (e, h) k.3)
Knows-keep m m' l l' (insert_unlock u d n) t i same k = i n k
Knows-keep m m' l l' (fill_udi u d n) t i same k = i n k
Knows-keep m m' l l' (fill_sdi d n) t i same k = i n k
Knows-keep m m' l l' s t i same k = ground arith

module _ {m : Nodes} {l : List ℕ} {pc : ℕ → Pc} (inv : Inv m l pc)
    (alone : (i j : ℕ) → 0 < holds (pc i) → 0 < holds (pc j) → i ≡ j) (i : ℕ) {m' : Nodes} {k : ℕ}
    {a b : Spot} (here : pc i ≡ at k a) (v : Move false m a m' b) where
  own : Knows m l a
  own = subst (KnowsAt m l) here (inv.knows i)

  other-knows : (j : ℕ) (q : Pc) → pc j ≡ q → i ≢ j → KnowsAt m l q → KnowsAt m' (listed v l) q
  other-knows j (at k' s) e ne known =
      Knows-keep m m' l (listed v l) s (Move-taken m m' l v own) (Move-listed m m' l v)
        (λ held. Move-Unchanged m m' l v own (ground (arith, alone i j))) known

  pub Move-Inv : Inv m' (listed v l) (update pc i (at k b))
  Move-Inv = record {
    chain = Move-chain m m' l v own inv.chain;
    used = Move-used m m' l v inv.used own;
    knows = λ j. elim (Bool-cases (i == j)) [
      | inl e ↦ rw e (Move-own m m' l v inv.used own)
      | inr e ↦ rw e (other-knows j (pc j) refl (ground arith) (inv.knows j))
    ];
  }
