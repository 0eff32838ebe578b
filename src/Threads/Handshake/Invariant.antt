-- ===== src/Threads/Handshake/Invariant.antt =====
-- What a thread that stands somewhere in the handshake knows of the manager, and whom it waits for.
use mathlib.Core.Path.{subst}
use secure_rewind_and_discar.Base.{
  ℕ, ◌<◌, ◌≡◌, refl, sym, ◌⊎◌, some, none, ◌==◌, arith, update, Bool-cases, inl, inr,
}
use secure_rewind_and_discar.Threads.Handshake.{
  Shared, Pc, unborn, store_arg, reset, clone, wait, enrolling, file, prepare, fetch_routine,
  fetch_arg, signal, share_lock, sharing, share_unlock, launch, holds, Access, stores_routine,
  stores_arg, resets, clones, clears, begins, fetches_routine, fetches_arg, signals,
}

-- A new thread before it has told its creator.
abbrev pub IsFresh : Shared → ℕ → Pc → Type 0
IsFresh g j unborn = (q : ℕ × ℕ) × (g.asked j ≡ some q)
IsFresh g j enrolling = Unit
IsFresh g j (file _) = Unit
IsFresh g j prepare = Unit
IsFresh g j fetch_routine = Unit
IsFresh g j (fetch_arg _) = Unit
IsFresh g j (signal _ _) = Unit
IsFresh g j _ = ⊥

abbrev pub Knows : Shared → ℕ → Pc → Type 0
Knows g i (store_arg r a) = g.sgm.real_start_routine ≡ r
Knows g i (reset r a) = (g.sgm.real_start_routine ≡ r) × (g.sgm.start_arg ≡ a)
Knows g i (clone r a) =
    (g.sgm.real_start_routine ≡ r)
    × (g.sgm.start_arg ≡ a)
    × (g.sgm.sdrad_pthread_constructor_done ≡ 0)
Knows g i (wait (some j)) = g.asked j ≡ some (g.sgm.real_start_routine, g.sgm.start_arg)
Knows g i (wait none) = g.sgm.sdrad_pthread_constructor_done ≡ 0
Knows g i (fetch_arg f) = (a : ℕ) × (g.asked i ≡ some (f, a))
Knows g i (signal f a) = g.asked i ≡ some (f, a)
Knows g i (share_lock f a) = g.asked i ≡ some (f, a)
Knows g i (sharing f a) = g.asked i ≡ some (f, a)
Knows g i (share_unlock f a) = g.asked i ≡ some (f, a)
Knows g i (launch f a) = g.asked i ≡ some (f, a)
Knows g i _ = Unit

pub record Inv (g : Shared) (pc : ℕ → Pc) : Type 0 where
  pub knows : (i : ℕ) → Knows g i (pc i)
  pub awaited : (j : ℕ) → IsFresh g j (pc j) → (i : ℕ) × (pc i ≡ wait (some j))
  pub pending : (j : ℕ) → IsFresh g j (pc j) → g.sgm.sdrad_pthread_constructor_done ≡ 0
  pub unasked : (j : ℕ) → g.asked j ≡ none → pc j ≡ unborn
  pub as_asked : (j : ℕ) (q : ℕ × ℕ) → g.started j ≡ some q → g.asked j ≡ some q

-- The thread that moves.
Access-own :
    (i : ℕ) (g g' : Shared) {p q : Pc}
    → Access i g p g' q
    → Knows g i p
    → (IsFresh g i p → g.asked i ≡ some (g.sgm.real_start_routine, g.sgm.start_arg))
    → Knows g' i q
Access-own i g g' resets k told = (k.0, k.1, refl)
Access-own i g g' (stores_arg) k told = (k, refl)
Access-own i g g' fetches_routine k told = (g.sgm.start_arg, told tt)
Access-own i g g' fetches_arg k told = ground (arith, told tt)
Access-own i g g' a k told = ground arith

-- The others: what another thread's access leaves.
pub Access-asked :
    (i : ℕ) (g g' : Shared) {p p' : Pc}
    → Access i g p g' p'
    → (j : ℕ) (q : ℕ × ℕ) → g.asked j ≡ some q
    → g'.asked j ≡ some q
Access-asked i g g' (clones k real new) j q e = ground (arith, real)
Access-asked i g g' a j q e = e

abbrev Same : Shared → Shared → Type 0
Same g g' =
    (g'.sgm.real_start_routine ≡ g.sgm.real_start_routine) × (g'.sgm.start_arg ≡ g.sgm.start_arg)

Access-Same : (i : ℕ) (g g' : Shared) {p p' : Pc} → Access i g p g' p' → holds p ≡ 0 → Same g g'
Access-Same i g g' stores_routine h = cc
Access-Same i g g' stores_arg h = cc
Access-Same i g g' a h = (refl, refl)

Access-done :
    (i : ℕ) (g g' : Shared) {p p' : Pc}
    → Access i g p g' p'
    → IsFresh g i p
      ⊎ (g.sgm.sdrad_pthread_constructor_done ≡ 0 → g'.sgm.sdrad_pthread_constructor_done ≡ 0)
Access-done i g g' signals = inl tt
Access-done i g g' resets = inr (λ e. refl)
Access-done i g g' clears = inr (λ e. refl)
Access-done i g g' a = inr (λ e. e)

Knows-keep :
    (i j : ℕ) (g g' : Shared) (pj : Pc)
    → ((k : ℕ) (q : ℕ × ℕ) → g.asked k ≡ some q → g'.asked k ≡ some q)
    → (0 < holds pj → Same g g')
    → (0 < holds pj
        → (pj ≡ wait (some i))
          ⊎ (g.sgm.sdrad_pthread_constructor_done ≡ 0 → g'.sgm.sdrad_pthread_constructor_done ≡ 0))
    → Knows g j pj
    → Knows g' j pj
Knows-keep i j g g' (store_arg r a) asked same quiet k = ground (arith, same)
Knows-keep i j g g' (reset r a) asked same quiet k = ground (arith, same)
Knows-keep i j g g' (clone r a) asked same quiet k = ground (arith, same, quiet)
Knows-keep i j g g' (wait (some c)) asked same quiet k =
    ground (arith, same, asked c (g.sgm.real_start_routine, g.sgm.start_arg))
Knows-keep i j g g' (wait none) asked same quiet k = ground (arith, quiet)
Knows-keep i j g g' (fetch_arg f) asked same quiet k = (k.0, asked j (f, k.0) k.1)
Knows-keep i j g g' (signal f a) asked same quiet k = asked j (f, a) k
Knows-keep i j g g' (share_lock f a) asked same quiet k = asked j (f, a) k
Knows-keep i j g g' (sharing f a) asked same quiet k = asked j (f, a) k
Knows-keep i j g g' (share_unlock f a) asked same quiet k = asked j (f, a) k
Knows-keep i j g g' (launch f a) asked same quiet k = asked j (f, a) k
Knows-keep i j g g' pj asked same quiet k = tt

-- Only a new thread goes on as one, and only its creator makes it.
pub Access-IsFresh :
    (i : ℕ) (g g' : Shared) {p q : Pc} → Access i g p g' q → IsFresh g' i q → IsFresh g i p
Access-IsFresh i g g' (begins {q} e) h = (q, e)
Access-IsFresh i g g' a h = ground arith

pub IsFresh-Access :
    (i j : ℕ) (g g' : Shared) {p q : Pc} (pj : Pc)
    → Access i g p g' q
    → IsFresh g' j pj
    → IsFresh g j pj
      ⊎ ((q ≡ wait (some j)) × (r : ℕ) × (a : ℕ) × (p ≡ clone r a) × (g'.sgm ≡ g.sgm))
IsFresh-Access i j g g' unborn (clones {r} {a} k real new) h = elim (Bool-cases (k == j)) [
  | inl e ↦ inr (ground arith, r, a, refl, refl)
  | inr e ↦ inl (h.0, ground arith)
]
IsFresh-Access i j g g' unborn a h = inl h
IsFresh-Access i j g g' enrolling a h = inl tt
IsFresh-Access i j g g' (file _) a h = inl tt
IsFresh-Access i j g g' prepare a h = inl tt
IsFresh-Access i j g g' fetch_routine a h = inl tt
IsFresh-Access i j g g' (fetch_arg _) a h = inl tt
IsFresh-Access i j g g' (signal _ _) a h = inl tt
IsFresh-Access i j g g' pj a h = ground arith

module _ {g : Shared} {pc : ℕ → Pc} (inv : Inv g pc)
    (alone : (i j : ℕ) → 0 < holds (pc i) → 0 < holds (pc j) → i ≡ j) where
  -- Whoever holds the mutex while a thread is new is its creator and waits for it.
  pub holder-waits : (i j : ℕ) → IsFresh g i (pc i) → 0 < holds (pc j) → pc j ≡ wait (some i)
  holder-waits i j fresh held =
      let (c, e) = inv.awaited i fresh in
      let same : c ≡ j = alone c j (rw e (omega arith)) held in rw same at e

  told : (i : ℕ) → IsFresh g i (pc i) → g.asked i ≡ some (g.sgm.real_start_routine, g.sgm.start_arg)
  told i fresh = let (c, e) = inv.awaited i fresh in subst (Knows g c) e (inv.knows c)

  -- One thread at a time is new.
  pub fresh_alone : (i j : ℕ) → IsFresh g i (pc i) → IsFresh g j (pc j) → i ≡ j
  fresh_alone i j fi fj =
      let (c, e) = inv.awaited i fi in
      let w : pc c ≡ wait (some j) = holder-waits j c fj (rw e (omega arith)) in cc

  module _ (i : ℕ) {g' : Shared} {p q : Pc} (at : pc i ≡ p) (a : Access i g p g' q) where
    pub Access-Knows : (j : ℕ) → Knows g' j (update pc i q j)
    Access-Knows j = elim (Bool-cases (i == j)) [
      | inl e ↦
          let same : i ≡ j = ground arith in
          rw (e, ← same)
            (Access-own i g g' a (subst (Knows g i) at (inv.knows i))
              (λ f. told i (subst (IsFresh g i) (sym at) f)))
      | inr e ↦ rw e (
          Knows-keep i j g g' (pc j) (Access-asked i g g' a)
            (λ h. Access-Same i g g' a (ground (arith, alone i j)))
            (λ h. elim (Access-done i g g' a) [
              | inl f ↦ inl (holder-waits i j (subst (IsFresh g i) (sym at) f) h)
              | inr k ↦ inr k
            ])
            (inv.knows j))
    ]
