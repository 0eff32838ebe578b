-- ===== src/Threads/Handshake/Moves.antt =====
-- Every step of the handshake keeps the invariant.
use mathlib.Core.Path.{subst}
use secure_rewind_and_discar.Base.{
  ℕ, ◌<◌, ◌≡◌, ◌≢◌, refl, ◌∙◌, ◌⊎◌, Option, some, none, ◌==◌, arith, update, Bool-cases,
  Option-cases, inl, inr,
}
use secure_rewind_and_discar.Lock.{Mutex}
use secure_rewind_and_discar.Lock.Interleave
use secure_rewind_and_discar.Lock.Interleave.{
  Threads, Step, Reach, IsHeld, access, acquire, release,
}
use secure_rewind_and_discar.State.{Manager}
use secure_rewind_and_discar.Threads.Handshake.{
  Shared, Pc, unborn, clone, wait, signal, share_lock, holds, Access, resets, spins, sees_done,
  clears, begins, signals, launches, Acquire, create_locks, share_locks, Release, create_unlocks,
  share_unlocks, handshake, first_thread, first_pc,
}
use secure_rewind_and_discar.Threads.Handshake.Invariant.{
  IsFresh, Knows, Inv, fresh_alone, Access-asked, Access-Knows, Access-IsFresh, IsFresh-Access,
}

-- A creator that stops waiting has seen the flag.
wait-Access :
    (i : ℕ) (g g' : Shared) {p q : Pc} (c : Option ℕ)
    → Access i g p g' q
    → p ≡ wait c
    → (q ≡ wait c) ⊎ (g.sgm.sdrad_pthread_constructor_done ≢ 0)
wait-Access i g g' c (spins e) h = inl h
wait-Access i g g' c (sees_done e) h = inr e
wait-Access i g g' c a h = cc

-- Either the flag is left alone, or reset, or the thread that sets it is new.
Access-flag :
    (i : ℕ) (g g' : Shared) {p q : Pc}
    → Access i g p g' q
    → (g.sgm.sdrad_pthread_constructor_done ≡ 0 → g'.sgm.sdrad_pthread_constructor_done ≡ 0)
      ⊎ ((f : ℕ) × (a : ℕ) × (p ≡ signal f a) × (q ≡ share_lock f a) × (g'.asked ≡ g.asked))
Access-flag i g g' (signals {f} {a}) = inr (f, a, refl, refl, refl)
Access-flag i g g' resets = inl (λ e. refl)
Access-flag i g g' clears = inl (λ e. refl)
Access-flag i g g' a = inl (λ e. e)

pub unborn-Access :
    (i : ℕ) (g g' : Shared) {p q : Pc}
    → Access i g p g' q
    → p ≡ unborn
    → (r : ℕ × ℕ) × (g.asked i ≡ some r)
unborn-Access i g g' (begins {q} e) h = (q, e)
unborn-Access i g g' a h = cc

Access-unasked :
    (i j : ℕ) (g g' : Shared) {p q : Pc} → Access i g p g' q → g'.asked j ≡ none → g.asked j ≡ none
Access-unasked i j g g' a h = elim (Option-cases (g.asked j)) [
  | inl e ↦ e
  | inr (r, e) ↦ cc (Access-asked i g g' a j r e)
]

Access-started :
    (i : ℕ) (g g' : Shared) {p q : Pc} (j : ℕ) (r : ℕ × ℕ)
    → Access i g p g' q
    → Knows g i p
    → g'.started j ≡ some r
    → (g.started j ≡ some r) ⊎ (g.asked j ≡ some r)
Access-started i g g' j r (launches {f} {a}) k h = elim (Bool-cases (i == j)) [
  | inl e ↦ let same : i ≡ j = ground arith in inr (ground (arith, same))
  | inr e ↦ inl (ground arith)
]
Access-started i g g' j r a k h = inl h

module _ {g : Shared} {pc : ℕ → Pc} (inv : Inv g pc)
    (alone : (i j : ℕ) → 0 < holds (pc i) → 0 < holds (pc j) → i ≡ j) (i : ℕ) {g' : Shared}
    {p q : Pc} (at : pc i ≡ p) (a : Access i g p g' q) where
  -- A thread that is new after the step was so before, or is the one that the step makes.
  IsFresh-before :
      (j : ℕ)
      → IsFresh g' j (update pc i q j)
      → IsFresh g j (pc j)
        ⊎ ((q ≡ wait (some j)) × (r : ℕ) × (s : ℕ) × (p ≡ clone r s) × (g'.sgm ≡ g.sgm))
  IsFresh-before j = elim (Bool-cases (i == j)) [
    | inl e ↦
        let same : i ≡ j = ground arith in
        rw (e, ← same) (λ f. inl (rw at (Access-IsFresh i g g' a f)))
    | inr e ↦ rw e (λ f. IsFresh-Access i j g g' (pc j) a f)
  ]

  Access-awaited :
      (j : ℕ) → IsFresh g' j (update pc i q j) → (k : ℕ) × (update pc i q k ≡ wait (some j))
  Access-awaited j f = elim (IsFresh-before j f) [
    | inr (e, r, s, c, m) ↦ (i, ground (arith, e))
    | inl old ↦
        let (k, e) = inv.awaited j old in
        elim (Bool-cases (i == k)) [
          | inr other ↦ (k, rw other e)
          | inl self ↦
              let same : i ≡ k = ground arith in
              elim (wait-Access i g g' (some j) a (ground (arith, same))) [
                | inl stays ↦ (i, ground (arith, stays))
                | inr seen ↦ absurd (seen (inv.pending j old))
              ]
        ]
  ]

  Access-pending :
      (j : ℕ) → IsFresh g' j (update pc i q j) → g'.sgm.sdrad_pthread_constructor_done ≡ 0
  Access-pending j f = elim (IsFresh-before j f) [
    | inr (e, r, s, c, m) ↦
        let k : Knows g i (clone r s) = subst (Knows g i) (at ∙ c) (inv.knows i) in rw m k.2
    | inl old ↦ elim (Access-flag i g g' a) [
      | inl keeps ↦ keeps (inv.pending j old)
      | inr (x, y, c, d, m) ↦
          let new : IsFresh g i (pc i) = rw (at, c) tt in
          let same : i ≡ j = fresh_alone inv alone i j new old in absurd (ground (arith, same, d))
    ]
  ]

  pub Access-Inv : Inv g' (update pc i q)
  Access-Inv = record {
    knows = Access-Knows inv alone i at a;
    awaited = Access-awaited;
    pending = Access-pending;
    unasked = λ j e.
        let before : g.asked j ≡ none = Access-unasked i j g g' a e in
        ground (arith, inv.unasked j before, unborn-Access i g g' a);
    as_asked = λ j r e. elim (Access-started i g g' j r a (subst (Knows g i) at (inv.knows i)) e) [
      | inl old ↦ Access-asked i g g' a j r (inv.as_asked j r old)
      | inr new ↦ Access-asked i g g' a j r new
    ];
  }

-- Taking and releasing the mutex changes nothing that anybody knows.
module _ {g : Shared} {pc : ℕ → Pc} (inv : Inv g pc) (i : ℕ) {p : Pc} (q : Pc) (at : pc i ≡ p)
    (knows : Knows g i p → Knows g i q) (old : IsFresh g i q → ⊥)
    (waits : (c : Option ℕ) → p ≢ wait c) (born : p ≢ unborn) where
  stays-awaited :
      (j : ℕ) → IsFresh g j (update pc i q j) → (k : ℕ) × (update pc i q k ≡ wait (some j))
  stays-awaited j = elim (Bool-cases (i == j)) [
    | inl e ↦ let same : i ≡ j = ground arith in rw (e, ← same) (λ f. absurd (old f))
    | inr e ↦ rw e (λ f. let (k, w) = inv.awaited j f in (k, ground (arith, w, waits (some j))))
  ]

  stays-pending : (j : ℕ) → IsFresh g j (update pc i q j) → g.sgm.sdrad_pthread_constructor_done ≡ 0
  stays-pending j = elim (Bool-cases (i == j)) [
    | inl e ↦ let same : i ≡ j = ground arith in rw (e, ← same) (λ f. absurd (old f))
    | inr e ↦ rw e (inv.pending j)
  ]

  stays-Inv : Inv g (update pc i q)
  stays-Inv = record {
    knows = λ j. elim (Bool-cases (i == j)) [
      | inl e ↦
          let same : i ≡ j = ground arith in
          rw (e, ← same) (knows (subst (Knows g i) at (inv.knows i)))
      | inr e ↦ rw e (inv.knows j)
    ];
    awaited = stays-awaited;
    pending = stays-pending;
    unasked = λ j e. ground (arith, inv.unasked j e, born);
    as_asked = inv.as_asked;
  }

Acquire-Inv :
    {g : Shared} {pc : ℕ → Pc} (inv : Inv g pc) (i : ℕ) (p q : Pc)
    → pc i ≡ p
    → Acquire p q
    → Inv g (update pc i q)
Acquire-Inv inv i p q at create_locks =
    stays-Inv inv i q at (λ k. tt) (λ f. f) (λ c e. cc) (λ e. cc)
Acquire-Inv inv i p q at share_locks = stays-Inv inv i q at (λ k. k) (λ f. f) (λ c e. cc) (λ e. cc)

Release-Inv :
    {g : Shared} {pc : ℕ → Pc} (inv : Inv g pc) (i : ℕ) (p q : Pc)
    → pc i ≡ p
    → Release p q
    → Inv g (update pc i q)
Release-Inv inv i p q at create_unlocks =
    stays-Inv inv i q at (λ k. tt) (λ f. f) (λ c e. cc) (λ e. cc)
Release-Inv inv i p q at share_unlocks =
    stays-Inv inv i q at (λ k. k) (λ f. f) (λ c e. cc) (λ e. cc)

first-Inv : (g : Manager) → Inv (first_thread g) first_pc
first-Inv g = record {
  knows = λ i. ground arith;
  awaited = λ j f. absurd (ground arith);
  pending = λ j f. absurd (ground arith);
  unasked = λ j e. ground arith;
  as_asked = λ j q e. cc;
}

pub first-quiet : (i : ℕ) → holds (first_pc i) ≡ 0
first-quiet i = ground arith

module _ (x : Mutex) (g : Manager) where
  -- After the constructor, with the first thread running.
  abbrev pub begin : Threads (x.State) Shared Pc
  begin = Interleave.start x handshake (first_thread g) first_pc

  pub Reach-IsHeld :
      {s : Threads (x.State) Shared Pc} → Reach x handshake begin s → IsHeld x handshake s
  Reach-IsHeld r = Interleave.Reach-IsHeld x handshake (first_thread g) first_pc first-quiet r

  pub Reach-Inv : {s : Threads (x.State) Shared Pc} → Reach x handshake begin s → Inv s.mem s.pc
  Reach-Inv Interleave.here = first-Inv g
  Reach-Inv (Interleave.next r (access i a)) =
      Access-Inv (Reach-Inv r) (Reach-IsHeld r).alone i refl a
  Reach-Inv (Interleave.next r (acquire i a e)) = Acquire-Inv (Reach-Inv r) i _ _ refl a
  Reach-Inv (Interleave.next r (release i a)) = Release-Inv (Reach-Inv r) i _ _ refl a
