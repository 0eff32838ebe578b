-- ===== src/Threads/Handshake/Progress.antt =====
-- The creator holds the mutex while it waits, and does not wait in vain.
use secure_rewind_and_discar.Base.{
  ℕ, ◌<◌, ◌≡◌, ◌≢◌, refl, ◌⊎◌, Option, none, some, ◌==◌, arith, update, Bool-cases, inl, inr, false,
}
use secure_rewind_and_discar.Base.Int.{negsuc, ℤ-cases}
use secure_rewind_and_discar.Lock.{Mutex}
use secure_rewind_and_discar.Lock.Interleave
use secure_rewind_and_discar.Lock.Interleave.{Threads, Reach, access, acquire, release}
use secure_rewind_and_discar.State.{Manager}
use secure_rewind_and_discar.Codes.{
  num_of_threads, thread_nonoccupied, total_domain, domain_nonoccupied,
}
use secure_rewind_and_discar.Slots.Free.{
  FirstFrom, find_free_domain_first, find_free_thread_id_first,
}
use secure_rewind_and_discar.Slots.{sdrad_find_free_domain, sdrad_find_free_thread_id}
use secure_rewind_and_discar.Threads.Handshake.{
  Shared, Pc, unborn, enrolling, file, prepare, fetch_routine, fetch_arg, signal, wait, clear,
  holds, Access, resets, clones, sees_done, spins, clears, begins, finds_index, files, prepares,
  fetches_routine, fetches_arg, signals, Acquire, create_locks, share_locks, Release,
  create_unlocks, share_unlocks, handshake,
}
use secure_rewind_and_discar.Threads.Handshake.Invariant.{IsFresh, Inv, Access-asked}
use secure_rewind_and_discar.Threads.Handshake.Moves.{begin, Reach-IsHeld, Reach-Inv, unborn-Access}

-- The thread that somebody waits for is still new, or the flag is set.
abbrev Due : Shared → (ℕ → Pc) → ℕ → Type 0
Due g pc j = IsFresh g j (pc j) ⊎ (g.sgm.sdrad_pthread_constructor_done ≢ 0)

-- A new thread stays new until it sets the flag.
Access-Due :
    (i : ℕ) (g g' : Shared) {p q : Pc}
    → Access i g p g' q
    → IsFresh g i p
    → IsFresh g' i q ⊎ (g'.sgm.sdrad_pthread_constructor_done ≢ 0)
Access-Due i g g' (signals) f = inr (λ e. omega arith)
Access-Due i g g' a f = ground arith

-- Who resets the flag holds the mutex and does not wait.
Access-reset :
    (i : ℕ) (g g' : Shared) {p q : Pc}
    → Access i g p g' q
    → ((0 < holds p) × ((c : Option ℕ) → p ≢ wait c))
      ⊎ (g.sgm.sdrad_pthread_constructor_done ≢ 0 → g'.sgm.sdrad_pthread_constructor_done ≢ 0)
Access-reset i g g' resets = inl (omega arith, λ c e. cc)
Access-reset i g g' clears = inl (omega arith, λ c e. cc)
Access-reset i g g' signals = inr (λ d e. omega arith)
Access-reset i g g' a = inr (λ d. d)

IsFresh-keep :
    (j : ℕ) (g g' : Shared) (pj : Pc)
    → ((q : ℕ × ℕ) → g.asked j ≡ some q → g'.asked j ≡ some q)
    → IsFresh g j pj
    → IsFresh g' j pj
IsFresh-keep j g g' unborn k f = (f.0, k f.0 f.1)
IsFresh-keep j g g' pj k f = ground arith

-- Whoever starts to wait has just made the thread.
Access-wait :
    (i j : ℕ) (g g' : Shared) {p q : Pc}
    → Access i g p g' q
    → q ≡ wait (some j)
    → (p ≡ wait (some j)) ⊎ ((g.asked j ≡ none) × ((r : ℕ × ℕ) × (g'.asked j ≡ some r)))
Access-wait i j g g' (spins d) e = inl e
Access-wait i j g g' (clones {r} {a} k real new) e = inr (ground arith, ((r, a), ground arith))
Access-wait i j g g' a e = cc

module _ {g : Shared} {pc : ℕ → Pc} (inv : Inv g pc)
    (alone : (i j : ℕ) → 0 < holds (pc i) → 0 < holds (pc j) → i ≡ j) (k : ℕ) {g' : Shared} (q : Pc)
    (a : Access k g (pc k) g' q) where
  Due-keep : (i j : ℕ) → pc i ≡ wait (some j) → Due g pc j → Due g' (update pc k q) j
  Due-keep i j w (inl f) = elim (Bool-cases (k == j)) [
    | inl e ↦ let same : k ≡ j = ground arith in rw (e, ← same) (Access-Due k g g' a (rw same f))
    | inr e ↦ rw e (inl (IsFresh-keep j g g' (pc j) (Access-asked k g g' a j) f))
  ]
  Due-keep i j w (inr d) = elim (Access-reset k g g' a) [
    | inl (held, still) ↦
        let same : k ≡ i = alone k i held (rw w (omega arith)) in
        absurd (still (some j) (rw same w))
    | inr keeps ↦ inr (keeps d)
  ]

  made-Due :
      (j : ℕ) → g.asked j ≡ none → (r : ℕ × ℕ) → g'.asked j ≡ some r → Due g' (update pc k q) j
  made-Due j none_yet r now =
      let at : pc j ≡ unborn = inv.unasked j none_yet in
      elim (Bool-cases (k == j)) [
        | inl e ↦
            let same : k ≡ j = ground arith in
            let (r', e') = unborn-Access k g g' a (rw same at) in absurd (ground (arith, same))
        | inr e ↦ rw (e, at) (inl (r, now))
      ]

  Access-waiting :
      ((i j : ℕ) → pc i ≡ wait (some j) → Due g pc j)
      → (i j : ℕ) → update pc k q i ≡ wait (some j)
      → Due g' (update pc k q) j
  Access-waiting due i j = elim (Bool-cases (k == i)) [
    | inl e ↦ rw e (λ w. elim (Access-wait k j g g' a w) [
      | inl before ↦ Due-keep k j before (due k j before)
      | inr (none_yet, (r, now)) ↦ made-Due j none_yet r now
    ])
    | inr e ↦ rw e (λ w. Due-keep i j w (due i j w))
  ]

-- Taking and releasing the mutex.
stays-waiting :
    (g : Shared) {pc : ℕ → Pc} (k : ℕ) (q : Pc)
    → ((i j : ℕ) → pc i ≡ wait (some j) → Due g pc j)
    → ((c : Option ℕ) → q ≢ wait c)
    → ((j : ℕ) → IsFresh g j (pc k) → ⊥)
    → (i j : ℕ) → update pc k q i ≡ wait (some j)
    → Due g (update pc k q) j
stays-waiting g {pc} k q due new old i j = elim (Bool-cases (k == i)) [
  | inl e ↦ rw e (λ w. absurd (new (some j) w))
  | inr e ↦ rw e (λ w. elim (due i j w) [
    | inr d ↦ inr d
    | inl f ↦ elim (Bool-cases (k == j)) [
      | inl s ↦ let same : k ≡ j = ground arith in absurd (old j (rw same f))
      | inr s ↦ rw s (inl f)
    ]
  ])
]

Acquire-next : (p q : Pc) → Acquire p q → (c : Option ℕ) → q ≢ wait c
Acquire-next p q create_locks c e = cc
Acquire-next p q share_locks c e = cc

Acquire-old : (g : Shared) (p q : Pc) → Acquire p q → (j : ℕ) → IsFresh g j p → ⊥
Acquire-old g p q create_locks j f = f
Acquire-old g p q share_locks j f = f

Release-next : (p q : Pc) → Release p q → (c : Option ℕ) → q ≢ wait c
Release-next p q create_unlocks c e = cc
Release-next p q share_unlocks c e = cc

Release-old : (g : Shared) (p q : Pc) → Release p q → (j : ℕ) → IsFresh g j p → ⊥
Release-old g p q create_unlocks j f = f
Release-old g p q share_unlocks j f = f

-- No thread index is free.
abbrev pub IsFull : Manager → Type 0
IsFull g = (k : ℕ) → k < num_of_threads → g.sgm_thread_id k ≢ thread_nonoccupied

nowhere : (g : Manager) (n : ℕ) → sdrad_find_free_thread_id g ≡ negsuc n → IsFull g
nowhere g n e k h =
    let f : FirstFrom thread_nonoccupied num_of_threads 0 g.sgm_thread_id (negsuc n) =
      rw e at (find_free_thread_id_first g) in
    f.1 k (omega arith) (omega arith)

-- No slot is free.
abbrev pub IsCrowded : Manager → Type 0
IsCrowded g = (d : ℕ) → d < total_domain → g.status d ≢ domain_nonoccupied

slotless : (g : Manager) (n : ℕ) → (sdrad_find_free_domain g).0 ≡ negsuc n → IsCrowded g
slotless g n e d h =
    let f : FirstFrom domain_nonoccupied total_domain 0 g.status (negsuc n) =
      rw e at (find_free_domain_first g).0 in
    f.1 d (omega arith) (omega arith)

-- Where a new thread stops: the table of threads is full, or the monitor's heap or the slots are used up.
abbrev pub IsStuck : Shared → Pc → Type 0
IsStuck g p =
    ((p ≡ enrolling) × IsFull g.sgm)
    ⊎ ((p ≡ prepare) × ((g.monitor_room ≡ false) ⊎ IsCrowded g.sgm))

fresh-moves :
    (g : Shared) (j : ℕ) (p : Pc)
    → IsFresh g j p
    → ((g' : Shared) × (q : Pc) × Access j g p g' q) ⊎ IsStuck g p
fresh-moves g j unborn (q, e) = inl (_, _, begins e)
fresh-moves g j enrolling f = elim (ℤ-cases (sdrad_find_free_thread_id g.sgm)) [
  | inl (k, e) ↦ inl (_, _, finds_index e)
  | inr (n, e) ↦ inr (inl (refl, λ k h. nowhere g.sgm n e k h))
]
fresh-moves g j (file k) f = inl (_, _, files)
fresh-moves g j prepare f = elim (ℤ-cases (sdrad_find_free_domain g.sgm).0) [
  | inl (k, e) ↦ elim (Bool-cases g.monitor_room) [
    | inl room ↦ inl (_, _, prepares k false room e)
    | inr none_left ↦ inr (inr (refl, inl none_left))
  ]
  | inr (n, e) ↦ inr (inr (refl, inr (λ d h. slotless g.sgm n e d h)))
]
fresh-moves g j fetch_routine f = inl (_, _, fetches_routine)
fresh-moves g j (fetch_arg _) f = inl (_, _, fetches_arg)
fresh-moves g j (signal _ _) f = inl (_, _, signals)
fresh-moves g j p f = ground arith

module _ (x : Mutex) (m : Manager) where
  waiting-Due :
      {s : Threads (x.State) Shared Pc}
      → Reach x handshake (begin x m) s
      → (i j : ℕ) → s.pc i ≡ wait (some j)
      → Due s.mem s.pc j
  waiting-Due Interleave.here i j w = absurd (ground arith)
  waiting-Due (Interleave.next r (access k {q = q} a)) i j w =
      Access-waiting (Reach-Inv x m r) (Reach-IsHeld x m r).alone k q a (waiting-Due r) i j w
  waiting-Due (Interleave.next {t = s} r (acquire k {q = q} a l)) i j w =
      stays-waiting s.mem k q (waiting-Due r) (Acquire-next (s.pc k) q a)
        (Acquire-old s.mem (s.pc k) q a) i j w
  waiting-Due (Interleave.next {t = s} r (release k {q = q} a)) i j w =
      stays-waiting s.mem k q (waiting-Due r) (Release-next (s.pc k) q a)
        (Release-old s.mem (s.pc k) q a) i j w

  -- In the multithreaded build the creator of a thread, which holds the mutex while it waits for the
  -- thread, is never blocked for good but in three cases: its next round is the last, or the new thread
  -- can make its next access, for which it needs no mutex, or the new thread has stopped because the
  -- table of threads is full, or because the monitor's heap has no memory for its record or no slot is
  -- free.
  pub wait_moves :
      {s : Threads (x.State) Shared Pc}
      → Reach x handshake (begin x m) s
      → (i j : ℕ) → s.pc i ≡ wait (some j)
      → Access i s.mem (s.pc i) s.mem clear
        ⊎ (((g' : Shared) × (q : Pc) × Access j s.mem (s.pc j) g' q) ⊎ IsStuck s.mem (s.pc j))
  wait_moves {s} r i j w = elim (waiting-Due r i j w) [
    | inl f ↦ inr (fresh-moves s.mem j (s.pc j) f)
    | inr d ↦ inl (rw w (sees_done d))
  ]
