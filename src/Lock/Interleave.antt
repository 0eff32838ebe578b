-- ===== src/Lock/Interleave.antt =====
-- Threads that run one after the other in any order, a shared access at a time, and that take and
-- release the mutex `sgm_lock` (src/sdrad.h). What a thread does is a `Program`.
use secure_rewind_and_discar.Base.{
  ℕ, suc, ◌<◌, ◌≡◌, ◌≢◌, sym, ◌∙◌, inl, inr, some, arith, update, Option-cases,
}
use secure_rewind_and_discar.Lock.{
  Mutex, recursive, waits, proceeds, sdrad_mutex_lock, sdrad_mutex_unlock, sdrad_mutex_constructor,
}

-- `G` is the memory that the threads share, `P` where a thread stands with its live variables, and
-- `holds` how often a thread that stands there holds the mutex.
pub record Program (G P : Type 0) : Type 1 where
  pub Access : (thread : ℕ) → G → P → G → P → Type 0
  pub Acquire : P → P → Type 0
  pub Release : P → P → Type 0
  pub holds : P → ℕ
  pub Access-holds : (t : ℕ) (g g' : G) (p p' : P) → Access t g p g' p' → holds p' ≡ holds p
  pub Acquire-holds : (p p' : P) → Acquire p p' → holds p' ≡ suc (holds p)
  pub Release-holds : (p p' : P) → Release p p' → holds p ≡ suc (holds p')

pub record Threads (M G P : Type 0) : Type 0 where
  pub sgm_lock : M
  pub mem : G
  pub pc : ℕ → P

module _ (x : Mutex) where
  abbrev pub IsFree : x.State → Type 0
  IsFree m = (j : ℕ) → x.depth m j ≡ 0

  pub constructor-IsFree : IsFree (sdrad_mutex_constructor x).0
  unfolding sdrad_mutex_constructor
  constructor-IsFree j = x.depth-init recursive j

  -- A mutex that nobody holds is taken at once, and is free again when it is released.
  pub lock-unlock :
      (i : ℕ) (m : x.State)
      → IsFree m
      → (m' : x.State) × (sdrad_mutex_lock x i m ≡ proceeds m') × IsFree (sdrad_mutex_unlock x i m')
  unfolding sdrad_mutex_lock sdrad_mutex_unlock
  lock-unlock i m free =
      let (m', e) = x.lock_free i m free in
      (
        m',
        ground (arith, e),
        λ j.
            let counted = x.lock-depth i j m m' e in
            let own = x.lock-depth i i m m' e in
            ground (arith, free i, free j, counted, own, x.unlock-depth i j m'),
      )

module _ (x : Mutex) {G P : Type 0} (prog : Program G P) where
  pub data Step (s : Threads (x.State) G P) : Threads (x.State) G P → Type 0 where
    access :
        (i : ℕ) {g : G} {q : P}
        → prog.Access i s.mem (s.pc i) g q
        → Step s (record s { mem = g; pc = update s.pc i q })
    acquire :
        (i : ℕ) {m : x.State} {q : P}
        → prog.Acquire (s.pc i) q
        → sdrad_mutex_lock x i s.sgm_lock ≡ proceeds m
        → Step s (record s { sgm_lock = m; pc = update s.pc i q })
    release :
        (i : ℕ) {q : P}
        → prog.Release (s.pc i) q
        → Step s (record s { sgm_lock = sdrad_mutex_unlock x i s.sgm_lock; pc = update s.pc i q })

  pub data Reach (s : Threads (x.State) G P) : Threads (x.State) G P → Type 0 where
    here : Reach s s
    next : {t u : Threads (x.State) G P} → Reach s t → Step t u → Reach s u

  pub Reach-trans : {s t u : Threads (x.State) G P} → Reach s t → Reach t u → Reach s u
  Reach-trans r here = r
  Reach-trans r (next q st) = next (Reach-trans r q) st

  -- A step of the thread `i`.
  pub data StepBy (i : ℕ) (s : Threads (x.State) G P) : Threads (x.State) G P → Type 0 where
    moves :
        {g : G} {q : P}
        → prog.Access i s.mem (s.pc i) g q
        → StepBy i s (record s { mem = g; pc = update s.pc i q })
    locks :
        {m : x.State} {q : P}
        → prog.Acquire (s.pc i) q
        → sdrad_mutex_lock x i s.sgm_lock ≡ proceeds m
        → StepBy i s (record s { sgm_lock = m; pc = update s.pc i q })
    unlocks :
        {q : P}
        → prog.Release (s.pc i) q
        → StepBy i s
            (record s { sgm_lock = sdrad_mutex_unlock x i s.sgm_lock; pc = update s.pc i q })

  -- Steps of the thread `i` alone.
  pub data ReachBy (i : ℕ) (s : Threads (x.State) G P) : Threads (x.State) G P → Type 0 where
    stay : ReachBy i s s
    go : {t u : Threads (x.State) G P} → ReachBy i s t → StepBy i t u → ReachBy i s u

  pub ReachBy-trans :
      (i : ℕ) {s t u : Threads (x.State) G P} → ReachBy i s t → ReachBy i t u → ReachBy i s u
  ReachBy-trans i r stay = r
  ReachBy-trans i r (go q st) = go (ReachBy-trans i r q) st

  -- After `sdrad_mutex_constructor`.
  abbrev pub start : G → (ℕ → P) → Threads (x.State) G P
  start g pc = record { sgm_lock = (sdrad_mutex_constructor x).0; mem = g; pc = pc }

  -- The mutex counts what the threads hold, and one thread at most holds it.
  pub record IsHeld (s : Threads (x.State) G P) : Type 0 where
    pub kind : x.kind s.sgm_lock ≡ recursive
    pub counted : (i : ℕ) → x.depth s.sgm_lock i ≡ prog.holds (s.pc i)
    pub alone : (i j : ℕ) → 0 < prog.holds (s.pc i) → 0 < prog.holds (s.pc j) → i ≡ j

  start-IsHeld : (g : G) (pc : ℕ → P) → ((i : ℕ) → prog.holds (pc i) ≡ 0) → IsHeld (start g pc)
  unfolding sdrad_mutex_constructor
  start-IsHeld g pc quiet = record {
    kind = x.kind-init recursive;
    counted = λ i. x.depth-init recursive i ∙ sym (quiet i);
    alone = λ i j hi hj. absurd (ground (arith, quiet i));
  }

  -- Taking the mutex takes it: the status is 0.
  lock-taken :
      (i : ℕ) (m m' : x.State)
      → x.kind m ≡ recursive
      → sdrad_mutex_lock x i m ≡ proceeds m'
      → x.lock i m ≡ some (0, m')
  unfolding sdrad_mutex_lock
  lock-taken i m m' k h = elim (Option-cases (x.lock i m)) [
    | inl e ↦ ground (arith, e)
    | inr ((ret, m0), e) ↦ ground (arith, e, x.lock-ne-edeadlk i ret m m0 k e)
  ]

  lock-others : (i j : ℕ) (m m' : x.State) → x.lock i m ≡ some (0, m') → j ≢ i → x.depth m j ≡ 0
  lock-others i j m m' h ne = ground (arith, x.lock_waits i j m ne)

  Step-IsHeld : {s t : Threads (x.State) G P} → Step s t → IsHeld s → IsHeld t
  unfolding sdrad_mutex_unlock
  Step-IsHeld {s} (access i {g} {q} a) h =
      let same : prog.holds q ≡ prog.holds (s.pc i) = prog.Access-holds i s.mem g (s.pc i) q a in
      record {
        kind = h.kind;
        counted = λ j. ground (arith, h.counted j, same);
        alone = λ j k hj hk. ground (arith, h.alone j k, same);
      }
  Step-IsHeld {s} (acquire i {m} {q} a e) h =
      let more : prog.holds q ≡ suc (prog.holds (s.pc i)) = prog.Acquire-holds (s.pc i) q a in
      let taken : x.lock i s.sgm_lock ≡ some (0, m) = lock-taken i s.sgm_lock m h.kind e in
      record {
        kind = x.lock-kind i 0 s.sgm_lock m taken ∙ h.kind;
        counted = λ j. ground (arith, h.counted j, more, x.lock-depth i j s.sgm_lock m taken);
        alone = λ j k hj hk. ground (
          arith,
          lock-others i j s.sgm_lock m taken,
          lock-others i k s.sgm_lock m taken,
          h.counted j,
          h.counted k,
        );
      }
  Step-IsHeld {s} (release i {q} a) h =
      let less : prog.holds (s.pc i) ≡ suc (prog.holds q) = prog.Release-holds (s.pc i) q a in
      let held : 0 < x.depth s.sgm_lock i = omega (arith, less, h.counted i) in
      record {
        kind = x.unlock-kind i s.sgm_lock ∙ h.kind;
        counted =
            λ j. ground (arith, h.counted j, h.counted i, less, x.unlock-depth i j s.sgm_lock held);
        alone = λ j k hj hk. ground (arith, h.alone j k, less);
      }

  module _ (g : G) (pc : ℕ → P) (quiet : (i : ℕ) → prog.holds (pc i) ≡ 0) where
    pub Reach-IsHeld : {s : Threads (x.State) G P} → Reach (start g pc) s → IsHeld s
    Reach-IsHeld here = start-IsHeld g pc quiet
    Reach-IsHeld (next r st) = Step-IsHeld st (Reach-IsHeld r)

    -- While a thread holds the mutex, an attempt of another one waits.
    pub held-waits :
        {s : Threads (x.State) G P} (i j : ℕ)
        → Reach (start g pc) s
        → 0 < prog.holds (s.pc i)
        → j ≢ i
        → sdrad_mutex_lock x j s.sgm_lock ≡ waits
    unfolding sdrad_mutex_lock
    held-waits {s} i j r h ne = ground (
      arith,
      x.lock_waits j i s.sgm_lock (λ e. ne (sym e)) (ground (arith, (Reach-IsHeld r).counted i)),
    )
