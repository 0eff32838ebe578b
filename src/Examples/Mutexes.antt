-- ===== src/Examples/Mutexes.antt =====
-- A mutex that counts, and concrete runs of several threads.
use secure_rewind_and_discar.Base.{
  ℕ, suc, ◌+◌, ◌-◌, ◌<◌, ◌≡◌, ◌≢◌, refl, Option, none, some, ◌==◌, if◌then◌else◌, arith,
}
use secure_rewind_and_discar.Lock.{Mutex, MutexKind, recursive, default}

pub record Counted : Type 0 where
  pub kind : MutexKind
  pub owner : ℕ
  pub count : ℕ

abbrev pub depth : Counted → ℕ → ℕ
depth m t = if m.owner == t then m.count else 0

abbrev pub again : MutexKind → Counted → Option (ℕ × Counted)
again recursive m = some (0, record m { count = m.count + 1 })
again default m = none

abbrev pub lock : ℕ → Counted → Option (ℕ × Counted)
lock t m =
    if m.count == 0
    then some (0, record m { owner = t; count = 1 })
    else (if m.owner == t then again m.kind m else none)

abbrev pub unlock : ℕ → Counted → Counted
unlock t m = if m.owner == t then record m { count = m.count - 1 } else m

pub depth-start : (k : MutexKind) (t : ℕ) → depth (record { kind = k; owner = 0; count = 0 }) t ≡ 0
depth-start k t = ground arith

again-depth :
    (k : MutexKind) (t j : ℕ) (m m' : Counted)
    → m.owner ≡ t
    → again k m ≡ some (0, m')
    → depth m' j ≡ (if t == j then suc (depth m j) else depth m j)
again-depth recursive t j m m' o h = ground arith
again-depth default t j m m' o h = cc

again-kind :
    (k : MutexKind) (r : ℕ) (m m' : Counted)
    → again k m ≡ some (r, m')
    → (r ≡ 0) × (m'.kind ≡ m.kind)
again-kind recursive r m m' h = ground arith
again-kind default r m m' h = cc

pub lock-ne : (t r : ℕ) (m m' : Counted) → m.kind ≡ recursive → lock t m ≡ some (r, m') → r ≢ 35
lock-ne t r m m' k h = ground (arith, again-kind m.kind r m m')

pub lock-kind_lem : (t r : ℕ) (m m' : Counted) → lock t m ≡ some (r, m') → m'.kind ≡ m.kind
lock-kind_lem t r m m' h = ground (arith, again-kind m.kind r m m')

pub lock-depth_lem :
    (t j : ℕ) (m m' : Counted)
    → lock t m ≡ some (0, m')
    → depth m' j ≡ (if t == j then suc (depth m j) else depth m j)
lock-depth_lem t j m m' h = ground (arith, again-depth m.kind t j m m')

pub lock_waits_lem : (t j : ℕ) (m : Counted) → j ≢ t → 0 < depth m j → lock t m ≡ none
lock_waits_lem t j m ne h = ground arith

pub lock_free_lem :
    (t : ℕ) (m : Counted) → ((j : ℕ) → depth m j ≡ 0) → (m' : Counted) × (lock t m ≡ some (0, m'))
lock_free_lem t m free = (record m { owner = t; count = 1 }, ground (arith, free m.owner))

pub unlock-kind_lem : (t : ℕ) (m : Counted) → (unlock t m).kind ≡ m.kind
unlock-kind_lem t m = ground arith

pub unlock-depth_lem :
    (t j : ℕ) (m : Counted)
    → 0 < depth m t
    → depth (unlock t m) j ≡ (if t == j then depth m j - 1 else depth m j)
unlock-depth_lem t j m h = ground arith

abbrev pub counted : Mutex
counted = record {
  State = Counted;
  edeadlk = 35;
  init = λ k. record { kind = k; owner = 0; count = 0 };
  kind = λ m. m.kind;
  depth = depth;
  lock = lock;
  unlock = unlock;
  kind-init = λ k. refl;
  depth-init = depth-start;
  lock-ne-edeadlk = lock-ne;
  lock-kind = lock-kind_lem;
  lock-depth = lock-depth_lem;
  lock_waits = lock_waits_lem;
  lock_free = lock_free_lem;
  unlock-kind = unlock-kind_lem;
  unlock-depth = unlock-depth_lem;
}
