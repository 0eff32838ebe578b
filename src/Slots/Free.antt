-- ===== src/Slots/Free.antt =====
-- The search for a free slot or a free thread index.
use native.Mathlib.Decide.{ℕ_discrete}
use secure_rewind_and_discar.Base.{
  ℕ, zero, suc, ◌+◌, ◌≤◌, ◌<◌, ◌≡◌, ◌≢◌, refl, inl, inr, ◌==◌, Bool-cases, arith, update,
}
use secure_rewind_and_discar.Base.Int.{ℤ, pos, negsuc}
use secure_rewind_and_discar.Codes.{
  total_domain, num_of_threads, domain_occupied, domain_nonoccupied, thread_nonoccupied,
}
use secure_rewind_and_discar.State.{Manager}
use secure_rewind_and_discar.Slots.{
  find_entry, occupy, sdrad_find_free_domain, sdrad_find_free_thread_id,
}

-- `r` is the first index from `i` on, of `n` indices, at which the table holds `wanted`, or -1 if
-- there is none.
abbrev pub FirstFrom : (wanted n i : ℕ) → (ℕ → ℕ) → ℤ → Type 0
FirstFrom wanted n i table (pos k) =
    (i ≤ k) × (k < i + n) × (table k ≡ wanted) × ((j : ℕ) → i ≤ j → j < k → table j ≢ wanted)
FirstFrom wanted n i table (negsuc m) = (m ≡ 0) × ((j : ℕ) → i ≤ j → j < i + n → table j ≢ wanted)

-- An index from `i` on is `i` or lies beyond it.
pub miss_from :
    (table : ℕ → ℕ) (wanted i j : ℕ)
    → table i ≢ wanted
    → i ≤ j
    → (i + 1 ≤ j → table j ≢ wanted)
    → table j ≢ wanted
miss_from table wanted i j miss p beyond = elim (ℕ_discrete i j) [
  | yes e ↦ rw e at miss
  | no e ↦ beyond (omega arith)
]

-- One more index in front, at which the table holds something else.
pub later :
    (wanted n i : ℕ) (table : ℕ → ℕ) (r : ℤ)
    → table i ≢ wanted
    → FirstFrom wanted n (i + 1) table r
    → FirstFrom wanted (suc n) i table r
later wanted n i table (pos k) miss (lo, hi, at, before) = (
  omega arith,
  omega arith,
  at,
  λ j p q. miss_from table wanted i j miss p (λ above. before j above q),
)
later wanted n i table (negsuc m) miss (e, nowhere) =
    (e, λ j p q. miss_from table wanted i j miss p (λ above. nowhere j above (omega arith)))

find_entry-FirstFrom :
    (wanted n i : ℕ) (table : ℕ → ℕ) → FirstFrom wanted n i table (find_entry wanted n i table)
unfolding find_entry
find_entry-FirstFrom wanted zero i table = (refl, λ j p q e. omega arith)
find_entry-FirstFrom wanted (suc n) i table = elim (Bool-cases (table i == wanted)) [
  | inl hit ↦ rw hit (omega arith, omega arith, ground arith, λ j p q e. omega arith)
  | inr miss ↦ rw miss (
      later wanted n i table (find_entry wanted n (i + 1) table) (ground arith)
        (find_entry-FirstFrom wanted n (i + 1) table))
]

-- The slot handed out is the first free one of the thirty, and exactly its entry becomes occupied; the
-- result is -1, and the table stays as it is, when no slot is free.
pub find_free_domain_first :
    (g : Manager)
    → let (found, g') = sdrad_find_free_domain g in
      FirstFrom domain_nonoccupied total_domain 0 g.status found
      × (g'.status
          ≡ (elim found [ pos k ↦ update g.status k domain_occupied | negsuc _ ↦ g.status ]))
unfolding sdrad_find_free_domain occupy
find_free_domain_first g = (
  find_entry-FirstFrom domain_nonoccupied total_domain 0 g.status,
  elim (find_entry domain_nonoccupied total_domain 0 g.status)
      as (λ r.
        (occupy r g).status
        ≡ (elim r [ pos k ↦ update g.status k domain_occupied | negsuc _ ↦ g.status ])) [
          | pos k ↦ refl
          | negsuc _ ↦ refl
        ],
)

-- A new thread gets the first index of the two hundred whose entry is free, or -1 if none is.
pub find_free_thread_id_first :
    (g : Manager)
    → FirstFrom thread_nonoccupied num_of_threads 0 g.sgm_thread_id (sdrad_find_free_thread_id g)
unfolding sdrad_find_free_thread_id
find_free_thread_id_first g =
    find_entry-FirstFrom thread_nonoccupied num_of_threads 0 g.sgm_thread_id
