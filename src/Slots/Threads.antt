-- ===== src/Slots/Threads.antt =====
-- From a thread's identifier to its index.
use secure_rewind_and_discar.Base.{
  ℕ, zero, suc, ◌+◌, ◌≤◌, ◌<◌, ◌≢◌, refl, inl, inr, ◌==◌, ltb, Bool-cases, Option, none, some,
  arith,
}
use secure_rewind_and_discar.Base.Int.{ℤ}
use secure_rewind_and_discar.Codes.{num_of_threads}
use secure_rewind_and_discar.State.{Manager}
use secure_rewind_and_discar.Slots.{find_tid, sdrad_get_sti_from_tid}
use secure_rewind_and_discar.Slots.Free.{FirstFrom, later, miss_from}

-- The outcome of the search over `n` indices from `i` on. Without a result the loop has run off the
-- end of the table, past all its entries.
abbrev pub Located : (tid n i : ℕ) → (ℕ → ℕ) → Option ℤ → Type 0
Located tid n i table (some r) = FirstFrom tid n i table r
Located tid n i table none =
    (num_of_threads < i + n) × ((j : ℕ) → i ≤ j → j < num_of_threads → table j ≢ tid)

Located-later :
    (tid n i : ℕ) (table : ℕ → ℕ) (r : Option ℤ)
    → table i ≢ tid
    → Located tid n (i + 1) table r
    → Located tid (suc n) i table r
Located-later tid n i table (some r) miss h = later tid n i table r miss h
Located-later tid n i table none miss (short, nowhere) =
    (omega arith, λ j p q. miss_from table tid i j miss p (λ above. nowhere j above q))

find_tid-Located :
    (tid n i : ℕ) (table : ℕ → ℕ)
    → i ≤ num_of_threads
    → Located tid n i table (find_tid tid n i table)
unfolding find_tid
find_tid-Located tid zero i table h = (refl, λ j p q e. omega arith)
find_tid-Located tid (suc n) i table h = elim (Bool-cases (ltb i num_of_threads)) [
  | inr out ↦ rw out (ground arith, λ j p q e. ground arith)
  | inl inside ↦ elim (Bool-cases (tid == table i)) [
    | inl hit ↦ rw (inside, hit) (omega arith, omega arith, ground arith, λ j p q e. omega arith)
    | inr miss ↦
        rw (inside, miss)
          (Located-later tid n i table (find_tid tid n (i + 1) table) (ground arith)
            (find_tid-Located tid n (i + 1) table (ground arith)))
  ]
]

-- The index found for a thread is the first one, up to `sgm_total_thread`, that holds its
-- identifier; -1 means that none does; and the search reads past the end of the table only when
-- `sgm_total_thread` is at least 200 and none of the 200 entries holds the identifier.
pub get_sti_from_tid_first :
    (g : Manager) (tid : ℕ)
    → Located tid (g.sgm_total_thread + 1) 0 g.sgm_thread_id (sdrad_get_sti_from_tid g tid)
unfolding sdrad_get_sti_from_tid
get_sti_from_tid_first g tid =
    find_tid-Located tid (g.sgm_total_thread + 1) 0 g.sgm_thread_id (omega arith)
