-- ===== src/Symbols.antt =====
-- The C library's own functions, looked up at run time: `pthread_load_sym` (src/sdrad_thread.c) and
-- `__libc_start_main` (src/sdrad.c). 0 is NULL.
use secure_rewind_and_discar.Base.{
  ℕ, ◌≡◌, ◌≢◌, ◌⊎◌, inl, inr, ◌==◌, if◌then◌else◌, arith, Bool-cases,
}

pub data Symbol : Type 0 where
  sym_pthread_create sym_pthread_join sym_libc_start_main : Symbol

-- The dynamic loader, with its state `S`. `dlclose` returns 0 if it succeeds.
pub record Loader (S : Type 0) : Type 0 where
  pub dlopen : S → ℕ × S
  pub dlsym : (handle : ℕ) → Symbol → S → ℕ × S
  pub dlclose : (handle : ℕ) → S → ℕ × S

-- `_exit(EXIT_FAILURE)`, or the function goes on with what it has found.
pub data Load (S A : Type 0) : Type 0 where
  loads : A → S → Load S A
  exits : Load S A

module _ {S : Type 0} (l : Loader S) where
  -- `real_pthread_create` and `real_pthread_join`. After the second lookup the result of the first is tested
  -- again.
  unfoldable pub pthread_load_sym : S → Load S (ℕ × ℕ)
  pthread_load_sym s =
      let (libc_handle, s1) = l.dlopen s in
      if libc_handle == 0
      then exits
      else (let (pthread_create_sym, s2) = l.dlsym libc_handle sym_pthread_create s1 in
          if pthread_create_sym == 0
          then exits
          else (let (pthread_join_sym, s3) = l.dlsym libc_handle sym_pthread_join s2 in
              if pthread_create_sym == 0
              then exits
              else (let (status, s4) = l.dlclose libc_handle s3 in
                  if status == 0 then loads (pthread_create_sym, pthread_join_sym) s4 else exits)))

  -- The two wrappers look the functions up when theirs is NULL. `real_pthread_create` and
  -- `real_pthread_join` are the pair.
  unfoldable pub load_for_create : ℕ × ℕ → S → Load S (ℕ × ℕ)
  unfolding pthread_load_sym
  load_for_create real s = if real.0 == 0 then pthread_load_sym s else loads real s

  unfoldable pub load_for_join : ℕ × ℕ → S → Load S (ℕ × ℕ)
  unfolding pthread_load_sym
  load_for_join real s = if real.1 == 0 then pthread_load_sym s else loads real s

  -- The function that is called in the end, and `real_main`, which `fake_main` calls.
  unfoldable pub libc_start_main : (main : ℕ) → S → Load S (ℕ × ℕ)
  libc_start_main main s =
      let (libc_handle, s1) = l.dlopen s in
      if libc_handle == 0
      then exits
      else (let (sym, s2) = l.dlsym libc_handle sym_libc_start_main s1 in
          if sym == 0
          then exits
          else (let (status, s3) = l.dlclose libc_handle s2 in
              if status == 0 then loads (sym, main) s3 else exits))

  module _ (s : S) where
    -- The results of the four calls when each is made.
    abbrev pub handle : ℕ × S
    handle = l.dlopen s

    abbrev pub create_sym : ℕ × S
    create_sym = l.dlsym handle.0 sym_pthread_create handle.1

    abbrev pub join_sym : ℕ × S
    join_sym = l.dlsym handle.0 sym_pthread_join create_sym.1

    abbrev pub closed : ℕ × S
    closed = l.dlclose handle.0 join_sym.1

    -- The lookup of a wrapper of `pthread_join` that has no function yet: it goes on exactly when the C
    -- library opens, has a `pthread_create`, and closes again; it ends the process otherwise. Whether
    -- there is a `pthread_join` makes no difference: NULL is taken for it too.
    pub load_for_join_exact :
        (create : ℕ)
        → ((handle.0 ≢ 0)
            × (create_sym.0 ≢ 0)
            × (closed.0 ≡ 0)
            × (load_for_join (create, 0) s ≡ loads (create_sym.0, join_sym.0) closed.1))
          ⊎ (((handle.0 ≡ 0) ⊎ ((create_sym.0 ≡ 0) ⊎ (closed.0 ≢ 0)))
              × (load_for_join (create, 0) s ≡ exits))
    unfolding load_for_join
    load_for_join_exact create = elim (Bool-cases (handle.0 == 0)) [
      | inl h ↦ inr (inl (ground arith), ground (arith, h))
      | inr h ↦ elim (Bool-cases (create_sym.0 == 0)) [
        | inl c ↦ inr (inr (inl (ground arith)), ground (arith, h, c))
        | inr c ↦ elim (Bool-cases (closed.0 == 0)) [
          | inl d ↦ inl (ground arith, ground arith, ground arith, ground (arith, h, c, d))
          | inr d ↦ inr (inr (inr (ground arith)), ground (arith, h, c, d))
        ]
      ]
    ]

  -- A wrapper of `pthread_create` that goes on has a function to call.
  pub load_for_create-loads :
      (real : ℕ × ℕ) (s s' : S) (create join : ℕ)
      → load_for_create real s ≡ loads (create, join) s'
      → create ≢ 0
  unfolding load_for_create
  load_for_create-loads real s s' create join h e = ground arith

  -- The C library starts `fake_main`, and `fake_main` finds the program's `main`, or the process ends.
  pub libc_start_main_swaps :
      (main : ℕ) (s s' : S) (start real_main : ℕ)
      → libc_start_main main s ≡ loads (start, real_main) s'
      → (start ≢ 0) × (real_main ≡ main)
  unfolding libc_start_main
  libc_start_main_swaps main s s' start real_main h = ground arith
