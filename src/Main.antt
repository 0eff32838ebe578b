-- ===== src/Main.antt =====
-- `fake_main` (src/sdrad.c), which the C library starts in the place of the program's `main`: the program
-- runs on the root domain's stack.
use secure_rewind_and_discar.Base.{ℕ, ◌+◌, ◌-◌, ◌≤◌, ◌≡◌, some, arith, update}
use secure_rewind_and_discar.Base.Int.{ℤ}
use secure_rewind_and_discar.Codes.{root_domain}
use secure_rewind_and_discar.State.{Thread}
use secure_rewind_and_discar.Platform.{Build, Platform}
use secure_rewind_and_discar.Gate.{
  sdrad_enter_root, sdrad_enter_root_base, sdrad_exit_root, sdrad_exit_root_base,
}
use secure_rewind_and_discar.Machine.{World, Cmd, done, pure, ◌>>=◌}
use secure_rewind_and_discar.Machine.Returns.{Returns}
use secure_rewind_and_discar.Running.{Running}

module _ {S : Type 0} (p : Platform S) (b : Build) where
  -- `rsp` is the stack pointer at the call of `sdrad_enter_root`. The result is what the program's `main`
  -- returns, and the stack pointer after the call of `sdrad_exit_root`.
  unfoldable pub fake_main : (real_main : ℕ → Cmd S ℤ) (rsp : ℕ) → Cmd S (ℤ × ℕ)
  fake_main real_main rsp = do
    stack ← sdrad_enter_root p b rsp
    ret ← real_main stack
    back ← sdrad_exit_root p b
    pure (ret, back)

module _ {S : Type 0} (p : Platform S) (b : Build) (w : World S) (sti rsp : ℕ) (t : Thread)
    (run : Running p b w sti t) where
  -- The state in which the program's `main` begins.
  unfoldable pub begun_thread : Thread
  begun_thread = record t {
    sdrad_d_info =
        update t.sdrad_d_info root_domain
          (record (t.sdrad_d_info root_domain) { sdi_root_rsp = rsp - 8 + 16 });
  }

  unfoldable pub begun : World S
  unfolding begun_thread
  begun = record w {
    pkru = t.pkru_config root_domain;
    sgm = record (w.sgm) { stm_ptr = update w.sgm.stm_ptr sti (some begun_thread) };
  }

  abbrev pub stack_top : ℕ
  stack_top = let d = t.sdrad_d_info root_domain in d.sdi_address_stack + d.sdi_size_of_stack

  enter_root_lem : sdrad_enter_root p b rsp w ≡ done stack_top begun
  unfolding sdrad_enter_root sdrad_enter_root_base begun
  enter_root_lem = ground arith

  -- The program's `main` starts at the top of the root domain's stack with the root domain's rights. When
  -- it returns in the same thread, and that thread's record still holds the stack pointer saved for
  -- the root domain, then its result is the process's, the stack pointer is the one that a plain
  -- return of the first call would have given, the register holds the root domain's rights, and
  -- the manager is as `main` left it.
  pub main_comes_back :
      (real_main : ℕ → Cmd S ℤ) (r : ℤ) (v : World S) (u : Thread)
      → 8 ≤ rsp
      → real_main stack_top begun ≡ done r v
      → Running p b v sti u
      → (u.sdrad_d_info root_domain).sdi_root_rsp
        ≡ (begun_thread.sdrad_d_info root_domain).sdi_root_rsp
      → Returns
          (λ result x.
            (result ≡ (r, rsp + 8)) × (x.pkru ≡ u.pkru_config root_domain) × (x.sgm ≡ v.sgm))
          (fake_main p b real_main rsp w)
  unfolding fake_main sdrad_exit_root sdrad_exit_root_base begun_thread
  main_comes_back real_main r v u room main still kept =
      ground (arith, enter_root_lem, main, still, kept)
