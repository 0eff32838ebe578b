-- ===== src/Call.antt =====
-- `sdrad_call` (src/sdrad_api.c): a function is called in a domain of its own, by the stubs.
pub mod Outcome
pub mod Inside
pub mod Whole
use secure_rewind_and_discar.Base.{ℕ, ◌+◌, ◌-◌, Option, some, none, ◌==◌, if◌then◌else◌, update}
use secure_rewind_and_discar.Base.Int.{ℤ, pos, negsuc, eqb_ℤ}
use secure_rewind_and_discar.Codes.{
  sdrad_successful_returned, sdrad_execution_domain, sdrad_nonisolated_domain, sdrad_no_heap_merge,
}
use secure_rewind_and_discar.State.{JmpBuf, InitStack}
use secure_rewind_and_discar.Platform.{Build, Platform}
use secure_rewind_and_discar.UdiHeap.{sdrad_malloc}
use secure_rewind_and_discar.Init.{sdrad_init_base}
use secure_rewind_and_discar.Gate.{sdrad_enter, sdrad_exit}
use secure_rewind_and_discar.Destroy.{sdrad_destroy}
use secure_rewind_and_discar.Machine.{
  World, Cmd, and_then, pure, ◌>>=◌, ◌>>◌, modify, call_void, deref,
}

-- Where the stub of `sdrad_init` puts its frame, what `_setjmp` stores there, and the stack pointers
-- and return addresses of the calls of `sdrad_init` and `sdrad_enter`.
pub record Site : Type 0 where
  pub frame : ℕ
  pub jump : JmpBuf
  pub init_return : ℕ
  pub enter_rsp : ℕ

module _ {S : Type 0} (p : Platform S) (b : Build) where
  -- The stub of `sdrad_init`, when `_setjmp` returns for the first time.
  unfoldable pub sdrad_init : Site → (udi domain_feature : ℕ) → Cmd S ℤ
  sdrad_init site udi domain_feature = do
    modify (λ w. record w {
      frames = update w.frames site.frame (record {
        buffer = site.jump;
        domain_feature = domain_feature;
        udi = udi;
        return_address = site.init_return;
      });
    })
    sdrad_init_base p b site.frame

  -- The result is the code, and what is stored through `ret_p`, if the domain could be made.
  unfoldable pub sdrad_call :
      Site → (udi : ℕ) (funcptr : ℕ → Cmd S ℤ) (argument argument_size : ℕ) → Cmd S (ℤ × Option ℤ)
  sdrad_call site udi funcptr argument argument_size = do
    err ← sdrad_init site udi (sdrad_execution_domain + sdrad_nonisolated_domain)
    if eqb_ℤ err sdrad_successful_returned
        then (do
          ptr_val ← sdrad_malloc p b udi argument_size
          if argument_size == 0 then pure tt else (do deref ptr_val; deref argument)
          call_void (p.memcpy ptr_val argument argument_size)
          sdrad_enter p b udi site.enter_rsp
          ret_val ← funcptr ptr_val
          sdrad_exit p b
          call_void (p.memcpy argument ptr_val argument_size)
          sdrad_destroy p b udi sdrad_no_heap_merge
          pure (err, some ret_val))
        else pure (err, none)
