-- ===== src/System.antt =====
-- The process as a transition system, in the single-threaded build: a step is a call of the library by
-- the program, code of the program that leaves the manager (src/sdrad.h) alone, or a fault that is
-- caught.
pub mod Invariant
pub mod Refine
pub mod Process
pub mod Recovery
use secure_rewind_and_discar.Base.{ℕ, ◌≡◌, ◌≢◌, Bool, true, false, some}
use secure_rewind_and_discar.Base.Int.{ℤ, pos}
use secure_rewind_and_discar.Codes.{root_domain, sdrad_return_to_parent, has_flag}
use secure_rewind_and_discar.State.{Thread}
use secure_rewind_and_discar.Platform.{Build, Platform}
use secure_rewind_and_discar.Alloc.{malloc, realloc, posix_memalign, free}
use secure_rewind_and_discar.UdiHeap.{
  sdrad_malloc, sdrad_realloc, sdrad_calloc, sdrad_memalign, sdrad_free,
}
use secure_rewind_and_discar.Machine.{World, Cmd, done, and_then, pure, ◌>>◌, ◌>>=◌}
use secure_rewind_and_discar.Init.{sdrad_init_base}
use secure_rewind_and_discar.Gate.{sdrad_enter, sdrad_exit, sdrad_enter_root, sdrad_exit_root}
use secure_rewind_and_discar.Destroy.{sdrad_destroy, sdrad_deinit}
use secure_rewind_and_discar.Protect.{sdrad_dprotect}
use secure_rewind_and_discar.Rewind.{jumps, sdrad_abnormal_domain_exit, sdrad_init_destroy}

-- The calls that neither make nor end a domain.
pub data Request : Type 0 where
  enter : (udi rsp : ℕ) → Request
  exit : Request
  enter_root : (rsp : ℕ) → Request
  exit_root : Request
  deinit : (udi : ℕ) → Request
  dprotect : (udi source_domain_index access_status : ℕ) → Request
  domain_malloc : (udi size : ℕ) → Request
  domain_realloc : (udi ptr size : ℕ) → Request
  domain_calloc : (udi nelem elsize : ℕ) → Request
  domain_memalign : (udi alignment size : ℕ) → Request
  domain_free : (udi ptr : ℕ) → Request
  c_realloc : (ptr size : ℕ) → Request
  c_memalign : (alignment size : ℕ) → Request
  c_free : (ptr : ℕ) → Request

-- What a step may do to the user indices: name a domain by one, end domains, or neither.
pub data Label : Type 0 where
  makes : (udi : ℕ) → Label
  ends : Label
  other : Label

module _ {S : Type 0} (p : Platform S) (b : Build) where
  abbrev pub perform : Request → Cmd S (Unit {0})
  perform (enter udi rsp) = sdrad_enter p b udi rsp >> pure tt
  perform exit = sdrad_exit p b >> pure tt
  perform (enter_root rsp) = sdrad_enter_root p b rsp >> pure tt
  perform exit_root = sdrad_exit_root p b >> pure tt
  perform (deinit udi) = sdrad_deinit p b udi >> pure tt
  perform (dprotect udi source_domain_index access_status) =
      sdrad_dprotect p b udi source_domain_index access_status >> pure tt
  perform (domain_malloc udi size) = sdrad_malloc p b udi size >> pure tt
  perform (domain_realloc udi ptr size) = sdrad_realloc p b udi ptr size >> pure tt
  perform (domain_calloc udi nelem elsize) = sdrad_calloc p b udi nelem elsize >> pure tt
  perform (domain_memalign udi alignment size) = sdrad_memalign p b udi alignment size >> pure tt
  perform (domain_free udi ptr) = sdrad_free p b udi ptr
  perform (c_realloc ptr size) = realloc p b ptr size >> pure tt
  perform (c_memalign alignment size) = posix_memalign p b alignment size >> pure tt
  perform (c_free ptr) = free p b ptr

  -- `malloc` is called once the constructor has run, and the kernel gives no key out that the root domain
  -- has. A caught fault is followed by the rewinding, for domains without SDRAD_RETURN_TO_PARENT.
  pub data Step : Label → World S → World S → Type 0 where
    runs : {w v : World S} → v.sgm ≡ w.sgm → Step other w v
    calls : {w v : World S} (q : Request) → perform q w ≡ done tt v → Step other w v
    allocates :
        {w v : World S} (size r : ℕ)
        → w.sdrad_constructor_flag ≡ true
        → malloc p b size w ≡ done r v
        → Step other w v
    inits :
        {w v : World S} (base udi : ℕ) (r : ℤ)
        → (w.frames base).udi ≡ udi
        → (p.pkey_alloc w.os).0 ≢ w.sgm.pdi root_domain
        → sdrad_init_base p b base w ≡ done r v
        → Step (makes udi) w v
    destroys :
        {w v : World S} (udi options : ℕ) (r : ℤ)
        → sdrad_destroy p b udi options w ≡ done r v
        → Step ends w v
    rewinds :
        {w u v : World S} (udi buffer r : ℕ) (t : Thread)
        → w.sgm.stm_ptr root_domain ≡ some t
        → has_flag (t.sdrad_d_info t.active_domain).sdi_options sdrad_return_to_parent ≡ false
        → sdrad_abnormal_domain_exit p b w ≡ done (jumps buffer) u
        → sdrad_init_destroy p b udi u ≡ done r v
        → Step ends w v

  pub data Reach (w : World S) : World S → Type 0 where
    here : Reach w w
    next : {u v : World S} (a : Label) → Reach w u → Step a u v → Reach w v
