-- ===== src/Running.antt =====
-- The running thread, as every entry point finds it.
use secure_rewind_and_discar.Base.{ℕ, ◌<◌, ◌≡◌, Option, none, some}
use secure_rewind_and_discar.Base.Int.{pos}
use secure_rewind_and_discar.Codes.{total_domain}
use secure_rewind_and_discar.State.{DomainInfo, Thread}
use secure_rewind_and_discar.Platform.{Build, Platform}
use secure_rewind_and_discar.Slots.{sdrad_get_sti}
use secure_rewind_and_discar.Machine.{World}

-- The thread has index `sti` and the record `t`, and its active domain is a domain.
pub record Running {S : Type 0} (p : Platform S) (b : Build) (w : World S) (sti : ℕ) (t : Thread)
    : Type 0 where
  pub located : sdrad_get_sti b.multithread w.sgm (p.pthread_self w.os) ≡ some (pos sti)
  pub present : w.sgm.stm_ptr sti ≡ some t
  pub in_range : t.active_domain < total_domain

-- The active domain of the thread with index `sti`.
abbrev pub active_of : {S : Type 0} → World S → ℕ → Option ℕ
active_of w sti = elim (w.sgm.stm_ptr sti) [ none ↦ none | some t ↦ some t.active_domain ]

-- The rights and the record that this thread keeps for domain `d`.
abbrev pub config_of : {S : Type 0} → World S → (sti d : ℕ) → Option ℕ
config_of w sti d = elim (w.sgm.stm_ptr sti) [ none ↦ none | some t ↦ some (t.pkru_config d) ]

abbrev pub info_of : {S : Type 0} → World S → (sti d : ℕ) → Option DomainInfo
info_of w sti d = elim (w.sgm.stm_ptr sti) [ none ↦ none | some t ↦ some (t.sdrad_d_info d) ]
