-- ===== src/Call/Whole.antt =====
-- A call in a domain of its own, from end to end.
use secure_rewind_and_discar.Base.{ℕ, ◌<◌, ◌≡◌, ◌≢◌, false, some}
use secure_rewind_and_discar.Codes.{total_domain, root_domain}
use secure_rewind_and_discar.State.{Thread}
use secure_rewind_and_discar.Platform.{Build, Platform}
use secure_rewind_and_discar.Machine.{World}
use secure_rewind_and_discar.Machine.Returns.{Returns}
use secure_rewind_and_discar.Running.{Running}
use secure_rewind_and_discar.Init.Fresh.{Creatable, created, created_thread}
use secure_rewind_and_discar.Call.{Site}
use secure_rewind_and_discar.Call.Outcome.{framed}

module _ {S : Type 0} (p : Platform S) (b : Build) (single : b.multithread ≡ false) (w : World S)
    (site : Site) (udi n key : ℕ) (t : Thread) (here : w.sgm.stm_ptr root_domain ≡ some t)
    (in_range : t.active_domain < total_domain)
    (able : Creatable p b (framed p b w site udi) ((framed p b w site udi).frames site.frame) n key)
    (other_slot : n ≢ t.active_domain) where
  abbrev start : World S
  start = framed p b w site udi

  abbrev made : World S
  made = created p b (framed p b w site udi) root_domain site.frame n key t

  abbrev maker : Thread
  maker = created_thread p b (framed p b w site udi) root_domain site.frame n key t
