-- ===== src/Valid/Start.antt =====
-- The manager that the constructor sets up is valid.
use secure_rewind_and_discar.Base.{ℕ, ◌<◌, ◌≡◌, ◌≢◌, none, [], arith}
use secure_rewind_and_discar.Base.Int.{pos}
use secure_rewind_and_discar.Codes.{total_domain}
use secure_rewind_and_discar.State.{Manager}
use secure_rewind_and_discar.Platform.{Build, Platform}
use secure_rewind_and_discar.Pools.{sdrad_get_config}
use secure_rewind_and_discar.Boot.{sdrad_constructor, free_tables}
use secure_rewind_and_discar.Boot.Started.{
  monitor, booted, booted_thread, root_thread, threaded, tabled, handled, constructor_lem,
}
use secure_rewind_and_discar.Machine.{World, done}
use secure_rewind_and_discar.Valid.{IsValid, Sound}

-- The tables and lists of static data, which are zero.
pub record Zeroed (g : Manager) : Type 0 where
  pub threads : (i : ℕ) → g.stm_ptr i ≡ none
  pub keys : (d : ℕ) → g.pdi d ≡ pos 0
  pub cached : g.sgm_head ≡ []
  pub listed : g.udi_control_head ≡ []

-- What the constructor needs of the platform: memory for the root thread's record, in which every parent
-- is a domain, and two keys, the second of them, the root domain's, neither 0 nor the first.
pub record Startable {S : Type 0} (p : Platform S) (b : Build) (w : World S) (key : ℕ)
    : Type 0 where
  pub memory : (p.tlsf_malloc (monitor p b w).0.smd_tlsf p.size_of_thread (monitor p b w).2).0 ≢ 0
  pub chosen :
      (p.pkey_alloc (
        p.sigaction 14 (
          p.sigaction 11
            (p.tlsf_malloc (monitor p b w).0.smd_tlsf p.size_of_thread (monitor p b w).2).1))).0
      ≡ pos key
  pub is_key : key < 16
  pub positive : key ≢ 0
  pub monitor_key : (monitor p b w).1 ≢ pos key
  pub blank :
      let node = p.tlsf_malloc (monitor p b w).0.smd_tlsf p.size_of_thread (monitor p b w).2 in
      (d : ℕ) → ((p.raw_thread node.0 node.1).sdrad_d_info d).sdi_parent_domain < total_domain

module _ {S : Type 0} (p : Platform S) (b : Build) (w : World S) (key : ℕ) (zero : Zeroed w.sgm)
    (able : Startable p b w key) where
  unfoldable pub started : World S
  started = booted p b w key able.memory able.chosen able.is_key

  pub start_lem : sdrad_constructor p b w ≡ done tt started
  unfolding started
  start_lem = constructor_lem p b w key able.memory able.chosen able.is_key

  thread-Sound : Sound (booted_thread p b w key able.memory able.chosen able.is_key)
  unfolding booted_thread root_thread sdrad_get_config
  thread-Sound = record { active = ground arith; parents = λ d. ground (arith, able.blank d) }

  pub start-IsValid : IsValid key started.sgm
  unfolding started booted threaded handled tabled free_tables
  start-IsValid = record {
    threads = λ i t e.
        let sound = thread-Sound in
        let q : t ≡ booted_thread p b w key able.memory able.chosen able.is_key =
          ground (arith, zero.threads i) in
        rw q sound;
    present = ground arith;
    root_taken = ground arith;
    root_key = ground arith;
    keys = λ d other. ground (arith, zero.keys d, able.positive, able.monitor_key);
    distinct = rw zero.listed tt;
    listed = rw zero.listed tt;
    cached = rw zero.cached tt;
  }
