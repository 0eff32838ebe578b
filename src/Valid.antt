-- ===== src/Valid.antt =====
-- What stays true of the manager (src/sdrad.h) from call to call, in the single-threaded build.
pub mod Gates
pub mod Heaps
pub mod Keeps
pub mod Caching
pub mod Rewinding
pub mod Ends
pub mod Register
pub mod Build
pub mod Makes
pub mod Rights
pub mod Calls
pub mod Start
use secure_rewind_and_discar.Base.{
  ℕ, ◌+◌, ◌<◌, ◌≤◌, ◌≡◌, ◌≢◌, refl, ◌⊎◌, inl, inr, Bool, true, false, Option, none, some, List, [],
  ◌∷◌, arith, ◌==◌, if◌then◌else◌, update, All, Bool-cases,
}
use secure_rewind_and_discar.Base.Int.{ℤ, pos, negsuc, eqb_ℤ}
use secure_rewind_and_discar.Codes.{
  total_domain, root_domain, domain_occupied, domain_nonoccupied, sdrad_error_domain_no_map,
}
use secure_rewind_and_discar.State.{DomainInfo, CacheDomain, UdiControl, Thread, Manager}
use secure_rewind_and_discar.Control.{sdrad_search_udi_control, unlink, unlink_after}
use secure_rewind_and_discar.Control.Lookup.{Distinct, unlink-search}
use secure_rewind_and_discar.Control.Gone.{unlink-All}

-- A thread's active domain and the parents of all its domains are domains.
pub record Sound (t : Thread) : Type 0 where
  pub active : t.active_domain < total_domain
  pub parents : (d : ℕ) → (t.sdrad_d_info d).sdi_parent_domain < total_domain

-- A node of the list stands for an occupied slot whose key is not the root domain's, `rk`.
abbrev pub Occupied : (rk : ℕ) → (ℕ → ℕ) → (ℕ → ℤ) → UdiControl → Type 0
Occupied rk status pdi c =
    (c.sdi < total_domain) × (status c.sdi ≡ domain_occupied) × (pdi c.sdi ≢ pos rk)

pub record IsValid (rk : ℕ) (g : Manager) : Type 0 where
  pub threads : (i : ℕ) (t : Thread) → g.stm_ptr i ≡ some t → Sound t
  pub present : g.stm_ptr root_domain ≢ none
  pub root_taken : g.status root_domain ≡ domain_occupied
  pub root_key : g.pdi root_domain ≡ pos rk
  pub keys : (d : ℕ) → d ≢ root_domain → g.pdi d ≢ pos rk
  pub distinct : Distinct g.udi_control_head
  pub listed : All (Occupied rk g.status g.pdi) g.udi_control_head
  pub cached : All (λ c. c.scdi_pkey ≢ pos rk) g.sgm_head

-- A valid manager whose list of user indices is `l`.
abbrev pub IsValidWith : (rk : ℕ) → List UdiControl → Manager → Type 0
IsValidWith rk l g = IsValid rk g × (g.udi_control_head ≡ l)

-- The list of user indices is as it was, or it has a new node for an index that had none, whose slot
-- was free.
abbrev pub Grown : (udi : ℕ) → Manager → Manager → Type 0
Grown udi g h =
    (h.udi_control_head ≡ g.udi_control_head)
    ⊎ ((node : ℕ) × (n : ℕ) × ((m : ℕ) × (sdrad_search_udi_control udi g.udi_control_head
            ≡ negsuc m))
        × (g.status n ≡ domain_nonoccupied)
        × (h.udi_control_head ≡ record { node = node; udi = udi; sdi = n } ∷ g.udi_control_head))

-- The list of user indices is as it was, or it has lost the node of one domain.
abbrev pub Shrunk : Manager → Manager → Type 0
Shrunk g h =
    (h.udi_control_head ≡ g.udi_control_head)
    ⊎ ((d : ℕ) × (h.udi_control_head ≡ (unlink d g.udi_control_head).0))

-- A user index that is found stands for such a slot.
pub found-Occupied :
    (rk udi n : ℕ) (status : ℕ → ℕ) (pdi : ℕ → ℤ) (l : List UdiControl)
    → All (Occupied rk status pdi) l
    → sdrad_search_udi_control udi l ≡ pos n
    → (n < total_domain) × (status n ≡ domain_occupied) × (pdi n ≢ pos rk)
unfolding sdrad_search_udi_control
found-Occupied rk udi n status pdi [] ok h = ground arith
found-Occupied rk udi n status pdi (c ∷ l) ok h = elim (Bool-cases (c.udi == udi)) [
  | inl hit ↦ let e : c.sdi ≡ n = ground arith in rw e at ok.0
  | inr miss ↦ found-Occupied rk udi n status pdi l ok.1 (ground arith)
]

-- How the tables may change under the list.
module _ (rk : ℕ) (status : ℕ → ℕ) (pdi : ℕ → ℤ) where
  Occupied-freed :
      (d : ℕ) (l : List UdiControl)
      → All (λ o. o.sdi ≢ d) l
      → All (Occupied rk status pdi) l
      → All (Occupied rk (update status d domain_nonoccupied) pdi) l
  Occupied-freed d [] gone ok = tt
  Occupied-freed d (c ∷ l) gone ok = ground (arith, Occupied-freed d l gone.1 ok.1)

  Occupied-cleared :
      (i : ℕ) (l : List UdiControl)
      → rk ≢ 0
      → All (Occupied rk status pdi) l
      → All (Occupied rk status (update pdi i (pos 0))) l
  Occupied-cleared i [] rk_pos ok = tt
  Occupied-cleared i (c ∷ l) rk_pos ok = ground (arith, Occupied-cleared i l rk_pos ok.1)

  Occupied-taken :
      (n : ℕ) (pkey : ℤ) (l : List UdiControl)
      → status n ≡ domain_nonoccupied
      → All (Occupied rk status pdi) l
      → All (Occupied rk (update status n domain_occupied) (update pdi n pkey)) l
  Occupied-taken n pkey [] free ok = tt
  Occupied-taken n pkey (c ∷ l) free ok = ground (arith, Occupied-taken n pkey l free ok.1)

  fresh_node :
      (udi n m : ℕ) (l : List UdiControl)
      → status n ≡ domain_nonoccupied
      → sdrad_search_udi_control udi l ≡ negsuc m
      → All (Occupied rk status pdi) l
      → All (λ o. (o.udi ≢ udi) × (o.sdi ≢ n)) l
  unfolding sdrad_search_udi_control
  fresh_node udi n m [] free unmapped ok = tt
  fresh_node udi n m (c ∷ l) free unmapped ok = ground (arith, fresh_node udi n m l free, ok.1)

module _ (rk : ℕ) (g : Manager) (ok : IsValid rk g) where
  pub IsValid-put :
      (i : ℕ) (t : Thread)
      → Sound t
      → IsValid rk (record g { stm_ptr = update g.stm_ptr i (some t) })
  IsValid-put i t sound = record {
    threads = λ j u e. elim (Bool-cases (i == j)) [
      | inl same ↦ let q : t ≡ u = ground arith in rw (← q) sound
      | inr other ↦ ok.threads j u (ground arith)
    ];
    present = ground (arith, ok.present);
    root_taken = ok.root_taken;
    root_key = ok.root_key;
    keys = ok.keys;
    distinct = ok.distinct;
    listed = ok.listed;
    cached = ok.cached;
  }

  -- A new node for a free slot.
  pub IsValid-take :
      (node udi n m sti : ℕ) (pkey : ℤ)
      → n < total_domain
      → g.status n ≡ domain_nonoccupied
      → sdrad_search_udi_control udi g.udi_control_head ≡ negsuc m
      → pkey ≢ pos rk
      → IsValid rk (record g {
        status = update g.status n domain_occupied;
        sgm_sdi_to_tdi = update g.sgm_sdi_to_tdi n sti;
        pdi = update g.pdi n pkey;
        udi_control_head = record { node = node; udi = udi; sdi = n } ∷ g.udi_control_head;
      })
  IsValid-take node udi n m sti pkey room free unmapped other_key =
      let not_root : n ≢ root_domain = λ e. ground (arith, ok.root_taken) in
      record {
        threads = ok.threads;
        present = ok.present;
        root_taken = ground (arith, ok.root_taken);
        root_key = ground (arith, ok.root_key);
        keys = λ d other. ground (arith, ok.keys d other);
        distinct = (
          fresh_node rk g.status g.pdi udi n m g.udi_control_head free unmapped ok.listed,
          ok.distinct,
        );
        listed = (
          (room, ground arith, ground arith),
          Occupied-taken rk g.status g.pdi n pkey g.udi_control_head free ok.listed,
        );
        cached = ok.cached;
      }

  pub IsValid-cache :
      (c : CacheDomain) → c.scdi_pkey ≢ pos rk → IsValid rk (record g { sgm_head = c ∷ g.sgm_head })
  IsValid-cache c other_key = record {
    threads = ok.threads;
    present = ok.present;
    root_taken = ok.root_taken;
    root_key = ok.root_key;
    keys = ok.keys;
    distinct = ok.distinct;
    listed = ok.listed;
    cached = (other_key, ok.cached);
  }

  pub IsValid-unlink :
      (d : ℕ) → IsValid rk (record g { udi_control_head = (unlink d g.udi_control_head).0 })
  IsValid-unlink d = record {
    threads = ok.threads;
    present = ok.present;
    root_taken = ok.root_taken;
    root_key = ok.root_key;
    keys = ok.keys;
    distinct = (unlink-search d 0 g.udi_control_head ok.distinct).0;
    listed = unlink-All _ d g.udi_control_head ok.listed;
    cached = ok.cached;
  }

  -- A slot without a node is freed.
  pub IsValid-free :
      (d : ℕ)
      → d ≢ root_domain
      → All (λ o. o.sdi ≢ d) g.udi_control_head
      → IsValid rk (record g { status = update g.status d domain_nonoccupied })
  IsValid-free d not_root gone = record {
    threads = ok.threads;
    present = ok.present;
    root_taken = ground (arith, ok.root_taken);
    root_key = ok.root_key;
    keys = ok.keys;
    distinct = ok.distinct;
    listed = Occupied-freed rk g.status g.pdi d g.udi_control_head gone ok.listed;
    cached = ok.cached;
  }

  pub IsValid-clear :
      (i : ℕ)
      → rk ≢ 0
      → i ≢ root_domain
      → IsValid rk
          (record g { sgm_udi_to_sdi = update g.sgm_udi_to_sdi i 0; pdi = update g.pdi i (pos 0) })
  IsValid-clear i rk_pos not_root = record {
    threads = ok.threads;
    present = ok.present;
    root_taken = ok.root_taken;
    root_key = ground (arith, ok.root_key);
    keys = λ d other. ground (arith, ok.keys d other);
    distinct = ok.distinct;
    listed = Occupied-cleared rk g.status g.pdi i g.udi_control_head rk_pos ok.listed;
    cached = ok.cached;
  }
