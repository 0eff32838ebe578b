-- ===== src/System/Refine.antt =====
-- The list of user indices is a partial one-to-one map from user indices to domains.
use secure_rewind_and_discar.Base.{
  ℕ, ◌≡◌, ◌≢◌, refl, inl, inr, false, ◌∷◌, Option, some, none, arith, ◌==◌, if◌then◌else◌,
}
use secure_rewind_and_discar.Base.Int.{ℤ, pos, negsuc, eqb_ℤ, ℤ-cases}
use secure_rewind_and_discar.Codes.{sdrad_error_domain_no_map, domain_nonoccupied}
use secure_rewind_and_discar.State.{Manager}
use secure_rewind_and_discar.Platform.{Build, Platform}
use secure_rewind_and_discar.Control.{sdrad_search_udi_control, unlink}
use secure_rewind_and_discar.Control.Lookup.{unlink-search}
use secure_rewind_and_discar.Machine.{World}
use secure_rewind_and_discar.Valid.{IsValid, Grown, Shrunk, found-Occupied}
use secure_rewind_and_discar.System.{Label, makes, ends, other, Step}
use secure_rewind_and_discar.System.Invariant.{Step-IsValid, Changed}

-- The specification: the domain of each user index.
abbrev pub DomainMap : Type 0
DomainMap = ℕ → Option ℕ

abbrev without : (d : ℕ) → Option ℕ → Option ℕ
without d none = none
without d (some n) = if n == d then none else some n

-- What a step may do: nothing, give a new user index a domain that no index has, or take a domain away
-- from the index that has it.
pub data MapStep : Label → DomainMap → DomainMap → Type 0 where
  stays : {m n : DomainMap} (a : Label) → ((u : ℕ) → n u ≡ m u) → MapStep a m n
  adds :
      {m n : DomainMap} (udi d : ℕ)
      → m udi ≡ none
      → ((u : ℕ) → m u ≢ some d)
      → ((u : ℕ) → n u ≡ (if udi == u then some d else m u))
      → MapStep (makes udi) m n
  drops : {m n : DomainMap} (d : ℕ) → ((u : ℕ) → n u ≡ without d (m u)) → MapStep ends m n

as_domain : ℤ → Option ℕ
as_domain (pos d) = some d
as_domain (negsuc _) = none

unfoldable pub map_of : Manager → DomainMap
unfolding as_domain
map_of g u = as_domain (sdrad_search_udi_control u g.udi_control_head)

same_map :
    (g h : Manager) (u : ℕ) → h.udi_control_head ≡ g.udi_control_head → map_of h u ≡ map_of g u
unfolding map_of
same_map g h u e = rw e refl

unmapped_map :
    (g : Manager) (udi m : ℕ)
    → sdrad_search_udi_control udi g.udi_control_head ≡ negsuc m
    → map_of g udi ≡ none
unfolding map_of as_domain
unmapped_map g udi m e = rw e refl

grown_map :
    (g h : Manager) (node n udi u : ℕ)
    → h.udi_control_head ≡ record { node = node; udi = udi; sdi = n } ∷ g.udi_control_head
    → map_of h u ≡ (if udi == u then some n else map_of g u)
unfolding map_of as_domain sdrad_search_udi_control
grown_map g h node n udi u e = rw e (ground arith)

without_lem :
    (d : ℕ) (z : ℤ)
    → as_domain (if eqb_ℤ z (pos d) then sdrad_error_domain_no_map else z) ≡ without d (as_domain z)
unfolding as_domain
without_lem d (pos n) = ground arith
without_lem d (negsuc n) = ground arith

module _ (rk : ℕ) (g h : Manager) (ok : IsValid rk g) where
  shrunk_map :
      (d u : ℕ)
      → h.udi_control_head ≡ (unlink d g.udi_control_head).0
      → map_of h u ≡ without d (map_of g u)
  unfolding map_of
  shrunk_map d u e =
      rw (e, (unlink-search d u g.udi_control_head ok.distinct).1)
        (without_lem d (sdrad_search_udi_control u g.udi_control_head))

  -- A free domain stands in no node.
  unused : (n u : ℕ) → g.status n ≡ domain_nonoccupied → map_of g u ≢ some n
  unfolding map_of as_domain
  unused n u free e = elim (ℤ-cases (sdrad_search_udi_control u g.udi_control_head)) [
    | inr (m, q) ↦ ground (arith, q)
    | inl (k, q) ↦
        ground (arith, q, found-Occupied rk u k g.status g.pdi g.udi_control_head ok.listed q)
  ]

  Grown-MapStep : (udi : ℕ) → Grown udi g h → MapStep (makes udi) (map_of g) (map_of h)
  Grown-MapStep udi (inl e) = MapStep.stays (makes udi) (λ u. same_map g h u e)
  Grown-MapStep udi (inr (node, n, (m, unmapped), free, e)) =
      MapStep.adds udi n (unmapped_map g udi m unmapped) (λ u. unused n u free)
        (λ u. grown_map g h node n udi u e)

  Shrunk-MapStep : Shrunk g h → MapStep ends (map_of g) (map_of h)
  Shrunk-MapStep (inl e) = MapStep.stays ends (λ u. same_map g h u e)
  Shrunk-MapStep (inr (d, e)) = MapStep.drops d (λ u. shrunk_map d u e)

module _ {S : Type 0} (p : Platform S) (b : Build) (single : b.multithread ≡ false) (rk : ℕ)
    (rk_pos : rk ≢ 0) where
  simulates :
      (a : Label) (g h : Manager) → IsValid rk g → Changed a g h → MapStep a (map_of g) (map_of h)
  simulates (makes udi) g h ok grown = Grown-MapStep rk g h ok udi grown
  simulates ends g h ok shrunk = Shrunk-MapStep rk g h ok shrunk
  simulates other g h ok e = MapStep.stays other (λ u. same_map g h u e)

  pub simulates_map :
      (a : Label) {w v : World S}
      → IsValid rk w.sgm
      → Step p b a w v
      → MapStep a (map_of w.sgm) (map_of v.sgm)
  simulates_map a {w} {v} ok step =
      simulates a w.sgm v.sgm ok (Step-IsValid p b single rk rk_pos a ok step).1
