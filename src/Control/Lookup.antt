-- ===== src/Control/Lookup.antt =====
-- The list as a map from user indices to domains.
use secure_rewind_and_discar.Base.{ℕ, ◌≡◌, ◌≢◌, refl, List, [], ◌∷◌, if◌then◌else◌, arith, All}
use secure_rewind_and_discar.Base.Int.{pos, eqb_ℤ}
use secure_rewind_and_discar.Codes.{sdrad_error_domain_no_map}
use secure_rewind_and_discar.State.{UdiControl}
use secure_rewind_and_discar.Control.{sdrad_search_udi_control, unlink, unlink_after}

-- Every user index and every domain stands in one node at most.
abbrev pub Distinct : List UdiControl → Type 0
Distinct [] = Unit {0}
Distinct (c ∷ rest) = All (λ o. (o.udi ≢ c.udi) × (o.sdi ≢ c.sdi)) rest × Distinct rest

search-All :
    (udi sdi : ℕ) (c : UdiControl) (l : List UdiControl)
    → All (λ o. (o.udi ≢ c.udi) × (o.sdi ≢ c.sdi)) l
    → (sdrad_search_udi_control c.udi l ≡ sdrad_error_domain_no_map)
      × (sdrad_search_udi_control udi l ≢ pos c.sdi)
unfolding sdrad_search_udi_control
search-All udi sdi c [] h = ground arith
search-All udi sdi c (o ∷ l) h = ground (arith, search-All udi sdi c l h.1)

unlink_after-All :
    (sdi : ℕ) (c : UdiControl) (l : List UdiControl)
    → All (λ o. (o.udi ≢ c.udi) × (o.sdi ≢ c.sdi)) l
    → All (λ o. (o.udi ≢ c.udi) × (o.sdi ≢ c.sdi)) (unlink_after sdi l).0
unfolding unlink_after
unlink_after-All sdi c [] h = tt
unlink_after-All sdi c (o ∷ l) h = ground (arith, unlink_after-All sdi c l h.1)

unlink_after-search :
    (sdi udi : ℕ) (l : List UdiControl)
    → Distinct l
    → (Distinct (unlink_after sdi l).0)
      × (sdrad_search_udi_control udi (unlink_after sdi l).0 ≡ (
          if eqb_ℤ (sdrad_search_udi_control udi l) (pos sdi)
          then sdrad_error_domain_no_map
          else sdrad_search_udi_control udi l))
unfolding unlink_after sdrad_search_udi_control
unlink_after-search sdi udi [] h = (tt, refl)
unlink_after-search sdi udi (c ∷ l) h = ground (
  arith,
  search-All udi sdi c l h.0,
  unlink_after-All sdi c l h.0,
  unlink_after-search sdi udi l h.1,
)

-- Deleting the node of a domain keeps the nodes distinct, and takes from the map exactly the user index
-- that stood for the domain: every other index is found as before.
pub unlink-search :
    (sdi udi : ℕ) (l : List UdiControl)
    → Distinct l
    → (Distinct (unlink sdi l).0)
      × (sdrad_search_udi_control udi (unlink sdi l).0 ≡ (
          if eqb_ℤ (sdrad_search_udi_control udi l) (pos sdi)
          then sdrad_error_domain_no_map
          else sdrad_search_udi_control udi l))
unfolding unlink sdrad_search_udi_control
unlink-search sdi udi [] h = (tt, refl)
unlink-search sdi udi (c ∷ l) h = ground (
  arith,
  search-All udi sdi c l h.0,
  unlink_after-All sdi c l h.0,
  unlink_after-search sdi udi l h.1,
)
