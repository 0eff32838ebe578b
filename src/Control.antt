-- ===== src/Control.antt =====
-- The linked list at `udi_control_head` (src/sdrad.c): which domain a user index stands for. Its nodes
-- are reached from the head alone, so the list is a list of nodes.
pub mod Lookup
pub mod Gone
pub mod Memory
use secure_rewind_and_discar.Base.{ℕ, Bool, Option, none, some, List, [], ◌∷◌, ◌==◌, if◌then◌else◌}
use secure_rewind_and_discar.Base.Int.{ℤ, pos}
use secure_rewind_and_discar.Codes.{sdrad_error_domain_no_map}
use secure_rewind_and_discar.State.{UdiControl}

-- The mutex that the loop runs under is released again on every path.
unfoldable pub sdrad_search_udi_control : (udi : ℕ) → List UdiControl → ℤ
sdrad_search_udi_control udi [] = sdrad_error_domain_no_map
sdrad_search_udi_control udi (c ∷ rest) =
    if c.udi == udi then pos c.sdi else sdrad_search_udi_control udi rest

-- The loop of `sdrad_delete_control_structure`, behind the first node: the first node of the domain is
-- unlinked, and its address is returned, for `free`.
unfoldable pub unlink_after : (sdi : ℕ) → List UdiControl → List UdiControl × Option ℕ
unlink_after sdi [] = ([], none)
unlink_after sdi (c ∷ rest) =
    let (kept, freed) = unlink_after sdi rest in
    if c.sdi == sdi then (rest, some c.node) else (c ∷ kept, freed)

-- A first node that matches is unlinked and not freed.
unfoldable pub unlink : (sdi : ℕ) → List UdiControl → List UdiControl × Option ℕ
unfolding unlink_after
unlink sdi [] = ([], none)
unlink sdi (c ∷ rest) =
    let (kept, freed) = unlink_after sdi rest in
    if c.sdi == sdi then (rest, none) else (c ∷ kept, freed)
