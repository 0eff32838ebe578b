-- ===== src/Examples/Tables.antt =====
-- The tables and lists of the example process.
use secure_rewind_and_discar.Base.{◌+◌, ◌<◌, ◌≤◌, ◌≡◌, true, List, [], ◌∷◌, arith}
use secure_rewind_and_discar.Codes.{sdrad_error_domain_no_map, sdrad_tlsf_max_heap_size}
use secure_rewind_and_discar.State.{UdiControl}
use secure_rewind_and_discar.Control.{sdrad_search_udi_control, unlink}
use secure_rewind_and_discar.Control.Lookup.{Distinct, unlink-search}
use secure_rewind_and_discar.Pools.{large_heap, add_pools}
use secure_rewind_and_discar.Pools.Cover.{add_pools_exact, large_heap_tiles, pools}
use secure_rewind_and_discar.Examples.{small_platform}

abbrev two_nodes : List UdiControl
two_nodes =
    record { node = 0x2100; udi = 8; sdi = 3 } ∷ record { node = 0x2000; udi = 7; sdi = 2 } ∷ []

two_nodes-Distinct : Distinct two_nodes
two_nodes-Distinct = (((omega arith, omega arith), tt), (tt, tt))

unlink-search_example :
    Distinct (record { node = 0x2100; udi = 8; sdi = 3 } ∷ [])
    × (sdrad_search_udi_control 7 (unlink 2 two_nodes).0 ≡ sdrad_error_domain_no_map)
unfolding sdrad_search_udi_control unlink
unlink-search_example = unlink-search 2 7 two_nodes two_nodes-Distinct

large_heap_tiles_example :
    let first = small_platform.tlsf_create_with_pool 0x100000 0x100000000 0 in
    let full = pools small_platform 1 first.0 0x100100000 first.1 in
    (large_heap small_platform true 0x100000 0x280000000 0
      ≡ (first.0, small_platform.tlsf_add_pool first.0 0x200100000 0x80000000 full))
    × (0 < 0x80000000)
    × (0x80000000 ≤ sdrad_tlsf_max_heap_size)
    × (0x200000000 + 0x80000000 ≡ 0x280000000)
large_heap_tiles_example = large_heap_tiles small_platform 0x100000 0x280000000 0 (omega arith) true

add_pools_exact_example :
    (add_pools small_platform 3 0x100000 0x280000000 0x100000 0
      ≡ (0x80000000, 0x200100000, pools small_platform 2 0x100000 0x100000 0))
    × (0x80000000 ≤ sdrad_tlsf_max_heap_size)
add_pools_exact_example =
    add_pools_exact small_platform 0x100000 3 0x280000000 0x100000 0 (omega arith)
