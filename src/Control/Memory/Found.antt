-- ===== src/Control/Memory/Found.antt =====
-- A whole call of `sdrad_search_udi_control` on the nodes in memory, also behind an insertion.
