-- ===== src/Tests/Chunks.antt =====
-- Reloads for stale chunks at concrete times.
use shareframe_board.Common.{◌+◌, ◌≡◌, true, [], ◌∷◌, ltb}
use shareframe_board.StaleChunk.{
  retry_after, last_reload, reload_for_stale_chunk, reload_all, are_spaced, new_tab,
  reload_for_stale_chunk-reload_all,
}

reload_for_stale_chunk-reload_all_example :
    let after =
      (reload_for_stale_chunk 95000 (reload_all (40000 ∷ 45000 ∷ 71000 ∷ []) new_tab)).0 in
    (are_spaced after.reloads ≡ true) × (ltb 95000 (last_reload after + retry_after) ≡ true)
reload_for_stale_chunk-reload_all_example =
    reload_for_stale_chunk-reload_all (40000 ∷ 45000 ∷ 71000 ∷ []) 95000
