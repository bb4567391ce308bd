-- ===== src/StaleChunk.antt =====
-- dashboard-frontend/frontend/src/common/utils/staleChunkReload.ts: the reload of the page after a
-- chunk of the program could not be loaded. The session storage keeps the time of the last reload,
-- printed and read back.
use shareframe_board.Common.{
  ℕ, ◌+◌, ◌≡◌, refl, Bool, true, false, ◌&&◌, Option, none, some, List, [], ◌∷◌, or_else, ltb, leb,
  arith, if◌then◌else◌,
}

abbrev pub retry_after : ℕ
retry_after = 30000

-- The session storage, and the times at which the page was reloaded, newest first.
pub record Tab : Type 0 where
  pub stored : Option ℕ
  pub reloads : List ℕ

abbrev pub last_reload : Tab → ℕ
last_reload tab = or_else tab.stored 0

-- `reloadForStaleChunk` at the time `now`, with what it returns.
unfoldable pub reload_for_stale_chunk : ℕ → Tab → Tab × Bool
reload_for_stale_chunk now tab =
    if ltb now (last_reload tab + retry_after)
    then (tab, false)
    else (record { stored = some now; reloads = now ∷ tab.reloads }, true)

-- One attempt for each chunk that could not be loaded.
unfoldable pub reload_all : List ℕ → Tab → Tab
reload_all [] tab = tab
reload_all (now ∷ later) tab = reload_all later (reload_for_stale_chunk now tab).0

-- Each reload comes at least 30 seconds after the one before it.
abbrev pub are_spaced : List ℕ → Bool
are_spaced [] = true
are_spaced (now ∷ []) = true
are_spaced (now ∷ before ∷ rest) = leb (before + retry_after) now && are_spaced (before ∷ rest)

-- The storage knows the newest reload, if there was one.
abbrev pub knows_last : Tab → Bool
knows_last tab = elim tab.reloads [ [] ↦ true | now ∷ rest ↦ leb now (last_reload tab) ]

reload_for_stale_chunk-are_spaced :
    (now : ℕ) (tab : Tab)
    → (are_spaced tab.reloads && knows_last tab) ≡ true
    → let after = (reload_for_stale_chunk now tab).0 in
      (are_spaced after.reloads && knows_last after) ≡ true
unfolding reload_for_stale_chunk
reload_for_stale_chunk-are_spaced now tab h = ground arith

reload_all-are_spaced :
    (times : List ℕ) (tab : Tab)
    → (are_spaced tab.reloads && knows_last tab) ≡ true
    → (are_spaced (reload_all times tab).reloads && knows_last (reload_all times tab)) ≡ true
unfolding reload_all
reload_all-are_spaced [] tab h = h
reload_all-are_spaced (now ∷ later) tab h =
    reload_all-are_spaced later _ (reload_for_stale_chunk-are_spaced now tab h)

abbrev pub new_tab : Tab
new_tab = record { stored = none; reloads = [] }

-- Whenever chunks fail to load in a new tab, each reload comes at least 30 seconds after the one
-- before it; and after each failure the newest reload is less than 30 seconds old, whether it was
-- made now or before. (A time before 1970-01-01T00:00:30 counts as less than 30 seconds old.)
pub reload_for_stale_chunk-reload_all :
    (times : List ℕ) (now : ℕ)
    → let after = (reload_for_stale_chunk now (reload_all times new_tab)).0 in
      (are_spaced after.reloads ≡ true) × (ltb now (last_reload after + retry_after) ≡ true)
unfolding reload_for_stale_chunk
reload_for_stale_chunk-reload_all times now = ground (
  arith,
  reload_for_stale_chunk-are_spaced now (reload_all times new_tab),
  reload_all-are_spaced times new_tab refl,
)
