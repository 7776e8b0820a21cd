-- ===== src/Sidecar/Seen.antt =====
-- `seenBefore` of the sidecars: the ids that were accepted last, oldest first.
pub mod Window
use inter_agent_bus.Base.{
  ℕ, Bool, true, false, List, [], ◌∷◌, ◌++◌, Text, ltb, length, drop, if◌then◌else◌,
}
use inter_agent_bus.Paths.{includes}

abbrev pub dedupe_lru_size : ℕ
dedupe_lru_size = 256

-- One id too many: the oldest goes.
unfoldable pub evict : List Text → List Text
evict ids = if ltb dedupe_lru_size (length ids) then drop 1 ids else ids

unfoldable pub seen_before : Text → List Text → Bool × List Text
unfolding evict
seen_before id ids = if includes id ids then (true, ids) else (false, evict (ids ++ id ∷ []))
