-- ===== src/Codex/Bus/Resume.antt =====
-- What is left of a bus when those that waited for a start have gone on.
use inter_agent_bus.Base.{
  Bool, true, false, ◌||◌, ◌&&◌, List, [], ◌∷◌, ◌≡◌, arith, any, any-append, if◌then◌else◌,
}
use inter_agent_bus.Codex.Bus.{
  Bus, Task, no_watch, stop_to_update, stop_to_disable, wait_to_enable, wait_to_disable,
  wait_of_watch, resume, resume_one, stop_or_done,
}

unfoldable pub is_update : Task → Bool
is_update (stop_to_update ready) = true
is_update _ = false

unfoldable pub is_stop_to_disable : Task → Bool
is_stop_to_disable stop_to_disable = true
is_stop_to_disable _ = false

unfoldable pub is_wait_to_disable : Task → Bool
is_wait_to_disable wait_to_disable = true
is_wait_to_disable _ = false

unfoldable pub is_watcher : Task → Bool
is_watcher wait_of_watch = true
is_watcher _ = false

-- What one that goes on changes; the rest stays.
pub record Resumed (ts : List Task) (b u : Bus) : Type 0 where
  pub desired : u.desired_enabled ≡ b.desired_enabled
  pub started : u.sidecar_started ≡ b.sidecar_started
  pub starting : u.starting ≡ b.starting
  pub error : u.last_error ≡ b.last_error
  pub watch : u.watch ≡ (if any is_watcher ts then no_watch else b.watch)
  pub updates : any is_update u.tasks ≡ (any is_update ts || any is_update b.tasks)
  pub stops : any is_stop_to_disable u.tasks ≡ (
      any is_stop_to_disable ts
      || b.sidecar_started && any is_wait_to_disable ts
      || any is_stop_to_disable b.tasks)
  pub waits : any is_wait_to_disable u.tasks ≡ any is_wait_to_disable b.tasks
  pub watchers : any is_watcher u.tasks ≡ any is_watcher b.tasks

resume_one-Resumed : (t : Task) (b : Bus) → Resumed (t ∷ []) b (resume_one t b).0
unfolding resume_one stop_or_done any is_update is_stop_to_disable is_wait_to_disable is_watcher
resume_one-Resumed (stop_to_update ready) b = ground (
  arith,
  any-append is_update b.tasks (stop_to_update ready ∷ []),
  any-append is_stop_to_disable b.tasks (stop_to_update ready ∷ []),
  any-append is_wait_to_disable b.tasks (stop_to_update ready ∷ []),
  any-append is_watcher b.tasks (stop_to_update ready ∷ []),
)
resume_one-Resumed stop_to_disable b = ground (
  arith,
  any-append is_update b.tasks (stop_to_disable ∷ []),
  any-append is_stop_to_disable b.tasks (stop_to_disable ∷ []),
  any-append is_wait_to_disable b.tasks (stop_to_disable ∷ []),
  any-append is_watcher b.tasks (stop_to_disable ∷ []),
)
resume_one-Resumed wait_to_enable b = ground arith
resume_one-Resumed wait_to_disable b = ground (
  arith,
  any-append is_update b.tasks (stop_to_disable ∷ []),
  any-append is_stop_to_disable b.tasks (stop_to_disable ∷ []),
  any-append is_wait_to_disable b.tasks (stop_to_disable ∷ []),
  any-append is_watcher b.tasks (stop_to_disable ∷ []),
)
resume_one-Resumed wait_of_watch b = ground arith

Resumed-cons :
    (t : Task) (ts : List Task) (b u v : Bus)
    → Resumed (t ∷ []) b u
    → Resumed ts u v
    → Resumed (t ∷ ts) b v
unfolding any
Resumed-cons t ts b u v h k = ground arith

pub resume-Resumed : (ts : List Task) (b : Bus) → Resumed ts b (resume ts b).0
unfolding resume any
resume-Resumed [] b = ground arith
resume-Resumed (t ∷ ts) b =
    Resumed-cons t ts b (resume_one t b).0 (resume ts (resume_one t b).0).0 (resume_one-Resumed t b)
      (resume-Resumed ts (resume_one t b).0)
