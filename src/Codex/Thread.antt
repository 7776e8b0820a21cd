-- ===== src/Codex/Thread.antt =====
-- The wait for a thread: `loadThreadId` and `waitForThreadId` of adapters/codex-pty/wrapper.js.
pub mod Ends
use inter_agent_bus.Base.{
  ℕ, zero, suc, ◌+◌, ◌*◌, Bool, false, not, ◌&&◌, Option, none, some, [], ◌∷◌, Text, ltb, eqb,
  if◌then◌else◌,
}
use inter_agent_bus.Value.{Value, str, get_prop}

-- `typeof id === 'string' && id ? id : null`
unfoldable pub thread_id_of : Value → Option Text
thread_id_of (str []) = none
thread_id_of (str (c ∷ id)) = some (c ∷ id)
thread_id_of _ = none

-- The thread file as it is parsed; `none` if it cannot be read or is no JSON.
unfoldable pub load_thread_id : Option Value → Option Text
load_thread_id none = none
load_thread_id (some payload) = thread_id_of (get_prop "thread_id" payload)

-- What a round of the wait finds: the time at its head, the thread file, and whether the child's
-- process is there.
pub record Poll : Type 0 where
  pub now : ℕ
  pub file : Option Value
  pub is_alive : Bool

-- `Date.now() + Math.max(1, THREAD_WAIT_SEC) * 1000`. The setting may be no number, and then no
-- time lies before the deadline.
unfoldable pub deadline : ℕ → Option ℕ → Option ℕ
deadline start none = none
deadline start (some zero) = some (start + 1000)
deadline start (some (suc n)) = some (start + suc n * 1000)

unfoldable pub is_before : ℕ → Option ℕ → Bool
is_before now none = false
is_before now (some d) = ltb now d

-- `childPid` is given and its process is not there.
unfoldable pub is_child_gone : ℕ → Poll → Bool
is_child_gone child_pid p = not (eqb child_pid 0) && not p.is_alive

-- The rounds from the `n`th on; `none` outside means that the fuel ran out.
unfoldable pub wait_from : ℕ → ℕ → Option ℕ → (ℕ → Poll) → ℕ → Option (Option Text)
unfolding is_before is_child_gone
wait_from zero child_pid d polls n = none
wait_from (suc fuel) child_pid d polls n =
    let rest = wait_from fuel child_pid d polls (suc n) in
    if is_before (polls n).now d
    then elim (load_thread_id (polls n).file) [
      | some id ↦ some (some id)
      | none ↦ if is_child_gone child_pid (polls n) then some none else rest
    ]
    else some none

-- At most one round a second; `start` is the time of the call.
unfoldable pub wait_for_thread_id : ℕ → Option ℕ → ℕ → ℕ → (ℕ → Poll) → Option (Option Text)
wait_for_thread_id fuel wait_sec child_pid start polls =
    wait_from fuel child_pid (deadline start wait_sec) polls 0
