-- ===== src/Codex/Tools.antt =====
-- The tools that adapters/codex-pty/wrapper.js runs beside the child: the command lines of the
-- runtime's control script, and the policy that it reports to it.
use inter_agent_bus.Base.{
  Bool, false, not, ◌||◌, Option, none, some, List, [], ◌∷◌, ◌++◌, Text, String, codes, ◌==◌, take,
  ℕ, zero, if◌then◌else◌,
}

-- What the policy resolver prints; a text that is missing or empty is not passed on.
pub record Policy : Type 0 where
  pub approval_mode : Text
  pub sandbox_mode : Text
  pub full_auto : Bool
  pub dangerously_bypass : Bool
  pub profile : Text
  pub add_dirs : List Text
  pub config_overrides : List Text

abbrev pub no_policy : Policy
no_policy = record {
  approval_mode = [];
  sandbox_mode = [];
  full_auto = false;
  dangerously_bypass = false;
  profile = [];
  add_dirs = [];
  config_overrides = [];
}

-- The policy of the resolver's exit status and what it printed; without one nothing is passed on.
unfoldable pub resolve_policy : Option ℕ → Option Policy → Policy
resolve_policy (some zero) (some policy) = policy
resolve_policy _ _ = no_policy

-- What the environment says of the session and its terminal.
pub record Launch : Type 0 where
  pub runtime_ctl : Text
  pub cwd : Text
  pub outer_tty_path : Text
  pub terminal_app : Text
  pub term_program : Text
  pub session_id : Text
  pub resume_thread_id : Text
  pub watchdog_autostart : Text
  pub watchdog_backend : Text
  pub watchdog_idle_seconds : Text
  pub watchdog_repeat_seconds : Text
  pub watchdog_poll_seconds : Text
  pub watchdog_transport : Text

-- `path.startsWith('/dev/')`
unfoldable pub is_device : Text → Bool
is_device path = take 5 path == codes "/dev/"

-- A flag with its value, if there is one.
unfoldable pub flag_if_given : String → Text → List Text
flag_if_given flag [] = []
flag_if_given flag (c ∷ value) = codes flag ∷ (c ∷ value) ∷ []

unfoldable pub flag_each : String → List Text → List Text
flag_each flag [] = []
flag_each flag (value ∷ values) = codes flag ∷ value ∷ flag_each flag values

unfoldable pub flag_if : String → Bool → List Text
flag_if flag given = if given then codes flag ∷ [] else []

unfoldable pub policy_args : Policy → List Text
policy_args p =
    flag_if_given "--approval-mode" p.approval_mode
    ++ (flag_if_given "--sandbox-mode" p.sandbox_mode
        ++ (flag_if_given "--profile" p.profile
            ++ (flag_each "--add-dir" p.add_dirs
                ++ (flag_each "--config-override" p.config_overrides
                    ++ (flag_if "--full-auto" p.full_auto
                        ++ flag_if "--dangerously-bypass" p.dangerously_bypass)))))

-- `trackActiveTerminal`: the arguments of `python3`, if it is run; `pid` is the child's in decimal.
unfoldable pub track_active_terminal : Launch → Text → Policy → Option (List Text)
track_active_terminal l pid p =
    if is_device l.outer_tty_path
    then some (
        (l.runtime_ctl
          ∷ codes "track-active-terminal"
          ∷ codes "--pid"
          ∷ pid
          ∷ codes "--cwd"
          ∷ l.cwd
          ∷ codes "--tty-path"
          ∷ l.outer_tty_path
          ∷ codes "--terminal-app"
          ∷ l.terminal_app
          ∷ codes "--term-program"
          ∷ l.term_program
          ∷ codes "--source"
          ∷ codes "codex_wrapper"
          ∷ codes "--runtime-session-id"
          ∷ l.session_id
          ∷ [])
        ++ policy_args p)
    else none

-- `startThreadTracker`; `epoch` is the time in seconds in decimal.
unfoldable pub start_thread_tracker : Launch → Text → Text → List Text
start_thread_tracker l pid epoch =
    (l.runtime_ctl
      ∷ codes "track-active-thread"
      ∷ codes "--pid"
      ∷ pid
      ∷ codes "--cwd"
      ∷ l.cwd
      ∷ codes "--launch-epoch"
      ∷ epoch
      ∷ codes "--runtime-session-id"
      ∷ l.session_id
      ∷ [])
    ++ flag_if_given "--thread-id" l.resume_thread_id

-- `maybeAutoStartWatchdog`
unfoldable pub maybe_auto_start_watchdog : Launch → Option (List Text)
maybe_auto_start_watchdog l =
    if l.watchdog_autostart == codes "0" || not (is_device l.outer_tty_path)
    then none
    else some (
        l.runtime_ctl
        ∷ codes "watchdog"
        ∷ codes "enable"
        ∷ codes "--cwd"
        ∷ l.cwd
        ∷ codes "--backend"
        ∷ l.watchdog_backend
        ∷ codes "--idle-seconds"
        ∷ l.watchdog_idle_seconds
        ∷ codes "--repeat-seconds"
        ∷ l.watchdog_repeat_seconds
        ∷ codes "--poll-seconds"
        ∷ l.watchdog_poll_seconds
        ∷ codes "--transport"
        ∷ l.watchdog_transport
        ∷ [])
