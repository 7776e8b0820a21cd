-- ===== src/Wrapper/Session/Guarded.antt =====
-- A connection to the control socket of a wrapper without its token leaves the wrapper alone.
use inter_agent_bus.Base.{
  ℕ, map, Option, Bool, Bool-cases, false, List, ◌≡◌, refl, All, Text, inl, inr, arith,
}
use inter_agent_bus.Value.{Value, get_prop, is_nullish}
use inter_agent_bus.Auth.Exact.{IsAscii}
use inter_agent_bus.Control.{is_privileged}
use inter_agent_bus.Control.Gate.{LeavesOthers}
use inter_agent_bus.Control.Server.{handle_connection}
use inter_agent_bus.Control.Server.Connection.{
  LacksToken, lines_of, written_without, handle_connection-unauthorized,
}
use inter_agent_bus.Wrapper.{Wrapper, Event}
use inter_agent_bus.Wrapper.Session.{ControlReply, handle_control_request, handler}

handle_control_request-leaves :
    (meanwhile : List Event) (id : Option Text) (req : Value) (w : Wrapper)
    → is_privileged (get_prop "type" req) ≡ false
    → (handle_control_request meanwhile id req w).0 ≡ w
unfolding handle_control_request is_privileged
handle_control_request-leaves meanwhile id req w h = ground arith

-- The handler changes the wrapper only on requests that are privileged.
pub handler-LeavesOthers :
    (value_of : Wrapper → ControlReply → Value) (meanwhile : List Event) (id : Option Text)
    (token : Text) (logs : Bool)
    → LeavesOthers (handler value_of meanwhile id) token logs
unfolding handler
handler-LeavesOthers value_of meanwhile id token logs req w h = elim (Bool-cases (is_nullish req)) [
  | inl e ↦ rw e refl
  | inr e ↦ rw e (handle_control_request-leaves meanwhile id req w h)
]

-- A connection to the wrapper's control socket on which no line is a request with the control token
-- leaves the wrapper as it is, so that it neither turns the bus on nor off. It is answered line by
-- line: a privileged request is rejected, any other is answered by what the wrapper's handler makes
-- of it, and a line that cannot be parsed is invalid.
pub handle_connection-guarded :
    (parse : Text → Option Value) (value_of : Wrapper → ControlReply → Value)
    (meanwhile : List Event) (id : Option Text) (token : Text) (logs : Bool)
    (chunks : List (List ℕ)) (w : Wrapper)
    → IsAscii token
    → All (LacksToken parse token) (lines_of chunks)
    → let handle = handler value_of meanwhile id in
      handle_connection parse handle token logs chunks w ≡ (
        w,
        map
            (λ (line : Text). written_without parse handle token logs w (parse line))
            (lines_of chunks),
      )
handle_connection-guarded parse value_of meanwhile id token logs chunks w h lacks =
    handle_connection-unauthorized parse (handler value_of meanwhile id) token logs chunks w h
      (handler-LeavesOthers value_of meanwhile id token logs) lacks
