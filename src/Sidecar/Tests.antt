-- ===== src/Sidecar/Tests.antt =====
-- The sidecar's theorems at two envelopes.
use inter_agent_bus.Base.{
  List, [], ◌∷◌, ◌++◌, ◌≡◌, refl, none, Text, codes, ◌==◌, ◌≤◌, ◌+◌, length, leb, arith,
  if◌then◌else◌,
}
use inter_agent_bus.Value.{Value, str, obj, field, end, get_prop, lookup, is_text, truthy}
use inter_agent_bus.Paths.{includes}
use inter_agent_bus.Sidecar.Tty.Clean.{is_clean}
use inter_agent_bus.Sidecar.Render.{clock, render_envelope}
use inter_agent_bus.Sidecar.Render.Clean.{render_envelope-is_clean}
use inter_agent_bus.Sidecar.Seen.{dedupe_lru_size, evict}
use inter_agent_bus.Sidecar.Seen.Window.{answers, window_answers, latest, answers-window}
use inter_agent_bus.Sidecar.Requests.{
  Sidecar, handle_request, rejected, duplicate, enter, submit_delay_ms,
}
use inter_agent_bus.Sidecar.Requests.Once.{
  Event, request, passes, leased, after, handle_request-once,
}
use inter_agent_bus.Sidecar.Requests.Authority.{
  refusal, written_part, delivered_answer, handle_request-unauthorized,
}
use inter_agent_bus.Sidecar.Requests.Turns.{two_deliveries, two_deliveries-typed}

abbrev string_of : Value → Text
string_of v = []

abbrev token : Text
token = codes "0f"

abbrev envelope : Text → Text → Value
envelope id body = obj (
    field (codes "from") (str (codes "alice"))
      (field (codes "id") (str id) (field (codes "body") (str body) end)))

abbrev delivery : Value → Value
delivery env = obj (
    field (codes "type") (str (codes "deliver"))
      (field (codes "auth") (str token) (field (codes "envelope") env end)))

abbrev unsigned : Value
unsigned = obj (
    field (codes "type") (str (codes "deliver"))
      (field (codes "envelope") (envelope (codes "m1") (codes "hi")) end))

abbrev sidecar : Sidecar
sidecar = record { adapter_token = token; lease = none; recent_ids = []; typed = []; due = [] }

abbrev first : Value
first = delivery (envelope (codes "m1") (codes "hi"))

abbrev second : Value
second = delivery (envelope (codes "m2") (codes "ho"))

render_envelope-is_clean_example :
    is_clean (render_envelope string_of (envelope (codes "m1") (codes "hi")))
    ≡ is_clean (clock (get_prop "sent_at" (envelope (codes "m1") (codes "hi"))))
render_envelope-is_clean_example =
    render_envelope-is_clean string_of (envelope (codes "m1") (codes "hi"))

answers-window_example :
    ((answers (codes "a" ∷ codes "a" ∷ []) []).0
      ≡ (window_answers (codes "a" ∷ codes "a" ∷ []) []).0)
    × ((answers (codes "a" ∷ codes "a" ∷ []) []).1
        ≡ latest (window_answers (codes "a" ∷ codes "a" ∷ []) []).1)
    × (length (answers (codes "a" ∷ codes "a" ∷ []) []).1 ≤ dedupe_lru_size)
answers-window_example = answers-window (codes "a" ∷ codes "a" ∷ [])

handle_request-unauthorized_example :
    handle_request string_of 1 [] [] none unsigned sidecar ≡ (sidecar, refusal unsigned)
unfolding get_prop lookup ◌==◌
handle_request-unauthorized_example =
    handle_request-unauthorized string_of 1 [] [] none unsigned sidecar
      (omega arith, (omega arith, tt)) (λ e. cc)

abbrev between : List Event
between = passes 90 ∷ request 95 [] [] none second ∷ leased none ∷ []

handle_request-once_example :
    let result = handle_request string_of 1 [] [] none first sidecar in
    let later = after string_of between result.0 in
    (result.0.typed
      ≡ [] ++ written_part none (render_envelope string_of (get_prop "envelope" first)))
    × (result.1 ≡ delivered_answer none)
    × (handle_request string_of 99 [] [] none first later ≡ (later, rejected duplicate))
unfolding get_prop lookup ◌==◌ is_text truthy includes
handle_request-once_example =
    handle_request-once string_of 1 99 [] [] [] [] none none first first between sidecar
      (codes "m1") (codes "hi") (codes "hi") (omega arith, (omega arith, tt))
      (refl, refl, refl, refl, omega arith, refl) refl (omega arith)
      (refl, refl, refl, refl, omega arith, refl)

two_deliveries-typed_example :
    (two_deliveries string_of [] [] 0 first 10 second 200 sidecar).typed
    ≡ []
      ++ (if leb (0 + submit_delay_ms) 10
          then render_envelope string_of (get_prop "envelope" first)
            ++ enter ∷ (render_envelope string_of (get_prop "envelope" second) ++ enter ∷ [])
          else render_envelope string_of (get_prop "envelope" first)
            ++ (render_envelope string_of (get_prop "envelope" second) ++ enter ∷ enter ∷ []))
unfolding get_prop lookup ◌==◌ is_text truthy includes evict
two_deliveries-typed_example =
    two_deliveries-typed string_of [] [] 0 10 200 first second sidecar (codes "m1") (codes "m2")
      (codes "hi") (codes "ho") (omega arith, (omega arith, tt)) refl
      (refl, refl, refl, refl, omega arith, refl) refl (refl, refl, refl, refl, omega arith, refl)
      refl (omega arith) (omega arith)
