-- ===== src/Broker/Gc.antt =====
-- `gcTick` of broker/broker.js.
use inter_agent_bus.Base.{
  ℕ, ◌+◌, ◌-◌, Bool, true, false, List, [], ◌∷◌, Text, ltb, leb, eqb, length, keep, if◌then◌else◌,
}
use inter_agent_bus.Base.Maps
use inter_agent_bus.Base.Maps.{Map}
use inter_agent_bus.Broker.Types.{
  MailEntry, Participant, Recent, State, Config, gc_expire, append_log, stale_gc_after_ms,
}
use inter_agent_bus.Broker.Mail.{is_fresh, rewrite_mailbox_file}
use inter_agent_bus.Broker.Leases.{release_id, persist_registry}

-- `now >= p.leaseExpiresAt + STALE_GC_AFTER_SEC * 1000`
unfoldable pub is_stale : ℕ → Participant → Bool
is_stale now p = leb (p.lease_expires_at + stale_gc_after_ms) now

unfoldable pub drop_stale : Text → Participant → State → State
drop_stale token p s = append_log (gc_expire p.participant_id) (record s {
  participants = Maps.delete token s.participants;
  participants_by_id = release_id p.participant_id token s.participants_by_id;
})

-- The first loop, over the entries as they were; the answer says whether any was dropped.
unfoldable pub gc_participants : ℕ → List (Text × Participant) → State → State × Bool
gc_participants now [] s = (s, false)
gc_participants now ((token, p) ∷ ps) s =
    let stale = is_stale now p in
    let (s', changed) = gc_participants now ps (if stale then drop_stale token p s else s) in
    (s', if stale then true else changed)

unfoldable pub gc_recent : ℕ → Map Recent → Map Recent
gc_recent now = keep (λ (e : Text × Recent). ltb (now - e.1.last_seen_at) stale_gc_after_ms)

unfoldable pub gc_store : Config → Text → List MailEntry → State → State
gc_store c hash [] s =
    rewrite_mailbox_file c hash (record s { mailbox = Maps.delete hash s.mailbox })
gc_store c hash (e ∷ es) s =
    rewrite_mailbox_file c hash (record s { mailbox = Maps.set hash (e ∷ es) s.mailbox })

unfoldable pub gc_queue : Config → ℕ → Text → List MailEntry → State → State
unfolding gc_store
gc_queue c now hash queue s =
    let kept = keep (is_fresh now) queue in
    if eqb (length kept) (length queue) then s else gc_store c hash kept s

unfoldable pub gc_mailbox : Config → ℕ → List (Text × List MailEntry) → State → State
gc_mailbox c now [] s = s
gc_mailbox c now ((hash, queue) ∷ qs) s = gc_mailbox c now qs (gc_queue c now hash queue s)

unfoldable pub gc_tick : Config → ℕ → State → State
gc_tick c now s =
    let (s', changed) = gc_participants now s.participants s in
    let s'' = record s' { recent_participants = gc_recent now s'.recent_participants } in
    let swept = gc_mailbox c now s''.mailbox s'' in
    if changed then persist_registry swept else swept
