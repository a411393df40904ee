-- ===== src/Ingest/Demux/Events.antt =====
-- How often the demultiplexer logs that a channel is full.
use build_with_opus.Prelude.{
  ℕ, ◌+◌, ◌-◌, ◌≤◌, ◌≡◌, refl, sym, ap, ◌∙◌, inl, inr, true, Bool-cases, Option, none, some, List,
  [], ◌∷◌, leb→le, arith,
}
use build_with_opus.Ingest.Carrier.{event_min_interval, should_emit}
use build_with_opus.Ingest.Demux.{VcDemultiplexer, new, contains, emit_bp_event, dispatch}
use build_with_opus.Ingest.Demux.Counts.{Arrival, dispatch_all}

-- The latest first, each at least a second after the one before.
pub data Spaced : List ℕ → Type 0 where
  no_event : Spaced []
  one_event : {t : ℕ} → Spaced (t ∷ [])
  later_event :
      {t u : ℕ} {older : List ℕ}
      → u + event_min_interval ≤ t
      → Spaced (u ∷ older)
      → Spaced (t ∷ u ∷ older)

abbrev latest : List ℕ → Option ℕ
latest [] = none
latest (t ∷ older) = some t

record IsLimited (s : VcDemultiplexer) : Type 0 where
  last : s.last_bp_event ≡ latest s.bp_events
  spaced : Spaced s.bp_events

logged-Spaced :
    (now : ℕ) (log : List ℕ) → Spaced log → should_emit now (latest log) ≡ true → Spaced (now ∷ log)
logged-Spaced now [] s e = one_event
logged-Spaced now (t ∷ older) s e =
    later_event (let gap = leb→le event_min_interval (now - t) e in omega arith) s

emit_bp_event-IsLimited :
    (now : ℕ) (s : VcDemultiplexer) → IsLimited s → IsLimited (emit_bp_event now s)
unfolding emit_bp_event
emit_bp_event-IsLimited now s h = elim (Bool-cases (should_emit now s.last_bp_event)) [
  | inl e ↦
      rw (e, emit_bp_event)
        (record {
          last = refl;
          spaced = logged-Spaced now s.bp_events h.spaced (ap (should_emit now) (sym h.last) ∙ e);
        })
  | inr e ↦ rw (e, emit_bp_event) (record { last = h.last; spaced = h.spaced })
]

dispatch-IsLimited :
    (a : Arrival) (s : VcDemultiplexer)
    → IsLimited s
    → IsLimited (dispatch a.now a.accepted a.frame s).0
unfolding dispatch
dispatch-IsLimited a s h = elim (Bool-cases (contains a.frame.vc_id s.idle_vcs)) [
  | inl e ↦ rw (e, dispatch) h
  | inr e ↦
      rw (e, dispatch)
        (elim (Bool-cases (contains a.frame.vc_id s.senders)) [
          | inl f ↦
              rw (f, dispatch)
                (elim (Bool-cases a.accepted) [
                  | inl g ↦ rw (g, dispatch) h
                  | inr g ↦
                      rw (g, dispatch)
                        (emit_bp_event-IsLimited a.now _
                          (record { last = h.last; spaced = h.spaced }))
                ])
          | inr f ↦ rw (f, dispatch) (record { last = h.last; spaced = h.spaced })
        ])
]

dispatch_all-IsLimited :
    (frames : List Arrival) (s : VcDemultiplexer)
    → IsLimited s
    → IsLimited (dispatch_all frames s).0
unfolding dispatch_all
dispatch_all-IsLimited [] s h = h
dispatch_all-IsLimited (a ∷ later) s h = dispatch_all-IsLimited later _ (dispatch-IsLimited a s h)

-- Whatever frames come to a new demultiplexer and whenever, two logged events of a full channel are
-- at least a second apart.
pub dispatch_all-Spaced :
    (senders : List ℕ) (frames : List Arrival)
    → Spaced (dispatch_all frames (new senders)).0.bp_events
unfolding new
dispatch_all-Spaced senders frames =
    (dispatch_all-IsLimited frames (new senders) (record { last = refl; spaced = no_event })).spaced
