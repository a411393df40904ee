-- ===== src/Station/Tasks/Window.antt =====
-- The window in which a command is valid, in the states that the program comes to.
use build_with_opus.Prelude.{
  ℕ, Result-cases, ◌≤◌, ◌<◌, ◌≡◌, refl, true, Bool-cases, inl, inr, [], ◌∷◌, ◌++◌, ok, err, length,
  length-append, ltb, if◌then◌else◌, arith,
}
use build_with_opus.Prelude.Int.{ℤ}
use build_with_opus.Wire.Cuc.{Cuc}
use build_with_opus.Ui.Time.{Seconds, window_expired, check_validity_window}
use build_with_opus.Ui.State.{UiState, TcQueueEntry, new}
use build_with_opus.Ui.Handlers.{
  TcSubmitRequest, queue_entry, try_send_tc, post_tc, dispatcher_recv,
}
use build_with_opus.Ui.Routes.{
  Request, api_hk, api_events, api_cfdp, api_mfile, api_link, api_cop1, api_time, api_rover,
  api_link_cfs_ros, api_link_ros_ground, api_link_fleet_dds, api_tc, serve,
}
use build_with_opus.Station.Tasks.{
  on_link_state, on_clock_skew, on_hk_packet, on_event_packet, Step, link_changed, clock_skew,
  hk_packet, event_packet, requested, dispatched, Reach, here, next,
}

module _ (seconds : Seconds) where
  open seconds use {of_u32, add, sub}

  -- The clock and the light time are as they were set, and the commands fit the channel.
  record Inv (cap : ℕ) (s : UiState seconds) : Type 0 where
    now_is : s.now_tai.coarse ≡ 0
    light_is : s.light_time_s ≡ of_u32 600
    capacity_is : s.tc_capacity ≡ cap
    fits : length s.tc_queue ≤ cap

  try_send_tc-Inv :
      {cap : ℕ} (entry : TcQueueEntry) (s : UiState seconds)
      → Inv cap s
      → Inv cap (try_send_tc seconds entry s)
  unfolding try_send_tc
  try_send_tc-Inv entry s v = ground (arith, length-append s.tc_queue (entry ∷ []))

  check_validity_window-eq :
      (valid_until now : Cuc) (light : seconds.F64)
      → now.coarse ≡ 0
      → light ≡ of_u32 600
      → valid_until.coarse < 4294967296
      → check_validity_window seconds valid_until now light ≡ (
          if ltb valid_until.coarse 600
          then err (window_expired (sub (add (of_u32 0) (of_u32 600)) (of_u32 valid_until.coarse)))
          else ok tt)
  unfolding check_validity_window
  check_validity_window-eq valid_until now light n l h =
      rw (n, l, seconds.exact 0 600 valid_until.coarse (omega arith) (omega arith) h) refl

  post_tc-eq :
      (req : TcSubmitRequest) {cap : ℕ} (s : UiState seconds)
      → Inv cap s
      → req.valid_until_tai_coarse < 4294967296
      → post_tc seconds req s ≡ (
          if ltb req.valid_until_tai_coarse 600
          then (
            s,
            err (
                window_expired
                  (sub (add (of_u32 0) (of_u32 600)) (of_u32 req.valid_until_tai_coarse))),
          )
          else (try_send_tc seconds (queue_entry req) s, ok (record { accepted = true })))
  unfolding post_tc
  post_tc-eq req s v h =
      let window =
        check_validity_window-eq (record { coarse = req.valid_until_tai_coarse; fine = 0 })
          s.now_tai s.light_time_s v.now_is v.light_is h in
      elim (Bool-cases (ltb req.valid_until_tai_coarse 600)) [
        | inl e ↦ rw (window, post_tc) (rw e refl)
        | inr e ↦ rw (window, post_tc) (rw e refl)
      ]

  post_tc-Inv :
      {cap : ℕ} (req : TcSubmitRequest) (s : UiState seconds)
      → Inv cap s
      → Inv cap (post_tc seconds req s).0
  unfolding post_tc
  post_tc-Inv req s v =
      elim (Result-cases (
        check_validity_window seconds (record { coarse = req.valid_until_tai_coarse; fine = 0 })
          s.now_tai s.light_time_s)) [
            | inl (e, late) ↦ rw (late, post_tc) v
            | inr (_, fine) ↦ rw (fine, post_tc) (try_send_tc-Inv (queue_entry req) s v)
          ]

  dispatcher_recv-Inv :
      {cap : ℕ} (total : ℕ) (s : UiState seconds)
      → Inv cap s
      → Inv cap (dispatcher_recv seconds (s, total)).0
  unfolding dispatcher_recv
  dispatcher_recv-Inv total s v = ground arith

  serve-Inv :
      {cap : ℕ} (request : Request) (s : UiState seconds)
      → Inv cap s
      → Inv cap (serve seconds request s).0
  unfolding serve
  serve-Inv api_hk s v = v
  serve-Inv api_events s v = v
  serve-Inv api_cfdp s v = v
  serve-Inv api_mfile s v = v
  serve-Inv api_link s v = v
  serve-Inv api_cop1 s v = v
  serve-Inv api_time s v = v
  serve-Inv api_rover s v = v
  serve-Inv api_link_cfs_ros s v = v
  serve-Inv api_link_ros_ground s v = v
  serve-Inv api_link_fleet_dds s v = v
  serve-Inv (api_tc req) s v = post_tc-Inv req s v

  Step-Inv : {cap : ℕ} {s t : UiState seconds} → Step seconds s t → Inv cap s → Inv cap t
  unfolding on_link_state on_clock_skew on_hk_packet on_event_packet
  Step-Inv (link_changed texts ls) v = ground arith
  Step-Inv clock_skew v = ground arith
  Step-Inv (hk_packet texts bytes) v = ground arith
  Step-Inv (event_packet texts bytes) v = ground arith
  Step-Inv {s = s} (requested request) v = serve-Inv request s v
  Step-Inv {s = s} (dispatched total) v = dispatcher_recv-Inv total s v

  Reach-Inv : {cap : ℕ} {s t : UiState seconds} → Inv cap s → Reach seconds s t → Inv cap t
  Reach-Inv v here = v
  Reach-Inv v (next r st) = Step-Inv st (Reach-Inv v r)

  new-Inv : (leap_seconds : ℤ) (cap : ℕ) → Inv cap (new seconds leap_seconds cap)
  unfolding new
  new-Inv leap_seconds cap = ground arith

  -- In every state that the program comes to, however long it runs, a command is refused exactly
  -- where its deadline is below 600 seconds of TAI, that is within ten minutes of the year 1958;
  -- then the state stays as it is. Any other is answered as accepted and put in the queue, which
  -- never holds more than its capacity, and is lost if the queue is full.
  pub Reach-post_tc :
      (leap_seconds : ℤ) (cap : ℕ) (s : UiState seconds) (req : TcSubmitRequest)
      → Reach seconds (new seconds leap_seconds cap) s
      → req.valid_until_tai_coarse < 4294967296
      → (post_tc seconds req s ≡ (
          if ltb req.valid_until_tai_coarse 600
          then (
            s,
            err (
                window_expired
                  (sub (add (of_u32 0) (of_u32 600)) (of_u32 req.valid_until_tai_coarse))),
          )
          else (
            (if ltb (length s.tc_queue) cap
                then record s { tc_queue = s.tc_queue ++ queue_entry req ∷ [] }
                else s),
            ok (record { accepted = true }),
          )))
        × (length s.tc_queue ≤ cap)
  unfolding try_send_tc
  Reach-post_tc leap_seconds cap s req r h =
      let v = Reach-Inv (new-Inv leap_seconds cap) r in
      (rw (← v.capacity_is) (post_tc-eq req s v h), v.fits)
