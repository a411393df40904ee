-- ===== src/Cfdp/Class1/Reach/Poll.antt =====
-- What a poll does in a state that the operations reach.
use build_with_opus.Prelude.{
  ◌*◌, min, ltb, ltb→lt, if◌then◌else◌, Bool-cases, inl, inr, ℕ, suc, ◌≤◌, ◌<◌, ◌≡◌, refl, ap, ◌∙◌,
  none, some, [], ◌∷◌, length, arith,
}
use build_with_opus.Prelude.Table.{Table, lookup, remove}
use build_with_opus.Prelude.Table.Distinct.{IsDistinct, remove_absent}
use build_with_opus.Wire.Cuc.{Cuc}
use build_with_opus.Cfdp.Class1.{
  TransactionState, Class1Receiver, timeout_secs, timed_out, abandon_all, poll,
}
use build_with_opus.Cfdp.Class1.Reach.{IsBounded, remove-IsBounded}

IsUntimed : Table TransactionState → Type 0
IsUntimed active = (id : ℕ) (t : TransactionState) → lookup id active ≡ some t → t.last_pdu_tai ≡ 0

rest-IsUntimed :
    (id : ℕ) (t : TransactionState) (w : Table TransactionState)
    → lookup id w ≡ none
    → IsUntimed ((id, t) ∷ w)
    → IsUntimed w
unfolding lookup IsUntimed
rest-IsUntimed id t w absent h k u e = ground (arith, absent, e, h k u)

module _ (timeout now : ℕ) where
  timed_out_late :
      (w : Table TransactionState)
      → IsDistinct w
      → IsUntimed w
      → timeout < now
      → timed_out timeout now w ≡ w
  unfolding timed_out
  timed_out_late [] d u h = refl
  timed_out_late ((id, t) ∷ w) d u h =
      let zero_time : t.last_pdu_tai ≡ 0 = unfold lookup IsUntimed in u id t (ground arith) in
      ground (arith, zero_time, timed_out_late w d.1 (rest-IsUntimed id t w d.0 u) h)

  timed_out_early :
      (w : Table TransactionState)
      → IsDistinct w
      → IsUntimed w
      → now ≤ timeout
      → timed_out timeout now w ≡ []
  unfolding timed_out
  timed_out_early [] d u h = refl
  timed_out_early ((id, t) ∷ w) d u h =
      let zero_time : t.last_pdu_tai ≡ 0 = unfold lookup IsUntimed in u id t (ground arith) in
      ground (arith, zero_time, timed_out_early w d.1 (rest-IsUntimed id t w d.0 u) h)

timeout_secs-eq :
    (owlt_secs : ℕ) → timeout_secs owlt_secs ≡ min (owlt_secs * 10) 18446744073709551615
unfolding timeout_secs
timeout_secs-eq owlt_secs = refl

module _ {D : Type 0} where
  active-abandon_all :
      (w : Table TransactionState) (s : Class1Receiver D)
      → s.active ≡ w
      → IsDistinct w
      → ((abandon_all w s).0.active ≡ []) × (length (abandon_all w s).1 ≡ length w)
  unfolding abandon_all
  active-abandon_all [] s e d = (e, refl)
  active-abandon_all ((id, t) ∷ w) s e d =
      let gone : remove id s.active ≡ w =
        ap (remove id) e ∙ unfold remove in ground (arith, remove_absent id w d.0) in
      let rest = active-abandon_all w (record s { active = remove id s.active }) gone d.1 in
      (rest.0, ap suc rest.1)

  pub abandon_all-IsBounded :
      (w : Table TransactionState) (s : Class1Receiver D)
      → IsBounded s.active
      → IsBounded (abandon_all w s).0.active
  unfolding abandon_all
  abandon_all-IsBounded [] s b = b
  abandon_all-IsBounded ((id, t) ∷ w) s b =
      abandon_all-IsBounded w (record s { active = remove id s.active })
        (remove-IsBounded id s.active b)

  poll_abandons :
      (now : Cuc) (s : Class1Receiver D)
      → IsBounded s.active
      → timeout_secs s.owlt_secs < now.coarse
      → ((poll now s).0.active ≡ []) × (length (poll now s).1 ≡ length s.active)
  unfolding poll
  poll_abandons now s b h =
      let all : timed_out (timeout_secs s.owlt_secs) now.coarse s.active ≡ s.active =
        timed_out_late (timeout_secs s.owlt_secs) now.coarse s.active b.distinct
          (unfold IsUntimed in b.untimed) h in
      rw (all, poll) (active-abandon_all s.active s refl b.distinct)

  poll_waits :
      (now : Cuc) (s : Class1Receiver D)
      → IsBounded s.active
      → now.coarse ≤ timeout_secs s.owlt_secs
      → poll now s ≡ (s, [])
  unfolding poll abandon_all
  poll_waits now s b h =
      rw
        (
          timed_out_early (timeout_secs s.owlt_secs) now.coarse s.active b.distinct
              (unfold IsUntimed in b.untimed) h,
          poll,
        )
        refl

  -- What a poll does depends only on the time since the epoch, not on the last PDU: in a state that
  -- satisfies the invariant, once the time is past ten light times, or past the largest u64 where
  -- ten light times are more, it abandons every transaction and answers once for each, and before
  -- that it changes nothing and answers nothing.
  pub poll_since_epoch :
      (now : Cuc) (s : Class1Receiver D)
      → IsBounded s.active
      → if ltb (min (s.owlt_secs * 10) 18446744073709551615) now.coarse
        then ((poll now s).0.active ≡ []) × (length (poll now s).1 ≡ length s.active)
        else (poll now s ≡ (s, []))
  poll_since_epoch now s b =
      let limit = timeout_secs-eq s.owlt_secs in
      rw (← limit) (elim (Bool-cases (ltb (timeout_secs s.owlt_secs) now.coarse)) [
        | inl late ↦ rw late (poll_abandons now s b (ltb→lt _ _ late))
        | inr early ↦ rw early (poll_waits now s b (ground (arith, early)))
      ])
