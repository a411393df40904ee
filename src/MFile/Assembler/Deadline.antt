-- ===== src/MFile/Assembler/Deadline.antt =====
-- What `poll` does to the open transactions, which all have the same deadline.
use build_with_opus.Prelude.{
  ℕ, ◌≤◌, ◌<◌, ◌≡◌, refl, ap, ◌∙◌, inl, inr, some, List, [], ◌∷◌, Bool-cases, ltb, ltb→lt,
  if◌then◌else◌, arith,
}
use build_with_opus.Prelude.Table.{Table, lookup, remove}
use build_with_opus.Prelude.OrderedTable.{IsOrdered, Above, keys}
use build_with_opus.Prelude.OrderedTable.Totals.{total, AllValues, remove-Above}
use build_with_opus.Wire.Cuc.{Cuc}
use build_with_opus.MFile.State.{FileName, Services, AssemblyOutcome, TxState, Assembler}
use build_with_opus.MFile.Assembler.{
  release, write_then, abandon, timeout_of, abandon_all, timed_out, poll,
}
use build_with_opus.MFile.Assembler.Account.{IsBalanced, IsSound}
use build_with_opus.MFile.Assembler.Reach.{abandon_all-IsBalanced}

module _ (owlt_secs now_coarse : ℕ) where
  timed_out_late :
      (t : Table TxState)
      → AllValues (IsSound owlt_secs) t
      → timeout_of owlt_secs < now_coarse
      → timed_out now_coarse t ≡ keys t
  unfolding timed_out AllValues
  timed_out_late [] a h = refl
  timed_out_late ((id, tx) ∷ t) a h = ground (arith, a.0.deadline, timed_out_late t a.1 h)

  timed_out_early :
      (t : Table TxState)
      → AllValues (IsSound owlt_secs) t
      → now_coarse ≤ timeout_of owlt_secs
      → timed_out now_coarse t ≡ []
  unfolding timed_out AllValues
  timed_out_early [] a h = refl
  timed_out_early ((id, tx) ∷ t) a h = ground (arith, a.0.deadline, timed_out_early t a.1 h)

active-write_then :
    (env : Services) (path : FileName) (contents : List ℕ) (outcome : AssemblyOutcome)
    (s : Assembler)
    → (write_then env path contents outcome s).0.active ≡ s.active
unfolding write_then
active-write_then env path contents outcome s = elim (Bool-cases (env.write_ok path contents)) [
  | inl e ↦ rw (e, write_then) refl
  | inr e ↦ rw (e, write_then) refl
]

active-abandon-found :
    (env : Services) (id : ℕ) (tx : TxState) (s : Assembler)
    → lookup id s.active ≡ some tx
    → (abandon env id s).0.active ≡ remove id s.active
unfolding abandon release
active-abandon-found env id tx s e = rw (e, abandon) (active-write_then env _ _ _ (release id tx s))

-- Giving up the first transaction of the table leaves the others.
active-abandon :
    (env : Services) (id : ℕ) (tx : TxState) (t : Table TxState) (s : Assembler)
    → s.active ≡ (id, tx) ∷ t
    → Above id t
    → (abandon env id s).0.active ≡ t
unfolding lookup remove
active-abandon env id tx t s e above =
    let found : lookup id s.active ≡ some tx = ground (arith, e) in
    ground (arith, active-abandon-found env id tx s found, e, remove-Above id id t)

active-abandon_all :
    (env : Services) (t : Table TxState) (s : Assembler)
    → s.active ≡ t
    → IsOrdered t
    → (abandon_all env (keys t) s).0.active ≡ []
unfolding abandon_all
active-abandon_all env [] s e o = e
active-abandon_all env ((id, tx) ∷ t) s e o =
    active-abandon_all env t (abandon env id s).0 (active-abandon env id tx t s e o.0) o.1

poll_late :
    (env : Services) (now : Cuc) (s : Assembler)
    → IsBalanced s
    → timeout_of s.owlt_secs < now.coarse
    → ((poll env now s).0.active ≡ []) × ((poll env now s).0.total_ram_bytes ≡ 0)
unfolding poll
poll_late env now s inv h =
    let all : timed_out now.coarse s.active ≡ keys s.active =
      timed_out_late s.owlt_secs now.coarse s.active inv.sound h in
    let gone : (poll env now s).0.active ≡ [] =
      rw (all, poll) (active-abandon_all env s.active s refl inv.ordered) in
    let kept : IsBalanced (poll env now s).0 = abandon_all-IsBalanced env _ s inv in
    (gone, kept.account ∙ ap (total (λ tx. tx.in_flight_bytes)) gone)

poll_early :
    (env : Services) (now : Cuc) (s : Assembler)
    → IsBalanced s
    → now.coarse ≤ timeout_of s.owlt_secs
    → poll env now s ≡ (s, [])
unfolding poll abandon_all
poll_early env now s inv h =
    rw (timed_out_early s.owlt_secs now.coarse s.active inv.sound h, poll) refl

-- What a poll does depends only on the time since the epoch, not on the start of a transaction: in
-- a state that satisfies the invariant, once the time is past ten light times it leaves no
-- transaction open and no byte accounted for, and before that it changes nothing and answers
-- nothing.
pub poll_by_epoch :
    (env : Services) (now : Cuc) (s : Assembler)
    → IsBalanced s
    → if ltb (timeout_of s.owlt_secs) now.coarse
      then ((poll env now s).0.active ≡ []) × ((poll env now s).0.total_ram_bytes ≡ 0)
      else (poll env now s ≡ (s, []))
poll_by_epoch env now s inv = elim (Bool-cases (ltb (timeout_of s.owlt_secs) now.coarse)) [
  | inl late ↦ rw late (poll_late env now s inv (ltb→lt _ _ late))
  | inr early ↦ rw early (poll_early env now s inv (ground (arith, early)))
]
