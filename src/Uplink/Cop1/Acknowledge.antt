-- ===== src/Uplink/Cop1/Acknowledge.antt =====
-- What a CLCW does to the window.
use build_with_opus.Prelude.{
  ℕ, suc, ◌+◌, ◌-◌, ◌%◌, ◌≤◌, ◌<◌, ◌≡◌, refl, sym, ap, ◌∙◌, inl, inr, Bool-cases, leb→le, List, [],
  ◌∷◌, length, drop, arith, true, false, leb, if◌then◌else◌,
}
use build_with_opus.Uplink.Fop1.{Cop1Engine}
use build_with_opus.Uplink.Cop1.{popped, slide, seq_before}
use build_with_opus.Uplink.Cop1.Invariant.{Window, Numbered, Inv, window-popped}

-- The N(R) that leaves the last k frames unacknowledged.
abbrev pub nr_for : ℕ → ℕ → ℕ
nr_for vs k = (vs + 256 - k) % 256

-- A frame at distance d in front of the end of the window is before that N(R) exactly if it is not
-- one of the last k.
before_iff :
    (seq vs d k : ℕ)
    → seq < 256
    → vs < 256
    → (seq + d) % 256 ≡ vs
    → 0 < d
    → d ≤ 15
    → k ≤ 15
    → seq_before seq (nr_for vs k) ≡ (if leb d k then false else true)
unfolding seq_before
before_iff seq vs d k h hv e pos hd hk = ground arith

drop_next :
    (n k : ℕ) (e : ℕ × List ℕ) (rest : Window)
    → k ≤ n
    → drop (suc n - k) (e ∷ rest) ≡ drop (n - k) rest
drop_next n k e rest h =
    let step : suc n - k ≡ suc (n - k) = omega arith in ap (λ (t : ℕ). drop t (e ∷ rest)) step

window-slide-Numbered :
    (w : Window) (s : Cop1Engine) (vs k : ℕ)
    → s.window ≡ w
    → vs < 256
    → Numbered vs w
    → length w ≤ 15
    → k ≤ length w
    → (slide (nr_for vs k) w s).window ≡ drop (length w - k) w
unfolding slide
window-slide-Numbered [] s vs k p hv n b hk = ground arith
window-slide-Numbered ((seq, spp) ∷ rest) s vs k p hv (small, next, n) b hk =
    let before =
      before_iff seq vs (suc (length rest)) k small hv next (omega arith) (omega arith)
        (omega arith) in
    elim (Bool-cases (leb (suc (length rest)) k)) [
      | inl e ↦
          let none_left : suc (length rest) - k ≡ 0 = omega (arith, leb→le _ _ e) in
          rw (before ∙ ap (λ b. if b then false else true) e)
            (p ∙ sym (ap (λ (t : ℕ). drop t ((seq, spp) ∷ rest)) none_left))
      | inr e ↦
          let fits : k ≤ length rest = ground arith in
          rw (before ∙ ap (λ b. if b then false else true) e) (
            window-slide-Numbered rest (popped rest s) vs k (window-popped rest s) hv n
              (omega arith) fits
            ∙ sym (drop_next (length rest) k (seq, spp) rest fits))
    ]

-- In an engine that satisfies the invariant, a CLCW whose N(R) acknowledges all but the last k
-- frames drops exactly the others from the window, also where the sequence numbers wrap at 256.
pub window-slide :
    (s : Cop1Engine) (k : ℕ)
    → Inv s
    → k ≤ length s.window
    → (slide (nr_for s.vs k) s.window s).window ≡ drop (length s.window - k) s.window
window-slide s k v h = window-slide-Numbered s.window s s.vs k refl v.vs_byte v.numbered v.bounded h
