-- ===== src/Station/Interleaving/Packets.antt =====
-- The packets of a virtual channel in the channels between the tasks.
use mathlib.Core.Path.{subst}
use mathlib.Core.List.{append_assoc, append-nil}
use build_with_opus.Prelude.{
  ℕ, ◌≤◌, ◌≡◌, refl, sym, ap, ◌∙◌, Bool, true, false, Bool-cases, inl, inr, Result-cases, List, [],
  ◌∷◌, ◌++◌, ok, err, length, ◌==◌, ==_iff, if◌then◌else◌, arith,
}
use build_with_opus.Wire.Error.{CcsdsError}
use build_with_opus.Wire.Packet.{SpacePacket, parse}
use build_with_opus.Ingest.Carrier.{AosFrame}
use build_with_opus.Station.Interleaving.{Running, update}
use build_with_opus.Station.Interleaving.Omits.{Omits, Omits-first, Omits-prefix, Omits-refl}

-- The packet that a frame carries, if its data field is one.
unfoldable pub packet_in : AosFrame → List (List ℕ)
packet_in frame = elim (parse frame.data_field) [ err e ↦ [] | ok p ↦ frame.data_field ∷ [] ]

unfoldable pub packets_in : List AosFrame → List (List ℕ)
packets_in [] = []
packets_in (frame ∷ later) = packet_in frame ++ packets_in later

-- The packets of the frames of a channel.
unfoldable pub packets_of : ℕ → List AosFrame → List (List ℕ)
packets_of vc [] = []
packets_of vc (frame ∷ later) =
    let rest = packets_of vc later in if frame.vc_id == vc then packet_in frame ++ rest else rest

-- The packets with the mark of a channel.
unfoldable pub marked : ℕ → List (ℕ × List ℕ) → List (List ℕ)
marked vc [] = []
marked vc ((u, bytes) ∷ later) =
    let rest = marked vc later in if u == vc then bytes ∷ rest else rest

-- The packets of a channel that came to the router, and those on the way to it.
unfoldable pub under_way : ℕ → Running → List (List ℕ)
under_way vc s =
    marked vc s.routed
    ++ (marked vc s.tagged
        ++ ((s.held vc ++ s.packets vc) ++ (packets_in (s.channels vc) ++ packets_of vc s.frames)))

pub length-packet_in : (frame : AosFrame) → length (packet_in frame) ≤ 1
unfolding packet_in
length-packet_in frame = elim (Result-cases (parse frame.data_field)) [
  | inl (e, r) ↦ rw (r, packet_in) (omega arith)
  | inr (p, r) ↦ rw (r, packet_in) (omega arith)
]

pub packets_in-append :
    (fs : List AosFrame) (f : AosFrame) → packets_in (fs ++ f ∷ []) ≡ packets_in fs ++ packet_in f
unfolding packets_in
packets_in-append [] f = append-nil (packet_in f)
packets_in-append (g ∷ fs) f =
    ap (λ l. packet_in g ++ l) (packets_in-append fs f)
    ∙ sym (append_assoc (packet_in g) (packets_in fs) (packet_in f))

abbrev pub if_of : ℕ → AosFrame → List (List ℕ)
if_of vc f = if f.vc_id == vc then packet_in f else []

pub packets_of-append :
    (vc : ℕ) (fs : List AosFrame) (f : AosFrame)
    → packets_of vc (fs ++ f ∷ []) ≡ packets_of vc fs ++ if_of vc f
unfolding packets_of
packets_of-append vc [] f = elim (Bool-cases (f.vc_id == vc)) [
  | inl e ↦ rw e (append-nil (packet_in f))
  | inr e ↦ rw e refl
]
packets_of-append vc (g ∷ fs) f = elim (Bool-cases (g.vc_id == vc)) [
  | inl e ↦ rw e (
      ap (λ l. packet_in g ++ l) (packets_of-append vc fs f)
      ∙ sym (append_assoc (packet_in g) (packets_of vc fs) (if_of vc f)))
  | inr e ↦ rw e (packets_of-append vc fs f)
]

pub marked-append :
    (vc : ℕ) (xs : List (ℕ × List ℕ)) (u : ℕ) (bytes : List ℕ)
    → marked vc (xs ++ (u, bytes) ∷ []) ≡ marked vc xs ++ (if u == vc then bytes ∷ [] else [])
unfolding marked
marked-append vc [] u bytes = ground arith
marked-append vc ((w, b) ∷ xs) u bytes = ground (arith, marked-append vc xs u bytes)

pub moved :
    {A : Type 0} (as' bs cs ds : List A) → (as' ++ bs) ++ (cs ++ ds) ≡ as' ++ ((bs ++ cs) ++ ds)
moved as' bs cs ds =
    append_assoc as' bs (cs ++ ds) ∙ ap (λ l. as' ++ l) (sym (append_assoc bs cs ds))

abbrev pub one_at : {A : Type 0} → ℕ → ℕ → A → List A
one_at u vc x = if u == vc then x ∷ [] else []

-- The head of one channel's queue, seen from another channel.
pub popped :
    {A : Type 0} (f : ℕ → List A) (u vc : ℕ) (x : A) (later : List A)
    → f u ≡ x ∷ later
    → f vc ≡ one_at u vc x ++ update u later f vc
popped f u vc x later e = elim (Bool-cases (u == vc)) [
  | inl same ↦ rw same (ap f (sym ((==_iff u vc).0 same)) ∙ e)
  | inr other ↦ rw other refl
]

pub pushed :
    {A : Type 0} (f : ℕ → List A) (u vc : ℕ) (x : A)
    → update u (f u ++ x ∷ []) f vc ≡ f vc ++ one_at u vc x
pushed f u vc x = elim (Bool-cases (u == vc)) [
  | inl same ↦ rw same (ap (λ w. f w ++ x ∷ []) ((==_iff u vc).0 same))
  | inr other ↦ rw other (sym (append-nil (f vc)))
]

pub packets_in-pushed :
    (f : ℕ → List AosFrame) (vc : ℕ) (frame : AosFrame)
    → packets_in (update frame.vc_id (f frame.vc_id ++ frame ∷ []) f vc)
      ≡ packets_in (f vc) ++ if_of vc frame
packets_in-pushed f vc frame = elim (Bool-cases (frame.vc_id == vc)) [
  | inl same ↦ rw same (
      packets_in-append (f frame.vc_id) frame
      ∙ ap (λ w. packets_in (f w) ++ packet_in frame) ((==_iff frame.vc_id vc).0 same))
  | inr other ↦ rw other (sym (append-nil (packets_in (f vc))))
]

pub packets_of-first :
    (vc : ℕ) (frame : AosFrame) (later : List AosFrame)
    → packets_of vc (frame ∷ later) ≡ if_of vc frame ++ packets_of vc later
unfolding packets_of
packets_of-first vc frame later = ground arith

pub packets_in-popped :
    (f : ℕ → List AosFrame) (u vc : ℕ) (frame : AosFrame) (later : List AosFrame)
    → f u ≡ frame ∷ later
    → packets_in (f vc)
      ≡ (if u == vc then packet_in frame else []) ++ packets_in (update u later f vc)
unfolding packets_in
packets_in-popped f u vc frame later e = elim (Bool-cases (u == vc)) [
  | inl same ↦ rw same (ap packets_in (ap f (sym ((==_iff u vc).0 same)) ∙ e))
  | inr other ↦ rw other refl
]

pub no_packet :
    (frame : AosFrame) (e : CcsdsError) → parse frame.data_field ≡ err e → packet_in frame ≡ []
unfolding packet_in
no_packet frame e r = rw (r, packet_in) refl

pub one_packet :
    (frame : AosFrame) (p : SpacePacket)
    → parse frame.data_field ≡ ok p
    → packet_in frame ≡ frame.data_field ∷ []
unfolding packet_in
one_packet frame p r = rw (r, packet_in) refl

-- What a frame carries for one channel is left out at most once.
pub omit_frame :
    (b : Bool) (frame : AosFrame) (xs : List (List ℕ))
    → (m : ℕ) × (m ≤ (if b then 1 else 0)) × Omits m xs ((if b then packet_in frame else []) ++ xs)
omit_frame true frame xs = Omits-first (packet_in frame) xs (length-packet_in frame)
omit_frame false frame xs = (0, omega arith, Omits-refl xs)

pub omit_last :
    (b : Bool) (frame : AosFrame) (xs : List (List ℕ))
    → (m : ℕ) × (m ≤ (if b then 1 else 0)) × Omits m xs (xs ++ (if b then packet_in frame else []))
omit_last b frame xs =
    let last = if b then packet_in frame else [] in
    let (m, few, omits) = omit_frame b frame [] in
    let alone = subst (λ l. Omits m [] l) (append-nil last) omits in
    (m, few, subst (λ l. Omits m l (xs ++ last)) (append-nil xs) (Omits-prefix xs alone))

-- A frame that waits behind all others.
pub under_way-append :
    (r t p c f last : List (List ℕ))
    → r ++ (t ++ (p ++ (c ++ (f ++ last)))) ≡ (r ++ (t ++ (p ++ (c ++ f)))) ++ last
under_way-append r t p c f last =
    ap (λ l. r ++ (t ++ (p ++ l))) (sym (append_assoc c f last))
    ∙ ap (λ l. r ++ (t ++ l)) (sym (append_assoc p (c ++ f) last))
    ∙ ap (λ l. r ++ l) (sym (append_assoc t (p ++ (c ++ f)) last))
    ∙ sym (append_assoc r (t ++ (p ++ (c ++ f))) last)
