-- ===== src/History/Retained.antt =====
-- src/send_rtp_history.cpp: which packets are kept.
use srtc.Common.{
  ℕ, zero, suc, ◌≤◌, ◌<◌, ◌≡◌, ◌≢◌, refl, ap, sym, subst, ◌∙◌, List, [], ◌∷◌, length, take,
  take_all, length-take, Option, none, some, none≢some, arith,
}
use srtc.Common.{leb, ◌==◌, if◌then◌else◌, ==_true, ==_false, if-elim, Bool-cases, inl, inr}
use native.Mathlib.Decide.{ℕ_discrete, dec_lt}
use srtc.Rtp.{RtpPacket}
use srtc.History.{
  TrackHistory, SendRtpHistory, entry, assign, back_of, pop_back, evict, evict_loop, max_history,
  save, find,
}

-- The abstract history of a track: its last packets, the newest first.
abbrev pub lookup : List RtpPacket → ℕ → Option RtpPacket
lookup [] sequence = none
lookup (p ∷ rest) sequence = if p.sequence == sequence then some p else lookup rest sequence

abbrev push : RtpPacket → List RtpPacket → List RtpPacket
push p packets = p ∷ take 511 packets

-- All sequence numbers differ.
abbrev AllDistinct : List RtpPacket → Type 0
AllDistinct [] = Unit
AllDistinct (p ∷ rest) = (lookup rest p.sequence ≡ none) × AllDistinct rest

-- The history of a track holds exactly these packets.
pub record Mirrors (item : TrackHistory) (packets : List RtpPacket) : Type 0 where
  pub list : item.packet_list ≡ packets
  pub map : (sequence : ℕ) → item.packet_map sequence ≡ lookup packets sequence
  pub distinct : AllDistinct packets
  pub bounded : length packets ≤ 512

lookup-pop_back_other :
    (p : RtpPacket) (rest : List RtpPacket) (sequence : ℕ)
    → sequence ≢ (back_of p rest).sequence
    → lookup (p ∷ rest) sequence ≡ lookup (pop_back p rest) sequence
unfolding back_of pop_back
lookup-pop_back_other p [] sequence d = rw (==_false p.sequence sequence (λ e. d (sym e))) refl
lookup-pop_back_other p (q ∷ rest) sequence d =
    ap (λ (o : Option RtpPacket). if p.sequence == sequence then some p else o)
      (lookup-pop_back_other q rest sequence d)

-- What is not in a list is neither its first packet nor among the rest.
lookup-none :
    (p : RtpPacket) (rest : List RtpPacket) (sequence : ℕ)
    → lookup (p ∷ rest) sequence ≡ none
    → (p.sequence ≢ sequence) × (lookup rest sequence ≡ none)
lookup-none p rest sequence h = elim (Bool-cases (p.sequence == sequence)) [
  | inl same ↦ absurd (none≢some (sym (rw same at h)))
  | inr differ ↦ (λ e. ground arith, rw differ at h)
]

lookup-pop_back-none :
    (p : RtpPacket) (rest : List RtpPacket) (sequence : ℕ)
    → lookup (p ∷ rest) sequence ≡ none
    → lookup (pop_back p rest) sequence ≡ none
unfolding pop_back
lookup-pop_back-none p [] sequence h = refl
lookup-pop_back-none p (q ∷ rest) sequence h =
    let (differ, later) = lookup-none p (q ∷ rest) sequence h in
    rw (==_false p.sequence sequence differ) (lookup-pop_back-none q rest sequence later)

AllDistinct-pop_back :
    (p : RtpPacket) (rest : List RtpPacket) → AllDistinct (p ∷ rest) → AllDistinct (pop_back p rest)
unfolding pop_back
AllDistinct-pop_back p [] h = tt
AllDistinct-pop_back p (q ∷ rest) (fresh, later) =
    (lookup-pop_back-none q rest p.sequence fresh, AllDistinct-pop_back q rest later)

lookup_back :
    (p : RtpPacket) (rest : List RtpPacket) → ¬ (lookup (p ∷ rest) (back_of p rest).sequence ≡ none)
unfolding back_of
lookup_back p [] e = (lookup-none p [] p.sequence e).0 refl
lookup_back p (q ∷ rest) e = lookup_back q rest (lookup-none p (q ∷ rest) _ e).1

-- The last packet is not among those before it.
back_gone :
    (p : RtpPacket) (rest : List RtpPacket)
    → AllDistinct (p ∷ rest)
    → lookup (pop_back p rest) (back_of p rest).sequence ≡ none
unfolding pop_back back_of
back_gone p [] h = refl
back_gone p (q ∷ rest) (fresh, later) =
    let differ : p.sequence ≢ (back_of q rest).sequence =
      λ same. lookup_back q rest (subst (λ n. lookup (q ∷ rest) n ≡ none) same fresh) in
    rw (==_false p.sequence (back_of q rest).sequence differ) (back_gone q rest later)

pop_back-take :
    (p : RtpPacket) (rest : List RtpPacket) → pop_back p rest ≡ take (length rest) (p ∷ rest)
unfolding pop_back
pop_back-take p [] = refl
pop_back-take p (q ∷ rest) = ap (λ (ps : List RtpPacket). p ∷ ps) (pop_back-take q rest)

length-pop_back : (p : RtpPacket) (rest : List RtpPacket) → length (pop_back p rest) ≡ length rest
unfolding pop_back
length-pop_back p [] = refl
length-pop_back p (q ∷ rest) = ap suc (length-pop_back q rest)

evict-Mirrors :
    (item : TrackHistory) (p : RtpPacket) (rest : List RtpPacket)
    → Mirrors item (p ∷ rest)
    → Mirrors (evict item) (pop_back p rest)
unfolding evict
evict-Mirrors item p rest m =
    let distinct = m.distinct in
    let bounded = m.bounded in
    subst (λ (i : TrackHistory). Mirrors i (pop_back p rest)) (sym evicted)
      (record {
        list = refl;
        map = λ sequence. elim (ℕ_discrete sequence (back_of p rest).sequence) [
          | yes e ↦
              assigned sequence e
              ∙ sym (ap (lookup (pop_back p rest)) e ∙ back_gone p rest distinct)
          | no d ↦ kept sequence d ∙ m.map sequence ∙ lookup-pop_back_other p rest sequence d
        ];
        distinct = AllDistinct-pop_back p rest distinct;
        bounded = omega (arith, length-pop_back p rest);
      })
  where
    evicted : evict item ≡ record {
      packet_list = pop_back p rest;
      packet_map = assign item.packet_map (back_of p rest).sequence none;
    }
    evicted =
        unfold evict in
        ap {B = TrackHistory}
          (λ (ps : List RtpPacket). elim ps [
            | [] ↦ item
            | q ∷ qs ↦ record {
              packet_list = pop_back q qs;
              packet_map = assign item.packet_map (back_of q qs).sequence none;
            }
          ])
          m.list

    assigned :
        (sequence : ℕ)
        → sequence ≡ (back_of p rest).sequence
        → assign item.packet_map (back_of p rest).sequence none sequence ≡ none
    assigned sequence e = unfold assign in rw (==_true sequence (back_of p rest).sequence e) refl

    kept :
        (sequence : ℕ)
        → sequence ≢ (back_of p rest).sequence
        → assign item.packet_map (back_of p rest).sequence none sequence ≡ item.packet_map sequence
    kept sequence d = unfold assign in rw (==_false sequence (back_of p rest).sequence d) refl

-- Less than 512 packets stay.
evict_loop_stays :
    (fuel : ℕ) (item : TrackHistory) → length item.packet_list < 512 → evict_loop fuel item ≡ item
unfolding evict_loop
evict_loop_stays zero item h = refl
evict_loop_stays (suc fuel) item h =
    if-elim (λ (r : TrackHistory). r ≡ item) (leb max_history (length item.packet_list)) _ item
      (λ full. absurd (ground arith)) (λ room. refl)

evict_loop_full :
    (fuel : ℕ) (item : TrackHistory)
    → 512 ≤ length item.packet_list
    → evict_loop (suc fuel) item ≡ evict_loop fuel (evict item)
unfolding evict_loop
evict_loop_full fuel item h =
    if-elim (λ (r : TrackHistory). r ≡ evict_loop fuel (evict item))
      (leb max_history (length item.packet_list)) _ item (λ full. refl)
      (λ room. absurd (ground arith))

evict_loop-Mirrors :
    (fuel : ℕ) (item : TrackHistory) (packets : List RtpPacket)
    → length packets ≤ fuel
    → Mirrors item packets
    → Mirrors (evict_loop fuel item) (take 511 packets)
evict_loop-Mirrors fuel item [] enough m =
    subst (λ (i : TrackHistory). Mirrors i [])
      (sym (evict_loop_stays fuel item (omega (arith, ap length m.list)))) m
evict_loop-Mirrors zero item (p ∷ rest) enough m = absurd (omega arith)
evict_loop-Mirrors (suc fuel) item (p ∷ rest) enough m = elim (dec_lt (length (p ∷ rest)) 512) [
  | yes room ↦
      subst (λ (i : TrackHistory). Mirrors i (take 511 (p ∷ rest)))
        (sym (evict_loop_stays (suc fuel) item (omega (arith, ap length m.list))))
        (subst (Mirrors item) (sym (take_all (p ∷ rest) 511 (omega arith))) m)
  | no full ↦
      let evicted = evict-Mirrors item p rest m in
      let bounded = m.bounded in
      let left : length rest ≡ 511 = omega arith in
      subst (λ (i : TrackHistory). Mirrors i (take 511 (p ∷ rest)))
        (sym (
          evict_loop_full fuel item (omega (arith, ap length m.list))
          ∙ evict_loop_stays fuel (evict item)
              (omega (arith, ap length evicted.list, length-pop_back p rest))))
        (subst (Mirrors (evict item))
          (pop_back-take p rest ∙ ap (λ (n : ℕ). take n (p ∷ rest)) left) evicted)
]

lookup-take-none :
    (n : ℕ) (packets : List RtpPacket) (sequence : ℕ)
    → lookup packets sequence ≡ none
    → lookup (take n packets) sequence ≡ none
lookup-take-none zero packets sequence h = refl
lookup-take-none (suc n) [] sequence h = refl
lookup-take-none (suc n) (p ∷ rest) sequence h =
    let (differ, later) = lookup-none p rest sequence h in
    rw (==_false p.sequence sequence differ) (lookup-take-none n rest sequence later)

push-Mirrors :
    (kept : TrackHistory) (packets : List RtpPacket) (p : RtpPacket)
    → Mirrors kept packets
    → lookup packets p.sequence ≡ none
    → length packets ≤ 511
    → Mirrors
        (record {
          packet_list = p ∷ kept.packet_list;
          packet_map = assign kept.packet_map p.sequence (some p);
        })
        (p ∷ packets)
unfolding assign
push-Mirrors kept packets p m fresh room = record {
  list = ap (λ (ps : List RtpPacket). p ∷ ps) m.list;
  map = λ sequence. elim (ℕ_discrete sequence p.sequence) [
    | yes e ↦ rw (==_true sequence p.sequence e, ==_true p.sequence sequence (sym e)) refl
    | no d ↦
        rw (==_false sequence p.sequence d, ==_false p.sequence sequence (λ e. d (sym e)))
          (m.map sequence)
  ];
  distinct = (fresh, m.distinct);
  bounded = omega arith;
}

-- The histories of all tracks hold exactly the packets of the lists.
abbrev pub AllMirror : SendRtpHistory → (ℕ → List RtpPacket) → Type 0
AllMirror h packets = (ssrc : ℕ) → Mirrors (entry (h.track_map ssrc)) (packets ssrc)

abbrev pub sent : (ℕ → List RtpPacket) → RtpPacket → ℕ → List RtpPacket
sent packets p ssrc = if ssrc == p.ssrc then push p (packets p.ssrc) else packets ssrc

-- `save` of a packet whose sequence number is not among the last ones of its track implements the history
-- that keeps the 512 newest packets of each track.
pub save-AllMirror :
    (h : SendRtpHistory) (packets : ℕ → List RtpPacket) (p : RtpPacket)
    → AllMirror h packets
    → lookup (packets p.ssrc) p.sequence ≡ none
    → AllMirror (save h p) (sent packets p)
unfolding save assign
save-AllMirror h packets p m fresh ssrc =
    let item = entry (h.track_map p.ssrc) in
    let held = packets p.ssrc in
    let old = m p.ssrc in
    let kept =
      evict_loop-Mirrors (length item.packet_list) item held (omega (arith, ap length old.list))
        old in
    elim (ℕ_discrete ssrc p.ssrc) [
      | yes e ↦ rw (==_true ssrc p.ssrc e) (
          push-Mirrors (evict_loop (length item.packet_list) item) (take 511 held) p kept
            (lookup-take-none 511 held p.sequence fresh) (omega (arith, length-take 511 held)))
      | no d ↦ rw (==_false ssrc p.ssrc d) (m ssrc)
    ]

-- In such a history, `find` gives exactly the packet of the track with the sequence number.
pub find-lookup :
    (h : SendRtpHistory) (packets : ℕ → List RtpPacket) (ssrc sequence : ℕ)
    → AllMirror h packets
    → find h ssrc sequence ≡ lookup (packets ssrc) sequence
unfolding find
find-lookup h packets ssrc sequence m = cases (h.track_map ssrc) (m ssrc)
  where
    cases :
        (o : Option TrackHistory)
        → Mirrors (entry o) (packets ssrc)
        → (elim o [ none ↦ none | some item ↦ item.packet_map sequence ])
          ≡ lookup (packets ssrc) sequence
    cases none m = m.map sequence
    cases (some item) m = m.map sequence
