-- ===== src/Abuse/Suspicion/Cadence.antt =====
-- abuse/suspicion.ts: the cadence analyser.
use the_room_backend.Base.{
  ℕ, ◌+◌, ◌-◌, ◌*◌, ◌≤◌, ◌≡◌, ◌∙◌, List, [], ◌∷◌, ◌++◌, arith, if◌then◌else◌, length, length-append,
  length-drop,
}
use the_room_backend.Abuse.Suspicion.{TimingAnalyzer, push_gap, judge, record_message}

-- The analyser keeps at most a window of gaps.
abbrev pub IsWithin : TimingAnalyzer → Type 0
IsWithin t = length t.gaps ≤ t.window

push_gap_lem :
    (now : ℕ) (t : TimingAnalyzer)
    → IsWithin t
    → (length (push_gap now t).gaps ≤ length t.gaps + 1)
      × IsWithin (push_gap now t)
      × ((push_gap now t).window ≡ t.window)
unfolding push_gap
push_gap_lem now t h = ground (
  arith,
  length-append t.gaps ((now - t.last) ∷ []),
  length-drop 1 (t.gaps ++ (now - t.last) ∷ []),
)

judge_lem :
    (w : ℕ) (t : TimingAnalyzer)
    → t.window ≡ w
    → ((if (judge t).0 then 1 else 0) * w + length (judge t).1.gaps ≤ length t.gaps)
      × (length (judge t).1.gaps ≤ length t.gaps)
      × ((judge t).1.window ≡ t.window)
unfolding judge
judge_lem w t h = ground arith

pub record_message_lem :
    (now : ℕ) (t : TimingAnalyzer)
    → IsWithin t
    → ((if (record_message now t).0 then 1 else 0) * t.window + length (record_message now t).1.gaps
        ≤ length t.gaps + 1)
      × IsWithin (record_message now t).1
      × ((record_message now t).1.window ≡ t.window)
unfolding record_message
record_message_lem now t h =
    let (grown, within, same) = push_gap_lem now t h in
    let (paid, less, kept) = judge_lem t.window (push_gap now t) same in
    let paid' : (if (record_message now t).0 then 1 else 0) * t.window
          + length (record_message now t).1.gaps
        ≤ length (push_gap now t).gaps =
      paid in
    (omega (arith, paid', grown), omega (arith, within, less, kept), kept ∙ same)

-- Messages at the times: how often the analyser fires.
abbrev pub fires : List ℕ → TimingAnalyzer → ℕ
fires [] t = 0
fires (now ∷ ts) t =
    let (fired, t') = record_message now t in (if fired then 1 else 0) + fires ts t'

-- Over any run of messages each time that the analyser fires has used up a whole window of gaps:
-- the times that it fires, times the window, are at most the gaps it held and the messages.
pub fires_bound :
    (ts : List ℕ) (t : TimingAnalyzer)
    → IsWithin t
    → fires ts t * t.window ≤ length t.gaps + length ts
fires_bound [] t h = omega arith
fires_bound (now ∷ ts) t h =
    let (paid, within, same) = record_message_lem now t h in
    omega (arith, paid, rw same at (fires_bound ts (record_message now t).1 within))
