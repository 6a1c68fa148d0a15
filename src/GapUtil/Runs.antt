-- ===== src/GapUtil/Runs.antt =====
-- CheckNextNumber of src/gap_util/gap_util.go over any sequence of events of any partitions.
use air_gap.Common.{
  Bytes, ℕ, ◌≡◌, refl, ap₂, List, [], ◌∷◌, Bool, if◌then◌else◌, inl, inr, Bool-cases, arith,
}
use mathlib.Core.Path.{subst}
use air_gap.Common.Members.{contains}
use air_gap.Common.Maps.{lookup, insert, bytes_eq, bytes_beq, bytes_beq_iff, lookup-insert}
use air_gap.GapUtil.{Gaps, AllGaps, get_all_gaps, check_number, check_next_number}
use air_gap.GapUtil.Tracking.{Tracks, check_number-Tracks, no_gaps-Tracks}

-- An event: its time, its partition and its number.
pub record Event : Type 0 where
  pub now : ℕ
  pub key : Bytes
  pub number : ℕ

-- The events given to CheckNextNumber one after the other, with its answers.
unfoldable pub run : AllGaps → List Event → AllGaps × List Bool
run all [] = (all, [])
run all (e ∷ es) =
    let (all', duplicate) = check_next_number all e.now e.key e.number in
    let (last, answers) = run all' es in (last, duplicate ∷ answers)

-- What has come of each partition, the latest first.
abbrev pub History : Type 0
History = Bytes → List ℕ

unfoldable pub received : History → Event → History
received h e k = if bytes_beq e.key k then e.number ∷ h k else h k

unfoldable pub received_all : History → List Event → History
received_all h [] = h
received_all h (e ∷ es) = received_all (received h e) es

-- Whether each event repeats an earlier one of its partition.
unfoldable pub repeats : History → List Event → List Bool
repeats h [] = []
repeats h (e ∷ es) = contains e.number (h e.key) ∷ repeats (received h e) es

abbrev pub TracksAll : History → AllGaps → Type 0
TracksAll h all = (key : Bytes) → Tracks (h key) (get_all_gaps all key)

get_all_gaps-insert :
    (all : AllGaps) (key k : Bytes) (s : Gaps)
    → get_all_gaps (insert key s all) k ≡ (if bytes_beq key k then s else get_all_gaps all k)
unfolding get_all_gaps
get_all_gaps-insert all key k s = rw lookup-insert (ground arith)

check_next_number-TracksAll :
    (h : History) (all : AllGaps) (e : Event)
    → TracksAll h all
    → TracksAll (received h e) (check_next_number all e.now e.key e.number).0
      × ((check_next_number all e.now e.key e.number).1 ≡ contains e.number (h e.key))
unfolding check_next_number received
check_next_number-TracksAll h all e t =
    let step = check_number-Tracks (h e.key) (get_all_gaps all e.key) e.now e.number (t e.key) in
    (
      λ k. elim (Bool-cases (bytes_beq e.key k)) [
        | inl same ↦
            rw (get_all_gaps-insert, same)
              (subst
                (λ q.
                  Tracks (e.number ∷ h q) (check_number (get_all_gaps all e.key) e.now e.number).0)
                ((bytes_beq_iff e.key k).0 same) step.0)
        | inr other ↦ rw (get_all_gaps-insert, other) (t k)
      ],
      step.1,
    )

-- Over any events, in any order and of any partitions: the tracker of every partition expects the
-- number after the largest that came and lists exactly the smaller numbers that have not come;
-- and every answer says whether the number had come before.
pub run-TracksAll :
    (h : History) (all : AllGaps) (es : List Event)
    → TracksAll h all
    → TracksAll (received_all h es) (run all es).0 × ((run all es).1 ≡ repeats h es)
unfolding run received_all repeats
run-TracksAll h all [] t = (t, refl)
run-TracksAll h all (e ∷ es) t =
    let step = check_next_number-TracksAll h all e t in
    let rest =
      run-TracksAll (received h e) (check_next_number all e.now e.key e.number).0 es step.0 in
    (rest.0, ap₂ (λ b bs. b ∷ bs) step.1 rest.1)

pub start-TracksAll : TracksAll (λ k. []) []
unfolding get_all_gaps lookup
start-TracksAll key = no_gaps-Tracks
