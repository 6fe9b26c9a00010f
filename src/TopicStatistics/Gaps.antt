-- ===== src/TopicStatistics/Gaps.antt =====
-- src/TopicStatistics.cc: what the count of dropped messages counts.
use gz_transport.Common.{
  ℕ, ◌+◌, ◌-◌, ◌^◌, ◌<◌, ◌≤◌, ◌≡◌, ◌↔◌, refl, ◌==◌, some, List, [], ◌∷◌, length, if◌then◌else◌,
  Text, text_eq_refl, arith,
}
use gz_transport.Common.Map.{lookup, lookup-insert}
use gz_transport.TopicStatistics.{Doubles, TopicStatistics, is_gap, update}

-- A message that comes in: the time, its stamp and its number.
pub record Arrival : Type 0 where
  pub came_at : ℕ
  pub stamped_at : ℕ
  pub number : ℕ

-- Messages of one sender, whose stamps are not 0 and whose numbers grow from the last one.
abbrev pub IsGrowing : ℕ → List Arrival → Type 0
IsGrowing last [] = Unit {0}
IsGrowing last (a ∷ rest) =
    (last < a.number) × ((a.number < 2 ^ 64) × ((0 < a.stamped_at) × IsGrowing a.number rest))

unfoldable pub last_number : ℕ → List Arrival → ℕ
last_number n [] = n
last_number n (a ∷ rest) = last_number a.number rest

-- How often the numbers leave some out, and how many they leave out.
unfoldable pub gaps : ℕ → List Arrival → ℕ
gaps last [] = 0
gaps last (a ∷ rest) = (if last + 1 == a.number then 0 else 1) + gaps a.number rest

unfoldable pub missing : ℕ → List Arrival → ℕ
missing last [] = 0
missing last (a ∷ rest) = (a.number - (last + 1)) + missing a.number rest

missing-length :
    (last : ℕ) (rest : List Arrival)
    → IsGrowing last rest
    → last + length rest + missing last rest ≡ last_number last rest
unfolding missing last_number
missing-length last [] g = omega arith
missing-length last (a ∷ rest) (more, (fits, (stamped, g))) =
    omega (arith, missing-length a.number rest g)

gaps-missing :
    (last : ℕ) (rest : List Arrival)
    → IsGrowing last rest
    → (gaps last rest ≤ missing last rest) × ((gaps last rest ≡ 0) ↔ (missing last rest ≡ 0))
unfolding gaps missing
gaps-missing last [] g = (omega arith, (λ e. refl, λ e. refl))
gaps-missing last (a ∷ rest) (more, (fits, (stamped, g))) =
    let (fewer, none_missing) = gaps-missing a.number rest g in ground (arith, fewer, none_missing)

module _ {D : Type 0} ⦃doubles : Doubles D⦄ where
  unfoldable pub update_all : Text → List Arrival → TopicStatistics D → TopicStatistics D
  update_all sender [] s = s
  update_all sender (a ∷ rest) s =
      update_all sender rest (update a.came_at sender a.stamped_at a.number s)

  pub update-dropped :
      (sender : Text) (a : Arrival) (last : ℕ) (s : TopicStatistics D)
      → 0 < s.prev_publication_stamp
      → lookup sender s.seq ≡ some last
      → last + 1 < 2 ^ 64
      → s.dropped_msg_count + 1 < 2 ^ 64
      → let s' = update a.came_at sender a.stamped_at a.number s in
        (s'.dropped_msg_count ≡ s.dropped_msg_count + (if last + 1 == a.number then 0 else 1))
        × ((lookup sender s'.seq ≡ some a.number) × (s'.prev_publication_stamp ≡ a.stamped_at))
  unfolding update is_gap
  update-dropped sender a last s h e small few =
      ground (arith, lookup-insert sender sender a.number s.seq, text_eq_refl sender)

  run-dropped :
      (sender : Text) (last : ℕ) (rest : List Arrival) (s : TopicStatistics D)
      → IsGrowing last rest
      → 0 < s.prev_publication_stamp
      → lookup sender s.seq ≡ some last
      → s.dropped_msg_count + length rest < 2 ^ 64
      → (update_all sender rest s).dropped_msg_count ≡ s.dropped_msg_count + gaps last rest
  unfolding update_all gaps
  run-dropped sender last [] s g h e few = omega arith
  run-dropped sender last (a ∷ rest) s (more, (fits, (stamped, g))) h e few =
      let (counted, (known, stamp)) =
        update-dropped sender a last s h e (omega arith) (omega arith) in
      let s' = update a.came_at sender a.stamped_at a.number s in
      let later =
        run-dropped sender a.number rest s' g (omega (arith, stamp)) known
          (ground (arith, counted)) in
      omega (arith, later, counted)

  -- For messages of one sender, heard before, whose numbers grow and whose stamps are not 0, while
  -- the count fits into 64 bits: the count of dropped messages grows by no more than the numbers that
  -- were left out, and stays exactly if none was left out.
  update_all-dropped :
      (sender : Text) (last : ℕ) (rest : List Arrival) (s : TopicStatistics D)
      → IsGrowing last rest
      → 0 < s.prev_publication_stamp
      → lookup sender s.seq ≡ some last
      → s.dropped_msg_count + length rest < 2 ^ 64
      → let left_out = last_number last rest - last - length rest in
        let dropped = (update_all sender rest s).dropped_msg_count in
        (dropped ≤ s.dropped_msg_count + left_out)
        × ((dropped ≡ s.dropped_msg_count) ↔ (left_out ≡ 0))
  update_all-dropped sender last rest s g h e few =
      let counted = run-dropped sender last rest s g h e few in
      let split = missing-length last rest g in
      let (fewer, none_missing) = gaps-missing last rest g in
      (omega (arith, counted, split, fewer), ground (arith, counted, split, none_missing))
