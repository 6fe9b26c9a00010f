-- ===== src/Log/Time/Ranges.antt =====
-- log/src/QualifiedTime.cc: which times a range holds.
use gz_transport.Common.{◌≡◌, refl, ◌↔◌, Bool, true, false, ◌&&◌, arith}
use gz_transport.Common.Int.{ℤ, leb_ℤ, ltb_ℤ, eq_ℤ_iff}
use gz_transport.Log.Time.{
  inclusive, exclusive, QualifiedTime, indeterminate, at_time, QualifiedTimeRange, end_point_equal,
  time_eq, qualifier_eq, range_eq, is_valid, get_time,
}

-- Not before a start, and not after a finish.
abbrev pub not_before : QualifiedTime → ℤ → Bool
not_before indeterminate t = true
not_before (at_time s inclusive) t = leb_ℤ s t
not_before (at_time s exclusive) t = ltb_ℤ s t

abbrev pub not_after : QualifiedTime → ℤ → Bool
not_after indeterminate t = true
not_after (at_time s inclusive) t = leb_ℤ t s
not_after (at_time s exclusive) t = ltb_ℤ t s

-- The time lies in the range.
abbrev pub holds : QualifiedTimeRange → ℤ → Bool
holds r t = not_before r.start t && not_after r.finish t

end_point_equal_iff : (s t : QualifiedTime) → (end_point_equal s t ≡ true) ↔ (s ≡ t)
unfolding end_point_equal time_eq qualifier_eq
end_point_equal_iff indeterminate indeterminate = (λ h. refl, λ h. refl)
end_point_equal_iff indeterminate (at_time u r) = ground arith
end_point_equal_iff (at_time t q) indeterminate = ground arith
end_point_equal_iff (at_time t inclusive) (at_time u inclusive) = ground (arith, eq_ℤ_iff t u)
end_point_equal_iff (at_time t inclusive) (at_time u exclusive) = ground arith
end_point_equal_iff (at_time t exclusive) (at_time u inclusive) = ground arith
end_point_equal_iff (at_time t exclusive) (at_time u exclusive) = ground (arith, eq_ℤ_iff t u)

-- The equality of ranges is true exactly for two ranges that have the same end points.
pub range_eq_iff : (r s : QualifiedTimeRange) → (range_eq r s ≡ true) ↔ (r ≡ s)
unfolding range_eq
range_eq_iff r s =
    ground (arith, end_point_equal_iff r.start s.start, end_point_equal_iff r.finish s.finish)

-- A range that is not valid holds no time.
pub is_valid-holds : (r : QualifiedTimeRange) (t : ℤ) → is_valid r ≡ false → holds r t ≡ false
unfolding is_valid get_time
is_valid-holds r t h = go r.start r.finish h
  where
    go :
        (s f : QualifiedTime)
        → is_valid (record { start = s; finish = f }) ≡ false
        → holds (record { start = s; finish = f }) t ≡ false
    go indeterminate f h = cc
    go (at_time s q) indeterminate h = cc
    go (at_time s inclusive) (at_time f inclusive) h = ground arith
    go (at_time s inclusive) (at_time f exclusive) h = ground arith
    go (at_time s exclusive) (at_time f inclusive) h = ground arith
    go (at_time s exclusive) (at_time f exclusive) h = ground arith
