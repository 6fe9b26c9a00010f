-- ===== src/Log/Time.antt =====
-- log/src/QualifiedTime.cc: points in time that are open, closed or indeterminate, and ranges.
pub mod Ranges
use gz_transport.Common.{Bool, true, false, ◌&&◌, Option, none, some, if◌then◌else◌}
use gz_transport.Common.Int.{ℤ, leb_ℤ, ltb_ℤ, eq_ℤ}

pub data Qualifier : Type 0 where
  inclusive exclusive : Qualifier

-- The flag `indeterminate` with the other members, which count only where it is false.
pub data QualifiedTime : Type 0 where
  indeterminate : QualifiedTime
  at_time : ℤ → Qualifier → QualifiedTime

abbrev pub is_indeterminate : QualifiedTime → Bool
is_indeterminate indeterminate = true
is_indeterminate (at_time t q) = false

-- `GetTime` and `GetQualifier`, where none is the null pointer.
unfoldable pub get_time : QualifiedTime → Option ℤ
get_time indeterminate = none
get_time (at_time t q) = some t

unfoldable pub get_qualifier : QualifiedTime → Option Qualifier
get_qualifier indeterminate = none
get_qualifier (at_time t q) = some q

unfoldable pub qualifier_eq : Qualifier → Qualifier → Bool
qualifier_eq inclusive inclusive = true
qualifier_eq exclusive exclusive = true
qualifier_eq _ _ = false

-- `operator==`, which is false for an indeterminate time.
unfoldable pub time_eq : QualifiedTime → QualifiedTime → Bool
unfolding qualifier_eq
time_eq (at_time t q) (at_time u r) = qualifier_eq q r && eq_ℤ t u
time_eq _ _ = false

unfoldable pub end_point_equal : QualifiedTime → QualifiedTime → Bool
unfolding time_eq
end_point_equal s t = if is_indeterminate s && is_indeterminate t then true else time_eq s t

pub record QualifiedTimeRange : Type 0 where
  pub start : QualifiedTime
  pub finish : QualifiedTime

unfoldable pub is_valid : QualifiedTimeRange → Bool
unfolding get_time
is_valid r = elim (get_time r.start) [
  | none ↦ true
  | some ts ↦ elim (get_time r.finish) [ none ↦ true | some tf ↦ leb_ℤ ts tf ]
]

-- The setters tell whether the range is then valid.
unfoldable pub set_beginning : QualifiedTime → QualifiedTimeRange → QualifiedTimeRange × Bool
set_beginning t r = let r' = record r { start = t } in (r', is_valid r')

unfoldable pub set_ending : QualifiedTime → QualifiedTimeRange → QualifiedTimeRange × Bool
set_ending t r = let r' = record r { finish = t } in (r', is_valid r')

unfoldable pub set_range :
    QualifiedTime → QualifiedTime → QualifiedTimeRange → QualifiedTimeRange × Bool
set_range s t r = let r' = record r { start = s; finish = t } in (r', is_valid r')

-- `operator==`
unfoldable pub range_eq : QualifiedTimeRange → QualifiedTimeRange → Bool
unfolding end_point_equal
range_eq r s = end_point_equal r.start s.start && end_point_equal r.finish s.finish

-- `From`, `Until` and `AllTime`
abbrev pub from_time : QualifiedTime → QualifiedTimeRange
from_time t = record { start = t; finish = indeterminate }

abbrev pub until_time : QualifiedTime → QualifiedTimeRange
until_time t = record { start = indeterminate; finish = t }

abbrev pub all_time : QualifiedTimeRange
all_time = record { start = indeterminate; finish = indeterminate }
