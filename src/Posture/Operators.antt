-- ===== src/Posture/Operators.antt =====
-- postures.go: the operators of a field check and the treatment of rows, by the texts that the API
-- knows them by.
use firezone_sdk_go.Common.{Bytes, codes}

abbrev pub operator_exists : Bytes
operator_exists = codes "exists"

abbrev pub operator_does_not_exist : Bytes
operator_does_not_exist = codes "does_not_exist"

abbrev pub operator_is : Bytes
operator_is = codes "is"

abbrev pub operator_is_not : Bytes
operator_is_not = codes "is_not"

abbrev pub operator_is_in : Bytes
operator_is_in = codes "is_in"

abbrev pub operator_is_not_in : Bytes
operator_is_not_in = codes "is_not_in"

abbrev pub operator_contains : Bytes
operator_contains = codes "contains"

abbrev pub operator_does_not_contain : Bytes
operator_does_not_contain = codes "does_not_contain"

abbrev pub operator_starts_with : Bytes
operator_starts_with = codes "starts_with"

abbrev pub operator_ends_with : Bytes
operator_ends_with = codes "ends_with"

abbrev pub operator_matches : Bytes
operator_matches = codes "matches"

abbrev pub operator_does_not_match : Bytes
operator_does_not_match = codes "does_not_match"

abbrev pub operator_eq : Bytes
operator_eq = codes "eq"

abbrev pub operator_ne : Bytes
operator_ne = codes "ne"

abbrev pub operator_gt : Bytes
operator_gt = codes "gt"

abbrev pub operator_gte : Bytes
operator_gte = codes "gte"

abbrev pub operator_lt : Bytes
operator_lt = codes "lt"

abbrev pub operator_lte : Bytes
operator_lte = codes "lte"

abbrev pub operator_before : Bytes
operator_before = codes "before"

abbrev pub operator_after : Bytes
operator_after = codes "after"

abbrev pub operator_within_last : Bytes
operator_within_last = codes "within_last"

abbrev pub operator_not_within_last : Bytes
operator_not_within_last = codes "not_within_last"

abbrev pub operator_is_in_cidr : Bytes
operator_is_in_cidr = codes "is_in_cidr"

abbrev pub operator_is_not_in_cidr : Bytes
operator_is_not_in_cidr = codes "is_not_in_cidr"

abbrev pub operator_contains_any_of : Bytes
operator_contains_any_of = codes "contains_any_of"

abbrev pub operator_contains_all_of : Bytes
operator_contains_all_of = codes "contains_all_of"

abbrev pub operator_is_empty : Bytes
operator_is_empty = codes "is_empty"

abbrev pub operator_is_not_empty : Bytes
operator_is_not_empty = codes "is_not_empty"

abbrev pub rows_any : Bytes
rows_any = codes "any"

abbrev pub rows_all : Bytes
rows_all = codes "all"
