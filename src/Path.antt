-- ===== src/Path.antt =====
-- path.go: the checks on a caller's ID, and the request path.
pub mod Segments
pub mod Resolve
use firezone_sdk_go.Common.{
  Bool, true, false, ◌||◌, Option, none, some, List, [], ◌∷◌, ◌++◌, map, Bytes, codes, ◌==◌,
  if◌then◌else◌, is_empty, bytes_eq,
}
use firezone_sdk_go.Error.{Error, missing_id, bad_segment, building_path, Result, ok, err}
use firezone_sdk_go.Url.{Url, path_escape, path_unescape, escaped_path}

-- `ErrMissingID` for an empty ID; "." and ".." are refused as well.
unfoldable pub check_id : Bytes → Bytes → Option Error
check_id name id =
    if is_empty id
    then some (missing_id name)
    else if bytes_eq id (codes ".") || bytes_eq id (codes "..")
    then some (bad_segment name id)
    else none

-- `strings.Join(parts, "/")`
unfoldable pub join_slash : List Bytes → Bytes
join_slash [] = []
join_slash (p ∷ []) = p
join_slash (p ∷ q ∷ ps) = p ++ b'/' ∷ join_slash (q ∷ ps)

unfoldable pub build_path : List Bytes → Bytes
build_path segments = join_slash (map path_escape segments)

-- `strings.TrimSuffix(s, "/")`
unfoldable pub trim_slash : Bytes → Bytes
trim_slash [] = []
trim_slash (c ∷ []) = if c == b'/' then [] else c ∷ []
trim_slash (c ∷ d ∷ s) = c ∷ trim_slash (d ∷ s)

-- The escaped form of the URL to request, before it is decoded.
unfoldable pub request_target : Url → Bytes → Bytes
request_target base request_path = trim_slash (escaped_path base) ++ b'/' ∷ request_path

unfoldable pub resolve_path : Url → Bytes → Result Url
unfolding request_target
resolve_path base request_path =
    let escaped = request_target base request_path in
    elim (path_unescape escaped) [
      | none ↦ err building_path
      | some decoded ↦ ok (record base { path = decoded; raw_path = escaped })
    ]
