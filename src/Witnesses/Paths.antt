-- ===== src/Witnesses/Paths.antt =====
-- Concrete cases of the theorems on request paths.
use firezone_sdk_go.Common.{◌≡◌, ◌≢◌, refl, none, some, List, [], ◌∷◌, Bytes, codes, All, IsBytes}
use firezone_sdk_go.Error.{ok}
use firezone_sdk_go.Path.{check_id, build_path, resolve_path}
use firezone_sdk_go.Path.Segments.{
  read_path, read_path-build_path, build_path-IsPlain, IsPlain, split_slash, EndsNowhere,
}
use firezone_sdk_go.Path.Resolve.{IsResolved, resolve_path-build_path}
use firezone_sdk_go.Url.{Url}
use firezone_sdk_go.Witnesses.{is_bytes_sound, base, base-IsBytes}

abbrev awkward : List Bytes
awkward = codes "sites" ∷ codes "a/b ?%2e" ∷ codes "gateways" ∷ []

awkward_ne : awkward ≢ []
awkward_ne e = cc

awkward-IsBytes : All IsBytes awkward
awkward-IsBytes = (
  is_bytes_sound (codes "sites") refl,
  (is_bytes_sound (codes "a/b ?%2e") refl, (is_bytes_sound (codes "gateways") refl, tt)),
)

read_path-build_path_example : read_path (build_path awkward) ≡ some awkward
read_path-build_path_example = read_path-build_path awkward awkward_ne awkward-IsBytes

awkward_checked : All (λ s. check_id (codes "site ID") s ≡ none) awkward
unfolding check_id
awkward_checked = (refl, (refl, (refl, tt)))

build_path-IsPlain_example :
    All IsPlain (split_slash (build_path awkward)) × EndsNowhere (build_path awkward)
build_path-IsPlain_example =
    build_path-IsPlain (codes "site ID") awkward awkward_ne awkward-IsBytes awkward_checked

resolve_path-build_path_example :
    (u : Url) × (resolve_path base (build_path awkward) ≡ ok u)
    × IsResolved base (build_path awkward) u
resolve_path-build_path_example = resolve_path-build_path base awkward base-IsBytes awkward-IsBytes
