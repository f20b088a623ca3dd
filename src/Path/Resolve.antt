-- ===== src/Path/Resolve.antt =====
-- resolvePath on the paths that buildPath writes.
use firezone_sdk_go.Common.{
  ◌≡◌, ◌≢◌, refl, sym, ap, ◌∙◌, true, Option, some, List, [], ◌∷◌, ◌++◌, Bytes, arith, Bool-cases,
  ◌==◌, ==_iff, All, IsBytes, ◌⊎◌, inl, inr, ◌&&◌, Bool,
}
use firezone_sdk_go.Error.{ok}
use firezone_sdk_go.Url.{
  Url, plain, push, path_escape, path_unescape, unescape_from, should_escape_segment, valid_byte,
  valid_encoded, escaped_path,
}
use firezone_sdk_go.Url.Escape.{prepend, path_unescape-escape, unescape_kept}
use firezone_sdk_go.Url.Encoded.{
  unescape-append, unescape-trim, valid_encoded-append, valid_encoded-escape, segment_mode_valid,
  escaped_path_valid, escaped_path_decodes, escaped_path_raw,
}
use firezone_sdk_go.Path.{join_slash, build_path, trim_slash, request_target, resolve_path}

-- A text that is a valid encoding of some path.
abbrev Encodes : Bytes → Type 0
Encodes s = (valid_encoded s ≡ true) × ((t : Bytes) × (path_unescape s ≡ some t))

trim_slash-cases : (s : Bytes) → (trim_slash s ≡ s) ⊎ (s ≡ trim_slash s ++ b'/' ∷ [])
unfolding trim_slash
trim_slash-cases [] = inl refl
trim_slash-cases (c ∷ []) = elim (Bool-cases (c == b'/')) [
  | inl h ↦ inr (rw h (ap (λ x. x ∷ []) ((==_iff c b'/').0 h)))
  | inr h ↦ inl (rw h)
]
trim_slash-cases (c ∷ d ∷ s) = elim (trim_slash-cases (d ∷ s)) [
  | inl e ↦ inl (ap (λ x. c ∷ x) e)
  | inr e ↦ inr (ap (λ x. c ∷ x) e)
]

and_left : (a b : Bool) → (a && b) ≡ true → a ≡ true
and_left a b h = ground arith

trim_slash-Encodes : (s : Bytes) → Encodes s → Encodes (trim_slash s)
unfolding path_unescape
trim_slash-Encodes s (v, (t, d)) = elim (trim_slash-cases s) [
  | inl e ↦ (ap valid_encoded e ∙ v, (t, ap (unescape_from plain) e ∙ d))
  | inr e ↦ (
    and_left _ _
        (sym (valid_encoded-append (trim_slash s) (b'/' ∷ [])) ∙ ap valid_encoded (sym e) ∙ v),
    unescape-trim plain (trim_slash s) t (ap (unescape_from plain) (sym e) ∙ d),
  )
]

valid_slash : (s : Bytes) → valid_encoded (b'/' ∷ s) ≡ valid_encoded s
unfolding valid_encoded valid_byte
valid_slash s = refl

prepend-some : (r : Bytes) (o : Option Bytes) (t : Bytes) → o ≡ some t → prepend r o ≡ some (r ++ t)
prepend-some r o t e = rw e

-- Two encodings with a slash between them are one.
join-Encodes : (s t : Bytes) → Encodes s → Encodes t → Encodes (s ++ b'/' ∷ t)
unfolding path_unescape
join-Encodes s t (v, (p, d)) (w, (q, e)) = (
  valid_encoded-append s (b'/' ∷ t) ∙ ground (arith, valid_slash t),
  (
    p ++ b'/' ∷ q,
    unescape-append plain s (b'/' ∷ t) p d
        ∙ prepend-some p _ (b'/' ∷ q) (unescape_kept b'/' t (omega arith) ∙ ap (push b'/') e),
  ),
)

escape-Encodes : (s : Bytes) → IsBytes s → Encodes (path_escape s)
unfolding path_escape path_unescape should_escape_segment
escape-Encodes s h = (
  valid_encoded-escape should_escape_segment s segment_mode_valid h,
  (s, path_unescape-escape should_escape_segment s refl h),
)

pub build_path-Encodes : (segs : List Bytes) → All IsBytes segs → Encodes (build_path segs)
unfolding build_path join_slash
build_path-Encodes [] h =
    (unfold valid_encoded in refl, ([], unfold path_unescape unescape_from in refl))
build_path-Encodes (s ∷ []) (h, _) = escape-Encodes s h
build_path-Encodes (s ∷ t ∷ segs) (h, hs) =
    join-Encodes _ _ (escape-Encodes s h) (build_path-Encodes (t ∷ segs) hs)

-- `URL.String` of the resolved URL sends this text: nothing in it is decoded or cleaned.
abbrev pub IsResolved : Url → Bytes → Url → Type 0
IsResolved base request_path u =
    (escaped_path u ≡ request_target base request_path)
    × (path_unescape (request_target base request_path) ≡ some u.path)
    × (u.scheme ≡ base.scheme)
    × (u.host ≡ base.host)
    × (u.raw_query ≡ base.raw_query)

target_ne_nil : (s t : Bytes) → s ++ b'/' ∷ t ≢ []
target_ne_nil [] t = cc
target_ne_nil (c ∷ s) t = cc

-- Where the base's path and the segments are texts of bytes, resolving a built path never fails,
-- and the URL that results keeps the scheme, host and query of the base and is sent with exactly
-- the base's escaped path, less one closing slash, then "/" and the built path.
pub resolve_path-build_path :
    (base : Url) (segs : List Bytes)
    → IsBytes base.path
    → All IsBytes segs
    → (u : Url) × (resolve_path base (build_path segs) ≡ ok u) × IsResolved base (build_path segs) u
unfolding resolve_path
resolve_path-build_path base segs hb hs =
    let target : Bytes = request_target base (build_path segs) in
    let (v, (t, d)) = target_encodes in
    (
      record base { path = t; raw_path = target },
      rw (d, resolve_path),
      (escaped_path_raw _ (target_ne_nil _ _) v d, d, refl, refl, refl),
    )
  where
    target_encodes : Encodes (request_target base (build_path segs))
    target_encodes =
        unfold request_target in
        join-Encodes _ _
          (trim_slash-Encodes _
            (escaped_path_valid base hb, (base.path, escaped_path_decodes base hb)))
          (build_path-Encodes segs hs)
