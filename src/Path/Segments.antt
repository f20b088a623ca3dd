-- ===== src/Path/Segments.antt =====
-- What buildPath writes: one part for each segment, from which the segment can be read back.
use firezone_sdk_go.Common.{
  ℕ, ◌≡◌, ◌≢◌, ◌↔◌, refl, sym, ap, ◌∙◌, Bool, true, Option, none, some, List, [], ◌∷◌, ◌++◌, map,
  Bytes, codes, arith, ◌==◌, if◌then◌else◌, All, All-append, Lacks, IsBytes, bytes_eq_iff,
  holds_below, holds_below-eq-true, ◌&&◌, ◌||◌, not, Bool-cases, inl, inr,
}
use firezone_sdk_go.Url.{
  path_escape, path_unescape, escape_byte, should_escape_segment, unescape_from, escape,
}
use firezone_sdk_go.Url.Escape.{path_unescape-escape, All-escape}
use firezone_sdk_go.Path.{check_id, join_slash, build_path}

push_head : ℕ → List Bytes → List Bytes
push_head c [] = (c ∷ []) ∷ []
push_head c (p ∷ ps) = (c ∷ p) ∷ ps

-- The parts between the slashes of a path, as a server reads them.
pub split_slash : Bytes → List Bytes
unfolding push_head
split_slash [] = [] ∷ []
split_slash (c ∷ s) =
    let parts = split_slash s in if c == b'/' then [] ∷ parts else push_head c parts

push_part : Bytes → Option (List Bytes) → Option (List Bytes)
push_part p none = none
push_part p (some ps) = some (p ∷ ps)

unescape_all : List Bytes → Option (List Bytes)
unfolding push_part
unescape_all [] = some []
unescape_all (p ∷ ps) = elim (path_unescape p) [
  | none ↦ none
  | some s ↦ push_part s (unescape_all ps)
]

-- How a server reads a path: cut at the slashes, then decode each part.
pub read_path : Bytes → Option (List Bytes)
unfolding split_slash unescape_all
read_path path = unescape_all (split_slash path)

-- An ID that addresses a resource of its own: not empty, and no step of a path.
abbrev pub IsPlain : Bytes → Type 0
IsPlain s = (s ≢ []) × (s ≢ codes ".") × (s ≢ codes "..")

split_part : (p : Bytes) → Lacks b'/' p → split_slash p ≡ p ∷ []
unfolding split_slash
split_part [] h = refl
split_part (c ∷ p) (n, h) = ground (arith, split_part p h)

split_behind_part : (p s : Bytes) → Lacks b'/' p → split_slash (p ++ b'/' ∷ s) ≡ p ∷ split_slash s
unfolding split_slash
split_behind_part [] s h = refl
split_behind_part (c ∷ p) s (n, h) = ground (arith, split_behind_part p s h)

split-join :
    (p : Bytes) (ps : List Bytes)
    → All (Lacks b'/') (p ∷ ps)
    → split_slash (join_slash (p ∷ ps)) ≡ p ∷ ps
unfolding join_slash
split-join p [] (h, _) = split_part p h
split-join p (q ∷ ps) (h, hs) =
    split_behind_part p (join_slash (q ∷ ps)) h ∙ ap (λ r. p ∷ r) (split-join q ps hs)

-- A byte that ends a path segment or a path, in the text of a URL.
is_delimiter : ℕ → Bool
is_delimiter c = c == b'/' || c == b'?' || c == b'#'

none_delimits : Bytes → Bool
none_delimits [] = true
none_delimits (c ∷ s) = not (is_delimiter c) && none_delimits s

segment_table : holds_below (λ c. none_delimits (escape_byte should_escape_segment c)) 256 ≡ true
unfolding holds_below none_delimits is_delimiter escape_byte should_escape_segment
segment_table = refl

abbrev pub NoDelimiter : Bytes → Type 0
NoDelimiter = All (λ c. (c ≢ b'/') × (c ≢ b'?') × (c ≢ b'#'))

none_delimits_sound : (s : Bytes) → none_delimits s ≡ true → NoDelimiter s
unfolding none_delimits is_delimiter
none_delimits_sound [] h = tt
none_delimits_sound (c ∷ s) h = (ground arith, none_delimits_sound s (ground arith))

pub path_escape-NoDelimiter : (s : Bytes) → IsBytes s → NoDelimiter (path_escape s)
unfolding path_escape
path_escape-NoDelimiter s h =
    All-escape _ should_escape_segment s
      (λ c lt. none_delimits_sound _ (holds_below-eq-true _ 256 lt segment_table)) h

pub path_unescape-path_escape : (s : Bytes) → IsBytes s → path_unescape (path_escape s) ≡ some s
unfolding path_escape should_escape_segment
path_unescape-path_escape s h = path_unescape-escape should_escape_segment s refl h

NoDelimiter-Lacks : (s : Bytes) → NoDelimiter s → Lacks b'/' s
NoDelimiter-Lacks [] h = tt
NoDelimiter-Lacks (c ∷ s) ((n, _, _), h) = (n, NoDelimiter-Lacks s h)

map-Lacks : (segs : List Bytes) → All IsBytes segs → All (Lacks b'/') (map path_escape segs)
map-Lacks [] h = tt
map-Lacks (s ∷ segs) (h, hs) =
    (NoDelimiter-Lacks _ (path_escape-NoDelimiter s h), map-Lacks segs hs)

pub split-build_path :
    (segs : List Bytes)
    → segs ≢ []
    → All IsBytes segs
    → split_slash (build_path segs) ≡ map path_escape segs
unfolding build_path
split-build_path [] n h = absurd (n refl)
split-build_path (s ∷ segs) n h = split-join _ _ (map-Lacks (s ∷ segs) h)

unescape_all-map :
    (segs : List Bytes) → All IsBytes segs → unescape_all (map path_escape segs) ≡ some segs
unfolding unescape_all
unescape_all-map [] h = refl
unescape_all-map (s ∷ segs) (h, hs) =
    rw (path_unescape-path_escape s h, unescape_all) (rw (unescape_all-map segs hs))

-- A server that cuts a request path of at least one segment at its slashes and decodes each part
-- reads exactly the segments that the SDK was given, whatever bytes they hold.
pub read_path-build_path :
    (segs : List Bytes) → segs ≢ [] → All IsBytes segs → read_path (build_path segs) ≡ some segs
unfolding read_path
read_path-build_path segs n h =
    ap unescape_all (split-build_path segs n h) ∙ unescape_all-map segs h

-- checkID accepts exactly the IDs that are not empty, not "." and not "..".
check_id-eq-none_iff : (name id : Bytes) → (check_id name id ≡ none) ↔ IsPlain id
unfolding check_id
check_id-eq-none_iff name [] = (λ h. cc, λ h. absurd (h.0 refl))
check_id-eq-none_iff name (c ∷ s) =
    ground (arith, bytes_eq_iff (c ∷ s) (codes "."), bytes_eq_iff (c ∷ s) (codes ".."))

-- Escaping keeps a text from becoming another one that it was not.
path_escape_ne : (s t : Bytes) → IsBytes s → path_unescape t ≡ some t → s ≢ t → path_escape s ≢ t
path_escape_ne s t h fixed n e =
    n (some_eq (sym (path_unescape-path_escape s h) ∙ ap path_unescape e ∙ fixed))
  where
    some_eq : some s ≡ some t → s ≡ t
    some_eq p = cc

path_escape-IsPlain : (s : Bytes) → IsBytes s → IsPlain s → IsPlain (path_escape s)
unfolding path_unescape unescape_from
path_escape-IsPlain s h (n, d, dd) = (
  path_escape_ne s [] h refl n,
  path_escape_ne s (codes ".") h refl d,
  path_escape_ne s (codes "..") h refl dd,
)

map-IsPlain :
    (segs : List Bytes) → All IsBytes segs → All IsPlain segs → All IsPlain (map path_escape segs)
map-IsPlain [] h k = tt
map-IsPlain (s ∷ segs) (h, hs) (k, ks) = (path_escape-IsPlain s h k, map-IsPlain segs hs ks)

-- Nothing in a path ends it early.
abbrev pub EndsNowhere : Bytes → Type 0
EndsNowhere = All (λ c. (c ≢ b'?') × (c ≢ b'#'))

NoDelimiter-EndsNowhere : (s : Bytes) → NoDelimiter s → EndsNowhere s
NoDelimiter-EndsNowhere [] h = tt
NoDelimiter-EndsNowhere (c ∷ s) ((_, q, f), h) = ((q, f), NoDelimiter-EndsNowhere s h)

join-EndsNowhere : (ps : List Bytes) → All EndsNowhere ps → EndsNowhere (join_slash ps)
unfolding join_slash
join-EndsNowhere [] h = tt
join-EndsNowhere (p ∷ []) (h, _) = h
join-EndsNowhere (p ∷ q ∷ ps) (h, hs) =
    All-append _ p _ h (omega arith, join-EndsNowhere (q ∷ ps) hs)

map-EndsNowhere : (segs : List Bytes) → All IsBytes segs → All EndsNowhere (map path_escape segs)
map-EndsNowhere [] h = tt
map-EndsNowhere (s ∷ segs) (h, hs) =
    (NoDelimiter-EndsNowhere _ (path_escape-NoDelimiter s h), map-EndsNowhere segs hs)

checked-IsPlain :
    (name : Bytes) (segs : List Bytes) → All (λ s. check_id name s ≡ none) segs → All IsPlain segs
checked-IsPlain name [] h = tt
checked-IsPlain name (s ∷ segs) (h, hs) =
    ((check_id-eq-none_iff name s).0 h, checked-IsPlain name segs hs)

-- A request path of one or more segments of bytes that all pass checkID has no part between its
-- slashes that is empty, "." or "..", and no "?" or "#" that would end it early.
pub build_path-IsPlain :
    (name : Bytes) (segs : List Bytes)
    → segs ≢ []
    → All IsBytes segs
    → All (λ s. check_id name s ≡ none) segs
    → All IsPlain (split_slash (build_path segs)) × EndsNowhere (build_path segs)
build_path-IsPlain name segs n h k = (
  rw (split-build_path segs n h) (map-IsPlain segs h (checked-IsPlain name segs k)),
  unfold build_path in join-EndsNowhere _ (map-EndsNowhere segs h),
)

-- Whether a segment is sent as it is.
abbrev pub is_plain : Bytes → Bool
is_plain [] = true
is_plain (c ∷ s) = not (should_escape_segment c) && is_plain s

escape_plain : (s : Bytes) → is_plain s ≡ true → s ≡ escape should_escape_segment s
unfolding escape escape_byte
escape_plain [] h = refl
escape_plain (c ∷ s) h = elim (Bool-cases (should_escape_segment c)) [
  | inl k ↦ absurd (ground arith)
  | inr k ↦ rw k (ap (λ t. c ∷ t) (escape_plain s (ground arith)))
]

pub build_path_plain : (s : Bytes) → is_plain s ≡ true → s ≡ build_path (s ∷ [])
unfolding build_path join_slash path_escape
build_path_plain s h = escape_plain s h
