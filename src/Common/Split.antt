-- ===== src/Common/Split.antt =====
-- A text cut at a delimiter, and parts joined by it.
use mathlib.Core.Path.{◌≡◌, refl, ap, ◌∙◌}
use mathlib.Core.Bool.{Bool, true, false}
use mathlib.Core.List.{List, [], ◌∷◌, ◌++◌}
use Prim.Native.Nat.{ℕ}
use native.Mathlib.Omega.{arith}
use firezone_sdk_go.Common.Tests.{◌==◌, if◌then◌else◌}
use firezone_sdk_go.Common.Lists.{Bytes, All, Lacks}

abbrev push_head : ℕ → List Bytes → List Bytes
push_head c [] = (c ∷ []) ∷ []
push_head c (p ∷ ps) = (c ∷ p) ∷ ps

-- The parts between the delimiters.
unfoldable pub split_on : ℕ → Bytes → List Bytes
split_on d [] = [] ∷ []
split_on d (c ∷ s) = let parts = split_on d s in if c == d then [] ∷ parts else push_head c parts

-- The text in front of the first delimiter, and the text behind it.
unfoldable pub cut_at : ℕ → Bytes → Bytes × Bytes
cut_at d [] = ([], [])
cut_at d (c ∷ s) = let rest = cut_at d s in if c == d then ([], s) else (c ∷ rest.0, rest.1)

-- `strings.Join`, for a delimiter of any length.
unfoldable pub join_with : Bytes → List Bytes → Bytes
join_with d [] = []
join_with d (p ∷ []) = p
join_with d (p ∷ q ∷ ps) = p ++ (d ++ join_with d (q ∷ ps))

pub split_on_part : (d : ℕ) (p : Bytes) → Lacks d p → split_on d p ≡ p ∷ []
unfolding split_on
split_on_part d [] h = refl
split_on_part d (c ∷ p) (n, h) = ground (arith, split_on_part d p h)

pub split_on_behind : (d : ℕ) (p s : Bytes) → Lacks d p → split_on d (p ++ d ∷ s) ≡ p ∷ split_on d s
unfolding split_on
split_on_behind d [] s h = ground arith
split_on_behind d (c ∷ p) s (n, h) = ground (arith, split_on_behind d p s h)

pub split_on-join :
    (d : ℕ) (p : Bytes) (ps : List Bytes)
    → All (Lacks d) (p ∷ ps)
    → split_on d (join_with (d ∷ []) (p ∷ ps)) ≡ p ∷ ps
unfolding join_with
split_on-join d p [] (h, _) = split_on_part d p h
split_on-join d p (q ∷ ps) (h, hs) =
    split_on_behind d p (join_with (d ∷ []) (q ∷ ps)) h ∙ ap (λ r. p ∷ r) (split_on-join d q ps hs)

pub cut_at-append : (d : ℕ) (p s : Bytes) → Lacks d p → cut_at d (p ++ d ∷ s) ≡ (p, s)
unfolding cut_at
cut_at-append d [] s h = ground arith
cut_at-append d (c ∷ p) s (n, h) = ground (arith, cut_at-append d p s h)

-- The longest front of a text that passes a test, and the rest.
unfoldable pub span : (ℕ → Bool) → Bytes → Bytes × Bytes
span test [] = ([], [])
span test (c ∷ s) = let rest = span test s in if test c then (c ∷ rest.0, rest.1) else ([], c ∷ s)

pub span-append :
    (test : ℕ → Bool) (front : Bytes) (d : ℕ) (rest : Bytes)
    → All (λ c. test c ≡ true) front
    → test d ≡ false
    → span test (front ++ d ∷ rest) ≡ (front, d ∷ rest)
unfolding span
span-append test [] d rest h e = rw e refl
span-append test (c ∷ front) d rest (hc, h) e = ground (arith, span-append test front d rest h e)
