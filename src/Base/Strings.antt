-- ===== src/Base/Strings.antt =====
-- Go's strings as the list of their bytes, and what the code uses of package strings. The case
-- mappings and the white space are those of ASCII.
use Prim.Native.Char.{code}
use Prim.Native.Nat.{ℕ, zero, suc, ◌+◌, ◌-◌}
use Prim.Native.String.{String}
use couper.Base.Tests.{◌==◌, ltb, leb, if◌then◌else◌}
use couper.Base.Lists.{length, take, drop}
use mathlib.Core.Bool.{Bool, true, false, ◌&&◌, ◌||◌}
use mathlib.Core.List.{List, [], ◌∷◌, ◌++◌, map, reverse, reverse-append}
use mathlib.Core.Logic.{◌↔◌}
use mathlib.Core.Path.{◌≡◌, refl, ap, subst}
use native.Mathlib.Omega.{arith}

abbrev pub Str : Type 0
Str = List ℕ

abbrev pub codes : String → Str
codes String.[] = []
codes (String.◌∷◌ c s) = code c ∷ codes s

unfoldable pub eq_str : Str → Str → Bool
eq_str [] [] = true
eq_str (a ∷ s) (b ∷ t) = (a == b) && eq_str s t
eq_str _ _ = false

eq_of_eq_str : (s t : Str) → eq_str s t ≡ true → s ≡ t
unfolding eq_str
eq_of_eq_str [] [] h = refl
eq_of_eq_str (a ∷ s) (b ∷ t) h = ground (arith, eq_of_eq_str s t)
eq_of_eq_str [] (b ∷ t) h = ground arith
eq_of_eq_str (a ∷ s) [] h = ground arith

pub eq_str_refl : (s : Str) → eq_str s s ≡ true
unfolding eq_str
eq_str_refl [] = refl
eq_str_refl (a ∷ s) = ground (arith, eq_str_refl s)

pub eq_str_iff : (s t : Str) → (eq_str s t ≡ true) ↔ (s ≡ t)
eq_str_iff s t = (eq_of_eq_str s t, λ (p : s ≡ t). subst (λ u. eq_str s u ≡ true) p (eq_str_refl s))

unfoldable pub has_prefix : Str → Str → Bool
has_prefix s [] = true
has_prefix [] (p ∷ ps) = false
has_prefix (c ∷ s) (p ∷ ps) = (c == p) && has_prefix s ps

unfoldable pub has_suffix : Str → Str → Bool
unfolding has_prefix
has_suffix s t = has_prefix (reverse s) (reverse t)

unfoldable pub trim_prefix : Str → Str → Str
unfolding has_prefix
trim_prefix s p = if has_prefix s p then drop (length p) s else s

unfoldable pub trim_suffix : Str → Str → Str
unfolding has_suffix
trim_suffix s t = if has_suffix s t then take (length s - length t) s else s

unfoldable pub lower : ℕ → ℕ
lower c = if leb b'A' c && leb c b'Z' then c + 32 else c

unfoldable pub upper : ℕ → ℕ
upper c = if leb b'a' c && leb c b'z' then c - 32 else c

unfoldable pub to_lower : Str → Str
unfolding lower
to_lower s = map lower s

unfoldable pub to_upper : Str → Str
unfolding upper
to_upper s = map upper s

-- strings.TrimLeft with the characters that `p` accepts
unfoldable pub trim_left : (ℕ → Bool) → Str → Str
trim_left p [] = []
trim_left p (c ∷ s) = if p c then trim_left p s else c ∷ s

unfoldable pub trim : (ℕ → Bool) → Str → Str
unfolding trim_left
trim p s = reverse (trim_left p (reverse (trim_left p s)))

abbrev pub is_space : ℕ → Bool
is_space c = c == 32 || (leb 9 c && leb c 13)

unfoldable pub trim_space : Str → Str
unfolding trim
trim_space s = trim is_space s

-- Whether a list of strings holds one.
unfoldable pub mem_str : Str → List Str → Bool
mem_str s [] = false
mem_str s (t ∷ ts) = eq_str t s || mem_str s ts

unfoldable pub concat : List Str → Str
concat [] = []
concat (s ∷ ss) = s ++ concat ss

pub has_prefix_append : (p s : Str) → has_prefix (p ++ s) p ≡ true
unfolding has_prefix
has_prefix_append [] s = refl
has_prefix_append (c ∷ p) s = ground (arith, has_prefix_append p s)

pub prefix_rest : (s p : Str) → has_prefix s p ≡ true → (rest : Str) × (s ≡ p ++ rest)
unfolding has_prefix
prefix_rest s [] h = (s, refl)
prefix_rest [] (c ∷ p) h = ground (arith, h)
prefix_rest (d ∷ s) (c ∷ p) h =
    let (rest, e) = prefix_rest s p (ground (arith, h)) in (rest, ground (arith, h, e))

pub has_suffix_append : (s t : Str) → has_suffix (s ++ t) t ≡ true
unfolding has_suffix
has_suffix_append s t = rw reverse-append (has_prefix_append (reverse t) (reverse s))

pub take-append : (s t : Str) (n : ℕ) → length s ≡ n → take n (s ++ t) ≡ s
take-append [] [] zero e = refl
take-append [] (c ∷ t) zero e = refl
take-append [] t (suc n) e = absurd (omega arith)
take-append (c ∷ s) t zero e = absurd (omega arith)
take-append (c ∷ s) t (suc n) e = ap (◌∷◌ c) (take-append s t n (omega arith))

-- The parts of a text between the occurrences of a separator byte: strings.Split.
abbrev pub cons_head : ℕ → List Str → List Str
cons_head c [] = (c ∷ []) ∷ []
cons_head c (s ∷ ss) = (c ∷ s) ∷ ss

unfoldable pub split : ℕ → Str → List Str
split sep [] = [] ∷ []
split sep (c ∷ s) = let rest = split sep s in if c == sep then [] ∷ rest else cons_head c rest

-- strings.Replace with a count of 1
unfoldable pub replace_first : Str → Str → Str → Str
unfolding has_prefix
replace_first [] old new = if has_prefix [] old then new else []
replace_first (c ∷ s) old new =
    let rest = replace_first s old new in
    if has_prefix (c ∷ s) old then new ++ drop (length old) (c ∷ s) else c ∷ rest

-- The order of strings, by bytes.
unfoldable pub less_str : Str → Str → Bool
less_str [] [] = false
less_str [] (d ∷ t) = true
less_str (c ∷ s) [] = false
less_str (c ∷ s) (d ∷ t) = ltb c d || ((c == d) && less_str s t)

pub less_str_irrefl : (s : Str) → less_str s s ≡ false
unfolding less_str
less_str_irrefl [] = refl
less_str_irrefl (c ∷ s) = ground (arith, less_str_irrefl s)

pub less_str_trans : (s t u : Str) → less_str s t ≡ true → less_str t u ≡ true → less_str s u ≡ true
unfolding less_str
less_str_trans [] [] u h k = ground (arith, h)
less_str_trans [] (d ∷ t) [] h k = ground (arith, k)
less_str_trans [] (d ∷ t) (e ∷ u) h k = refl
less_str_trans (c ∷ s) [] u h k = ground (arith, h)
less_str_trans (c ∷ s) (d ∷ t) [] h k = ground (arith, k)
less_str_trans (c ∷ s) (d ∷ t) (e ∷ u) h k = ground (arith, h, k, less_str_trans s t u)

pub less_str_total : (s t : Str) → less_str s t ≡ false → less_str t s ≡ false → s ≡ t
unfolding less_str
less_str_total [] [] h k = refl
less_str_total [] (d ∷ t) h k = ground (arith, h)
less_str_total (c ∷ s) [] h k = ground (arith, k)
less_str_total (c ∷ s) (d ∷ t) h k = ground (arith, h, k, less_str_total s t)
