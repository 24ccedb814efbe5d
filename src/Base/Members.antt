-- ===== src/Base/Members.antt =====
-- Which strings a list holds, as Boolean tests.
use couper.Base.Strings.{Str, eq_str, eq_str_iff, eq_str_refl, mem_str}
use couper.Base.Tests.{Bool-cases}
use mathlib.Core.Bool.{Bool, true, ◌&&◌, ◌||◌}
use mathlib.Core.List.{List, [], ◌∷◌, ◌++◌}
use mathlib.Core.Path.{◌≡◌, refl, ap}
use native.Mathlib.Omega.{arith}

pub mem_str-append :
    (s : Str) (xs ys : List Str) → mem_str s (xs ++ ys) ≡ (mem_str s xs || mem_str s ys)
unfolding mem_str
mem_str-append s [] ys = refl
mem_str-append s (x ∷ xs) ys = ground (arith, mem_str-append s xs ys, Bool-cases (eq_str x s))

unfoldable pub all_mem : List Str → List Str → Bool
all_mem [] t = true
all_mem (v ∷ vs) t = mem_str v t && all_mem vs t

pub all_mem-append_left :
    (vs us ws : List Str) → all_mem vs us ≡ true → all_mem vs (us ++ ws) ≡ true
unfolding all_mem
all_mem-append_left [] us ws h = refl
all_mem-append_left (v ∷ vs) us ws h =
    ground (arith, h, mem_str-append v us ws, all_mem-append_left vs us ws)

pub all_mem-append_right :
    (vs us ws : List Str) → all_mem vs ws ≡ true → all_mem vs (us ++ ws) ≡ true
unfolding all_mem
all_mem-append_right [] us ws h = refl
all_mem-append_right (v ∷ vs) us ws h =
    ground
      (arith, h, mem_str-append v us ws, all_mem-append_right vs us ws, Bool-cases (mem_str v us))

pub all_mem-cons : (v : Str) (vs us : List Str) → all_mem vs us ≡ true → all_mem vs (v ∷ us) ≡ true
unfolding all_mem mem_str
all_mem-cons v [] us h = refl
all_mem-cons v (w ∷ vs) us h = ground (arith, h, all_mem-cons v vs us, Bool-cases (eq_str v w))

pub all_mem_refl : (vs : List Str) → all_mem vs vs ≡ true
unfolding all_mem mem_str
all_mem_refl [] = refl
all_mem_refl (v ∷ vs) = ground (arith, all_mem-cons v vs vs, all_mem_refl vs, eq_str_refl v)

pub all_mem-keeps :
    (vs t t' : List Str)
    → ((p : Str) → mem_str p t ≡ true → mem_str p t' ≡ true)
    → all_mem vs t ≡ true
    → all_mem vs t' ≡ true
unfolding all_mem
all_mem-keeps [] t t' k h = refl
all_mem-keeps (v ∷ vs) t t' k h =
    ground (arith, h, k v (ground (arith, h)), all_mem-keeps vs t t' k (ground (arith, h)))

pub all_mem-mem :
    (vs t : List Str) (q : Str) → all_mem vs t ≡ true → mem_str q vs ≡ true → mem_str q t ≡ true
unfolding all_mem mem_str
all_mem-mem [] t q h k = ground (arith, k)
all_mem-mem (v ∷ vs) t q h k = ground (
  arith,
  h,
  k,
  all_mem-mem vs t q,
  λ (e : v ≡ q). ap (λ s. mem_str s t) e,
  eq_str_iff v q,
  Bool-cases (eq_str v q),
)
