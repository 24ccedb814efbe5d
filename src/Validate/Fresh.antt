-- ===== src/Validate/Fresh.antt =====
-- Labels that are new among those that were seen before, one after the other.
use couper.Base.{
  ◌≡◌, refl, Bool, true, false, not, ◌&&◌, List, [], ◌∷◌, Str, eq_str, eq_str_iff, mem_str,
  Bool-cases, if◌then◌else◌, arith,
}
use couper.Sequence.Resolve.{distinct}

-- Each label is new among the labels that were seen before it.
unfoldable pub fresh : List Str → List Str → Bool
fresh seen [] = true
fresh seen (l ∷ ls) = not (mem_str l seen) && fresh (l ∷ seen) ls

unfoldable none_of : List Str → List Str → Bool
none_of seen [] = true
none_of seen (l ∷ ls) = not (mem_str l seen) && none_of seen ls

none_of-cons :
    (l : Str) (seen ls : List Str) → none_of (l ∷ seen) ls ≡ (not (mem_str l ls) && none_of seen ls)
unfolding none_of mem_str
none_of-cons l seen [] = refl
none_of-cons l seen (k ∷ ls) = ground (
  arith,
  none_of-cons l seen ls,
  eq_str_iff l k,
  eq_str_iff k l,
  Bool-cases (eq_str l k),
  Bool-cases (eq_str k l),
  Bool-cases (mem_str k seen),
  Bool-cases (mem_str l ls),
)

fresh-distinct : (seen ls : List Str) → fresh seen ls ≡ (distinct ls && none_of seen ls)
unfolding fresh distinct none_of
fresh-distinct seen [] = refl
fresh-distinct seen (l ∷ ls) = ground (
  arith,
  fresh-distinct (l ∷ seen) ls,
  none_of-cons l seen ls,
  Bool-cases (mem_str l seen),
  Bool-cases (mem_str l ls),
  Bool-cases (distinct ls),
  Bool-cases (none_of seen ls),
)

none_of_nil : (ls : List Str) → none_of [] ls ≡ true
unfolding none_of mem_str
none_of_nil [] = refl
none_of_nil (l ∷ ls) = none_of_nil ls

pub fresh_nil : (ls : List Str) → fresh [] ls ≡ distinct ls
fresh_nil ls = ground (arith, fresh-distinct [] ls, none_of_nil ls, Bool-cases (distinct ls))

abbrev pub add_if : Bool → Str → List Str → List Str
add_if p l seen = if p then l ∷ seen else seen

abbrev pub is_new : Bool → Str → List Str → Bool
is_new p l seen = not (p && mem_str l seen)

pub fresh-add_if :
    (p : Bool) (l : Str) (seen ls : List Str)
    → fresh seen (add_if p l ls) ≡ (is_new p l seen && fresh (add_if p l seen) ls)
unfolding fresh
fresh-add_if true l seen ls = refl
fresh-add_if false l seen ls = refl

pub swap_and : (a b c d : Bool) → ((a && b) && (c && d)) ≡ ((a && c) && (b && d))
swap_and true true c d = refl
swap_and true false c d = ground (arith, Bool-cases c)
swap_and false b c d = refl

pub swap_four :
    (a b c d e f g h : Bool)
    → (((a && b) && (c && d)) && ((e && f) && (g && h)))
      ≡ (((a && c) && (e && g)) && ((b && d) && (f && h)))
swap_four a b c d e f g h =
    rw (swap_and a b c d, swap_and e f g h) (swap_and (a && c) (b && d) (e && g) (f && h))
