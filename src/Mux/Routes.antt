-- ===== src/Mux/Routes.antt =====
-- The requests that the registered routes take. What a route of gorilla/mux accepts is a parameter,
-- with the documented behaviour for paths without variables as hypotheses: Path takes the path
-- itself, PathPrefix the paths that begin with it.
use couper.Base.{
  ◌-◌, ◌≡◌, ◌≢◌, ◌↔◌, sym, ◌∙◌, Bool, true, false, ◌||◌, List, [], ◌∷◌, ◌++◌, arith, Str, eq_str,
  eq_str_iff, has_prefix, has_suffix, has_suffix_append, take-append, length, length-append, All,
}
use couper.Mux.Paths.{slash, IsBelow, matches_path, matches_path_iff, matches_path_plain}
use couper.Mux.Find.{
  Pattern, exact, prefix, Route, wildcard_search, must_add_route, wildcard_routes,
}

-- A path with no variable.
abbrev pub IsLiteral : Str → Type 0
IsLiteral = All (λ c. c ≢ b'{')

IsLiteral-append : (p : Str) → IsLiteral p → IsLiteral (p ++ slash)
IsLiteral-append [] h = (omega arith, tt)
IsLiteral-append (c ∷ p) (n, h) = (n, IsLiteral-append p h)

module _ {H : Type 0} (accepts : Pattern → Str → Bool) where
  abbrev pub any_accepts : List (Route H) → Str → Bool
  any_accepts [] req = false
  any_accepts (r ∷ rs) req = accepts r.pattern req || any_accepts rs req

  -- With the documented behaviour of Path and PathPrefix for paths without variables, the routes of
  -- a path that ends in "/**" take, if the part before that has no variable, is not empty and does
  -- not end in a slash, exactly this part and the paths that go on behind it with a slash.
  pub wildcard_accepts_iff :
      (exact_law : (p req : Str) → IsLiteral p → accepts (exact p) req ≡ eq_str req p)
      (prefix_law : (p req : Str) → IsLiteral p → accepts (prefix p) req ≡ has_prefix req p)
      (base req : Str) (h : H) (trailing_slash : Bool)
      → IsLiteral base
      → base ≢ []
      → has_suffix base slash ≡ false
      → (any_accepts (must_add_route (base ++ wildcard_search) h trailing_slash) req ≡ true)
        ↔ IsBelow base req
  wildcard_accepts_iff exact_law prefix_law base req h trailing_slash literal some_base no_slash =
      let below = (matches_path_iff base some_base no_slash req).0 in
      (λ k. below.0 (sym accepted ∙ k), λ k. accepted ∙ below.1 k)
    where
      accepted :
          any_accepts (must_add_route (base ++ wildcard_search) h trailing_slash) req
          ≡ matches_path base req
      accepted =
          unfold must_add_route wildcard_routes in
          ground (
            arith,
            has_suffix_append base wildcard_search,
            take-append base wildcard_search (length (base ++ wildcard_search) - 3)
                (omega (arith, length-append base wildcard_search)),
            eq_str_iff base [],
            no_slash,
            exact_law base req literal,
            prefix_law (base ++ slash) req (IsLiteral-append base literal),
            matches_path_plain base some_base no_slash req,
          )
