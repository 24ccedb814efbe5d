-- ===== src/Endpoint/Order.antt =====
-- Which requests of an endpoint are sent.
use couper.Base.{
  ◌≡◌, refl, sym, ap, ◌∙◌, inl, inr, Bool, true, false, ◌&&◌, List, [], ◌∷◌, ◌++◌, Option, none,
  some, arith, Str, eq_str, eq_str_iff, eq_str_refl, mem_str, mem_str-append, all_mem, Bool-cases,
  Option-cases,
}
use mathlib.Core.Path.{subst}
use mathlib.Core.List.{append_assoc, append-nil}
use couper.Errors.{Error}
use couper.Sequence.{Store, deps}
use couper.Sequence.Resolve.{distinct, ordered}
use couper.Endpoint.Known.{
  first_in, distinct-tail, distinct_names, one_of, kept, last, all_kept, grow, later_out,
}
use couper.Endpoint.{
  ResultError, fine, other, own, sequence_of_nil, is_fine, mark, Results, start, error_at,
  first_failed, send, pass_on, run_item, run_items,
}

module _ (sequence : Error) (produce : Str → ResultError) (h : Store) where
  -- The request of an item was sent and gave no error.
  abbrev pub succeeded : Results → Str → Bool
  succeeded r n = mem_str n r.sent && is_fine (produce n)

  unfoldable pub all_succeeded : Results → List Str → Bool
  all_succeeded r [] = true
  all_succeeded r (d ∷ ds) = succeeded r d && all_succeeded r ds

  -- After the items of a list.
  record IsRun (before : List Str) (r : Results) : Type 0 where
    errors : (m : Str) → mem_str m before ≡ true → is_fine (error_at r m) ≡ succeeded r m
    sends : (m : Str) → mem_str m before ≡ true → mem_str m r.sent ≡ all_succeeded r (deps h m)
    origins : (m : Str) → mem_str m before ≡ true → mem_str (r.origin m) before ≡ true
    known : (m : Str) → mem_str m r.sent ≡ true → mem_str m before ≡ true
    deps_known : (m : Str) → mem_str m before ≡ true → all_mem (deps h m) before ≡ true

  first_failed-none :
      (before : List Str) (r : Results) (ds : List Str)
      → IsRun before r
      → all_mem ds before ≡ true
      → first_failed r ds ≡ none
      → all_succeeded r ds ≡ true
  unfolding first_failed all_mem all_succeeded
  first_failed-none before r [] i k e = refl
  first_failed-none before r (d ∷ ds) i k e = ground (
    arith,
    k,
    e,
    i.errors d (ground (arith, k)),
    first_failed-none before r ds i (ground (arith, k)),
    Bool-cases (is_fine (error_at r d)),
  )

  first_failed-some :
      (before : List Str) (r : Results) (ds : List Str) (from : Str)
      → IsRun before r
      → all_mem ds before ≡ true
      → first_failed r ds ≡ some from
      → (all_succeeded r ds ≡ false)
        × (mem_str from before ≡ true)
        × (is_fine (error_at r from) ≡ false)
  unfolding first_failed all_mem all_succeeded
  first_failed-some before r [] from i k e = absurd (ground (arith, e))
  first_failed-some before r (d ∷ ds) from i k e = elim (Bool-cases (is_fine (error_at r d))) [
    | inl ok_d ↦
        let (a, b, c) =
          first_failed-some before r ds from i (ground (arith, k)) (ground (arith, e, ok_d)) in
        (ground (arith, a, Bool-cases (succeeded r d)), b, c)
    | inr bad ↦
        let same : d ≡ from = ground (arith, e, bad) in
        (
          ground (arith, sym (i.errors d (ground (arith, k))) ∙ bad),
          ap (λ s. mem_str s before) (sym same) ∙ ground (arith, k),
          ap (λ s. is_fine (error_at r s)) (sym same) ∙ bad,
        )
  ]

  -- A state in which the same requests of the items of a list were sent.
  same_success :
      (before ds : List Str) (r t : Results)
      → ((m : Str) → mem_str m before ≡ true → mem_str m t.sent ≡ mem_str m r.sent)
      → all_mem ds before ≡ true
      → all_succeeded t ds ≡ all_succeeded r ds
  unfolding all_mem all_succeeded
  same_success before [] r t same k = refl
  same_success before (d ∷ ds) r t same k = ground (
    arith,
    k,
    same d (ground (arith, k)),
    same_success before ds r t same (ground (arith, k)),
    Bool-cases (is_fine (produce d)),
    Bool-cases (mem_str d r.sent),
  )

  not_sent :
      (before : List Str) (r : Results) (n : Str)
      → IsRun before r
      → mem_str n before ≡ false
      → mem_str n r.sent ≡ false
  not_sent before r n i out = elim (Bool-cases (mem_str n r.sent)) [
    | inl k ↦ absurd (ground (arith, i.known n k, out))
    | inr k ↦ k
  ]

  sent_before :
      (before : List Str) (r : Results) (n m : Str)
      → mem_str n before ≡ false
      → mem_str m before ≡ true
      → mem_str m (r.sent ++ (n ∷ [])) ≡ mem_str m r.sent
  unfolding mem_str
  sent_before before r n m out k = ground (
    arith,
    mem_str-append m r.sent (n ∷ []),
    distinct_names before n m out k,
    Bool-cases (mem_str m r.sent),
  )

  send-IsRun :
      (before : List Str) (r : Results) (n : Str)
      → IsRun before r
      → mem_str n before ≡ false
      → all_mem (deps h n) before ≡ true
      → all_succeeded r (deps h n) ≡ true
      → IsRun (before ++ (n ∷ [])) (send sequence produce h r n)
  send-IsRun before r n i out known_deps all =
      let t = send sequence produce h r n in
      let same = λ (m : Str) (k : mem_str m before ≡ true). sent_before before r n m out k in
      record {
        errors =
            grow (λ m. is_fine (error_at t m) ≡ succeeded t m) before n
              (λ m k. ground (
                arith,
                distinct_names before n m out k,
                distinct_names before n (r.origin m) out (i.origins m k),
                i.errors m k,
                same m k,
              ))
              (ground (arith, eq_str_refl n, last n r.sent));
        sends =
            grow (λ m. mem_str m t.sent ≡ all_succeeded t (deps h m)) before n
              (λ m k.
                same m k
                ∙ i.sends m k
                ∙ sym (same_success before (deps h m) r t same (i.deps_known m k)))
              (last n r.sent ∙ sym (same_success before (deps h n) r t same known_deps ∙ all));
        origins =
            grow (λ m. mem_str (t.origin m) (before ++ (n ∷ [])) ≡ true) before n
              (λ m k. ground (
                arith,
                distinct_names before n m out k,
                kept (r.origin m) n before (i.origins m k),
              ))
              (ground (arith, eq_str_refl n, last n before));
        known = λ m k. elim (one_of m n r.sent k) [
          | inl o ↦ kept m n before (i.known m o)
          | inr e ↦ ap (λ s. mem_str s (before ++ (n ∷ []))) (sym e) ∙ last n before
        ];
        deps_known =
            grow (λ m. all_mem (deps h m) (before ++ (n ∷ [])) ≡ true) before n
              (λ m k. all_kept (deps h m) before n (i.deps_known m k))
              (all_kept (deps h n) before n known_deps);
      }

  mark-is_fine :
      (e e' : ResultError) → is_fine e ≡ false → mark sequence e ≡ some e' → is_fine e' ≡ false
  unfolding mark
  mark-is_fine fine e' bad k = absurd (ground (arith, bad))
  mark-is_fine other e' bad k = ground (arith, sym k)
  mark-is_fine sequence_of_nil e' bad k = absurd (ground (arith, k))
  mark-is_fine (own x) e' bad k = ground (arith, sym k)

  shared :
      (r : Results) (from m : Str)
      → eq_str (r.origin from) (r.origin m) ≡ true
      → is_fine (error_at r from) ≡ is_fine (error_at r m)
  shared r from m e = ap (λ s. is_fine (r.error s)) ((eq_str_iff (r.origin from) (r.origin m)).0 e)

  -- The new state is about the same requests, and the new item failed.
  module _ (before : List Str) (r t : Results) (n : Str) (i : IsRun before r)
      (out : mem_str n before ≡ false) (known_deps : all_mem (deps h n) before ≡ true)
      (failed : all_succeeded r (deps h n) ≡ false) (sent_same : t.sent ≡ r.sent)
      (old_errors : (m : Str)
        → mem_str m before ≡ true
        → is_fine (error_at t m) ≡ is_fine (error_at r m))
      (new_error : is_fine (error_at t n) ≡ false)
      (old_origins : (m : Str) → mem_str m before ≡ true → t.origin m ≡ r.origin m)
      (new_origin : mem_str (t.origin n) (before ++ (n ∷ [])) ≡ true) where
    same_sent : (m : Str) → mem_str m t.sent ≡ mem_str m r.sent
    same_sent m = ap (mem_str m) sent_same

    fail-IsRun : IsRun (before ++ (n ∷ [])) t
    fail-IsRun = record {
      errors =
          grow (λ m. is_fine (error_at t m) ≡ succeeded t m) before n
            (λ m k. ground (arith, old_errors m k, i.errors m k, same_sent m))
            (ground (arith, new_error, same_sent n, not_sent before r n i out));
      sends =
          grow (λ m. mem_str m t.sent ≡ all_succeeded t (deps h m)) before n
            (λ m k.
              same_sent m
              ∙ i.sends m k
              ∙ sym (same_success before (deps h m) r t (λ q _. same_sent q) (i.deps_known m k)))
            (same_sent n
              ∙ not_sent before r n i out
              ∙ sym (same_success before (deps h n) r t (λ q _. same_sent q) known_deps ∙ failed));
      origins =
          grow (λ m. mem_str (t.origin m) (before ++ (n ∷ [])) ≡ true) before n
            (λ m k.
              ap (λ s. mem_str s (before ++ (n ∷ []))) (old_origins m k)
              ∙ kept (r.origin m) n before (i.origins m k))
            new_origin;
      known = λ m k. kept m n before (i.known m (sym (same_sent m) ∙ k));
      deps_known =
          grow (λ m. all_mem (deps h m) (before ++ (n ∷ [])) ≡ true) before n
            (λ m k. all_kept (deps h m) before n (i.deps_known m k))
            (all_kept (deps h n) before n known_deps);
    }

  pass_on-IsRun :
      (before : List Str) (r : Results) (n from : Str)
      → IsRun before r
      → mem_str n before ≡ false
      → all_mem (deps h n) before ≡ true
      → all_succeeded r (deps h n) ≡ false
      → mem_str from before ≡ true
      → is_fine (error_at r from) ≡ false
      → (e : Option ResultError) → mark sequence (error_at r from) ≡ e
      → IsRun (before ++ (n ∷ [])) (pass_on r n from e)
  pass_on-IsRun before r n from i out known_deps failed here bad none me =
      fail-IsRun before r (pass_on r n from none) n i out known_deps failed refl
        (λ m k. ground (
          arith,
          distinct_names before n m out k,
          distinct_names before n (r.origin m) out (i.origins m k),
        ))
        (ground (arith, eq_str_refl n)) (λ m k. ground (arith, distinct_names before n m out k))
        (ground (arith, eq_str_refl n, last n before))
  pass_on-IsRun before r n from i out known_deps failed here bad (some e) me =
      let worse = mark-is_fine (error_at r from) e bad me in
      fail-IsRun before r (pass_on r n from (some e)) n i out known_deps failed refl
        (λ m k. ground (arith, distinct_names before n m out k, worse, bad, shared r from m))
        (ground (arith, eq_str_refl n, eq_str_refl (r.origin from), worse))
        (λ m k. ground (arith, distinct_names before n m out k))
        (ground (arith, eq_str_refl n, kept (r.origin from) n before (i.origins from here)))

  run_item-send :
      (r : Results) (n : Str)
      → first_failed r (deps h n) ≡ none
      → run_item sequence produce h r n ≡ send sequence produce h r n
  unfolding run_item
  run_item-send r n e = rw (e, run_item) refl

  run_item-pass_on :
      (r : Results) (n from : Str)
      → first_failed r (deps h n) ≡ some from
      → run_item sequence produce h r n ≡ pass_on r n from (mark sequence (error_at r from))
  unfolding run_item
  run_item-pass_on r n from e = rw (e, run_item) refl

  run_item-IsRun :
      (before : List Str) (r : Results) (n : Str)
      → IsRun before r
      → mem_str n before ≡ false
      → all_mem (deps h n) before ≡ true
      → IsRun (before ++ (n ∷ [])) (run_item sequence produce h r n)
  run_item-IsRun before r n i out known_deps = elim (Option-cases (first_failed r (deps h n))) [
    | inl all ↦ subst (IsRun (before ++ (n ∷ []))) (sym (run_item-send r n all)) (
        send-IsRun before r n i out known_deps
          (first_failed-none before r (deps h n) i known_deps all))
    | inr (from, e) ↦
        let (failed, here, bad) = first_failed-some before r (deps h n) from i known_deps e in
        subst (IsRun (before ++ (n ∷ []))) (sym (run_item-pass_on r n from e)) (
          pass_on-IsRun before r n from i out known_deps failed here bad
            (mark sequence (error_at r from)) refl)
  ]

  runs :
      (before ns : List Str) (r : Results)
      → IsRun before r
      → ((m : Str) → mem_str m ns ≡ true → mem_str m before ≡ false)
      → distinct ns ≡ true
      → ordered h before ns ≡ true
      → IsRun (before ++ ns) (run_items sequence produce h r ns)
  unfolding run_items ordered
  runs before [] r i out d o = subst (λ l. IsRun l r) (sym (append-nil before)) i
  runs before (n ∷ ns) r i out d o =
      subst (λ l. IsRun l (run_items sequence produce h (run_item sequence produce h r n) ns))
        (append_assoc before (n ∷ []) ns)
        (runs (before ++ (n ∷ [])) ns (run_item sequence produce h r n)
          (run_item-IsRun before r n i (out n (first_in n ns)) (ground (arith, o)))
          (later_out before ns n out d) (distinct-tail n ns d) (ground (arith, o)))

  -- For different items, each behind those it depends on, and whatever the requests give, the
  -- request of an item is sent exactly when those of all its dependencies were sent and gave no
  -- error, and its result has no error exactly when its own request was sent and gave none.
  pub run_items_iff :
      (ns : List Str) (n : Str)
      → distinct ns ≡ true
      → ordered h [] ns ≡ true
      → mem_str n ns ≡ true
      → (mem_str n (run_items sequence produce h start ns).sent
          ≡ all_succeeded (run_items sequence produce h start ns) (deps h n))
        × (is_fine (error_at (run_items sequence produce h start ns) n)
            ≡ (mem_str n (run_items sequence produce h start ns).sent && is_fine (produce n)))
  unfolding mem_str
  run_items_iff ns n d o k =
      let i =
        runs [] ns start
          (record {
            errors = λ m e. absurd (ground (arith, e));
            sends = λ m e. absurd (ground (arith, e));
            origins = λ m e. absurd (ground (arith, e));
            known = λ m e. absurd (ground (arith, e));
            deps_known = λ m e. absurd (ground (arith, e));
          })
          (λ m e. refl) d o in
      (i.sends n k, i.errors n k)
