-- ===== src/Robots/Cache.antt =====
-- Without a time limit, an origin's robots.txt is fetched at most once per worker.
use crawl_viz.Base.{
  ℕ, zero, suc, ◌+◌, ◌≤◌, ◌<◌, ◌≡◌, refl, subst, ap, String, Bool, true, false, Option, none, some,
  List, [], ◌∷◌, length, get_elem?, leb, if◌then◌else◌, str_eq, eq_iff, arith, sum_by, Bool-cases,
  Option-cases, inl, inr,
}
use crawl_viz.Base.Texts.{contains, lookup, lookup-insert}
use crawl_viz.Pool.{delete_at}
use crawl_viz.Robots.{
  RobotsRules, Checks, CheckStep, started, ended, new_checks, load, expired, cached, store,
  start_check, end_check, check_step, check_run,
}

abbrev pub is : String → String → ℕ
is o u = if str_eq u o then 1 else 0

sum_by-delete_at :
    (f : String → ℕ) (i : ℕ) (xs : List String) {x : String}
    → get_elem? xs i ≡ some x
    → sum_by f (delete_at i xs) + f x ≡ sum_by f xs
unfolding delete_at
sum_by-delete_at f i [] h = cc
sum_by-delete_at f zero (y ∷ xs) h =
    ground (arith, ap {B = ℕ} (λ o. elim o [ none ↦ 0 | some z ↦ f z ]) h)
sum_by-delete_at f (suc i) (y ∷ xs) h = omega (arith, sum_by-delete_at f i xs h)

module _ {P : Type 0} (rules : RobotsRules P) where
  -- The fetches of an origin, and those that are under way.
  abbrev pub fetches : String → Checks P → ℕ
  fetches o s = sum_by (is o) s.fetched

  abbrev loading : String → Checks P → ℕ
  loading o s = sum_by (λ u. is o (rules.origin_of u)) s.pending

  abbrev known : String → Checks P → Bool
  known o s = elim (lookup o s.policy.parsers) [ none ↦ false | some _ ↦ true ]

  loading_le :
      (o : String) (us : List String) → sum_by (λ u. is o (rules.origin_of u)) us ≤ length us
  loading_le o [] = omega arith
  loading_le o (u ∷ us) = ground (arith, loading_le o us)

  never_expired : (at : Option ℕ) (now : ℕ) → rules.ttl ≡ 0 → expired rules at now ≡ false
  unfolding expired
  never_expired none now h = refl
  never_expired (some t) now h = ground (arith, h)

  -- An origin that is not known has been fetched for the checks that are under way only.
  record Inv (workers : ℕ) (o : String) (s : Checks P) : Type 0 where
    bound : fetches o s ≤ workers
    unknown : known o s ≡ false → fetches o s ≡ loading o s
    wanted : contains s.asked o ≡ true → 1 ≤ fetches o s
    unwanted : contains s.asked o ≡ false → fetches o s ≡ 0
    seen : known o s ≡ true → contains s.asked o ≡ true

  start_check-Inv :
      (workers : ℕ) (o url : String) (now : ℕ) (s : Checks P)
      → rules.ttl ≡ 0
      → length s.pending < workers
      → Inv workers o s
      → Inv workers o (start_check rules url now s)
  unfolding start_check cached
  start_check-Inv workers o url now s h free v =
      let origin = rules.origin_of url in
      let few = loading_le o s.pending in
      elim (Option-cases (lookup origin s.policy.parsers)) [
        | inl new ↦
            rw (new, start_check, cached)
              (elim (Bool-cases (str_eq origin o)) [
                | inl same ↦
                    (let at =
                        subst (λ u. lookup u s.policy.parsers ≡ none) ((eq_iff origin o).0 same)
                          new in
                      let all = v.unknown (ground (arith, at)) in
                      record {
                        bound = ground (arith, same, all, few, free);
                        unknown = λ e. ground (arith, same, all);
                        wanted = λ e. ground (arith, same);
                        unwanted = λ e. ground (arith, same, e);
                        seen = λ e. ground (arith, same);
                      })
                | inr other ↦ record {
                  bound = ground (arith, other, v.bound);
                  unknown = λ e. ground (arith, other, v.unknown e);
                  wanted = λ e. ground (arith, other, v.wanted (ground (arith, other, e)));
                  unwanted = λ e. ground (arith, other, v.unwanted (ground (arith, other, e)));
                  seen = λ e. ground (arith, other, v.seen e);
                }
              ])
        | inr (parser, old) ↦
            (let kept = never_expired (lookup origin s.policy.loaded_at) now h in
              rw (old, kept, start_check, cached)
                (elim (Bool-cases (str_eq origin o)) [
                  | inl same ↦
                      (let at =
                          subst (λ u. lookup u s.policy.parsers ≡ some parser)
                            ((eq_iff origin o).0 same) old in
                        let there = v.seen (ground (arith, at)) in
                        record {
                          bound = v.bound;
                          unknown = v.unknown;
                          wanted = λ e. v.wanted there;
                          unwanted = λ e. ground (arith, same, e);
                          seen = λ e. ground (arith, same);
                        })
                  | inr other ↦ record {
                    bound = v.bound;
                    unknown = v.unknown;
                    wanted = λ e. v.wanted (ground (arith, other, e));
                    unwanted = λ e. v.unwanted (ground (arith, other, e));
                    seen = λ e. ground (arith, other, v.seen e);
                  }
                ]))
      ]

  end_check-Inv :
      (workers : ℕ) (o : String) (i : ℕ) (response : Option String) (loaded : ℕ) (s : Checks P)
      → Inv workers o s
      → Inv workers o (end_check rules i response loaded s)
  unfolding end_check store
  end_check-Inv workers o i response loaded s v = elim (Option-cases (get_elem? s.pending i)) [
    | inl nothing ↦ rw (nothing, end_check) v
    | inr (url, at) ↦
        (let origin = rules.origin_of url in
          let parser = load rules response in
          let stored = lookup-insert origin o parser s.policy.parsers in
          let fewer = sum_by-delete_at (λ u. is o (rules.origin_of u)) i s.pending at in
          rw (at, end_check)
            (elim (Bool-cases (str_eq origin o)) [
              | inl same ↦ record {
                bound = v.bound;
                unknown = λ e. ground (arith, stored, same, e);
                wanted = v.wanted;
                unwanted = v.unwanted;
                seen = λ e. elim (Bool-cases (known o s)) [
                  | inl old ↦ v.seen old
                  | inr new ↦ elim (Bool-cases (contains s.asked o)) [
                    | inl there ↦ there
                    | inr never ↦
                        absurd (ground (arith, v.unknown new, v.unwanted never, fewer, same))
                  ]
                ];
              }
              | inr other ↦ record {
                bound = v.bound;
                unknown =
                    λ e. ground (arith, fewer, other, v.unknown (ground (arith, stored, other, e)));
                wanted = v.wanted;
                unwanted = v.unwanted;
                seen = λ e. v.seen (ground (arith, stored, other, e));
              }
            ]))
  ]

  check_run-Inv :
      (workers : ℕ) (o : String) (ts : List CheckStep) (s : Checks P)
      → rules.ttl ≡ 0
      → Inv workers o s
      → Inv workers o (check_run rules workers ts s)
  unfolding check_run check_step
  check_run-Inv workers o [] s h v = v
  check_run-Inv workers o (started url now ∷ ts) s h v =
      elim (Bool-cases (leb workers (length s.pending))) [
        | inl busy ↦ rw (busy, check_step) (check_run-Inv workers o ts s h v)
        | inr free ↦
            rw (free, check_step)
              (check_run-Inv workers o ts (start_check rules url now s) h
                (start_check-Inv workers o url now s h (ground (arith, free)) v))
      ]
  check_run-Inv workers o (ended i response loaded ∷ ts) s h v =
      check_run-Inv workers o ts (end_check rules i response loaded s) h
        (end_check-Inv workers o i response loaded s v)

  -- If a parsed robots.txt is kept for the whole crawl, then however the checks of some workers interleave, the
  -- robots.txt of each origin that they ask for is fetched at least once and at most once per worker, and that of
  -- no other origin is.
  pub check_run-fetches :
      (workers : ℕ) (ts : List CheckStep) (o : String)
      → rules.ttl ≡ 0
      → let s = check_run rules workers ts (new_checks rules) in
        (fetches o s ≤ workers)
        × (contains s.asked o ≡ true → 1 ≤ fetches o s)
        × (contains s.asked o ≡ false → fetches o s ≡ 0)
  unfolding lookup
  check_run-fetches workers ts o h =
      let v = check_run-Inv workers o ts (new_checks rules) h (record {
        bound = omega arith;
        unknown = λ e. refl;
        wanted = λ e. ground (arith, e);
        unwanted = λ e. refl;
        seen = λ e. cc;
      }) in
      (v.bound, v.wanted, v.unwanted)
