-- ===== src/Policy/Local/Denied.antt =====
-- What a denial of the local rate limiter leaves untouched.
use stile.Prelude.{
  ℕ, String, ◌≡◌, ◌≢◌, refl, ◌∙◌, sym, ap, ◌⊎◌, inl, inr, Bool, true, false, not, ◌&&◌, Option,
  none, some, List, [], ◌∷◌, arith, str_eq, Option-cases,
}
use stile.Policy.Limits.{Level, caller, tool, upstream, RateLimitResult}
use stile.Policy.Local.{
  Buckets, LocalRateLimiter, Snapshot, Checked, Times, register_caller, after_caller, after_tool,
  after_upstream, keep_tool, note, check_caller, check_tool, check_upstream, unless_denied, start,
  check_levels, result_of, allow,
}
use stile.Policy.Local.Bounded.{note-limiter, unless_denied-Holds}

module _ {L : Type 0} (buckets : Buckets L) where
  result_of-denial :
      (times : Times) (now : ℕ) (denial : Option Level) (ss : List Snapshot) (res : RateLimitResult)
      → result_of buckets times now denial ss ≡ some res
      → res.denial ≡ denial
  unfolding result_of
  result_of-denial times now denial [] res h = cc
  result_of-denial times now denial (s ∷ ss) res h =
      sym (ap (λ (o : Option RateLimitResult). denial_of o) h)
    where
      denial_of : Option RateLimitResult → Option Level
      denial_of none = none
      denial_of (some r) = r.denial

  note-denial :
      (now : ℕ) (level : Level) (o : Option (L × Bool)) (c : Checked L)
      → c.denial ≡ none
      → ((note buckets now level o c).denial ≡ none)
        ⊎ ((note buckets now level o c).denial ≡ some level)
  unfolding note
  note-denial now level none c h = inl h
  note-denial now level (some (l, true)) c h = inl h
  note-denial now level (some (l, false)) c h = inr refl

  -- the level is skipped after a denial, and else leaves none or its own
  record Stops (level : Level) (c c' : Checked L) : Type 0 where
    skipped : (l : Level) → c.denial ≡ some l → c' ≡ c
    own : c.denial ≡ none → (c'.denial ≡ none) ⊎ (c'.denial ≡ some level)

  unless_denied-Stops :
      (level : Level) (d : Option Level) (applies : Bool) (next c : Checked L)
      → c.denial ≡ d
      → (c.denial ≡ none → (next.denial ≡ none) ⊎ (next.denial ≡ some level))
      → Stops level c (unless_denied buckets d applies next c)
  unfolding unless_denied
  unless_denied-Stops level none true next c e h = record { skipped = λ l p. cc (e, p); own = h }
  unless_denied-Stops level none false next c e h = record {
    skipped = λ l p. cc (e, p);
    own = λ p. inl p;
  }
  unless_denied-Stops level (some k) applies next c e h = record {
    skipped = λ l p. refl;
    own = λ p. cc;
  }

  after_caller-Stops :
      (now : ℕ) (name : String) (c : Checked L) → Stops caller c (after_caller buckets now name c)
  unfolding after_caller check_caller
  after_caller-Stops now name c =
      unless_denied-Stops caller c.denial _ _ c refl (λ p. note-denial now caller _ _ p)

  after_tool-Stops :
      (now : ℕ) (name tool_name : String) (c : Checked L)
      → Stops tool c (after_tool buckets now name tool_name c)
  unfolding after_tool check_tool
  after_tool-Stops now name tool_name c =
      unless_denied-Stops tool c.denial _ _ c refl (λ p. note-denial now tool _ _ p)

  after_upstream-Stops :
      (now : ℕ) (name : String) (c : Checked L)
      → Stops upstream c (after_upstream buckets now name c)
  unfolding after_upstream check_upstream
  after_upstream-Stops now name c =
      unless_denied-Stops upstream c.denial _ _ c refl (λ p. note-denial now upstream _ _ p)

  -- what a level leaves of the maps that are not its own
  after_caller-others :
      (now : ℕ) (name : String) (c : Checked L)
      → ((after_caller buckets now name c).limiter.tool_limiters ≡ c.limiter.tool_limiters)
        × ((after_caller buckets now name c).limiter.upstream_limiters
            ≡ c.limiter.upstream_limiters)
  unfolding after_caller check_caller
  after_caller-others now name c =
      unless_denied-Holds buckets
        (λ (c' : Checked L).
          (c'.limiter.tool_limiters ≡ c.limiter.tool_limiters)
          × (c'.limiter.upstream_limiters ≡ c.limiter.upstream_limiters))
        c.denial (not (str_eq name "")) (check_caller buckets now name c) c
        (
          ap (λ (rl : LocalRateLimiter L). rl.tool_limiters) (note-limiter buckets now caller _ _),
          ap (λ (rl : LocalRateLimiter L). rl.upstream_limiters)
              (note-limiter buckets now caller _ _),
        )
        (refl, refl)

  after_tool-others :
      (now : ℕ) (name tool_name : String) (c : Checked L)
      → (after_tool buckets now name tool_name c).limiter.upstream_limiters
        ≡ c.limiter.upstream_limiters
  unfolding after_tool check_tool keep_tool
  after_tool-others now name tool_name c =
      unless_denied-Holds buckets
        (λ (c' : Checked L). c'.limiter.upstream_limiters ≡ c.limiter.upstream_limiters) c.denial
        (not (str_eq name "") && not (str_eq tool_name ""))
        (check_tool buckets now name tool_name c) c
        (ap (λ (rl : LocalRateLimiter L). rl.upstream_limiters) (note-limiter buckets now tool _ _))
        refl

  start-others :
      (rl : LocalRateLimiter L) (name : String) (roles : List String)
      → ((start buckets rl name roles).limiter.tool_limiters ≡ rl.tool_limiters)
        × ((start buckets rl name roles).limiter.upstream_limiters ≡ rl.upstream_limiters)
  unfolding start register_caller
  start-others rl name roles = ground arith

  Stops-back :
      (level l : Level) (c c' : Checked L)
      → Stops level c c'
      → c'.denial ≡ some l
      → l ≢ level
      → c' ≡ c
  Stops-back level l c c' s e n = elim (Option-cases c.denial) [
    | inl none_yet ↦ elim (s.own none_yet) [ inl p ↦ cc (p, e) | inr p ↦ ground arith ]
    | inr (k, p) ↦ s.skipped k p
  ]

  -- A denied call spends nothing at the levels after the one that denies it: a denial for the caller
  -- leaves the tool and upstream limiters as they were, and one for the tool the upstream limiters.
  pub allow_denied :
      (times : Times) (rl : LocalRateLimiter L) (name tool_name upstream_name : String)
      (roles : List String) (now : ℕ) (res : RateLimitResult)
      → (allow buckets times rl name tool_name upstream_name roles now).1 ≡ some res
      → (res.denial ≡ some caller
          → ((allow buckets times rl name tool_name upstream_name roles now).0.tool_limiters
              ≡ rl.tool_limiters)
            × ((allow buckets times rl name tool_name upstream_name roles now).0.upstream_limiters
                ≡ rl.upstream_limiters))
        × (res.denial ≡ some tool
            → (allow buckets times rl name tool_name upstream_name roles now).0.upstream_limiters
              ≡ rl.upstream_limiters)
  unfolding allow check_levels
  allow_denied times rl name tool_name upstream_name roles now res h =
      let c0 = start buckets rl name roles in
      let c1 = after_caller buckets now name c0 in
      let c2 = after_tool buckets now name tool_name c1 in
      let c3 = after_upstream buckets now upstream_name c2 in
      let told = result_of-denial times now c3.denial c3.snapshots res h in
      let o0 = start-others rl name roles in
      let o1 = after_caller-others now name c0 in
      let o2 = after_tool-others now name tool_name c1 in
      let s2 = after_tool-Stops now name tool_name c1 in
      let s3 = after_upstream-Stops now upstream_name c2 in
      (
        λ at_caller.
            let same3 : c3 ≡ c2 =
              Stops-back upstream caller c2 c3 s3 (sym told ∙ at_caller) (λ h. cc) in
            let same2 : c2 ≡ c1 =
              Stops-back tool caller c1 c2 s2
                (ap (λ (c : Checked L). c.denial) (sym same3) ∙ sym told ∙ at_caller) (λ h. cc) in
            (
              ap (λ (c : Checked L). c.limiter.tool_limiters) (same3 ∙ same2) ∙ o1.0 ∙ o0.0,
              ap (λ (c : Checked L). c.limiter.upstream_limiters) (same3 ∙ same2) ∙ o1.1 ∙ o0.1,
            ),
        λ at_tool.
            let same3 : c3 ≡ c2 =
              Stops-back upstream tool c2 c3 s3 (sym told ∙ at_tool) (λ h. cc) in
            ap (λ (c : Checked L). c.limiter.upstream_limiters) same3 ∙ o2 ∙ o1.1 ∙ o0.1,
      )
