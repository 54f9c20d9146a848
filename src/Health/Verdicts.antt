-- ===== src/Health/Verdicts.antt =====
-- What one check makes of each upstream.
use stile.Prelude.{
  ℕ, ◌+◌, String, ◌≡◌, ◌≢◌, refl, ◌∙◌, sym, Bool, true, false, List, [], ◌∷◌, arith, eq_iff,
  eq_refl, leb, if◌then◌else◌, All, In, inl, inr, All-In, subst,
}
use stile.Prelude.Dict
use stile.Prelude.Dict.{Dict, get-put}
use stile.Health.{
  UpstreamInfo, Beliefs, Checker, Seen, healthy_of, fails_of, or_missing, uses_store, judge_alive,
  judge, judge_all, check,
}

abbrev pub DistinctNames : List UpstreamInfo → Type 0
DistinctNames [] = Unit
DistinctNames (u ∷ us) = All (λ (v : UpstreamInfo). v.name ≢ u.name) us × DistinctNames us

-- The health that an upstream should have after a check, from its health and failures before: that of
-- the store where it is read; alive, healthy at once; not alive, unhealthy from the threshold on.
abbrev pub verdict : Checker → Seen → UpstreamInfo → Bool → ℕ → Bool
verdict c seen u before fails =
    if uses_store c u
    then or_missing c.missing_status (seen.stored u.name)
    else if seen.alive u.name
    then true
    else if leb c.fail_threshold (fails + 1)
    then false
    else before

-- and its failures in a row
abbrev pub streak : Checker → Seen → UpstreamInfo → ℕ → ℕ
streak c seen u fails = if uses_store c u then fails else if seen.alive u.name then 0 else fails + 1

-- what is believed of a name
abbrev pub health_in : Beliefs → String → Bool
health_in b name = healthy_of (Dict.get b.health name)

abbrev pub fails_in : Beliefs → String → ℕ
fails_in b name = fails_of (Dict.get b.consecutive_fails name)

-- the verdict and the streak by whether the store is read, and whether the upstream is alive
abbrev verdict_of : ℕ → Bool → Bool → Bool → Bool → ℕ → Bool
verdict_of threshold reads stored alive before fails =
    if reads
    then stored
    else if alive
    then true
    else if leb threshold (fails + 1)
    then false
    else before

abbrev streak_of : Bool → Bool → ℕ → ℕ
streak_of reads alive fails = if reads then fails else if alive then 0 else fails + 1

own_alive :
    (threshold : ℕ) (name : String) (stored alive : Bool) (b : Beliefs)
    → (health_in (judge_alive threshold name alive b) name
        ≡ verdict_of threshold false stored alive (health_in b name) (fails_in b name))
      × (fails_in (judge_alive threshold name alive b) name
          ≡ streak_of false alive (fails_in b name))
unfolding judge_alive
own_alive threshold name stored true b = (
  ground (arith, get-put b.health name name true, eq_refl name),
  ground (arith, get-put b.consecutive_fails name name 0, eq_refl name),
)
own_alive threshold name stored false b =
    let fails = fails_of (Dict.get b.consecutive_fails name) + 1 in
    (
      ground (arith, get-put b.health name name false, eq_refl name),
      ground (arith, get-put b.consecutive_fails name name fails, eq_refl name),
    )

-- the two branches of an `if`, of which each is related to its test
by_test :
    {A : Type 0} (Q : Bool → A → Type 0) (x : Bool) (a b : A)
    → Q true a
    → Q false b
    → Q x (if x then a else b)
by_test Q true a b p q = p
by_test Q false a b p q = q

module _ (c : Checker) (seen : Seen) where
  judge-own :
      (u : UpstreamInfo) (b : Beliefs)
      → (health_in (judge c seen u b) u.name
          ≡ verdict c seen u (health_in b u.name) (fails_in b u.name))
        × (fails_in (judge c seen u b) u.name ≡ streak c seen u (fails_in b u.name))
  unfolding judge
  judge-own u b =
      let stored = or_missing c.missing_status (seen.stored u.name) in
      by_test
        (λ reads (b' : Beliefs).
          (health_in b' u.name
            ≡ verdict_of c.fail_threshold reads stored (seen.alive u.name) (health_in b u.name)
                (fails_in b u.name))
          × (fails_in b' u.name ≡ streak_of reads (seen.alive u.name) (fails_in b u.name)))
        (uses_store c u) (record b { health = Dict.put b.health u.name stored })
        (judge_alive c.fail_threshold u.name (seen.alive u.name) b)
        (ground (arith, get-put b.health u.name u.name stored, eq_refl u.name), refl)
        (own_alive c.fail_threshold u.name stored (seen.alive u.name) b)

  -- what is believed of another name stays
  others_alive :
      (threshold : ℕ) (name other : String) (alive : Bool) (b : Beliefs)
      → other ≢ name
      → (health_in (judge_alive threshold name alive b) other ≡ health_in b other)
        × (fails_in (judge_alive threshold name alive b) other ≡ fails_in b other)
  unfolding judge_alive
  others_alive threshold name other true b d = (
    ground (arith, get-put b.health name other true, eq_iff name other),
    ground (arith, get-put b.consecutive_fails name other 0, eq_iff name other),
  )
  others_alive threshold name other false b d =
      let fails = fails_of (Dict.get b.consecutive_fails name) + 1 in
      (
        ground (arith, get-put b.health name other false, eq_iff name other),
        ground (arith, get-put b.consecutive_fails name other fails, eq_iff name other),
      )

  judge-others :
      (u : UpstreamInfo) (other : String) (b : Beliefs)
      → other ≢ u.name
      → (health_in (judge c seen u b) other ≡ health_in b other)
        × (fails_in (judge c seen u b) other ≡ fails_in b other)
  unfolding judge
  judge-others u other b d =
      let stored = or_missing c.missing_status (seen.stored u.name) in
      by_test
        (λ reads (b' : Beliefs).
          (health_in b' other ≡ health_in b other) × (fails_in b' other ≡ fails_in b other))
        (uses_store c u) (record b { health = Dict.put b.health u.name stored })
        (judge_alive c.fail_threshold u.name (seen.alive u.name) b)
        (ground (arith, get-put b.health u.name other stored, eq_iff u.name other), refl)
        (others_alive c.fail_threshold u.name other (seen.alive u.name) b d)

  judge_all-others :
      (us : List UpstreamInfo) (other : String) (b : Beliefs)
      → All (λ (v : UpstreamInfo). v.name ≢ other) us
      → (health_in (judge_all c seen us b).0 other ≡ health_in b other)
        × (fails_in (judge_all c seen us b).0 other ≡ fails_in b other)
  unfolding judge_all
  judge_all-others [] other b h = (refl, refl)
  judge_all-others (u ∷ us) other b h =
      let (p, q) = judge-others u other b (λ e. h.0 (sym e)) in
      let (p', q') = judge_all-others us other (judge c seen u b) h.1 in (p' ∙ p, q' ∙ q)

  judge_all-head :
      (v : UpstreamInfo) (us : List UpstreamInfo) (b : Beliefs)
      → DistinctNames (v ∷ us)
      → (health_in (judge_all c seen us (judge c seen v b)).0 v.name
          ≡ verdict c seen v (health_in b v.name) (fails_in b v.name))
        × (fails_in (judge_all c seen us (judge c seen v b)).0 v.name
            ≡ streak c seen v (fails_in b v.name))
  judge_all-head v us b d =
      let (p, q) = judge-own v b in
      let (p', q') = judge_all-others us v.name (judge c seen v b) d.0 in (p' ∙ p, q' ∙ q)

  judge_all-own :
      (us : List UpstreamInfo) (u : UpstreamInfo) (b : Beliefs)
      → DistinctNames us
      → In u us
      → (health_in (judge_all c seen us b).0 u.name
          ≡ verdict c seen u (health_in b u.name) (fails_in b u.name))
        × (fails_in (judge_all c seen us b).0 u.name ≡ streak c seen u (fails_in b u.name))
  unfolding judge_all
  judge_all-own [] u b d m = elim m [ ]
  judge_all-own (v ∷ us) u b d (inl e) =
      subst
        (λ (x : UpstreamInfo).
          (health_in (judge_all c seen us (judge c seen v b)).0 x.name
            ≡ verdict c seen x (health_in b x.name) (fails_in b x.name))
          × (fails_in (judge_all c seen us (judge c seen v b)).0 x.name
              ≡ streak c seen x (fails_in b x.name)))
        (sym e) (judge_all-head v us b d)
  judge_all-own (v ∷ us) u b d (inr m) =
      let differ = All-In (λ (x : UpstreamInfo). x.name ≢ v.name) u us d.0 m in
      let (p, q) = judge-others v u.name b differ in
      let (p', q') = judge_all-own us u (judge c seen v b) d.1 m in (p' ∙ cc (p, q), q' ∙ cc q)

-- A check gives every upstream its own verdict, where names are distinct: the store's word or the
-- configured default where the store is read; else healthy if it is alive, unhealthy if it is not and
-- has now failed as often in a row as the threshold, and otherwise as before. Its count of failures in
-- a row is kept, reset or raised accordingly.
pub check-verdict :
    (c : Checker) (seen : Seen) (u : UpstreamInfo)
    → DistinctNames c.upstreams
    → In u c.upstreams
    → (health_in (check seen c).0.beliefs u.name
        ≡ verdict c seen u (health_in c.beliefs u.name) (fails_in c.beliefs u.name))
      × (fails_in (check seen c).0.beliefs u.name ≡ streak c seen u (fails_in c.beliefs u.name))
unfolding check
check-verdict c seen u d m = judge_all-own c seen c.upstreams u c.beliefs d m
