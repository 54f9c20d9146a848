-- ===== src/Config/Upstreams/Bounds.antt =====
-- What an upstream has after `convert`, and what it keeps of its raw form.
use stile.Prelude.{
  ◌≡◌, refl, sym, ap, ◌∙◌, ◌⊎◌, inl, inr, String, false, Option, none, List, [], ◌∷◌, map, str_eq,
  Bool-cases, All, subst,
}
use stile.Prelude.Int.{ℤ, IsPositive}
use stile.Config.Raw.{RawUpstreamConfig}
use stile.Config.Limits.{Floats}
use stile.Config.Error.{of_upstream, ok, >>=-eq-ok}
use stile.Config.Values.{AuthConfig, Common, UpstreamConfig, http, stdio, nil_upstream}
use stile.Config.Resilience.{
  optional_limit, convert_timeout, convert_circuit_breaker, convert_retry,
}
use stile.Config.Resilience.Bounds.{
  LimitIsUsable, BreakerIsBounded, RetryIsBounded, ok_value, optional_limit-IsUsable,
  convert_timeout-IsPositive, convert_circuit_breaker-IsBounded, convert_retry-IsBounded,
}
use stile.Config.Validate.{names_of}
use stile.Config.Validate.Names.{IsReachable, ne_of_str_eq}
use stile.Config.Upstreams.{
  convert_auth, of_transport, convert_common, convert_upstream, convert_upstreams,
}

pub record CommonIsBounded (c : Common) : Type 0 where
  pub limit_usable : LimitIsUsable c.rate_limit
  pub timeout_positive : IsPositive c.timeout
  pub breaker_bounded : BreakerIsBounded c.circuit_breaker
  pub retry_bounded : RetryIsBounded c.retry

-- an upstream of one of the two kinds
abbrev pub UpstreamIsBounded : UpstreamConfig → Type 0
UpstreamIsBounded (http h) = CommonIsBounded h.common
UpstreamIsBounded (stdio s) = CommonIsBounded s.common
UpstreamIsBounded nil_upstream = ⊥

abbrev pub upstream_name : UpstreamConfig → String
upstream_name (http h) = h.common.name
upstream_name (stdio s) = s.common.name
upstream_name nil_upstream = ""

abbrev pub auth_of : UpstreamConfig → Option AuthConfig
auth_of (http h) = h.auth
auth_of (stdio s) = none
auth_of nil_upstream = none

-- What a converted upstream `c` has of the raw `u`.
pub record Converts (u : RawUpstreamConfig) (c : UpstreamConfig) : Type 0 where
  pub bounded : UpstreamIsBounded c
  pub same_name : upstream_name c ≡ u.name
  pub same_auth : (auth_of c ≡ convert_auth u.auth) ⊎ (auth_of c ≡ none)

unknown :
    (u : RawUpstreamConfig)
    → str_eq u.transport "streamable-http" ≡ false
    → str_eq u.transport "stdio" ≡ false
    → ¬ IsReachable u
unknown u g k (inl r) = ne_of_str_eq u.transport "streamable-http" g r.0
unknown u g k (inr r) = ne_of_str_eq u.transport "stdio" k r.0

module _ (f : Floats) (parse_duration : String → Option ℤ) where
  convert_common-IsBounded :
      (u : RawUpstreamConfig) (c : Common)
      → convert_common f parse_duration u ≡ ok c
      → CommonIsBounded c × (c.name ≡ u.name)
  unfolding convert_common
  convert_common-IsBounded u c h =
      let (rl, limit, m1) = >>=-eq-ok (optional_limit f (of_upstream u.name) u.rate_limit) _ h in
      let (t, time, m2) = >>=-eq-ok (convert_timeout parse_duration u.name u.timeout) _ m1 in
      let (cb, breaker, m3) =
        >>=-eq-ok (convert_circuit_breaker parse_duration u.name u.circuit_breaker) _ m2 in
      let (r, retry, made) = >>=-eq-ok (convert_retry parse_duration u.name u.retry) _ m3 in
      let built : Common = record {
        name = u.name;
        tools = u.tools;
        tool_prefix = u.tool_prefix;
        rate_limit = rl;
        timeout = t;
        circuit_breaker = cb;
        retry = r;
      } in
      let bounded : CommonIsBounded built = record {
        limit_usable = optional_limit-IsUsable f (of_upstream u.name) u.rate_limit rl limit;
        timeout_positive = convert_timeout-IsPositive parse_duration u.name u.timeout t time;
        breaker_bounded =
            convert_circuit_breaker-IsBounded parse_duration u.name u.circuit_breaker cb breaker;
        retry_bounded = convert_retry-IsBounded parse_duration u.name u.retry r retry;
      } in
      (
        subst CommonIsBounded (ok_value built c made) bounded,
        sym (ap (λ (k : Common). k.name) (ok_value built c made)),
      )

  of_transport-Converts :
      (u : RawUpstreamConfig) (common : Common)
      → IsReachable u
      → CommonIsBounded common
      → common.name ≡ u.name
      → Converts u (of_transport u common)
  unfolding of_transport
  of_transport-Converts u common reach bounded same =
      elim (Bool-cases (str_eq u.transport "streamable-http")) [
        | inl t ↦ rw t (record { bounded = bounded; same_name = same; same_auth = inl refl })
        | inr g ↦ elim (Bool-cases (str_eq u.transport "stdio")) [
          | inl t ↦ rw (g, t) (record { bounded = bounded; same_name = same; same_auth = inr refl })
          | inr k ↦ absurd (unknown u g k reach)
        ]
      ]

  pub convert_upstream-Converts :
      (u : RawUpstreamConfig) (c : UpstreamConfig)
      → IsReachable u
      → convert_upstream f parse_duration u ≡ ok c
      → Converts u c
  unfolding convert_upstream
  convert_upstream-Converts u c reach h =
      let (common, found, made) = >>=-eq-ok (convert_common f parse_duration u) _ h in
      let (bounded, same) = convert_common-IsBounded u common found in
      subst (Converts u) (ok_value (of_transport u common) c made)
        (of_transport-Converts u common reach bounded same)

  -- a property of each raw upstream gives one of each converted upstream
  pub convert_upstreams-All :
      (P : RawUpstreamConfig → Type 0) (Q : UpstreamConfig → Type 0)
      (step : (u : RawUpstreamConfig) (c : UpstreamConfig) → P u → Converts u c → Q c)
      (us : List RawUpstreamConfig) (cs : List UpstreamConfig)
      → All IsReachable us
      → All P us
      → convert_upstreams f parse_duration us ≡ ok cs
      → All Q cs
  unfolding convert_upstreams
  convert_upstreams-All P Q step [] cs reach held h = subst (All Q) (ok_value [] cs h) tt
  convert_upstreams-All P Q step (u ∷ us) cs reach held h =
      let (c, first, rest) = >>=-eq-ok (convert_upstream f parse_duration u) _ h in
      let (more, others, made) = >>=-eq-ok (convert_upstreams f parse_duration us) _ rest in
      let all : All Q (c ∷ more) = (
        step u c held.0 (convert_upstream-Converts u c reach.0 first),
        convert_upstreams-All P Q step us more reach.1 held.1 others,
      ) in
      subst (All Q) (ok_value (c ∷ more) cs made) all

  pub convert_upstreams-names :
      (us : List RawUpstreamConfig) (cs : List UpstreamConfig)
      → All IsReachable us
      → convert_upstreams f parse_duration us ≡ ok cs
      → map upstream_name cs ≡ names_of us
  unfolding convert_upstreams
  convert_upstreams-names [] cs reach h = ap (map upstream_name) (sym (ok_value [] cs h))
  convert_upstreams-names (u ∷ us) cs reach h =
      let (c, first, rest) = >>=-eq-ok (convert_upstream f parse_duration u) _ h in
      let (more, others, made) = >>=-eq-ok (convert_upstreams f parse_duration us) _ rest in
      let same = (convert_upstream-Converts u c reach.0 first).same_name in
      let later = convert_upstreams-names us more reach.1 others in
      ap (map upstream_name) (sym (ok_value (c ∷ more) cs made)) ∙ cc (same, later)
