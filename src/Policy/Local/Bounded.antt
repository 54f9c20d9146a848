-- ===== src/Policy/Local/Bounded.antt =====
-- The maps of tool limiters over calls of Allow.
use stile.Prelude.{
  ℕ, ◌≤◌, String, ◌≡◌, refl, sym, subst, inl, inr, Bool, true, false, not, ◌&&◌, Option, none, some,
  List, arith, str_eq, is_some, Bool-cases,
}
use stile.Prelude.Dict
use stile.Prelude.Dict.{Dict, get-put, get-empty, size-put_le, size-put_held}
use stile.Policy.Limits.{Level, caller, tool, upstream}
use stile.Policy.Local.{
  Buckets, LocalRateLimiter, Checked, Times, max_tool_limiters, register_caller, has_roles,
  after_caller, after_tool, after_upstream, tools_of, caller_tools, with_tool, keep_tool, note,
  check_caller, check_tool, check_upstream, unless_denied, start, check_levels, allow,
}

-- No caller has more tool limiters than the bound.
abbrev pub IsBounded : {L : Type 0} → LocalRateLimiter L → Type 0
IsBounded {L = L} rl =
    (name : String) (tools : Dict L)
    → Dict.get rl.tool_limiters name ≡ some tools
    → Dict.size tools ≤ max_tool_limiters

module _ {L : Type 0} (buckets : Buckets L) where
  size-with_tool :
      (tools : Dict L) (tool_name : String) (o : Option L)
      → Dict.size tools ≤ max_tool_limiters
      → Dict.size (with_tool buckets tools tool_name o) ≤ max_tool_limiters
  unfolding with_tool
  size-with_tool tools tool_name none h = h
  size-with_tool tools tool_name (some l) h =
      ground (arith, size-put_le tools tool_name l, size-put_held tools tool_name l)

  size-tools_of :
      (o : Option (Dict L))
      → ((tools : Dict L) → o ≡ some tools → Dict.size tools ≤ max_tool_limiters)
      → Dict.size (tools_of buckets o) ≤ max_tool_limiters
  unfolding tools_of Dict.empty
  size-tools_of none h = omega arith
  size-tools_of (some tools) h = h tools refl

  keep_tool-IsBounded :
      (rl : LocalRateLimiter L) (name tool_name : String) (o : Option L)
      → IsBounded rl
      → IsBounded (keep_tool buckets rl name tool_name o)
  unfolding keep_tool caller_tools
  keep_tool-IsBounded rl name tool_name o b other tools e =
      let new = with_tool buckets (tools_of buckets (Dict.get rl.tool_limiters name)) tool_name o in
      let small : Dict.size new ≤ max_tool_limiters =
        size-with_tool _ tool_name o (size-tools_of (Dict.get rl.tool_limiters name) (b name)) in
      elim (Bool-cases (str_eq name other)) [
        | inl same ↦
            let stored : new ≡ tools = ground (arith, get-put rl.tool_limiters name other new) in
            subst (λ (d : Dict L). Dict.size d ≤ max_tool_limiters) stored small
        | inr differ ↦ b other tools (ground (arith, get-put rl.tool_limiters name other new))
      ]

  pub note-limiter :
      (now : ℕ) (level : Level) (o : Option (L × Bool)) (c : Checked L)
      → (note buckets now level o c).limiter ≡ c.limiter
  unfolding note
  note-limiter now level none c = refl
  note-limiter now level (some (l, ok)) c = refl

  pub unless_denied-Holds :
      (P : Checked L → Type 0) (d : Option Level) (applies : Bool) (next c : Checked L)
      → P next
      → P c
      → P (unless_denied buckets d applies next c)
  unfolding unless_denied
  unless_denied-Holds P none true next c n h = n
  unless_denied-Holds P none false next c n h = h
  unless_denied-Holds P (some l) applies next c n h = h

  abbrev Small : Checked L → Type 0
  Small c = IsBounded c.limiter

  check_caller-Small :
      (now : ℕ) (name : String) (c : Checked L) → Small c → Small (check_caller buckets now name c)
  unfolding check_caller
  check_caller-Small now name c b = subst IsBounded (sym (note-limiter now caller _ _)) b

  check_tool-Small :
      (now : ℕ) (name tool_name : String) (c : Checked L)
      → Small c
      → Small (check_tool buckets now name tool_name c)
  unfolding check_tool
  check_tool-Small now name tool_name c b =
      subst IsBounded (sym (note-limiter now tool _ _))
        (keep_tool-IsBounded c.limiter name tool_name _ b)

  check_upstream-Small :
      (now : ℕ) (name : String) (c : Checked L)
      → Small c
      → Small (check_upstream buckets now name c)
  unfolding check_upstream
  check_upstream-Small now name c b = subst IsBounded (sym (note-limiter now upstream _ _)) b

  start-Small :
      (rl : LocalRateLimiter L) (name : String) (roles : List String)
      → IsBounded rl
      → Small (start buckets rl name roles)
  unfolding start register_caller
  start-Small rl name roles b =
      elim (Bool-cases (not (str_eq name "") && has_roles buckets roles)) [
        | inl t ↦ elim (Bool-cases (is_some (Dict.get rl.registered name))) [
          | inl old ↦ rw (t, old) b
          | inr new ↦ rw (t, new) b
        ]
        | inr f ↦ rw f b
      ]

  -- Where no caller has more than 1000 tool limiters, no call of Allow gives one more, whatever its
  -- caller, tool, roles and time.
  pub allow-IsBounded :
      (times : Times) (rl : LocalRateLimiter L) (name tool_name upstream_name : String)
      (roles : List String) (now : ℕ)
      → IsBounded rl
      → IsBounded (allow buckets times rl name tool_name upstream_name roles now).0
  unfolding allow check_levels after_caller after_tool after_upstream
  allow-IsBounded times rl name tool_name upstream_name roles now b =
      let c0 = start buckets rl name roles in
      let s = start-Small rl name roles b in
      let c1 = after_caller buckets now name c0 in
      let f : Small c1 =
        unless_denied-Holds Small c0.denial (not (str_eq name ""))
          (check_caller buckets now name c0) c0 (check_caller-Small now name c0 s) s in
      let c2 = after_tool buckets now name tool_name c1 in
      let n : Small c2 =
        unless_denied-Holds Small c1.denial (not (str_eq name "") && not (str_eq tool_name ""))
          (check_tool buckets now name tool_name c1) c1 (check_tool-Small now name tool_name c1 f)
          f in
      unless_denied-Holds Small c2.denial (not (str_eq upstream_name ""))
        (check_upstream buckets now upstream_name c2) c2
        (check_upstream-Small now upstream_name c2 n) n
