-- ===== src/Config/Validate/Names.antt =====
-- What `validate` establishes of each upstream, and of the names together.
use stile.Prelude.{
  ℕ, ◌+◌, ◌≡◌, ◌≢◌, sym, ◌⊎◌, inl, inr, String, true, false, Option, none, some, List, [], ◌∷◌,
  arith, str_eq, eq_iff, Bool-cases, All, All-imp, In, In-any, eq_refl,
}
use stile.Router.Names.{IsName}
use stile.Config.Raw.{RawUpstreamConfig}
use stile.Config.Error.{then_check-none, refuse_if-none, url_required, command_required}
use stile.Config.Validate.Common.{member, prefix_matches, all_name_codes}
use stile.Config.Validate.{
  no_command, check_transport, check_prefix, check_upstream, check_upstreams, names_of,
}

-- no member is repeated
abbrev pub Nodup : List String → Type 0
Nodup [] = Unit
Nodup (s ∷ ss) = (¬ In s ss) × Nodup ss

abbrev HasCommand : Option (List String) → Type 0
HasCommand none = ⊥
HasCommand (some []) = ⊥
HasCommand (some (c ∷ cs)) = Unit

abbrev pub IsReachable : RawUpstreamConfig → Type 0
IsReachable u =
    ((u.transport ≡ "streamable-http") × (u.url ≢ ""))
    ⊎ ((u.transport ≡ "stdio") × HasCommand u.command)

abbrev pub PrefixIsName : Option String → Type 0
PrefixIsName none = Unit
PrefixIsName (some prefix) = IsName prefix

pub record IsUsable (u : RawUpstreamConfig) : Type 0 where
  pub named : u.name ≢ ""
  pub reachable : IsReachable u
  pub prefix_named : PrefixIsName u.tool_prefix

pub ne_of_str_eq : (s t : String) → str_eq s t ≡ false → s ≢ t
ne_of_str_eq s t h e = ground (arith, eq_iff s t)

pub member-In : (s : String) (xs : List String) → member s xs ≡ true → In s xs
member-In s [] h = cc
member-In s (x ∷ xs) h = elim (Bool-cases (str_eq x s)) [
  | inl e ↦ inl (sym ((eq_iff x s).0 e))
  | inr f ↦ inr (member-In s xs (ground arith))
]

pub In-member : (s : String) (xs : List String) → In s xs → member s xs ≡ true
In-member s xs m = In-any (λ x. str_eq x s) s xs m (eq_refl s)

pub not_member-In : (s : String) (xs : List String) → member s xs ≡ false → ¬ In s xs
not_member-In s xs h m = cc (In-member s xs m)

no_command-HasCommand : (c : Option (List String)) → no_command c ≡ false → HasCommand c
unfolding no_command
no_command-HasCommand none h = cc
no_command-HasCommand (some []) h = cc
no_command-HasCommand (some (c ∷ cs)) h = tt

check_transport-IsReachable : (u : RawUpstreamConfig) → check_transport u ≡ none → IsReachable u
unfolding check_transport
check_transport-IsReachable u h = elim (Bool-cases (str_eq u.transport "streamable-http")) [
  | inl t ↦
      inl ((eq_iff _ _).0 t, ne_of_str_eq _ _ (refuse_if-none _ (url_required u.name) (rw t at h)))
  | inr f ↦ elim (Bool-cases (str_eq u.transport "stdio")) [
    | inl t ↦ inr (
      (eq_iff _ _).0 t,
      no_command-HasCommand u.command (refuse_if-none _ (command_required u.name) (rw (f, t) at h)),
    )
    | inr g ↦ absurd (ground arith)
  ]
]

all_name_codes-IsName : (s : String) → all_name_codes s ≡ true → IsName s
unfolding all_name_codes
all_name_codes-IsName String.[] h = tt
all_name_codes-IsName (String.◌∷◌ c s) h = (ground arith, all_name_codes-IsName s (ground arith))

check_prefix-PrefixIsName :
    (name : String) (p : Option String) → check_prefix name p ≡ none → PrefixIsName p
unfolding check_prefix prefix_matches
check_prefix-PrefixIsName name none h = tt
check_prefix-PrefixIsName name (some prefix) h = elim (Bool-cases (str_eq prefix "")) [
  | inl e ↦ rw ((eq_iff prefix "").0 e) tt
  | inr f ↦ all_name_codes-IsName prefix (ground arith)
]

check_upstream-IsUsable :
    (i : ℕ) (seen : List String) (u : RawUpstreamConfig)
    → check_upstream i seen u ≡ none
    → IsUsable u × (¬ In u.name seen)
unfolding check_upstream
check_upstream-IsUsable i seen u h =
    let (a, more) = then_check-none _ _ h in
    let (b, rest) = then_check-none _ _ more in
    let (c, d) = then_check-none _ _ rest in
    (
      record {
        named = ne_of_str_eq _ _ (refuse_if-none _ _ a);
        reachable = check_transport-IsReachable u c;
        prefix_named = check_prefix-PrefixIsName u.name u.tool_prefix d;
      },
      not_member-In u.name seen (refuse_if-none _ _ b),
    )

abbrev Unseen : List String → RawUpstreamConfig → Type 0
Unseen seen u = IsUsable u × (¬ In u.name seen)

Unseen-later :
    (name : String) (seen : List String) (us : List RawUpstreamConfig)
    → All (Unseen (name ∷ seen)) us
    → All (Unseen seen) us × (¬ In name (names_of us))
Unseen-later name seen [] h = (tt, λ m. m)
Unseen-later name seen (u ∷ us) h =
    let (others, absent) = Unseen-later name seen us h.1 in
    (
      ((h.0.0, λ m. h.0.1 (inr m)), others),
      λ m. elim m [ inl e ↦ h.0.1 (inl (sym e)) | inr later ↦ absent later ],
    )

check_upstreams-Unseen :
    (i : ℕ) (seen : List String) (us : List RawUpstreamConfig)
    → check_upstreams i seen us ≡ none
    → All (Unseen seen) us × Nodup (names_of us)
unfolding check_upstreams
check_upstreams-Unseen i seen [] h = (tt, tt)
check_upstreams-Unseen i seen (u ∷ us) h =
    let (here, later) = then_check-none _ _ h in
    let (unseen, distinct) = check_upstreams-Unseen (i + 1) (u.name ∷ seen) us later in
    let (others, absent) = Unseen-later u.name seen us unseen in
    ((check_upstream-IsUsable i seen u here, others), (absent, distinct))

-- Upstreams that pass the first loop can be reached as their transport demands, have a name and a
-- prefix of name characters, and no two have one name.
pub check_upstreams-IsUsable :
    (us : List RawUpstreamConfig)
    → check_upstreams 0 [] us ≡ none
    → All IsUsable us × Nodup (names_of us)
check_upstreams-IsUsable us h =
    let (unseen, distinct) = check_upstreams-Unseen 0 [] us h in
    (All-imp (Unseen []) IsUsable us (λ u a. a.0) unseen, distinct)
