-- ===== src/Config/Convert/Roles.antt =====
-- The roles of a configuration that is loaded from a document.
use stile.Prelude.{
  ◌≡◌, refl, sym, ap, ◌∙◌, String, Bool, false, Option, none, some, List, [], ◌∷◌, ◌++◌, map,
  str_eq, All, subst,
}
use stile.Prelude.Int.{ℤ}
use stile.Config.Raw.{RawConfig}
use stile.Config.Limits.{Floats}
use stile.Config.Error.{Check, ok, >>=-eq-ok}
use stile.Config.Values.{Config}
use stile.Config.Validate.{validate}
use stile.Config.Upstreams.{convert_upstreams}
use stile.Config.Resilience.Bounds.{ok_value}
use stile.Config.Sections.{convert_server, convert_roles, convert_rate_limits, convert_health}
use stile.Config.Sections.Bounds.{Follows, convert_roles-Follows}
use stile.Config.Convert.{
  convert_valid, unless_refused, convert, document, mapping, Node, node, Nodes, nil, cons, value_of,
  keys_of, names_in, find_roles, roles_of_root, extract_role_order, loaded, loaded_raw, load_bytes,
}

-- the content of a mapping with these keys and values
abbrev pub content_of : List (Node × Node) → Nodes
content_of [] = nil
content_of ((key, v) ∷ entries) = cons key (cons v (content_of entries))

abbrev pub names_of : List (Node × Node) → List String
names_of entries = map (λ e. value_of e.0) entries

-- The document is a mapping, and these are the keys of the mapping under its first key "roles".
pub record HasRoles (doc : Option Node) (names : List String) : Type 0 where
  pub before : List (Node × Node)
  pub after : List (Node × Node)
  pub roles : List (Node × Node)
  pub key : Node
  pub rest : Nodes
  pub document_value : String
  pub root_value : String
  pub roles_value : String
  pub is_first : All (λ e. str_eq (value_of e.0) "roles" ≡ false) before
  pub is_roles : value_of key ≡ "roles"
  pub is_doc :
      doc
      ≡ some (
          node document document_value (
            cons
              (node mapping root_value
                (content_of (before ++ (key, node mapping roles_value (content_of roles)) ∷ after)))
              rest))
  pub are_names : names ≡ names_of roles

keys_of-content_of :
    (entries : List (Node × Node)) → keys_of (content_of entries) ≡ names_of entries
unfolding keys_of
keys_of-content_of [] = refl
keys_of-content_of ((key, v) ∷ entries) =
    ap (λ (ns : List String). value_of key ∷ ns) (keys_of-content_of entries)

find_roles-content_of :
    (before after roles : List (Node × Node)) (key : Node) (text : String)
    → All (λ e. str_eq (value_of e.0) "roles" ≡ false) before
    → value_of key ≡ "roles"
    → find_roles (content_of (before ++ (key, node mapping text (content_of roles)) ∷ after))
      ≡ names_of roles
unfolding find_roles names_in
find_roles-content_of [] after roles key text h k = rw k (keys_of-content_of roles)
find_roles-content_of ((other_key, v) ∷ before) after roles key text h k =
    rw h.0 (find_roles-content_of before after roles key text h.1 k)

extract_role_order-HasRoles :
    (doc : Option Node) (names : List String) → HasRoles doc names → extract_role_order doc ≡ names
unfolding extract_role_order roles_of_root
extract_role_order-HasRoles doc names h = rw h.is_doc (
    find_roles-content_of h.before h.after h.roles h.key h.roles_value h.is_first h.is_roles
    ∙ sym h.are_names)

module _ (f : Floats) (parse_duration : String → Option ℤ) where
  convert_valid-Follows :
      (raw : RawConfig) (c : Config)
      → convert_valid f parse_duration raw ≡ ok c
      → Follows raw.roles raw.roles_ordered c.roles
  unfolding convert_valid
  convert_valid-Follows raw c h =
      let (server, _, m1) = >>=-eq-ok (convert_server parse_duration raw.server) _ h in
      let (cs, _, m2) = >>=-eq-ok (convert_upstreams f parse_duration raw.upstreams) _ m1 in
      let (roles, converted, m3) = >>=-eq-ok (convert_roles f raw.roles raw.roles_ordered) _ m2 in
      let (limits, _, m4) = >>=-eq-ok (convert_rate_limits f raw.rate_limits) _ m3 in
      let (health, _, built) =
        >>=-eq-ok (convert_health parse_duration limits.redis raw.health) _ m4 in
      subst (Follows raw.roles raw.roles_ordered)
        (ap (λ (k : Config). k.roles) (ok_value _ c built))
        (convert_roles-Follows f raw.roles raw.roles_ordered roles converted)

  unless_refused-Follows :
      (check : Check) (raw : RawConfig) (c : Config)
      → unless_refused f parse_duration check raw ≡ ok c
      → Follows raw.roles raw.roles_ordered c.roles
  unfolding unless_refused
  unless_refused-Follows (some e) raw c made = cc
  unless_refused-Follows none raw c made = convert_valid-Follows raw c made

  module _ (compiles : String → Bool) (decode : String → Option RawConfig)
      (parse_nodes : String → Option Node) where
    loaded_raw-Follows :
        (o : Option RawConfig) (order : List String) (c : Config)
        → loaded_raw f parse_duration compiles decode parse_nodes o order ≡ loaded (ok c)
        → (raw : RawConfig) × (o ≡ some raw) × Follows raw.roles order c.roles
    unfolding loaded_raw convert
    loaded_raw-Follows none order c h = cc
    loaded_raw-Follows (some raw) order c h =
        let ordered : RawConfig = record raw { roles_ordered = order } in
        let made : convert f parse_duration compiles ordered ≡ ok c = cc in
        (raw, refl, unless_refused-Follows (validate f compiles ordered) ordered c made)

    -- Where a document loads, and has a mapping under its first key "roles", the roles of the
    -- configuration are those of the keys of that mapping, in their order, which the decoded map has,
    -- each with the tools and credentials that the map has under the name, and with limits that are
    -- usable.
    pub load_bytes-roles :
        (text : String) (names : List String) (c : Config)
        → load_bytes f parse_duration compiles decode parse_nodes text ≡ loaded (ok c)
        → HasRoles (parse_nodes text) names
        → (raw : RawConfig) × (decode text ≡ some raw) × Follows raw.roles names c.roles
    unfolding load_bytes
    load_bytes-roles text names c h doc =
        let order = extract_role_order-HasRoles (parse_nodes text) names doc in
        loaded_raw-Follows (decode text) names c (rw order at h)
