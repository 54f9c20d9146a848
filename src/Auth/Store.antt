-- ===== src/Auth/Store.antt =====
-- `SQLiteStore` of internal/auth/store.go: its three tables, and what each statement does to them.
-- A statement fails by its own constraints only: a database that does not answer is not modelled.
-- The newest row stands first; without an ORDER BY the order of a result means nothing. A key hash
-- is its hexadecimal text. Creation times, and the listings that show them, are left out.
pub mod Kept
pub mod Effects
pub mod Failures
use stile.Prelude.{
  ℕ, suc, String, Bool, true, false, not, ◌&&◌, Option, none, some, List, [], ◌∷◌, map, ◌==◌,
  str_eq, if◌then◌else◌, any, filter, length, is_some, ltb, ◌+◌,
}
use stile.Auth.Authenticate.{KeyRecord}

pub record CallerRow : Type 0 where
  pub id : ℕ
  pub name : String

pub record KeyRow : Type 0 where
  pub key_id : ℕ
  pub caller_id : ℕ
  pub key_hash : String
  pub label : String

pub record RoleRow : Type 0 where
  pub caller_id : ℕ
  pub role : String

-- the tables, with the next numbers of the two AUTOINCREMENT columns
pub record SqliteStore : Type 0 where
  pub callers : List CallerRow
  pub api_keys : List KeyRow
  pub caller_roles : List RoleRow
  pub next_caller : ℕ
  pub next_key : ℕ

-- ErrNotFound, ErrDuplicate, and an INSERT of a key that its UNIQUE constraint refuses
pub data StoreError : Type 0 where
  not_found duplicate insert_key : StoreError

-- SELECT id FROM callers WHERE name = ?
unfoldable pub caller_id_of : String → List CallerRow → Option ℕ
caller_id_of name [] = none
caller_id_of name (c ∷ cs) = if str_eq c.name name then some c.id else caller_id_of name cs

-- the join `c.id = …caller_id`, on the primary key
unfoldable pub name_of : ℕ → List CallerRow → Option String
name_of id [] = none
name_of id (c ∷ cs) = if c.id == id then some c.name else name_of id cs

is_named : String → Option String → Bool
is_named name none = false
is_named name (some n) = str_eq n name

-- whether a row that refers to `id` belongs to the caller called `name`
unfoldable pub belongs : List CallerRow → String → ℕ → Bool
unfolding is_named name_of
belongs cs name id = is_named name (name_of id cs)

joined : KeyRow → Option String → Option KeyRecord → Option KeyRecord
joined k none rest = rest
joined k (some n) rest = some (record { caller_name = n; key_label = k.label })

unfoldable pub key_rows : List CallerRow → String → List KeyRow → Option KeyRecord
unfolding joined name_of
key_rows cs hash [] = none
key_rows cs hash (k ∷ ks) =
    let rest = key_rows cs hash ks in
    if str_eq k.key_hash hash then joined k (name_of k.caller_id cs) rest else rest

-- LookupByKey
unfoldable pub lookup_by_key : SqliteStore → String → Option KeyRecord
unfolding key_rows
lookup_by_key s hash = key_rows s.callers hash s.api_keys

unfoldable pub role_rows : List CallerRow → String → List RoleRow → List String
unfolding belongs
role_rows cs name [] = []
role_rows cs name (r ∷ rs) =
    let rest = role_rows cs name rs in if belongs cs name r.caller_id then r.role ∷ rest else rest

-- RolesForCaller
unfoldable pub roles_for_caller : SqliteStore → String → List String
unfolding role_rows
roles_for_caller s name = role_rows s.callers name s.caller_roles

abbrev pub Answered : Type 0
Answered = SqliteStore × Option StoreError

abbrev pub with_caller : SqliteStore → String → SqliteStore
with_caller s name = record s {
  callers = record { id = s.next_caller; name = name } ∷ s.callers;
  next_caller = suc s.next_caller;
}

-- AddCaller
unfoldable pub add_caller : SqliteStore → String → Answered
unfolding caller_id_of
add_caller s name =
    if is_some (caller_id_of name s.callers)
    then (s, some duplicate)
    else (with_caller s name, none)

has_hash : String → List KeyRow → Bool
has_hash hash ks = any (λ k. str_eq k.key_hash hash) ks

insert_key_row : SqliteStore → ℕ → String → String → Answered
unfolding has_hash
insert_key_row s id hash label = if has_hash hash s.api_keys then (s, some insert_key) else (
  record s {
    api_keys =
        record { key_id = s.next_key; caller_id = id; key_hash = hash; label = label } ∷ s.api_keys;
    next_key = suc s.next_key;
  },
  none,
)

abbrev pub found : SqliteStore → Option ℕ → (ℕ → Answered) → Answered
found s none f = (s, some not_found)
found s (some id) f = f id

-- AddKey
unfoldable pub add_key : SqliteStore → String → String → String → Answered
unfolding caller_id_of insert_key_row
add_key s name hash label =
    found s (caller_id_of name s.callers) (λ id. insert_key_row s id hash label)

abbrev pub is_role : ℕ → String → RoleRow → Bool
is_role id role r = r.caller_id == id && str_eq r.role role

-- INSERT OR IGNORE INTO caller_roles
unfoldable pub insert_role : ℕ → String → List RoleRow → List RoleRow
insert_role id role rs =
    if any (is_role id role) rs then rs else record { caller_id = id; role = role } ∷ rs

-- AssignRole
unfoldable pub assign_role : SqliteStore → String → String → Answered
unfolding caller_id_of insert_role
assign_role s name role =
    found s (caller_id_of name s.callers)
      (λ id. (record s { caller_roles = insert_role id role s.caller_roles }, none))

-- UnassignRole
unfoldable pub unassign_role : SqliteStore → String → String → Answered
unfolding caller_id_of
unassign_role s name role = found s (caller_id_of name s.callers) (λ id.
    if any (is_role id role) s.caller_roles
    then (record s { caller_roles = filter (λ r. not (is_role id role r)) s.caller_roles }, none)
    else (s, some not_found))

-- DeleteCaller, with the two cascades
unfoldable pub delete_caller : SqliteStore → String → Answered
unfolding caller_id_of belongs
delete_caller s name =
    if is_some (caller_id_of name s.callers)
    then (
      record s {
        callers = filter (λ c. not (str_eq c.name name)) s.callers;
        api_keys = filter (λ k. not (belongs s.callers name k.caller_id)) s.api_keys;
        caller_roles = filter (λ r. not (belongs s.callers name r.caller_id)) s.caller_roles;
      },
      none,
    )
    else (s, some not_found)

-- a DELETE from api_keys that reports when no row was affected
delete_keys : SqliteStore → (KeyRow → Bool) → Answered
delete_keys s p =
    if any p s.api_keys
    then (record s { api_keys = filter (λ k. not (p k)) s.api_keys }, none)
    else (s, some not_found)

-- DeleteKey
unfoldable pub delete_key : SqliteStore → String → ℕ → Answered
unfolding caller_id_of delete_keys
delete_key s name key_id =
    found s (caller_id_of name s.callers)
      (λ id. delete_keys s (λ k. k.key_id == key_id && k.caller_id == id))

-- RevokeKey
unfoldable pub revoke_key : SqliteStore → String → String → Answered
unfolding caller_id_of delete_keys
revoke_key s name label =
    found s (caller_id_of name s.callers)
      (λ id. delete_keys s (λ k. k.caller_id == id && str_eq k.label label))

-- the loop over the default roles
unfoldable pub default_roles : ℕ → List String → List RoleRow → List RoleRow
unfolding insert_role
default_roles id [] rs = rs
default_roles id (role ∷ roles) rs = default_roles id roles (insert_role id role rs)

-- EnsureCaller, which has no error of its own
unfoldable pub ensure_caller : SqliteStore → String → List String → SqliteStore
unfolding caller_id_of default_roles
ensure_caller s name roles =
    if is_some (caller_id_of name s.callers) then s else record (with_caller s name) {
      caller_roles = default_roles s.next_caller roles s.caller_roles;
    }

-- CallerExists
unfoldable pub caller_exists : SqliteStore → String → Bool
unfolding caller_id_of
caller_exists s name = is_some (caller_id_of name s.callers)

-- KeyCountForCaller
unfoldable pub key_count : SqliteStore → String → ℕ
unfolding belongs
key_count s name = length (filter (λ k. belongs s.callers name k.caller_id) s.api_keys)
