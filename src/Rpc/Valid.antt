-- ===== src/Rpc/Valid.antt =====
-- What ParseMessage of internal/jsonrpc/jsonrpc.go returns, against a description of requests.
use stile.Prelude.{
  ◌≡◌, ◌≢◌, refl, ap, ◌∙◌, sym, inl, inr, String, false, Option, none, some, List, [], ◌∷◌, arith,
  str_eq, eq_iff, Bool-cases, subst,
}
use stile.Prelude.Dict
use stile.Prelude.Dict.{Dict}
use stile.Rpc.{
  RequestId, Request, Codec, version, Parsed, request, invalid, Messages, messages, unparsed,
  parse_id, set_id, with_id, with_method, method_field, with_version, version_field, with_object,
  parse_one_request, and_then, parse_all,
}

request_value : (r s : Request) → request r ≡ request s → r ≡ s
request_value r s h = cc

pub ne-str_eq : (s t : String) → s ≢ t → str_eq s t ≡ false
ne-str_eq s t h = elim (Bool-cases (str_eq s t)) [
  | inl e ↦ absurd (h ((eq_iff s t).0 e))
  | inr f ↦ f
]

module _ (c : Codec) where
  -- an absent id field is no id, and one that is there is an id
  abbrev IdReads : Option String → Option RequestId → Type 0
  IdReads none o = o ≡ none
  IdReads (some text) o = (i : RequestId) × (parse_id c text ≡ some i) × (o ≡ some i)

  -- the fields of `raw` are those of the request `r`
  pub record FieldsRead (raw : Dict String) (r : Request) : Type 0 where
    pub version_text : String
    pub version_held : Dict.get raw "jsonrpc" ≡ some version_text
    pub version_read : c.unmarshal_string version_text ≡ some version
    pub method_text : String
    pub method_held : Dict.get raw "method" ≡ some method_text
    pub method_read : c.unmarshal_string method_text ≡ some r.method
    pub method_named : r.method ≢ ""
    pub same_version : r.jsonrpc ≡ version
    pub same_params : r.params ≡ Dict.get raw "params"
    pub id_read : IdReads (Dict.get raw "id") r.id

  -- the text is an object with these fields
  abbrev pub ReadsAs : String → Request → Type 0
  ReadsAs text r = (raw : Dict String) × (c.unmarshal_object text ≡ some raw) × FieldsRead raw r

  record IdAdded (r : Request) (o : Option String) (s : Request) : Type 0 where
    kept_version : s.jsonrpc ≡ r.jsonrpc
    kept_method : s.method ≡ r.method
    kept_params : s.params ≡ r.params
    id_read : IdReads o s.id

  set_id-IdAdded :
      (r : Request) (text : String) (o : Option RequestId) (s : Request)
      → parse_id c text ≡ o
      → set_id c r o ≡ request s
      → IdAdded r (some text) s
  unfolding set_id
  set_id-IdAdded r text none s good h = cc
  set_id-IdAdded r text (some i) s good h =
      let added : IdAdded r (some text) (record r { id = some i }) = record {
        kept_version = refl;
        kept_method = refl;
        kept_params = refl;
        id_read = (i, good, refl);
      } in
      subst (IdAdded r (some text)) (request_value (record r { id = some i }) s h) added

  with_id-IdAdded :
      (r : Request) (o : Option String) (s : Request)
      → r.id ≡ none
      → with_id c r o ≡ request s
      → IdAdded r o s
  unfolding with_id
  with_id-IdAdded r none s absent h =
      let added : IdAdded r none r = record {
        kept_version = refl;
        kept_method = refl;
        kept_params = refl;
        id_read = absent;
      } in
      subst (IdAdded r none) (request_value r s h) added
  with_id-IdAdded r (some text) s absent h = set_id-IdAdded r text (parse_id c text) s refl h

  abbrev bare : Dict String → String → Request
  bare raw method = record {
    jsonrpc = version;
    method = method;
    params = Dict.get raw "params";
    id = none;
  }

  record MethodRead (raw : Dict String) (r : Request) : Type 0 where
    text : String
    held : Dict.get raw "method" ≡ some text
    read : c.unmarshal_string text ≡ some r.method
    is_named : r.method ≢ ""
    same_version : r.jsonrpc ≡ version
    same_params : r.params ≡ Dict.get raw "params"
    id_read : IdReads (Dict.get raw "id") r.id

  with_method-MethodRead :
      (raw : Dict String) (text : String) (o : Option String) (r : Request)
      → Dict.get raw "method" ≡ some text
      → c.unmarshal_string text ≡ o
      → with_method c raw o ≡ request r
      → MethodRead raw r
  unfolding with_method
  with_method-MethodRead raw text none r held good h = cc
  with_method-MethodRead raw text (some method) r held good h =
      elim (Bool-cases (str_eq method "")) [
        | inl t ↦ absurd (ground arith)
        | inr f ↦
            let added = with_id-IdAdded (bare raw method) (Dict.get raw "id") r refl (rw f at h) in
            record {
              text = text;
              held = held;
              read = subst (λ m. c.unmarshal_string text ≡ some m) (sym added.kept_method) good;
              is_named = λ e. ground (arith, eq_iff method "", added.kept_method);
              same_version = added.kept_version;
              same_params = added.kept_params;
              id_read = added.id_read;
            }
      ]

  method_field-MethodRead :
      (raw : Dict String) (o : Option String) (r : Request)
      → Dict.get raw "method" ≡ o
      → method_field c raw o ≡ request r
      → MethodRead raw r
  unfolding method_field
  method_field-MethodRead raw none r held h = cc
  method_field-MethodRead raw (some text) r held h =
      with_method-MethodRead raw text (c.unmarshal_string text) r held refl h

  with_version-FieldsRead :
      (raw : Dict String) (text : String) (o : Option String) (r : Request)
      → Dict.get raw "jsonrpc" ≡ some text
      → c.unmarshal_string text ≡ o
      → with_version c raw o ≡ request r
      → FieldsRead raw r
  unfolding with_version
  with_version-FieldsRead raw text none r held good h = cc
  with_version-FieldsRead raw text (some v) r held good h = elim (Bool-cases (str_eq v version)) [
    | inl t ↦
        let m = method_field-MethodRead raw (Dict.get raw "method") r refl (rw t at h) in
        record {
          version_text = text;
          version_held = held;
          version_read =
              subst (λ u. c.unmarshal_string text ≡ some u) ((eq_iff v version).0 t) good;
          method_text = m.text;
          method_held = m.held;
          method_read = m.read;
          method_named = m.is_named;
          same_version = m.same_version;
          same_params = m.same_params;
          id_read = m.id_read;
        }
    | inr f ↦ absurd (ground arith)
  ]

  version_field-FieldsRead :
      (raw : Dict String) (o : Option String) (r : Request)
      → Dict.get raw "jsonrpc" ≡ o
      → version_field c raw o ≡ request r
      → FieldsRead raw r
  unfolding version_field
  version_field-FieldsRead raw none r held h = cc
  version_field-FieldsRead raw (some text) r held h =
      with_version-FieldsRead raw text (c.unmarshal_string text) r held refl h

  with_object-ReadsAs :
      (text : String) (o : Option (Dict String)) (r : Request)
      → c.unmarshal_object text ≡ o
      → with_object c o ≡ request r
      → ReadsAs text r
  unfolding with_object
  with_object-ReadsAs text none r good h = cc
  with_object-ReadsAs text (some raw) r good h =
      (raw, good, version_field-FieldsRead raw (Dict.get raw "jsonrpc") r refl h)

  pub parse_one_request-ReadsAs :
      (text : String) (r : Request) → parse_one_request c text ≡ request r → ReadsAs text r
  unfolding parse_one_request
  parse_one_request-ReadsAs text r h = with_object-ReadsAs text (c.unmarshal_object text) r refl h

  set_id-read :
      (raw : Dict String) (r : Request) (o : Option RequestId)
      → r.jsonrpc ≡ version
      → r.params ≡ Dict.get raw "params"
      → (i : RequestId) × (o ≡ some i) × (r.id ≡ some i)
      → set_id c (bare raw r.method) o ≡ request r
  unfolding set_id
  set_id-read raw r o v p (i, good, same) = rw good (ground arith)

  with_id-read :
      (raw : Dict String) (r : Request) (o : Option String)
      → r.jsonrpc ≡ version
      → r.params ≡ Dict.get raw "params"
      → IdReads o r.id
      → with_id c (bare raw r.method) o ≡ request r
  unfolding with_id
  with_id-read raw r none v p absent = ground arith
  with_id-read raw r (some text) v p read = set_id-read raw r (parse_id c text) v p read

  with_method-read :
      (raw : Dict String) (r : Request)
      → FieldsRead raw r
      → with_method c raw (some r.method) ≡ request r
  unfolding with_method
  with_method-read raw r f =
      let named : str_eq r.method "" ≡ false = ne-str_eq r.method "" f.method_named in
      rw named (with_id-read raw r (Dict.get raw "id") f.same_version f.same_params f.id_read)

  pub ReadsAs-parse_one_request :
      (text : String) (r : Request) → ReadsAs text r → parse_one_request c text ≡ request r
  unfolding parse_one_request with_object version_field with_version method_field
  ReadsAs-parse_one_request text r (raw, object, f) =
      ap (with_object c) object
      ∙ ap (version_field c raw) f.version_held
      ∙ ap (with_version c raw) f.version_read
      ∙ ap (method_field c raw) f.method_held
      ∙ ap (with_method c raw) f.method_read
      ∙ with_method-read raw r f

  -- the texts are the requests, one by one
  abbrev pub AllReadAs : List String → List Request → Type 0
  AllReadAs [] [] = Unit
  AllReadAs (t ∷ ts) (r ∷ rs) = ReadsAs t r × AllReadAs ts rs
  AllReadAs [] (r ∷ rs) = ⊥
  AllReadAs (t ∷ ts) [] = ⊥

  and_then-messages :
      (p : Parsed) (rest : Messages) (rs : List Request)
      → and_then c p rest ≡ messages rs
      → (r : Request) × (more : List Request) × (p ≡ request r)
        × (rest ≡ messages more)
        × (rs ≡ r ∷ more)
  unfolding and_then
  and_then-messages (invalid e) rest rs h = cc
  and_then-messages (request r) (unparsed e) rs h = cc
  and_then-messages (request r) (messages more) rs h = (r, more, refl, refl, cc)

  pub parse_all-AllReadAs :
      (texts : List String) (rs : List Request)
      → parse_all c texts ≡ messages rs
      → AllReadAs texts rs
  unfolding parse_all
  parse_all-AllReadAs [] [] h = tt
  parse_all-AllReadAs [] (r ∷ rs) h = cc
  parse_all-AllReadAs (t ∷ ts) rs h =
      let (r, more, one, all, same) =
        and_then-messages (parse_one_request c t) (parse_all c ts) rs h in
      subst (AllReadAs (t ∷ ts)) (sym same)
        (parse_one_request-ReadsAs t r one, parse_all-AllReadAs ts more all)

  pub AllReadAs-parse_all :
      (texts : List String) (rs : List Request)
      → AllReadAs texts rs
      → parse_all c texts ≡ messages rs
  unfolding parse_all and_then
  AllReadAs-parse_all [] [] h = refl
  AllReadAs-parse_all [] (r ∷ rs) h = absurd h
  AllReadAs-parse_all (t ∷ ts) [] h = absurd h
  AllReadAs-parse_all (t ∷ ts) (r ∷ rs) (one, all) =
      rw (ReadsAs-parse_one_request t r one, AllReadAs-parse_all ts rs all)
