-- ===== src/Rpc/Exact.antt =====
-- ParseMessage of internal/jsonrpc/jsonrpc.go as a whole: batches and single requests.
use stile.Prelude.{
  ◌≡◌, ◌≢◌, ◌↔◌, refl, sym, String, Option, none, some, List, [], ◌∷◌, Bool-cases, inl, inr, subst,
  if◌then◌else◌,
}
use stile.Rpc.{
  Request, Codec, Parsed, request, invalid, messages, parse_one_request, of_array, single, is_batch,
  parse_message,
}
use stile.Rpc.Valid.{
  parse_one_request-ReadsAs, ReadsAs-parse_one_request, AllReadAs, parse_all-AllReadAs,
  AllReadAs-parse_all,
}

module _ (c : Codec) where
  -- the texts of the requests in a message: the elements of an array, or the message itself
  unfoldable pub texts_of : String → Option (List String)
  texts_of text = if is_batch c text then c.unmarshal_array text else some (text ∷ [])

  abbrev Read : Option (List String) → List Request → Type 0
  Read o rs = (rs ≢ []) × (texts : List String) × (o ≡ some texts) × AllReadAs c texts rs

  some_read :
      (t : String) (ts : List String) (rs : List Request) → AllReadAs c (t ∷ ts) rs → rs ≢ []
  some_read t ts [] h = absurd h
  some_read t ts (r ∷ rs) h = λ e. cc

  non_empty :
      (texts : List String) (rs : List Request)
      → rs ≢ []
      → AllReadAs c texts rs
      → of_array c (some texts) ≡ messages rs
  unfolding of_array
  non_empty [] [] some_rs h = absurd (some_rs refl)
  non_empty [] (r ∷ rs) some_rs h = absurd h
  non_empty (t ∷ ts) rs some_rs h = AllReadAs-parse_all c (t ∷ ts) rs h

  of_array-Read :
      (o : Option (List String)) (rs : List Request) → of_array c o ≡ messages rs → Read o rs
  unfolding of_array
  of_array-Read none rs h = cc
  of_array-Read (some []) rs h = cc
  of_array-Read (some (t ∷ ts)) rs h =
      let all = parse_all-AllReadAs c (t ∷ ts) rs h in (some_read t ts rs all, t ∷ ts, refl, all)

  Read-of_array :
      (o : Option (List String)) (rs : List Request) → Read o rs → of_array c o ≡ messages rs
  Read-of_array o rs (some_rs, texts, e, all) =
      subst (λ p. of_array c p ≡ messages rs) (sym e) (non_empty texts rs some_rs all)

  single-Read :
      (text : String) (p : Parsed) (rs : List Request)
      → parse_one_request c text ≡ p
      → single c p ≡ messages rs
      → Read (some (text ∷ [])) rs
  unfolding single
  single-Read text (invalid e) rs one h = cc
  single-Read text (request r) rs one h =
      let same : r ∷ [] ≡ rs = cc in
      subst (Read (some (text ∷ []))) same
        ((λ e. cc), text ∷ [], refl, (parse_one_request-ReadsAs c text r one, tt))

  Read-single :
      (text : String) (rs : List Request)
      → AllReadAs c (text ∷ []) rs
      → single c (parse_one_request c text) ≡ messages rs
  unfolding single
  Read-single text [] h = absurd h
  Read-single text (r ∷ []) h = rw (ReadsAs-parse_one_request c text r h.0)
  Read-single text (r ∷ q ∷ rs) h = absurd h.1

  one-Read :
      (text : String) (rs : List Request)
      → Read (some (text ∷ [])) rs
      → single c (parse_one_request c text) ≡ messages rs
  one-Read text rs (some_rs, texts, e, all) =
      let same : texts ≡ text ∷ [] = cc in
      Read-single text rs (subst (λ ts. AllReadAs c ts rs) same all)

  -- A message is parsed into requests exactly where it is an object or, in a batch, an array that is
  -- not empty, of objects that have version "2.0", a method that is not empty and, where they have
  -- an id field, a valid id; the requests are then those objects, one by one.
  pub parse_message_exact :
      (text : String) (rs : List Request)
      → ((parse_message c text).0 ≡ messages rs) ↔ Read (texts_of text) rs
  unfolding parse_message texts_of
  parse_message_exact text rs = elim (Bool-cases (is_batch c text)) [
    | inl b ↦
        rw b (of_array-Read (c.unmarshal_array text) rs, Read-of_array (c.unmarshal_array text) rs)
    | inr n ↦
        rw n (single-Read text (parse_one_request c text) rs refl, λ read. one-Read text rs read)
  ]
