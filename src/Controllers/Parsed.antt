-- ===== src/Controllers/Parsed.antt =====
-- What the parser of transactions accepts: the fields of an accepted request, and their bounds.
use concurrent_banking_syste.Prelude.{
  ◌≡◌, refl, sym, ap, ◌∙◌, ◌-◌, ◌^◌, Option, none, some, String, Option-cases, inl, inr, ◌↔◌,
}
use concurrent_banking_syste.Prelude.Int.{ℤ, pos, negsuc, ◌≤ℤ◌}
use concurrent_banking_syste.Json.{Json, ◌>>=◌}
use concurrent_banking_syste.Requests.{Connection, TransactionRequest}
use concurrent_banking_syste.Controllers.Fields.{
  Field, IntField, TextField, required-Field, Field-required, amount-Field, Field-amount,
  optional_int-IntField, IntField-optional_int, text_or_empty-TextField, TextField-text_or_empty,
}
use concurrent_banking_syste.Controllers.{
  required, optional_int, text_or_empty, as_amount, transaction_parser,
}

-- Six options, one after the other, that lead to a value.
six :
    {A B C D E F R : Type 0} (a : Option A) (b : Option B) (c : Option C) (d : Option D)
    (e : Option E) (f : Option F) (build : A → B → C → D → E → F → R) {r : R}
    → (a >>= λ x. b >>= λ y. c >>= λ z. d >>= λ u. e >>= λ v. f >>= λ w. some (build x y z u v w))
      ≡ some r
    → (x : A) × (y : B) × (z : C) × (u : D) × (v : E) × (w : F) × (a ≡ some x)
      × (b ≡ some y)
      × (c ≡ some z)
      × (d ≡ some u)
      × (e ≡ some v)
      × (f ≡ some w)
      × (build x y z u v w ≡ r)
six none b c d e f build h = absurd (cc)
six (some x) none c d e f build h = absurd (cc)
six (some x) (some y) none d e f build h = absurd (cc)
six (some x) (some y) (some z) none e f build h = absurd (cc)
six (some x) (some y) (some z) (some u) none f build h = absurd (cc)
six (some x) (some y) (some z) (some u) (some v) none build h = absurd (cc)
six (some x) (some y) (some z) (some u) (some v) (some w) build h =
    (x, y, z, u, v, w, refl, refl, refl, refl, refl, refl, cc)

module _ (json : Json) where
  open json use {Value, parse, member, is_null, as_int, as_int64, as_string, int_law, int64_law}

  -- The message is an object in which the fields of the request stand.
  pub record Carries (message : String) (t : TransactionRequest) : Type 0 where
    pub value : Value
    pub parsed : parse message ≡ some value
    pub account_id : Field json as_int (member value "account_id") t.account_id
    pub type : Field json as_string (member value "transaction_type") t.transaction_type
    pub amount : Field json as_int64 (member value "transaction_amount") t.transaction_amount
    pub remarks : TextField json (member value "remarks") t.remarks
    pub to_account : IntField json (member value "to_account") t.to_account
    pub from_account : IntField json (member value "from_account") t.from_account

  abbrev build : Connection → ℤ → String → ℤ → String → Option ℤ → Option ℤ → TransactionRequest
  build conn account_id transaction_type transaction_amount remarks to_account from_account =
      record {
        account_id = account_id;
        transaction_type = transaction_type;
        to_account = to_account;
        from_account = from_account;
        transaction_amount = transaction_amount;
        remarks = remarks;
        connection = conn;
      }

  transaction_parser-value :
      (message : String) (conn : Connection) (t : TransactionRequest) (v : Value)
      → parse message ≡ some v
      → transaction_parser json message conn ≡ some t
      → Carries message t × (t.connection ≡ conn)
  unfolding transaction_parser
  transaction_parser-value message conn t v parsed h =
      let (x, y, z, u, p, q, e1, e2, e3, e4, e5, e6, e) =
        six (required json as_int v "account_id") (required json as_string v "transaction_type")
          (required json (as_amount json) v "transaction_amount") (text_or_empty json v "remarks")
          (optional_int json v "to_account") (optional_int json v "from_account") (build conn)
          (rw parsed at h) in
      (
        record {
          value = v;
          parsed = parsed;
          account_id = required-Field json as_int v _ (e1 ∙ ap (λ r. some r.account_id) e);
          type = required-Field json as_string v _ (e2 ∙ ap (λ r. some r.transaction_type) e);
          amount = amount-Field json v _ (e3 ∙ ap (λ r. some r.transaction_amount) e);
          remarks = text_or_empty-TextField json v _ (e4 ∙ ap (λ r. some r.remarks) e);
          to_account = optional_int-IntField json v _ (e5 ∙ ap (λ r. some r.to_account) e);
          from_account = optional_int-IntField json v _ (e6 ∙ ap (λ r. some r.from_account) e);
        },
        sym (ap (λ r. r.connection) e),
      )

  transaction_parser-Carries :
      (message : String) (conn : Connection) (t : TransactionRequest)
      → transaction_parser json message conn ≡ some t
      → Carries message t × (t.connection ≡ conn)
  unfolding transaction_parser
  transaction_parser-Carries message conn t h = elim (Option-cases (parse message)) [
    | inl e ↦ absurd (cc (rw e at h))
    | inr (v, e) ↦ transaction_parser-value message conn t v e h
  ]

  Carries-transaction_parser :
      (message : String) (conn : Connection) (t : TransactionRequest)
      → Carries message t
      → transaction_parser json message conn ≡ some (record t { connection = conn })
  unfolding transaction_parser
  Carries-transaction_parser message conn t c = rw (
    c.parsed,
    Field-required json as_int c.value "account_id" c.account_id,
    Field-required json as_string c.value "transaction_type" c.type,
    Field-amount json c.value "transaction_amount" c.amount,
    TextField-text_or_empty json c.value "remarks" c.remarks,
    IntField-optional_int json c.value "to_account" c.to_account,
    IntField-optional_int json c.value "from_account" c.from_account,
  )

  -- The parser of transactions accepts a message as a request exactly where the message is an
  -- object with an `int` account_id, a string transaction_type and an `int64` transaction_amount of
  -- the request; a to_account and a from_account that are each the `int` of the request, or null or
  -- missing where the request has none; and remarks that are the string of the request, or of
  -- another kind or missing where those of the request are empty; and where the connection is the
  -- one that the message came on.
  pub transaction_parser_iff :
      (message : String) (conn : Connection) (t : TransactionRequest)
      → (transaction_parser json message conn ≡ some t)
        ↔ (Carries message t × (t.connection ≡ conn))
  transaction_parser_iff message conn t = (
    transaction_parser-Carries message conn t,
    λ c.
        Carries-transaction_parser message conn t c.0
        ∙ ap (λ k. some (record t { connection = k })) (sym c.1),
  )

  -- A request that the parser of transactions accepts has an account in the range of `int` and an
  -- amount in the range of `int64_t`.
  pub transaction_parser-bounds :
      (message : String) (conn : Connection) (t : TransactionRequest)
      → transaction_parser json message conn ≡ some t
      → (negsuc (2 ^ 31 - 1) ≤ℤ t.account_id)
        × (t.account_id ≤ℤ pos (2 ^ 31 - 1))
        × (negsuc (2 ^ 63 - 1) ≤ℤ t.transaction_amount)
        × (t.transaction_amount ≤ℤ pos (2 ^ 63 - 1))
  transaction_parser-bounds message conn t h =
      let c = (transaction_parser-Carries message conn t h).0 in
      let id = int_law c.account_id.value c.account_id.is_kind in
      let amount = int64_law c.amount.value c.amount.is_kind in (id.0, id.1, amount.0, amount.1)
