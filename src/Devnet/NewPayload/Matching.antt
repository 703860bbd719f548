-- ===== src/Devnet/NewPayload/Matching.antt =====
-- eth2077-devnetd.rs: the comparison of a payload with the details of the required list.
use mathlib.Core.List.{Memᴰ}
use eth.Prelude.{
  ℕ, ◌≡◌, refl, sym, ap, ◌∙◌, true, false, ◌==◌, ==_iff, Option, none, some, List, [], ◌∷◌, ◌++◌,
  map, arith, Bool-cases, inl, inr,
}
use eth.Prelude.Maps
use eth.Prelude.Maps.{nat_eq, get-insert}
use eth.P2p.Gossip.{contains}
use eth.Devnet.Payloads.{EngineTxMeta}
use eth.Devnet.Timeliness.{is_empty}
use eth.Devnet.InclusionList.{tx_hash, meta_of}
use eth.Devnet.NewPayload.{
  MetaField, check_field, check_meta, check_known, check_required, missing_from,
}

-- Where the list fixes a field, the payload has that value.
abbrev pub FieldAgrees : Option ℕ → Option ℕ → Type 0
FieldAgrees required got = (v : ℕ) → required ≡ some v → got ≡ some v

pub record Agrees (required payload : EngineTxMeta) : Type 0 where
  pub from : FieldAgrees required.from payload.from
  pub nonce : FieldAgrees required.nonce payload.nonce
  pub gas_limit : FieldAgrees required.gas_limit payload.gas_limit
  pub gas_price : FieldAgrees required.gas_price payload.gas_price
  pub value : FieldAgrees required.value payload.value

pub append_nil : {A : Type 0} (xs ys : List A) → xs ++ ys ≡ [] → (xs ≡ []) × (ys ≡ [])
append_nil [] ys e = (refl, e)
append_nil (x ∷ xs) ys e = cc e

check_field-FieldAgrees :
    (h : ℕ) (f : MetaField) (required got : Option ℕ)
    → check_field h f required got ≡ []
    → FieldAgrees required got
unfolding check_field
check_field-FieldAgrees h f none got e v r = cc r
check_field-FieldAgrees h f (some x) none e v r = cc e
check_field-FieldAgrees h f (some x) (some y) e v r = ground (arith, e, r)

check_meta-Agrees :
    (h : ℕ) (required payload : EngineTxMeta)
    → check_meta h required payload ≡ []
    → Agrees required payload
unfolding check_meta
check_meta-Agrees h required payload e =
    let (a, e1) = append_nil _ _ e in
    let (b, e2) = append_nil _ _ e1 in
    let (c, e3) = append_nil _ _ e2 in
    let (d, f) = append_nil _ _ e3 in
    record {
      from = check_field-FieldAgrees h _ required.from payload.from a;
      nonce = check_field-FieldAgrees h _ required.nonce payload.nonce b;
      gas_limit = check_field-FieldAgrees h _ required.gas_limit payload.gas_limit c;
      gas_price = check_field-FieldAgrees h _ required.gas_price payload.gas_price d;
      value = check_field-FieldAgrees h _ required.value payload.value f;
    }

-- A hash that the entries have is found, as one of them.
meta_other :
    (h : ℕ) (m : List (ℕ × EngineTxMeta)) (entries : List EngineTxMeta)
    → contains h (map tx_hash entries) ≡ false
    → Maps.get h (meta_of m entries) ≡ Maps.get h m
unfolding meta_of
meta_other h m [] e = refl
meta_other h m (x ∷ entries) e =
    meta_other h (Maps.insert x.hash x m) entries (ground (arith, e))
    ∙ ground (arith, get-insert x.hash h x m, e)

pub meta_found :
    (h : ℕ) (m : List (ℕ × EngineTxMeta)) (entries : List EngineTxMeta)
    → contains h (map tx_hash entries) ≡ true
    → (entry : EngineTxMeta) × (Maps.get h (meta_of m entries) ≡ some entry)
      × Memᴰ entry entries
      × (entry.hash ≡ h)
unfolding meta_of
meta_found h m [] e = cc e
meta_found h m (x ∷ entries) e = elim (Bool-cases (contains h (map tx_hash entries))) [
  | inl later ↦
      let (entry, at, mem, same) = meta_found h (Maps.insert x.hash x m) entries later in
      (entry, at, Memᴰ.tail mem, same)
  | inr last ↦
      let this : (x.hash == h) ≡ true = ground (arith, e, last) in
      (
        x,
        meta_other h (Maps.insert x.hash x m) entries last
            ∙ ground (arith, get-insert x.hash h x m, this),
        Memᴰ.head refl,
        (==_iff x.hash h).0 this,
      )
]

-- What the comparisons of all listed hashes find for one of them.
pub check_required-Agrees :
    (h : ℕ) (meta payload : List (ℕ × EngineTxMeta)) (hashes : List ℕ)
    (required entry : EngineTxMeta)
    → check_required meta payload hashes ≡ []
    → contains h hashes ≡ true
    → Maps.get h meta ≡ some required
    → Maps.get h payload ≡ some entry
    → Agrees required entry
unfolding check_required
check_required-Agrees h meta payload [] required entry e c at found = cc c
check_required-Agrees h meta payload (x ∷ hashes) required entry e c at found =
    let (here, later) = append_nil _ _ e in
    elim (Bool-cases (x == h)) [
      | inl this ↦
          let same : x ≡ h = (==_iff x h).0 this in
          check_meta-Agrees x required entry (
            sym (
              ap (λ y. check_known x (Maps.get y meta) (Maps.get y payload)) same
              ∙ rw (at, found) refl)
            ∙ here)
      | inr other ↦
          check_required-Agrees h meta payload hashes required entry later
            (ground (arith, c, other)) at found
    ]

pub missing_none :
    (required : List ℕ) (entries : List EngineTxMeta)
    → is_empty (missing_from required entries) ≡ true
    → (h : ℕ) → contains h required ≡ true
    → contains h (map tx_hash entries) ≡ true
unfolding missing_from
missing_none [] entries e h c = cc c
missing_none (x ∷ required) entries e h c = elim (Bool-cases (contains x (map tx_hash entries))) [
  | inl there ↦
      let rest : is_empty (missing_from required entries) ≡ true = ground (arith, there, e) in
      elim (Bool-cases (x == h)) [
        | inl this ↦ ap (λ y. contains y (map tx_hash entries)) (sym ((==_iff x h).0 this)) ∙ there
        | inr other ↦ missing_none required entries rest h (ground (arith, c, other))
      ]
  | inr gone ↦ absurd (ground (arith, gone, e))
]
