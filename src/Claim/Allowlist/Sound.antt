-- ===== src/Claim/Allowlist/Sound.antt =====
-- The requests that `is_allowed` of src/claim/net/allowlist.rs permits are of six exact forms.
use puzzle71_solver.Prelude.{
  ℕ, ◌≡◌, ◌⊎◌, inl, inr, ◌∙◌, refl, ap, ap₂, sym, subst, Bool, true, false, ◌&&◌, ◌||◌, not, ◌==◌,
  if◌then◌else◌, Bool-cases, arith, Option, Option-cases, none, some, List, [], ◌∷◌, ◌++◌,
  same_bytes, same_bytes-≡, has, ltb,
}
use puzzle71_solver.Claim.Allowlist.{
  Method, get, post_json, https, mempool, blockstream, slipstream, telegram, utxo_path, tx_path,
  hex_end, rates_path, status_path, submit_path, bot_path, send_end, strip_prefix, strip_suffix,
  split_before, is_64_lower_hex, is_bot_token, is_esplora_host, is_utxo_get, is_tx_hex_get,
  is_rates_get, is_status_get, is_slipstream_submit, is_telegram_send, passes, between_parts,
  is_permitted, check_host, check_rest, is_allowed, all_bytes, any_byte, is_forbidden, has_two_dots,
  between,
}

pub data IsEsplora (host : List ℕ) : Type 0 where
  at_mempool : host ≡ mempool → IsEsplora host
  at_blockstream : host ≡ blockstream → IsEsplora host

-- The permitted host and path of a request.
pub data IsRequest : Method → List ℕ → List ℕ → Type 0 where
  utxo : (host : List ℕ) → IsEsplora host → IsRequest get host utxo_path
  tx_hex :
      (host txid : List ℕ)
      → IsEsplora host
      → is_64_lower_hex txid ≡ true
      → IsRequest get host (tx_path ++ (txid ++ hex_end))
  rates : IsRequest get slipstream rates_path
  status :
      (txid : List ℕ) → is_64_lower_hex txid ≡ true → IsRequest get slipstream (status_path ++ txid)
  submit : IsRequest post_json slipstream submit_path
  send :
      (token : List ℕ)
      → is_bot_token token ≡ true
      → IsRequest post_json telegram (bot_path ++ (token ++ send_end))

pub record IsPermitted (method : Method) (url : List ℕ) : Type 0 where
  pub host : List ℕ
  pub path : List ℕ
  pub whole : url ≡ https ++ (host ++ path)
  pub request : IsRequest method host path

some_inj : {A : Type 0} {a b : A} → Path (Option A) (some a) (some b) → a ≡ b
some_inj {a} h = ap (λ o. elim o [ none ↦ a | some x ↦ x ]) h

if_some :
    {A : Type 0} {a : A} (c : Bool) (o : Option A)
    → (if c then o else none) ≡ some a
    → (c ≡ true) × (o ≡ some a)
if_some true o h = (refl, h)
if_some false o h = absurd (ground (arith, h))

after_byte :
    {rest : List ℕ} (b : ℕ) (o : Option (List ℕ))
    → (elim o [ none ↦ none | some r ↦ some (b ∷ r) ]) ≡ some rest
    → (r : List ℕ) × (o ≡ some r) × (b ∷ r ≡ rest)
after_byte b none h = absurd (ground (arith, h))
after_byte b (some r) h = (r, refl, some_inj h)

after_front :
    {parts : List ℕ × List ℕ} (b : ℕ) (o : Option (List ℕ × List ℕ))
    → (elim o [ none ↦ none | some (front, back) ↦ some (b ∷ front, back) ]) ≡ some parts
    → (x : List ℕ × List ℕ) × (o ≡ some x) × (b ∷ (x.0 ++ x.1) ≡ parts.0 ++ parts.1)
after_front b none h = absurd (ground (arith, h))
after_front b (some x) h = (x, refl, ap (λ p. p.0 ++ p.1) (some_inj h))

strip_prefix-≡ : (p s rest : List ℕ) → strip_prefix p s ≡ some rest → s ≡ p ++ rest
unfolding strip_prefix
strip_prefix-≡ [] s rest h = some_inj h
strip_prefix-≡ (p ∷ ps) [] rest h = absurd (ground (arith, h))
strip_prefix-≡ (p ∷ ps) (b ∷ bs) rest h =
    let (e, r) = if_some (p == b) (strip_prefix ps bs) h in
    ap₂ ◌∷◌ (ground (arith, e)) (strip_prefix-≡ ps bs rest r)

strip_suffix-≡ : (t s rest : List ℕ) → strip_suffix t s ≡ some rest → s ≡ rest ++ t
unfolding strip_suffix
strip_suffix-≡ t [] rest h =
    let (e, r) = if_some (same_bytes [] t) (some []) h in
    ap₂ ◌++◌ (some_inj r) (same_bytes-≡ [] t e)
strip_suffix-≡ t (b ∷ bs) rest h =
    let longer : Option (List ℕ) = elim (strip_suffix t bs) [
      | none ↦ none
      | some r ↦ some (b ∷ r)
    ] in
    let chosen : Bool → Type 0 = λ c. (if c then some [] else longer) ≡ some rest in
    elim (Bool-cases (same_bytes (b ∷ bs) t)) [
      | inl e ↦ same_bytes-≡ (b ∷ bs) t e ∙ ap (λ r. r ++ t) (some_inj (subst chosen e h))
      | inr e ↦
          let (r, found, same) = after_byte b (strip_suffix t bs) (subst chosen e h) in
          ap (λ l. b ∷ l) (strip_suffix-≡ t bs r found) ∙ ap (λ l. l ++ t) same
    ]

split_before-≡ :
    (c : ℕ) (s : List ℕ) (parts : List ℕ × List ℕ)
    → split_before c s ≡ some parts
    → s ≡ parts.0 ++ parts.1
unfolding split_before
split_before-≡ c [] parts h = absurd (ground (arith, h))
split_before-≡ c (b ∷ bs) parts h =
    let longer : Option (List ℕ × List ℕ) = elim (split_before c bs) [
      | none ↦ none
      | some (front, back) ↦ some (b ∷ front, back)
    ] in
    let chosen : Bool → Type 0 = λ t. (if t then some ([], b ∷ bs) else longer) ≡ some parts in
    elim (Bool-cases (b == c)) [
      | inl e ↦ ap (λ p. p.0 ++ p.1) (some_inj (subst chosen e h))
      | inr e ↦
          let (x, found, same) = after_front b (split_before c bs) (subst chosen e h) in
          ap (λ l. b ∷ l) (split_before-≡ c bs x found) ∙ same
    ]

both : (a b : Bool) → a && b ≡ true → (a ≡ true) × (b ≡ true)
both a b h = (ground arith, ground arith)

either : (a b : Bool) → a || b ≡ true → (a ≡ true) ⊎ (b ≡ true)
either true b h = inl refl
either false b h = inr h

one_of_four :
    (a b c d : Bool)
    → a || b || c || d ≡ true
    → ((a ≡ true) ⊎ (b ≡ true)) ⊎ ((c ≡ true) ⊎ (d ≡ true))
one_of_four true b c d h = inl (inl refl)
one_of_four false true c d h = inl (inr refl)
one_of_four false false true d h = inr (inl refl)
one_of_four false false false d h = inr (inr h)

last_of_four : (a b c d : Bool) → a && b && c && d ≡ true → d ≡ true
last_of_four a b c d h = ground arith

passes-some :
    (test : List ℕ → Bool) (o : Option (List ℕ))
    → passes test o ≡ true
    → (s : List ℕ) × (o ≡ some s) × (test s ≡ true)
passes-some test none h = absurd (ground (arith, h))
passes-some test (some s) h = (s, refl, h)

between_parts-≡ :
    (front back path s : List ℕ)
    → between_parts front back path ≡ some s
    → path ≡ front ++ (s ++ back)
between_parts-≡ front back path s h = elim (Option-cases (strip_prefix front path)) [
  | inl e ↦ absurd (ground (arith, e, h))
  | inr (rest, e) ↦
      let cut : strip_suffix back rest ≡ some s =
        subst (λ o. (elim o [ none ↦ none | some r ↦ strip_suffix back r ]) ≡ some s) e h in
      strip_prefix-≡ front path rest e ∙ ap (λ r. front ++ r) (strip_suffix-≡ back rest s cut)
]

IsEsplora-host : (host : List ℕ) → is_esplora_host host ≡ true → IsEsplora host
IsEsplora-host host h = elim (either (same_bytes host mempool) (same_bytes host blockstream) h) [
  | inl e ↦ at_mempool (same_bytes-≡ host mempool e)
  | inr e ↦ at_blockstream (same_bytes-≡ host blockstream e)
]

utxo-IsRequest : (host path : List ℕ) → is_utxo_get host path ≡ true → IsRequest get host path
utxo-IsRequest host path h =
    let (a, b) = both (is_esplora_host host) (same_bytes path utxo_path) h in
    subst (IsRequest get host) (sym (same_bytes-≡ path utxo_path b))
      (utxo host (IsEsplora-host host a))

tx_hex-IsRequest : (host path : List ℕ) → is_tx_hex_get host path ≡ true → IsRequest get host path
tx_hex-IsRequest host path h =
    let (a, b) = both (is_esplora_host host) _ h in
    let (txid, e, good) = passes-some is_64_lower_hex (between_parts tx_path hex_end path) b in
    subst (IsRequest get host) (sym (between_parts-≡ tx_path hex_end path txid e))
      (tx_hex host txid (IsEsplora-host host a) good)

rates-IsRequest : (host path : List ℕ) → is_rates_get host path ≡ true → IsRequest get host path
rates-IsRequest host path h =
    let (a, b) = both (same_bytes host slipstream) (same_bytes path rates_path) h in
    subst (λ x. IsRequest get x path) (sym (same_bytes-≡ host slipstream a))
      (subst (IsRequest get slipstream) (sym (same_bytes-≡ path rates_path b)) rates)

status-IsRequest : (host path : List ℕ) → is_status_get host path ≡ true → IsRequest get host path
status-IsRequest host path h =
    let (a, b) = both (same_bytes host slipstream) _ h in
    let (txid, e, good) = passes-some is_64_lower_hex (strip_prefix status_path path) b in
    subst (λ x. IsRequest get x path) (sym (same_bytes-≡ host slipstream a))
      (subst (IsRequest get slipstream) (sym (strip_prefix-≡ status_path path txid e))
        (status txid good))

submit-IsRequest :
    (host path : List ℕ) → is_slipstream_submit host path ≡ true → IsRequest post_json host path
submit-IsRequest host path h =
    let (a, b) = both (same_bytes host slipstream) (same_bytes path submit_path) h in
    subst (λ x. IsRequest post_json x path) (sym (same_bytes-≡ host slipstream a))
      (subst (IsRequest post_json slipstream) (sym (same_bytes-≡ path submit_path b)) submit)

send-IsRequest :
    (host path : List ℕ) → is_telegram_send host path ≡ true → IsRequest post_json host path
send-IsRequest host path h =
    let (a, b) = both (same_bytes host telegram) _ h in
    let (token, e, good) = passes-some is_bot_token (between_parts bot_path send_end path) b in
    subst (λ x. IsRequest post_json x path) (sym (same_bytes-≡ host telegram a))
      (subst (IsRequest post_json telegram) (sym (between_parts-≡ bot_path send_end path token e))
        (send token good))

is_permitted-IsRequest :
    (method : Method) (host path : List ℕ)
    → is_permitted method host path ≡ true
    → IsRequest method host path
is_permitted-IsRequest get host path h =
    elim (one_of_four (is_utxo_get host path) (is_tx_hex_get host path) (is_rates_get host path)
      (is_status_get host path) h) [
        | inl (inl e) ↦ utxo-IsRequest host path e
        | inl (inr e) ↦ tx_hex-IsRequest host path e
        | inr (inl e) ↦ rates-IsRequest host path e
        | inr (inr e) ↦ status-IsRequest host path e
      ]
is_permitted-IsRequest post_json host path h =
    elim (either (is_slipstream_submit host path) (is_telegram_send host path) h) [
      | inl e ↦ submit-IsRequest host path e
      | inr e ↦ send-IsRequest host path e
    ]

check_host-some :
    (method : Method) (o : Option (List ℕ × List ℕ))
    → check_host method o ≡ true
    → (parts : List ℕ × List ℕ) × (o ≡ some parts) × (is_permitted method parts.0 parts.1 ≡ true)
check_host-some method none h = absurd (ground (arith, h))
check_host-some method (some (host, path)) h = (
  (host, path),
  refl,
  last_of_four (not (has 64 host)) (not (has 58 host)) (not (any_byte (between 65 90) host))
      (is_permitted method host path) h,
)

check_rest-some :
    (method : Method) (o : Option (List ℕ))
    → check_rest method o ≡ true
    → (rest : List ℕ) × (o ≡ some rest) × (check_host method (split_before 47 rest) ≡ true)
check_rest-some method none h = absurd (ground (arith, h))
check_rest-some method (some rest) h = (rest, refl, h)

-- Every URL that `is_allowed` permits is `https://`, a host and a path of one of six exact forms for the
-- method: the utxos or a transaction at one of the two Esplora hosts, the rates, the status or the submission
-- at Slipstream, and a message of a bot at Telegram.
pub is_allowed-IsPermitted :
    (method : Method) (url : List ℕ) → is_allowed method url ≡ true → IsPermitted method url
unfolding is_allowed
is_allowed-IsPermitted method url h =
    let last =
      last_of_four (all_bytes (λ b. ltb b 128) url) (not (any_byte is_forbidden url))
        (not (has_two_dots url)) (check_rest method (strip_prefix https url)) h in
    let (rest, stripped, h4) = check_rest-some method (strip_prefix https url) last in
    let (parts, split, permitted) = check_host-some method (split_before 47 rest) h4 in
    record {
      host = parts.0;
      path = parts.1;
      whole =
          strip_prefix-≡ https url rest stripped
          ∙ ap (λ r. https ++ r) (split_before-≡ 47 rest parts split);
      request = is_permitted-IsRequest method parts.0 parts.1 permitted;
    }
