-- ===== src/Claim/Allowlist.antt =====
-- src/claim/net/allowlist.rs: the requests that the claim may make. A string is the list of its bytes.
pub mod Sound
use puzzle71_solver.Prelude.{
  ℕ, ◌≡◌, Bool, true, false, ◌&&◌, ◌||◌, not, ltb, leb, ◌==◌, if◌then◌else◌, Option, none, some,
  List, [], ◌∷◌, ◌++◌, length, same_bytes, has,
}

pub data Method : Type 0 where
  get post_json : Method

-- https://
abbrev pub https : List ℕ
https = 104 ∷ 116 ∷ 116 ∷ 112 ∷ 115 ∷ 58 ∷ 47 ∷ 47 ∷ []

-- mempool.space
abbrev pub mempool : List ℕ
mempool = 109 ∷ 101 ∷ 109 ∷ 112 ∷ 111 ∷ 111 ∷ 108 ∷ 46 ∷ 115 ∷ 112 ∷ 97 ∷ 99 ∷ 101 ∷ []

-- blockstream.info
abbrev pub blockstream : List ℕ
blockstream =
    98 ∷ 108 ∷ 111 ∷ 99 ∷ 107 ∷ 115 ∷ 116 ∷ 114 ∷ 101 ∷ 97 ∷ 109 ∷ 46 ∷ 105 ∷ 110 ∷ 102 ∷ 111 ∷ []

-- slipstream.mara.com
abbrev pub slipstream : List ℕ
slipstream =
    115 ∷ 108 ∷ 105 ∷ 112 ∷ 115 ∷ 116 ∷ 114 ∷ 101 ∷ 97 ∷ 109 ∷ 46 ∷ 109 ∷ 97 ∷ 114 ∷ 97 ∷ 46 ∷ 99
    ∷ 111 ∷ 109 ∷ []

-- api.telegram.org
abbrev pub telegram : List ℕ
telegram =
    97 ∷ 112 ∷ 105 ∷ 46 ∷ 116 ∷ 101 ∷ 108 ∷ 101 ∷ 103 ∷ 114 ∷ 97 ∷ 109 ∷ 46 ∷ 111 ∷ 114 ∷ 103 ∷ []

-- /api/address/1PWo3JeB9jrGwfHDNpdGK54CRas7fsVzXU/utxo
abbrev pub utxo_path : List ℕ
utxo_path =
    47 ∷ 97 ∷ 112 ∷ 105 ∷ 47 ∷ 97 ∷ 100 ∷ 100 ∷ 114 ∷ 101 ∷ 115 ∷ 115 ∷ 47 ∷ 49 ∷ 80 ∷ 87 ∷ 111 ∷ 51
    ∷ 74 ∷ 101 ∷ 66 ∷ 57 ∷ 106 ∷ 114 ∷ 71 ∷ 119 ∷ 102 ∷ 72 ∷ 68 ∷ 78 ∷ 112 ∷ 100 ∷ 71 ∷ 75 ∷ 53 ∷ 52
    ∷ 67 ∷ 82 ∷ 97 ∷ 115 ∷ 55 ∷ 102 ∷ 115 ∷ 86 ∷ 122 ∷ 88 ∷ 85 ∷ 47 ∷ 117 ∷ 116 ∷ 120 ∷ 111 ∷ []

-- /api/tx/
abbrev pub tx_path : List ℕ
tx_path = 47 ∷ 97 ∷ 112 ∷ 105 ∷ 47 ∷ 116 ∷ 120 ∷ 47 ∷ []

-- /hex
abbrev pub hex_end : List ℕ
hex_end = 47 ∷ 104 ∷ 101 ∷ 120 ∷ []

-- /api/rates
abbrev pub rates_path : List ℕ
rates_path = 47 ∷ 97 ∷ 112 ∷ 105 ∷ 47 ∷ 114 ∷ 97 ∷ 116 ∷ 101 ∷ 115 ∷ []

-- /api/transactions/status?tx_id=
abbrev pub status_path : List ℕ
status_path =
    47 ∷ 97 ∷ 112 ∷ 105 ∷ 47 ∷ 116 ∷ 114 ∷ 97 ∷ 110 ∷ 115 ∷ 97 ∷ 99 ∷ 116 ∷ 105 ∷ 111 ∷ 110 ∷ 115
    ∷ 47 ∷ 115 ∷ 116 ∷ 97 ∷ 116 ∷ 117 ∷ 115 ∷ 63 ∷ 116 ∷ 120 ∷ 95 ∷ 105 ∷ 100 ∷ 61 ∷ []

-- /api/transactions
abbrev pub submit_path : List ℕ
submit_path =
    47 ∷ 97 ∷ 112 ∷ 105 ∷ 47 ∷ 116 ∷ 114 ∷ 97 ∷ 110 ∷ 115 ∷ 97 ∷ 99 ∷ 116 ∷ 105 ∷ 111 ∷ 110 ∷ 115
    ∷ []

-- /bot
abbrev pub bot_path : List ℕ
bot_path = 47 ∷ 98 ∷ 111 ∷ 116 ∷ []

-- /sendMessage
abbrev pub send_end : List ℕ
send_end = 47 ∷ 115 ∷ 101 ∷ 110 ∷ 100 ∷ 77 ∷ 101 ∷ 115 ∷ 115 ∷ 97 ∷ 103 ∷ 101 ∷ []

abbrev pub all_bytes : (ℕ → Bool) → List ℕ → Bool
all_bytes test [] = true
all_bytes test (b ∷ bs) = test b && all_bytes test bs

abbrev pub any_byte : (ℕ → Bool) → List ℕ → Bool
any_byte test [] = false
any_byte test (b ∷ bs) = test b || any_byte test bs

abbrev pub between : ℕ → ℕ → ℕ → Bool
between low high b = leb low b && leb b high

abbrev pub is_forbidden : ℕ → Bool
is_forbidden b =
    (b == 123)
    || (b == 125)
    || (b == 91)
    || (b == 93)
    || (b == 37)
    || (b == 35)
    || leb b 31
    || (b == 127)

abbrev pub starts_dot : List ℕ → Bool
starts_dot [] = false
starts_dot (b ∷ bs) = b == 46

abbrev pub has_two_dots : List ℕ → Bool
has_two_dots [] = false
has_two_dots (b ∷ bs) = ((b == 46) && starts_dot bs) || has_two_dots bs

unfoldable pub strip_prefix : List ℕ → List ℕ → Option (List ℕ)
strip_prefix [] s = some s
strip_prefix (p ∷ ps) [] = none
strip_prefix (p ∷ ps) (b ∷ bs) = let rest = strip_prefix ps bs in if p == b then rest else none

unfoldable pub strip_suffix : List ℕ → List ℕ → Option (List ℕ)
strip_suffix t [] = if same_bytes [] t then some [] else none
strip_suffix t (b ∷ bs) =
    let rest = strip_suffix t bs in
    if same_bytes (b ∷ bs) t then some [] else elim rest [ none ↦ none | some r ↦ some (b ∷ r) ]

-- What stands before the first byte that equals this one, and what stands from it on.
unfoldable pub split_before : ℕ → List ℕ → Option (List ℕ × List ℕ)
split_before c [] = none
split_before c (b ∷ bs) =
    let rest = split_before c bs in
    if b == c
    then some ([], b ∷ bs)
    else elim rest [ none ↦ none | some (front, back) ↦ some (b ∷ front, back) ]

abbrev pub is_lower_hex : ℕ → Bool
is_lower_hex b = between 48 57 b || between 97 102 b

abbrev pub is_digit : ℕ → Bool
is_digit b = between 48 57 b

abbrev pub is_token_byte : ℕ → Bool
is_token_byte b = is_digit b || between 65 90 b || between 97 122 b || (b == 95) || (b == 45)

unfoldable pub is_64_lower_hex : List ℕ → Bool
is_64_lower_hex s = (length s == 64) && all_bytes is_lower_hex s

abbrev pub is_secret : List ℕ → Bool
is_secret secret = between 30 50 (length secret) && all_bytes is_token_byte secret

-- `split_once(':')` drops the colon.
abbrev pub token_parts : Option (List ℕ × List ℕ) → Bool
token_parts none = false
token_parts (some (id, [])) = false
token_parts (some (id, colon ∷ secret)) =
    between 5 15 (length id) && all_bytes is_digit id && is_secret secret

unfoldable pub is_bot_token : List ℕ → Bool
is_bot_token s = token_parts (split_before 58 s)

abbrev pub is_esplora_host : List ℕ → Bool
is_esplora_host host = same_bytes host mempool || same_bytes host blockstream

abbrev pub is_utxo_get : List ℕ → List ℕ → Bool
is_utxo_get host path = is_esplora_host host && same_bytes path utxo_path

-- The part between a prefix and a suffix passes a test.
abbrev pub passes : (List ℕ → Bool) → Option (List ℕ) → Bool
passes test none = false
passes test (some s) = test s

abbrev pub between_parts : List ℕ → List ℕ → List ℕ → Option (List ℕ)
between_parts front back path = elim (strip_prefix front path) [
  | none ↦ none
  | some rest ↦ strip_suffix back rest
]

abbrev pub is_tx_hex_get : List ℕ → List ℕ → Bool
is_tx_hex_get host path =
    is_esplora_host host && passes is_64_lower_hex (between_parts tx_path hex_end path)

abbrev pub is_rates_get : List ℕ → List ℕ → Bool
is_rates_get host path = same_bytes host slipstream && same_bytes path rates_path

abbrev pub is_status_get : List ℕ → List ℕ → Bool
is_status_get host path =
    same_bytes host slipstream && passes is_64_lower_hex (strip_prefix status_path path)

abbrev pub is_slipstream_submit : List ℕ → List ℕ → Bool
is_slipstream_submit host path = same_bytes host slipstream && same_bytes path submit_path

abbrev pub is_telegram_send : List ℕ → List ℕ → Bool
is_telegram_send host path =
    same_bytes host telegram && passes is_bot_token (between_parts bot_path send_end path)

abbrev pub is_permitted : Method → List ℕ → List ℕ → Bool
is_permitted get host path =
    is_utxo_get host path
    || is_tx_hex_get host path
    || is_rates_get host path
    || is_status_get host path
is_permitted post_json host path = is_slipstream_submit host path || is_telegram_send host path

abbrev pub check_host : Method → Option (List ℕ × List ℕ) → Bool
check_host method none = false
check_host method (some (host, path)) =
    not (has 64 host)
    && not (has 58 host)
    && not (any_byte (between 65 90) host)
    && is_permitted method host path

abbrev pub check_rest : Method → Option (List ℕ) → Bool
check_rest method none = false
check_rest method (some rest) = check_host method (split_before 47 rest)

unfoldable pub is_allowed : Method → List ℕ → Bool
is_allowed method url =
    all_bytes (λ b. ltb b 128) url
    && not (any_byte is_forbidden url)
    && not (has_two_dots url)
    && check_rest method (strip_prefix https url)

unfoldable pub is_private_chat_id : List ℕ → Bool
is_private_chat_id [] = false
is_private_chat_id (b ∷ bs) = leb (length (b ∷ bs)) 20 && between 49 57 b && all_bytes is_digit bs
