-- ===== src/Store/Line.antt =====
-- The lines of the journal of src/search/store.rs: a JSON value, a tab, the SHA-256 of the value in
-- hexadecimal, a newline. The JSON codec is a parameter.
use puzzle71_solver.Prelude.{
  ℕ, ◌+◌, ◌/◌, ◌%◌, ◌≤◌, ◌≡◌, refl, ap, Bool, true, false, not, ltb, ◌==◌, if◌then◌else◌, arith,
  Option, none, some, List, [], ◌∷◌, ◌++◌, same_bytes, same_bytes_refl, has, has-append,
}
use puzzle71_solver.Prelude.Results.{Result, ok, err}
use puzzle71_solver.Crypto.Sha256.{sha256}
use puzzle71_solver.Store.{
  Runtime, JournalRecord, StoreError, no_checksum, checksum_mismatch, invalid_record,
}

abbrev pub newline : ℕ
newline = 10

abbrev tab : ℕ
tab = 9

pub record Codec (V : Type 0) : Type 0 where
  pub encode : V → List ℕ
  pub decode : List ℕ → Option V

-- What serde_json promises of its compact form: a value that it can write reads back, as `read` says, and
-- it writes no raw newline.
pub record IsCodec {V : Type 0} (c : Codec V) (writable : V → Bool) (read : V → V) : Type 0 where
  pub decode-encode : (v : V) → writable v ≡ true → c.decode (c.encode v) ≡ some (read v)
  pub one_line : (v : V) → has newline (c.encode v) ≡ false

-- Integers and strings read back as they are.
abbrev pub IsExactCodec : {V : Type 0} → Codec V → Type 0
IsExactCodec c = IsCodec c (λ v. true) (λ v. v)

module _ {F : Type 0} (rt : Runtime F) where
  -- A record as it is read back: its runtime is what the JSON of the runtime gives.
  abbrev pub read_record : JournalRecord F → JournalRecord F
  read_record r = record r { total_runtime_secs = rt.stored r.total_runtime_secs }

  abbrev pub is_timed : JournalRecord F → Bool
  is_timed r = rt.is_duration r.total_runtime_secs

  -- A record whose runtime is a duration reads back up to the runtime.
  abbrev pub IsRecordCodec : Codec (JournalRecord F) → Type 0
  IsRecordCodec c = IsCodec c is_timed read_record

abbrev hex_digit : ℕ → ℕ
hex_digit n = if ltb n 10 then 48 + n else 87 + n

abbrev hex : List ℕ → List ℕ
hex [] = []
hex (b ∷ bs) = hex_digit (b / 16) ∷ hex_digit (b % 16) ∷ hex bs

pub checksum : List ℕ → List ℕ
checksum bytes = hex (sha256 bytes)

-- The body before the last tab, and what follows it.
split_at_tab : List ℕ → Option (List ℕ × List ℕ)
split_at_tab [] = none
split_at_tab (b ∷ bs) = elim (split_at_tab bs) [
  | some (body, suffix) ↦ some (b ∷ body, suffix)
  | none ↦ if b == tab then some ([], bs) else none
]

module _ {V : Type 0} (c : Codec V) where
  -- The line without its newline.
  unfoldable pub line_body : V → List ℕ
  line_body v = c.encode v ++ tab ∷ checksum (c.encode v)

  unfoldable pub encode_line : V → List ℕ
  encode_line v = line_body v ++ newline ∷ []

  abbrev check_line : Option (List ℕ × List ℕ) → Result V StoreError
  check_line none = err no_checksum
  check_line (some (body, suffix)) =
      if not (same_bytes suffix (checksum body))
      then err checksum_mismatch
      else elim (c.decode body) [ none ↦ err invalid_record | some v ↦ ok v ]

  pub decode_line : List ℕ → Result V StoreError
  decode_line bytes = check_line (split_at_tab bytes)

-- The complete lines, and the bytes after the last newline.
pub split_lines : List ℕ → List (List ℕ) × List ℕ
split_lines [] = ([], [])
split_lines (b ∷ bs) =
    let (lines, tail) = split_lines bs in
    if b == newline
    then ([] ∷ lines, tail)
    else elim lines [ [] ↦ ([], b ∷ tail) | l ∷ ls ↦ ((b ∷ l) ∷ ls, tail) ]

hex-has : (b : ℕ) (bytes : List ℕ) → b ≤ 47 → has b (hex bytes) ≡ false
hex-has b [] h = refl
hex-has b (x ∷ xs) h = grind (arith, hex-has b xs h)

checksum-has : (b : ℕ) (bytes : List ℕ) → b ≤ 47 → has b (checksum bytes) ≡ false
unfolding checksum
checksum-has b bytes h = hex-has b (sha256 bytes) h

split_at_tab-none : (bs : List ℕ) → has tab bs ≡ false → split_at_tab bs ≡ none
unfolding split_at_tab
split_at_tab-none [] h = refl
split_at_tab-none (b ∷ bs) h =
    let rest = split_at_tab-none bs (ground arith) in
    let other : (b == tab) ≡ false = ground arith in rw (rest, other) refl

split_at_tab-append :
    (body suffix : List ℕ)
    → has tab suffix ≡ false
    → split_at_tab (body ++ tab ∷ suffix) ≡ some (body, suffix)
unfolding split_at_tab
split_at_tab-append [] suffix h = rw (split_at_tab-none suffix h) refl
split_at_tab-append (b ∷ body) suffix h = rw (split_at_tab-append body suffix h) refl

-- `decode_line` of the line of a writable value, without its newline, gives the value that its JSON reads
-- back as: the checksum and the tab let it through.
pub decode_line-line_body :
    {V : Type 0} (c : Codec V) (writable : V → Bool) (read : V → V) (v : V)
    → IsCodec c writable read
    → writable v ≡ true
    → decode_line c (line_body c v) ≡ ok (read v)
unfolding decode_line line_body
decode_line-line_body c writable read v good fine =
    rw
      (
        split_at_tab-append (c.encode v) (checksum (c.encode v))
            (checksum-has tab (c.encode v) (omega arith)),
        same_bytes_refl (checksum (c.encode v)),
        good.decode-encode v fine,
      )
      refl

pub line_body-has :
    {V : Type 0} {writable : V → Bool} {read : V → V} (c : Codec V) (v : V)
    → IsCodec c writable read
    → has newline (line_body c v) ≡ false
unfolding line_body
line_body-has c v good =
    rw
      (
        has-append newline (c.encode v) (tab ∷ checksum (c.encode v)),
        good.one_line v,
        checksum-has newline (c.encode v) (omega arith),
      )
      refl

pub split_lines-tail : (bs : List ℕ) → has newline bs ≡ false → split_lines bs ≡ ([], bs)
unfolding split_lines
split_lines-tail [] h = refl
split_lines-tail (b ∷ bs) h =
    let rest = split_lines-tail bs (ground arith) in
    let other : (b == newline) ≡ false = ground arith in
    rw (ap (λ x. x.0) rest, ap (λ x. x.1) rest, other) refl

pub split_lines-line :
    (l bs : List ℕ)
    → has newline l ≡ false
    → split_lines (l ++ newline ∷ bs) ≡ (l ∷ (split_lines bs).0, (split_lines bs).1)
unfolding split_lines
split_lines-line [] bs h = refl
split_lines-line (b ∷ l) bs h =
    let rest = split_lines-line l bs (ground arith) in
    let other : (b == newline) ≡ false = ground arith in
    rw (other, ap (λ x. x.0) rest, ap (λ x. x.1) rest) refl
