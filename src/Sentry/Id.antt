-- ===== src/Sentry/Id.antt =====
-- internal/sentry/id.go: 128-bit identifiers as 32 lower-case hexadecimal digits.
use crashcart.Base.{
  ◌≡◌, refl, Bool, true, false, not, [], ◌∷◌, map, Option, none, some, if◌then◌else◌, arith, ◌==◌,
  keep, length, All, Bool-cases, Option-cases, inl, inr, ap, sym, ◌∙◌, ◌<◌, ◌⊎◌, take, ==_iff,
  All-imply, All-keep,
}
use crashcart.Base.Text.{Bytes, trim_space, lower_byte, or_else, IsPlain, trim_space-plain}
use crashcart.Sentry.Hex.{
  IsHexDigit, IsLowered, decode_hex, encode_hex, decode_hex-back, decode_hex-encode_hex,
  length-encode_hex,
}

-- The text that `ParseID` tests: without the dashes of a 36-character UUID. A letter outside ASCII
-- never lowers to a hexadecimal digit, so its text stays refused.
unfoldable pub normal_text : Bytes → Bytes
normal_text s =
    let lowered = map lower_byte (trim_space s) in
    if length lowered == 36 then keep (λ c. not (c == b'-')) lowered else lowered

unfoldable pub checked : Bytes → Option Bytes → Option Bytes
checked text none = none
checked text (some bs) = some text

-- `ParseID`.
unfoldable pub parse_id : Bytes → Option Bytes
unfolding checked
parse_id s =
    if length (normal_text s) == 32
    then checked (normal_text s) (decode_hex (normal_text s))
    else none

-- `DerivedID`, over SHA-256.
unfoldable pub derived_id : (Bytes → Bytes) → Bytes → Bytes
derived_id sha256 seed = encode_hex (take 16 (sha256 seed))

-- `UnmarshalText`: an error leaves the value as it was.
unfoldable pub unmarshal_text : Bytes → Bytes → Bytes × Bool
unmarshal_text id [] = ([], true)
unmarshal_text id (c ∷ s) = elim (parse_id (c ∷ s)) [ none ↦ (id, false) | some v ↦ (v, true) ]

-- `Ptr`.
unfoldable pub ptr : Bytes → Option Bytes
ptr [] = none
ptr (c ∷ id) = some (c ∷ id)

-- `ScanUUID`: NULL is the empty identifier.
unfoldable pub scan_uuid : Option Bytes → Bytes
scan_uuid none = []
scan_uuid (some bytes) = encode_hex bytes

pub data UuidError : Type 0 where
  invalid_id : UuidError

unfoldable pub valid_uuid : Option Bytes → UuidError ⊎ Option Bytes
valid_uuid none = inl invalid_id
valid_uuid (some b) = if length b == 16 then inr (some b) else inl invalid_id

-- `UUIDValue`: the 16 bytes, or NULL for the empty identifier, or an error.
unfoldable pub uuid_value : Bytes → UuidError ⊎ Option Bytes
unfolding valid_uuid
uuid_value [] = inr none
uuid_value (c ∷ id) = valid_uuid (decode_hex (c ∷ id))

All-lower_byte : (s : Bytes) → All IsLowered (map lower_byte s)
All-lower_byte [] = tt
All-lower_byte (c ∷ s) = (ground arith, All-lower_byte s)

lowered-hex : (s : Bytes) → All IsHexDigit s → map lower_byte s ≡ s
lowered-hex [] h = refl
lowered-hex (c ∷ s) h = rw (lowered-hex s h.1) (ap (λ d. d ∷ s) (ground arith))

-- What an identifier is.
abbrev pub IsId : Bytes → Type 0
IsId id = (length id ≡ 32) × All IsHexDigit id

normal_text-IsLowered : (s : Bytes) → All IsLowered (normal_text s)
unfolding normal_text
normal_text-IsLowered s =
    let lowered = map lower_byte (trim_space s) in
    elim (Bool-cases (length lowered == 36)) [
      | inl e ↦
          rw e (All-keep IsLowered (λ c. not (c == b'-')) lowered (All-lower_byte (trim_space s)))
      | inr e ↦ rw e (All-lower_byte (trim_space s))
    ]

parse_id-accepts :
    (s bs : Bytes)
    → length (normal_text s) ≡ 32
    → decode_hex (normal_text s) ≡ some bs
    → parse_id s ≡ some (normal_text s)
unfolding parse_id checked
parse_id-accepts s bs len d = rw (len, d) refl

-- An accepted identifier is the normalised text, and has 16 bytes that encode to it.
parse_id-bytes :
    (s id : Bytes)
    → parse_id s ≡ some id
    → IsId id × ((bs : Bytes) × (decode_hex id ≡ some bs) × (encode_hex bs ≡ id) × (length bs ≡ 16))
unfolding parse_id checked
parse_id-bytes s id h = elim (Bool-cases (length (normal_text s) == 32)) [
  | inr e ↦ ground arith
  | inl e ↦ elim (Option-cases (decode_hex (normal_text s))) [
    | inl n ↦ ground arith
    | inr (bs, d) ↦
        let length_32 = (==_iff (length (normal_text s)) 32).0 e in
        let start = sym (parse_id-accepts s bs length_32 d) in
        let same : normal_text s ≡ id = ap (λ o. or_else o []) (start ∙ h) in
        let (back, small, hex, len) =
          decode_hex-back (normal_text s) bs (normal_text-IsLowered s) d in
        rw (sym same) ((length_32, hex), (bs, d, back, omega (arith, len, length_32)))
  ]
]

IsId-plain : (id : Bytes) → All IsHexDigit id → trim_space id ≡ id
IsId-plain id h = trim_space-plain id (All-imply IsHexDigit IsPlain id (λ c x. ground arith) h)

normal_text-IsId : (id : Bytes) → IsId id → normal_text id ≡ id
unfolding normal_text
normal_text-IsId id (len, hex) = rw (IsId-plain id hex, lowered-hex id hex, len) refl

-- A normal identifier is parsed as it is.
parse_id-IsId : (id bs : Bytes) → IsId id → decode_hex id ≡ some bs → parse_id id ≡ some id
parse_id-IsId id bs i d =
    let same = normal_text-IsId id i in
    parse_id-accepts id bs (ap length same ∙ i.0) (ap decode_hex same ∙ d) ∙ ap some same

uuid_value-bytes :
    (id bs : Bytes)
    → length id ≡ 32
    → decode_hex id ≡ some bs
    → length bs ≡ 16
    → uuid_value id ≡ inr (some bs)
unfolding uuid_value valid_uuid
uuid_value-bytes [] bs len d n = ground arith
uuid_value-bytes (c ∷ id) bs len d n = rw (d, n) refl

-- What `ParseID` accepts it returns as 32 lower-case hexadecimal digits, which it parses as
-- themselves, and which come back unchanged from the UUID column they are stored in.
pub parse_id-normal :
    (s id : Bytes)
    → parse_id s ≡ some id
    → (length id ≡ 32)
      × All IsHexDigit id
      × (parse_id id ≡ some id)
      × ((v : Option Bytes) × (uuid_value id ≡ inr v) × (scan_uuid v ≡ id))
unfolding scan_uuid
parse_id-normal s id h =
    let ((len, hex), (bs, d, back, n)) = parse_id-bytes s id h in
    (len, hex, parse_id-IsId id bs (len, hex) d, (some bs, uuid_value-bytes id bs len d n, back))

-- Of the 16 bytes of a stored UUID, `ScanUUID` makes the identifier that `UUIDValue` writes as them.
uuid_value-scan_uuid :
    (bs : Bytes)
    → length bs ≡ 16
    → All (λ b. b < 256) bs
    → uuid_value (scan_uuid (some bs)) ≡ inr (some bs)
unfolding scan_uuid
uuid_value-scan_uuid bs n small =
    uuid_value-bytes (encode_hex bs) bs (length-encode_hex bs ∙ rw n refl)
      (decode_hex-encode_hex bs small) n
