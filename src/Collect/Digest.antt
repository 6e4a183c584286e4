-- ===== src/Collect/Digest.antt =====
-- collect/client.go: salted digests, and strings cut to the length of a property. SHA-256 is a
-- parameter; what is relied on is that it gives 32 bytes.
use analytics_core.Prelude.{
  ℕ, ◌+◌, ◌/◌, ◌%◌, ◌≤◌, ◌<◌, ◌≡◌, suc, zero, List, [], ◌∷◌, ◌++◌, leb, ltb, length, take, Text,
  trim_space, if◌then◌else◌, All, arith, true, Bool-cases, inl, inr,
}
use analytics_core.Collect.Request.{max_property_str_len, identifier_byte}

abbrev pub hex_digit : ℕ → ℕ
hex_digit n = if ltb n 10 then 48 + n else 87 + n

-- `hex.EncodeToString`
unfoldable pub encode_to_string : Text → Text
encode_to_string [] = []
encode_to_string (b ∷ bs) = hex_digit (b / 16) ∷ hex_digit (b % 16) ∷ encode_to_string bs

abbrev digest_parts : List Text → Text
digest_parts [] = []
digest_parts (part ∷ parts) = 0 ∷ part ++ digest_parts parts

unfoldable pub salted_digest : (Text → Text) → Text → Text → List Text → Text
unfolding encode_to_string
salted_digest sha256 prefix salt parts =
    encode_to_string (sha256 (prefix ++ 0 ∷ salt ++ digest_parts parts))

unfoldable pub truncate_property_string : Text → Text
truncate_property_string value =
    let trimmed = trim_space value in
    if leb (length trimmed) max_property_str_len then trimmed else take max_property_str_len trimmed

-- What `sha256.Sum` gives: 32 bytes.
abbrev pub IsDigest : (Text → Text) → Type 0
IsDigest sha256 =
    (message : Text) → (length (sha256 message) ≡ 32) × All (λ b. b < 256) (sha256 message)

pub length-take : (n : ℕ) (s : Text) → length (take n s) ≤ n
length-take zero s = omega arith
length-take (suc n) [] = omega arith
length-take (suc n) (b ∷ s) = omega (arith, length-take n s)

cut-bound : (n : ℕ) (s : Text) → length (if leb (length s) n then s else take n s) ≤ n
cut-bound n s = elim (Bool-cases (leb (length s) n)) [
  | inl short ↦ rw short (ground (arith, short))
  | inr long ↦ rw long (length-take n s)
]

pub truncate-bound : (value : Text) → length (truncate_property_string value) ≤ max_property_str_len
unfolding truncate_property_string
truncate-bound value = cut-bound max_property_str_len (trim_space value)

encode-length : (bs : Text) → length (encode_to_string bs) ≡ length bs + length bs
unfolding encode_to_string
encode-length [] = omega arith
encode-length (b ∷ bs) = omega (arith, encode-length bs)

encode-All :
    (bs : Text) → All (λ b. b < 256) bs → All (λ b. identifier_byte b ≡ true) (encode_to_string bs)
unfolding encode_to_string
encode-All [] h = tt
encode-All (b ∷ bs) h = (ground arith, (ground arith, encode-All bs h.1))

take-All : (n : ℕ) (P : ℕ → Type 0) (s : Text) → All P s → All P (take n s)
take-All zero P s h = tt
take-All (suc n) P [] h = tt
take-All (suc n) P (b ∷ s) h = (h.0, take-All n P s h.1)

-- The first 32 characters of a digest are bytes of an identifier.
pub digest-All :
    (sha256 : Text → Text) (prefix salt : Text) (parts : List Text)
    → IsDigest sha256
    → All (λ b. identifier_byte b ≡ true) (take 32 (salted_digest sha256 prefix salt parts))
unfolding salted_digest
digest-All sha256 prefix salt parts h =
    take-All 32 _ (salted_digest sha256 prefix salt parts) (encode-All _ (h _).1)
