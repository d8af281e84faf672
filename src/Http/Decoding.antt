-- ===== src/Http/Decoding.antt =====
-- The decoding of a target in http_api_server.cpp, against an encoder.
use multi_constraint_iot_edg.Common.{
  ℕ, ◌+◌, ◌/◌, ◌%◌, ◌<◌, ◌≡◌, ◌==◌, refl, false, [], ◌∷◌, some, arith, if◌then◌else◌, Text, All,
  ltb, ap,
}
use multi_constraint_iot_edg.Http.{url_decode, decoded, hex}

-- The digits 0 to 9 and A to F.
unfoldable pub hex_digit : ℕ → ℕ
hex_digit n = if ltb n 10 then 48 + n else 55 + n

-- Each byte as a percent sign with two digits.
unfoldable pub percent_encode : Text → Text
percent_encode [] = []
percent_encode (c ∷ t) = 37 ∷ hex_digit (c / 16) ∷ hex_digit (c % 16) ∷ percent_encode t

hex-hex_digit : (n : ℕ) → n < 16 → hex (hex_digit n) ≡ some n
unfolding hex hex_digit
hex-hex_digit n h = ground arith

-- Any sequence of bytes comes back when it is percent-encoded and decoded: in particular a decoded
-- percent sign is not decoded again.
pub url_decode-percent_encode :
    (t : Text) → All (λ c. c < 256) t → url_decode (percent_encode t) ≡ t
unfolding url_decode percent_encode decoded
url_decode-percent_encode [] h = refl
url_decode-percent_encode (c ∷ t) (h, hs) = rw (hex-hex_digit (c / 16) (omega (arith, h))) (
    rw (hex-hex_digit (c % 16) (omega arith))
      (rw (url_decode-percent_encode t hs) (ap (λ x. x ∷ t) (omega arith))))

-- Text without a percent sign is left as it is.
pub url_decode-plain : (t : Text) → All (λ c. (c == 37) ≡ false) t → url_decode t ≡ t
unfolding url_decode
url_decode-plain [] h = refl
url_decode-plain (a ∷ []) h = refl
url_decode-plain (a ∷ b ∷ []) h = refl
url_decode-plain (a ∷ b ∷ c ∷ t) h = rw h.0 (ap (λ x. a ∷ x) (url_decode-plain (b ∷ c ∷ t) h.1))
