-- ===== src/Quarantine/Tests.antt =====
-- The decoders at short inputs; the digest stands for the one that `hashlib` computes.
use capev.Base.{◌*◌, ◌+◌, refl, String, get_elem?, bit_xor, arith, ℕ, ◌≡◌, List, [], ◌∷◌, some}
use capev.Base.Bytes.{unpack_u32, slice, xor_loop, xor_at, at}
use capev.Quarantine.Result.{raised, stored}
use capev.Quarantine.Kav.Body.{kav_checked_body}
use capev.Quarantine.Kav.{kav_entries, kav_body, kav_checked, kav_byte}
use capev.Quarantine.Result.{bytearray_xor}
use capev.Quarantine.Trend.{
  trend_unquarantine, trend_body, crypt, crypt_word, read_tags, read_trend_tag,
}
use capev.Quarantine.Trend.Body.{Decrypted, trend_body-Decrypted}

abbrev digest : List ℕ
digest = 0x4a ∷ 0x11 ∷ 0xc7 ∷ 0x09 ∷ []

abbrev program : List ℕ
program = 0x4d ∷ 0x5a ∷ 0x90 ∷ 0x00 ∷ 0x03 ∷ []

abbrev quarantined : List ℕ
quarantined = 0x0b ∷ 0xad ∷ 0 ∷ 1 ∷ 2 ∷ 3 ∷ 4 ∷ 5 ∷ 6 ∷ 7 ∷ 8 ∷ 9 ∷ []

-- A file whose header has two bytes and whose body has two, and an empty list of entries.
abbrev small : List ℕ
small = 9 ∷ 9 ∷ 0xaf ∷ 0x1f ∷ 0 ∷ 0 ∷ 0 ∷ 0 ∷ []

abbrev no_text : List ℕ → String
no_text xs = ""

kav_checked-small :
    kav_checked no_text no_text 2 4 0 2 small ≡ stored (0x4d ∷ 0x5a ∷ []) "KAVDequarantineFile"
unfolding kav_checked kav_entries kav_body unpack_u32 slice xor_loop xor_at
kav_checked-small = refl

kav_checked_body_example : get_elem? (0x4d ∷ 0x5a ∷ []) 1 ≡ some (bit_xor 0x1f (kav_byte 1))
kav_checked_body_example =
    kav_checked_body no_text no_text 2 4 0 2 small (0x4d ∷ 0x5a ∷ []) "KAVDequarantineFile" 1 0x1f
      kav_checked-small (omega arith) refl

-- A checksum for the tests.
abbrev checksum : List ℕ → ℕ
checksum xs = 0x01020304 * (at xs 0 + 1)

-- One tag, the method 2, and five bytes from the offset 17 on.
abbrev trend_data : List ℕ
trend_data =
    0x56 ∷ 0x53 ∷ 0x42 ∷ 0x58 ∷ 7 ∷ 0 ∷ 0 ∷ 0 ∷ 1 ∷ 0 ∷ 7 ∷ 4 ∷ 0 ∷ 2 ∷ 0 ∷ 0 ∷ 0 ∷ 10 ∷ 20 ∷ 30
    ∷ 40 ∷ 50 ∷ []

trend-small :
    trend_unquarantine checksum (bytearray_xor trend_data 0xff)
    ≡ stored (0x39 ∷ 0x36 ∷ 0x0f ∷ 0x7c ∷ 0x0d ∷ []) "UnknownTrendFile.bin"
unfolding trend_unquarantine bytearray_xor trend_body crypt crypt_word read_tags read_trend_tag
    unpack_u32 slice xor_at
trend-small = refl

-- The same with the original name in place of the method: `decode` has no argument `error`.
trend_named :
    trend_unquarantine checksum (
      bytearray_xor
        (0x56 ∷ 0x53 ∷ 0x42 ∷ 0x58 ∷ 4 ∷ 0 ∷ 0 ∷ 0 ∷ 1 ∷ 0 ∷ 2 ∷ 1 ∷ 0 ∷ 0x61 ∷ 0x4d ∷ [])
        0xff)
    ≡ raised
unfolding trend_unquarantine bytearray_xor read_tags read_trend_tag unpack_u32 slice
trend_named = refl

trend_body-Decrypted_example :
    Decrypted checksum 0 17 trend_data
      (trend_body checksum 17 (record { basekey = 0; encmethod = 2 }) trend_data)
trend_body-Decrypted_example =
    trend_body-Decrypted checksum 17 (record { basekey = 0; encmethod = 2 }) trend_data refl
