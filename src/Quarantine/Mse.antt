-- ===== src/Quarantine/Mse.antt =====
-- The decoders for Microsoft (`mse_`) and Malwarebytes (`mbam_`) of lib/cuckoo/common/quarantine.py.
use capev.Base.{
  ℕ, ◌+◌, ◌-◌, ◌==◌, ◌≡◌, Bool, not, ◌||◌, List, [], ◌∷◌, arith, ap, length, drop, Option, none,
  some, ltb, if◌then◌else◌,
}
use capev.Base.Bytes.{at, slice, unpack_u32}
use capev.Quarantine.Result.{Unquarantined, raised, nothing, stored, ◌>>=◌}
use capev.Quarantine.Rc4.{
  rc4_decrypt, rc4_decrypt_twice, ksa_loop, ksa_loop-range, mbam_ksa-total, range, contents,
  mbam_ksa,
}

-- The hardcoded key of `mse_ksa`.
abbrev pub mse_key : List ℕ
mse_key =
    0x1e ∷ 0x87 ∷ 0x78 ∷ 0x1b ∷ 0x8d ∷ 0xba ∷ 0xa8 ∷ 0x44 ∷ 0xce ∷ 0x69 ∷ 0x70 ∷ 0x2c ∷ 0x0c ∷ 0x78
    ∷ 0xb7 ∷ 0x86 ∷ 0xa3 ∷ 0xf6 ∷ 0x23 ∷ 0xb7 ∷ 0x38 ∷ 0xf5 ∷ 0xed ∷ 0xf9 ∷ 0xaf ∷ 0x83 ∷ 0x53
    ∷ 0x0f ∷ 0xb3 ∷ 0xfc ∷ 0x54 ∷ 0xfa ∷ 0xa2 ∷ 0x1e ∷ 0xb9 ∷ 0xcf ∷ 0x13 ∷ 0x31 ∷ 0xfd ∷ 0x0f
    ∷ 0x0d ∷ 0xa9 ∷ 0x54 ∷ 0xf6 ∷ 0x87 ∷ 0xcb ∷ 0x9e ∷ 0x18 ∷ 0x27 ∷ 0x96 ∷ 0x97 ∷ 0x90 ∷ 0x0e
    ∷ 0x53 ∷ 0xfb ∷ 0x31 ∷ 0x7c ∷ 0x9c ∷ 0xbc ∷ 0xe4 ∷ 0x8e ∷ 0x23 ∷ 0xd0 ∷ 0x53 ∷ 0x71 ∷ 0xec
    ∷ 0xc1 ∷ 0x59 ∷ 0x51 ∷ 0xb8 ∷ 0xf3 ∷ 0x64 ∷ 0x9d ∷ 0x7c ∷ 0xa3 ∷ 0x3e ∷ 0xd6 ∷ 0x8d ∷ 0xc9
    ∷ 0x04 ∷ 0x7e ∷ 0x82 ∷ 0xc9 ∷ 0xba ∷ 0xad ∷ 0x97 ∷ 0x99 ∷ 0xd0 ∷ 0xd4 ∷ 0x58 ∷ 0xcb ∷ 0x84
    ∷ 0x7c ∷ 0xa9 ∷ 0xff ∷ 0xbe ∷ 0x3c ∷ 0x8a ∷ 0x77 ∷ 0x52 ∷ 0x33 ∷ 0x55 ∷ 0x7d ∷ 0xde ∷ 0x13
    ∷ 0xa8 ∷ 0xb1 ∷ 0x40 ∷ 0x87 ∷ 0xcc ∷ 0x1b ∷ 0xc8 ∷ 0xf1 ∷ 0x0f ∷ 0x6e ∷ 0xcd ∷ 0xd0 ∷ 0x83
    ∷ 0xa9 ∷ 0x59 ∷ 0xcf ∷ 0xf8 ∷ 0x4a ∷ 0x9d ∷ 0x1d ∷ 0x50 ∷ 0x75 ∷ 0x5e ∷ 0x3e ∷ 0x19 ∷ 0x18
    ∷ 0x18 ∷ 0xaf ∷ 0x23 ∷ 0xe2 ∷ 0x29 ∷ 0x35 ∷ 0x58 ∷ 0x76 ∷ 0x6d ∷ 0x2c ∷ 0x07 ∷ 0xe2 ∷ 0x57
    ∷ 0x12 ∷ 0xb2 ∷ 0xca ∷ 0x0b ∷ 0x53 ∷ 0x5e ∷ 0xd8 ∷ 0xf6 ∷ 0xc5 ∷ 0x6c ∷ 0xe7 ∷ 0x3d ∷ 0x24
    ∷ 0xbd ∷ 0xd0 ∷ 0x29 ∷ 0x17 ∷ 0x71 ∷ 0x86 ∷ 0x1a ∷ 0x54 ∷ 0xb4 ∷ 0xc2 ∷ 0x85 ∷ 0xa9 ∷ 0xa3
    ∷ 0xdb ∷ 0x7a ∷ 0xca ∷ 0x6d ∷ 0x22 ∷ 0x4a ∷ 0xea ∷ 0xcd ∷ 0x62 ∷ 0x1d ∷ 0xb9 ∷ 0xf2 ∷ 0xa2
    ∷ 0x2e ∷ 0xd1 ∷ 0xe9 ∷ 0xe1 ∷ 0x1d ∷ 0x75 ∷ 0xbe ∷ 0xd7 ∷ 0xdc ∷ 0x0e ∷ 0xcb ∷ 0x0a ∷ 0x8e
    ∷ 0x68 ∷ 0xa2 ∷ 0xff ∷ 0x12 ∷ 0x63 ∷ 0x40 ∷ 0x8d ∷ 0xc8 ∷ 0x08 ∷ 0xdf ∷ 0xfd ∷ 0x16 ∷ 0x4b
    ∷ 0x11 ∷ 0x67 ∷ 0x74 ∷ 0xcd ∷ 0x0b ∷ 0x9b ∷ 0x8d ∷ 0x05 ∷ 0x41 ∷ 0x1e ∷ 0xd6 ∷ 0x26 ∷ 0x2e
    ∷ 0x42 ∷ 0x9b ∷ 0xa4 ∷ 0x95 ∷ 0x67 ∷ 0x6b ∷ 0x83 ∷ 0x98 ∷ 0xdb ∷ 0x2f ∷ 0x35 ∷ 0xd3 ∷ 0xc1
    ∷ 0xb9 ∷ 0xce ∷ 0xd5 ∷ 0x26 ∷ 0x36 ∷ 0xf2 ∷ 0x76 ∷ 0x5e ∷ 0x1a ∷ 0x95 ∷ 0xcb ∷ 0x7c ∷ 0xa4
    ∷ 0xc3 ∷ 0xdd ∷ 0xab ∷ 0xdd ∷ 0xbf ∷ 0xf3 ∷ 0x82 ∷ 0x53 ∷ []

-- `sbox = range(256)`
unfoldable pub mse_ksa : Option (List ℕ)
mse_ksa = contents (ksa_loop 256 0 0 (λ i. at mse_key i) (range 256))

-- The rest of `mse_unquarantine`, from the decrypted data.
unfoldable pub mse_decrypted : ℕ → List ℕ → Unquarantined
mse_decrypted fsize out = do
  skip ← unpack_u32 (slice out 8 12)
  let headerlen = 0x28 + skip
  origlen ← unpack_u32 (slice out (headerlen - 12) (headerlen - 8))
  if not (origlen + headerlen == fsize)
      then nothing
      else stored (drop headerlen out) "MSEDequarantineFile"

abbrev pub has_mse_magic : List ℕ → Bool
has_mse_magic xs =
    not (ltb (length xs) 12 || not (at xs 0 == 0x0b) || not (at xs 1 == 0xad) || not (at xs 2 == 0))

unfoldable pub mse_unquarantine : List ℕ → Unquarantined
mse_unquarantine xs =
    if not (has_mse_magic xs)
    then nothing
    else do sbox ← mse_ksa; mse_decrypted (length xs) (rc4_decrypt sbox xs)

-- `digest` is the MD5 digest of the hardcoded text.
unfoldable pub mbam_unquarantine : List ℕ → List ℕ → Unquarantined
mbam_unquarantine digest xs = do
  sbox ← mbam_ksa digest
  stored (rc4_decrypt sbox xs) "MBAMDequarantineFile"

-- `mse_ksa` never gives a table.
mse_ksa-none : mse_ksa ≡ none
unfolding mse_ksa
mse_ksa-none = rw (ksa_loop-range 255 0 0 256 (λ i. at mse_key i))

-- The Microsoft decoder raises an exception on all data with its magic bytes and returns nothing
-- on all other data.
pub mse_unquarantine_never :
    (xs : List ℕ) → mse_unquarantine xs ≡ (if has_mse_magic xs then raised else nothing)
unfolding mse_unquarantine
mse_unquarantine_never xs = rw mse_ksa-none (ground arith)

recovers :
    (digest sbox xs : List ℕ)
    → mbam_ksa digest ≡ some sbox
    → mbam_unquarantine digest (rc4_decrypt sbox xs) ≡ stored xs "MBAMDequarantineFile"
unfolding mbam_unquarantine
recovers digest sbox xs e =
    rw e (ap (λ ys. stored ys "MBAMDequarantineFile") (rc4_decrypt_twice sbox xs))

-- For every digest and all data, the key scheduling gives a table of 256 entries, and the
-- Malwarebytes decoder recovers what was encrypted with it.
mbam_unquarantine_encrypted :
    (digest xs : List ℕ)
    → (sbox : List ℕ) × (mbam_ksa digest ≡ some sbox)
      × (length sbox ≡ 256)
      × (mbam_unquarantine digest (rc4_decrypt sbox xs) ≡ stored xs "MBAMDequarantineFile")
unfolding mbam_unquarantine
mbam_unquarantine_encrypted digest xs =
    let (sbox, e, l) = mbam_ksa-total digest in (sbox, e, l, recovers digest sbox xs e)
