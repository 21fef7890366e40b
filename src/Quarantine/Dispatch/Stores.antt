-- ===== src/Quarantine/Dispatch/Stores.antt =====
-- `unquarantine` of lib/cuckoo/common/quarantine.py always stores a file, unless McAfee's decoder is
-- chosen.
use capev.Base.{
  ℕ, ◌+◌, ◌==◌, ◌≡◌, refl, subst, ◌≢◌, inl, inr, false, not, ◌&&◌, ◌||◌, Option, none, some, List,
  [], ◌∷◌, length, ltb, arith, String, str_eq, Bool-cases, any, keep, is_some, ◌++◌,
}
use text.Mathlib.Text.{find?}
use capev.Base.Bytes.{slice, unpack_u32}
use capev.Quarantine.Result.{
  Unquarantined, raised, nothing, out_of_fuel, stored, bytearray_xor, then_ends, check_ends,
}
use capev.Quarantine.Rc4.{mbam_ksa-total, rc4_decrypt}
use capev.Quarantine.Mse.{mbam_unquarantine, mse_unquarantine, mse_unquarantine_never}
use capev.Quarantine.Kav.Body.{kav_unquarantine_ends}
use capev.Quarantine.Trend.{
  Tags, unpack_u16, read_tags, trend_body, trend_unquarantine, xorff_unquarantine,
}
use capev.Quarantine.Trend.Body.{Decrypted, trend_body-Decrypted}
use capev.Quarantine.Sep.{scan, start_scan, sep_unquarantine}
use capev.Quarantine.Dispatch.{
  Ole, or_on_error, or_else, try_all, is_mcafee, mcafee_unquarantine, unquarantine, read_entries,
  store_decoded, decode_streams,
}

abbrev pub IsStored : Unquarantined → Type 0
IsStored r = (out : List ℕ) × (name : String) × (r ≡ stored out name)

or_else-IsStored :
    (r next : Unquarantined) → r ≢ out_of_fuel → IsStored next → IsStored (or_else r next)
or_else-IsStored raised next h s = s
or_else-IsStored nothing next h s = s
or_else-IsStored out_of_fuel next h s = absurd (h refl)
or_else-IsStored (stored out name) next h s = (out, name, refl)

trend_body_ends :
    (crc32 : List ℕ → ℕ) (dataoffset : ℕ) (t : Tags) (xs : List ℕ)
    → trend_body crc32 dataoffset t xs ≢ out_of_fuel
unfolding trend_body
trend_body_ends crc32 dataoffset t xs e = elim (Bool-cases (t.encmethod == 2)) [
  | inl k ↦
      subst (Decrypted crc32 t.basekey dataoffset xs) e
        (trend_body-Decrypted crc32 dataoffset t xs (ground arith))
  | inr k ↦ absurd (ground arith)
]

trend_unquarantine_ends :
    (crc32 : List ℕ → ℕ) (xs : List ℕ) → trend_unquarantine crc32 xs ≢ out_of_fuel
unfolding trend_unquarantine
trend_unquarantine_ends crc32 qdata =
    let xs = bytearray_xor qdata 0xff in
    then_ends (unpack_u32 (slice xs 0 4)) _ (λ magic.
      then_ends (unpack_u32 (slice xs 4 8)) _ (λ dataoffset.
        then_ends (unpack_u16 (slice xs 8 10)) _ (λ numtags.
          check_ends (not (magic == 0x58425356) || ltb 15 numtags) _ (
            then_ends (read_tags numtags 10 xs (record { basekey = 0; encmethod = 0 })) _
              (λ tags. trend_body_ends crc32 (dataoffset + 10) tags xs)))))

sep_unquarantine_ends :
    (name : List ℕ → String) (xs : List ℕ) → sep_unquarantine name xs ≢ out_of_fuel
unfolding sep_unquarantine
sep_unquarantine_ends name qdata = then_ends (unpack_u32 (slice qdata 0 4)) _ (λ dataoffset.
    check_ends (not (dataoffset == 0x1290)) _ (
      then_ends (scan 20000 (length qdata) (start_scan (bytearray_xor qdata 0x5a))) _
        (λ s e. absurd (ground arith))))

mse_unquarantine_ends : (xs : List ℕ) → mse_unquarantine xs ≢ out_of_fuel
mse_unquarantine_ends xs e = absurd (ground (arith, mse_unquarantine_never xs))

mbam_unquarantine-IsStored : (digest xs : List ℕ) → IsStored (mbam_unquarantine digest xs)
unfolding mbam_unquarantine
mbam_unquarantine-IsStored digest xs =
    let (sbox, e, l) = mbam_ksa-total digest in
    (rc4_decrypt sbox xs, "MBAMDequarantineFile", rw e refl)

xorff-IsStored : (base : String) (xs : List ℕ) → IsStored (xorff_unquarantine base xs)
unfolding xorff_unquarantine
xorff-IsStored base xs = (bytearray_xor xs 0xff, base, refl)

module _ (ole : Ole) (text path_text sep_name : List ℕ → String) (crc32 : List ℕ → ℕ)
    (digest : List ℕ) (base ext : String) where
  try_all-IsStored :
      (qdata : List ℕ) → IsStored (try_all ole text path_text sep_name crc32 digest base ext qdata)
  unfolding try_all xorff_unquarantine
  try_all-IsStored qdata = or_else-IsStored _ _ (kav_unquarantine_ends text path_text qdata) (
      or_else-IsStored _ _ (trend_unquarantine_ends crc32 qdata) (
        or_else-IsStored _ _ (sep_unquarantine_ends sep_name qdata) (
          or_else-IsStored _ _ (mse_unquarantine_ends qdata)
            (bytearray_xor qdata 0xff, base, refl))))

  on_error-IsStored : (r next : Unquarantined) → IsStored r → IsStored (or_on_error r next)
  on_error-IsStored r next (out, name, e) = (out, name, rw e refl)

  -- On every file that is not taken for one of McAfee, by its extension or by olefile, unquarantine
  -- stores something: no exception leaves it, all loops end, and it never returns nothing.
  pub unquarantine-IsStored :
      (qdata : List ℕ)
      → is_mcafee ole text path_text sep_name crc32 digest base ext qdata ≡ false
      → str_eq ext ".but" ≡ false
      → IsStored (unquarantine ole text path_text sep_name crc32 digest base ext qdata)
  unfolding unquarantine
  unquarantine-IsStored qdata h k = elim (Bool-cases (str_eq ext ".quar")) [
    | inl q ↦ rw (h, q) (on_error-IsStored _ _ (mbam_unquarantine-IsStored digest qdata))
    | inr q ↦ elim (Bool-cases (str_eq ext ".mal")) [
      | inl m ↦ rw (h, q, m) (on_error-IsStored _ _ (xorff-IsStored base qdata))
      | inr m ↦ rw (h, q, m, k) (try_all-IsStored qdata)
    ]
  ]

-- A stored file has the name that the decoder for McAfee gives if it knows no other.
abbrev HasDefaultName : Unquarantined → Type 0
HasDefaultName (stored out name) = name ≡ "McAfeeDequarantineFile"
HasDefaultName r = Unit

store_decoded-HasDefaultName :
    (details : Option (List ℕ)) (xs : List ℕ) → HasDefaultName (store_decoded details xs)
store_decoded-HasDefaultName none xs = tt
store_decoded-HasDefaultName (some []) xs = refl
store_decoded-HasDefaultName (some (d ∷ ds)) xs = tt

read_entries-HasDefaultName :
    (open_stream : String → Option (List ℕ)) (entries : List (List String))
    (details : Option (List ℕ)) (quarfiles : List String)
    → HasDefaultName (read_entries open_stream entries details quarfiles)
unfolding read_entries
read_entries-HasDefaultName open_stream [] details quarfiles = tt
read_entries-HasDefaultName open_stream (entry ∷ entries) details quarfiles =
    elim (Bool-cases (any (λ name. str_eq name "Details") entry)) [
      | inl d ↦ rw d (
          detailed (open_stream "Details") (λ xs.
            read_entries-HasDefaultName open_stream entries (some (bytearray_xor xs 0x6a))
              quarfiles))
      | inr d ↦ rw d (
          decoded (decode_streams open_stream (found entry quarfiles))
            (read_entries-HasDefaultName open_stream entries details (found entry quarfiles)))
    ]
  where
    found : List String → List String → List String
    found entry quarfiles = quarfiles ++ keep (λ name. is_some (find? name "File_")) entry

    detailed :
        (o : Option (List ℕ))
        → ((xs : List ℕ)
            → HasDefaultName
                (read_entries open_stream entries (some (bytearray_xor xs 0x6a)) quarfiles))
        → HasDefaultName (elim o [
          | none ↦ raised
          | some xs ↦ read_entries open_stream entries (some (bytearray_xor xs 0x6a)) quarfiles
        ])
    detailed none rest = tt
    detailed (some xs) rest = rest xs

    decoded :
        (xss : List (List ℕ))
        → HasDefaultName (read_entries open_stream entries details (found entry quarfiles))
        → HasDefaultName (elim xss [
          | [] ↦ read_entries open_stream entries details (found entry quarfiles)
          | xs ∷ _ ↦ store_decoded details xs
        ])
    decoded [] rest = rest
    decoded (xs ∷ xss) rest = store_decoded-HasDefaultName details xs

mcafee_unquarantine-HasDefaultName :
    (ole : Ole) (qdata : List ℕ) → HasDefaultName (mcafee_unquarantine ole qdata)
unfolding mcafee_unquarantine
mcafee_unquarantine-HasDefaultName ole qdata =
    elim (Bool-cases (ole.installed && ole.is_ole qdata)) [
      | inl e ↦ rw e (listed (ole.listdir qdata))
      | inr e ↦ rw e tt
    ]
  where
    listed :
        (o : Option (List (List String)))
        → HasDefaultName (elim o [
          | none ↦ raised
          | some entries ↦ read_entries (ole.stream qdata) entries none []
        ])
    listed none = tt
    listed (some entries) = read_entries-HasDefaultName (ole.stream qdata) entries none []
