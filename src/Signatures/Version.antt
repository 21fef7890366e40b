-- ===== src/Signatures/Version.antt =====
-- lib/cuckoo/core/plugins.py, `RunSignatures._check_signature_version`. `StrictVersion` of distutils is a
-- parameter: its parse, which may raise ValueError, and its order.
use capev.Base.{Bool, if◌then◌else◌, List, [], ◌∷◌, Option, none, some, ◌==◌, ℕ, true, false, not}

pub record StrictVersion (V : Type 0) : Type 0 where
  pub parse : List ℕ → Option V
  pub before : V → V → Bool

-- `text.split("-", 1)[0]`
unfoldable pub base_version : List ℕ → List ℕ
base_version [] = []
base_version (c ∷ cs) = let rest = c ∷ base_version cs in if c == 45 then [] else rest

module _ {V : Type 0} (v : StrictVersion V) where
  -- `StrictVersion(a) < StrictVersion(b)`; none where one of them raises ValueError.
  unfoldable pub is_older : Option V → Option V → Option Bool
  is_older none b = none
  is_older (some a) none = none
  is_older (some a) (some b) = some (v.before a b)

  -- A limit that is given is passed if the comparison raises no error and does not forbid it.
  abbrev pub permits : Option Bool → Bool
  permits none = false
  permits (some forbidden) = not forbidden

  unfoldable pub permits_minimum : List ℕ → Option (List ℕ) → Bool
  unfolding is_older base_version
  permits_minimum version none = true
  permits_minimum version (some []) = true
  permits_minimum version (some (c ∷ cs)) =
      permits (is_older (v.parse version) (v.parse (base_version (c ∷ cs))))

  unfoldable pub permits_maximum : List ℕ → Option (List ℕ) → Bool
  unfolding is_older base_version
  permits_maximum version none = true
  permits_maximum version (some []) = true
  permits_maximum version (some (c ∷ cs)) =
      permits (is_older (v.parse (base_version (c ∷ cs))) (v.parse version))

  unfoldable pub check_signature_version : List ℕ → Option (List ℕ) → Option (List ℕ) → Bool
  unfolding permits_minimum permits_maximum
  check_signature_version cuckoo_version minimum maximum =
      let version = base_version cuckoo_version in
      if permits_minimum version minimum then permits_maximum version maximum else false
