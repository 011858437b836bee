-- ===== src/Conformance/Examples/Checks.antt =====
-- The files of concrete trees, and the theorems about files and checks at concrete inputs.
use murmur_go.Common.{
  ℕ, ◌≡◌, ◌≢◌, refl, true, false, none, some, List, [], ◌∷◌, ◌++◌, All-append, ok, err,
}
use murmur_go.Cbor.Examples.{any, run_decode}
use murmur_go.Cbor.Order.{compare_bytes}
use murmur_go.ContentId.Examples.{toy_sum}
use murmur_go.Envelope.{check_map, gate_of, gate, sign}
use murmur_go.Envelope.Examples.{toy, eq_bytes_refl}
use murmur_go.Schema.Path.{codes}
use murmur_go.Conformance.Hex.{hex_encode, hex_decode, hex_digit, hex_value, hex_pair}
use murmur_go.Conformance.Examples.{reader, blank, content_vector, check-content_vector}
use murmur_go.Conformance.Vector.{
  Vector, from_hex, expect_hex, check_envelope_sign, check_envelope_verify, check,
}
use murmur_go.Conformance.Vector.Signed.{as_valid, check_envelope_verify-sign}
use murmur_go.Conformance.Vector.Exclusive.{addresses, check_exclusive}
use murmur_go.Conformance.Files.{ext_loop, ext, Visit, visit_all, files, not_read, not_parsed, load}
use murmur_go.Conformance.Files.Listed.{Listed, files-Listed}

ext_of_last : ext (codes "v.1/a.b.json") ≡ codes ".json"
unfolding ext ext_loop
ext_of_last = refl

ext_none : ext (codes "v.json/a") ≡ []
unfolding ext ext_loop
ext_none = refl

-- A directory, a vector, a text, a directory that cannot be read, and a vector behind it.
abbrev tree : List ℕ → List (Visit ℕ)
tree dir =
    record { path = dir; is_dir = true; failure = none }
    ∷ record { path = dir ++ codes "/a.json"; is_dir = false; failure = none }
    ∷ record { path = dir ++ codes "/b.md"; is_dir = false; failure = none }
    ∷ record { path = dir ++ codes "/c"; is_dir = true; failure = some 13 }
    ∷ record { path = dir ++ codes "/d.json"; is_dir = false; failure = none }
    ∷ []

files-tree : files tree (codes "v.json") ≡ (codes "v.json/a.json" ∷ [], some 13)
unfolding files visit_all ext ext_loop compare_bytes
files-tree = refl

files-Listed_example :
    Listed (tree (codes "v.json")) (files tree (codes "v.json")).0 (files tree (codes "v.json")).1
files-Listed_example = files-Listed tree (codes "v.json")

load_unparsed :
    load {E = ℕ} {F = ℕ} (λ path. ok path) (λ raw. err 7) (codes "a")
    ≡ err (not_parsed (codes "a") 7)
unfolding load
load_unparsed = refl

load_unread : load {E = ℕ} {F = ℕ} (λ path. err 2) (λ raw. ok blank) (codes "a") ≡ err (not_read 2)
unfolding load
load_unread = refl

-- The seed of 32 zeros over {1: 2}.
abbrev sign_vector : Vector
sign_vector = record blank {
  kind = codes "envelope-sign";
  seed = codes "0000000000000000000000000000000000000000000000000000000000000000";
  claims_cbor = codes "a10102";
  public_key = codes "0000000000000000000000000000000000000000000000000000000000000000";
  signature = codes "0000000000000000000000000000000000000000000000000000000000000000a10102";
}

check_envelope_sign-sign_vector : check_envelope_sign any toy sign_vector ≡ ok tt
unfolding check_envelope_sign from_hex expect_hex sign gate gate_of check_map run_decode hex_decode
    hex_pair hex_value hex_encode hex_digit compare_bytes
check_envelope_sign-sign_vector = refl

check_envelope_verify-sign_example : check_envelope_verify any toy (as_valid sign_vector) ≡ ok tt
check_envelope_verify-sign_example =
    check_envelope_verify-sign any toy (λ s h. h) (λ s m h. eq_bytes_refl (s ++ m)) (λ s h. h)
      (λ s m. All-append _ s m) sign_vector check_envelope_sign-sign_vector

-- The bytes of `content_vector` in upper-case hex, to be refused.
abbrev refusing_vector : Vector
refusing_vector = record blank {
  kind = codes "reject";
  bytes = codes "A10102";
  reason = codes "non-minimal";
}

from_hex_upper : from_hex (codes "A10102") ≡ from_hex (codes "a10102")
unfolding from_hex hex_decode hex_pair hex_value
from_hex_upper = refl

check_exclusive_example : check any reader toy_sum toy refusing_vector ≢ ok tt
check_exclusive_example =
    check_exclusive any reader toy_sum toy content_vector refusing_vector addresses refl
      from_hex_upper check-content_vector
