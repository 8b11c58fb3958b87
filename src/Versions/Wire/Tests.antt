-- ===== src/Versions/Wire/Tests.antt =====
-- A version written and read, and the theorem at a concrete input.
use v8app.Base.{◌≡◌, refl, true, false, some, none, [], ◌∷◌, arith, codes, pos}
use v8app.Serialization.Bytes.{object_bytes}
use v8app.Serialization.Swap.{swap_bytes}
use v8app.Serialization.Buffer.{ReadBuffer, WriteBuffer, serialize_write}
use v8app.Serialization.Buffer.Reads.{HasInput}
use v8app.Serialization.Buffer.Writes.{ReadsBack}
use v8app.Serialization.Values.{write_string, write_fixed}
use v8app.Versions.{VersionString, new_version, split, value_from}
use v8app.Versions.Parse.{Matches, regex_match, cut, core_matches, group_matches}
use v8app.Versions.Wire.{write_version, read_version, read_version-write_version}

abbrev v1 : VersionString
v1 = record new_version {
  version = codes "1.0.2";
  valid = true;
  major = pos 1;
  minor = pos 0;
  patch = pos 2;
}

abbrev parts : Matches
parts = record {
  major = codes "1";
  minor = codes "0";
  patch = codes "2";
  pre_release = none;
  build = none;
}

abbrev writer : WriteBuffer
writer = record {
  base = record {
    buffer = [];
    stream_state = record { reader = false; big_endian = false };
    error = false;
  };
}

abbrev reader : ReadBuffer
reader = record {
  base = record {
    buffer = 6 ∷ 0 ∷ 0 ∷ 0 ∷ 0 ∷ 0 ∷ 0 ∷ 0 ∷ b'1' ∷ b'.' ∷ b'0' ∷ b'.' ∷ b'2' ∷ 0 ∷ 7 ∷ [];
    stream_state = record { reader = false; big_endian = false };
    error = false;
  };
  read_pos = 0;
}

v1_match : regex_match v1.version ≡ some parts
unfolding regex_match cut core_matches group_matches split new_version
v1_match = refl

v1_back : ReadsBack reader writer (write_version true writer v1).1 (7 ∷ [])
unfolding write_version write_string write_fixed swap_bytes object_bytes serialize_write new_version
v1_back = record { same_order = refl; content = refl; stands = refl; fits = omega arith }

read_version-write_version_example :
    (w : VersionString) × (r' : ReadBuffer) × (read_version false 5 reader new_version
      ≡ some (true, w, r'))
    × (w.version ≡ v1.version)
    × HasInput r' (7 ∷ [])
unfolding value_from
read_version-write_version_example =
    read_version-write_version true false 5 writer reader v1 new_version parts (7 ∷ []) v1_match
      (omega arith) (omega arith) (omega arith) (omega arith) (omega arith) refl v1_back
