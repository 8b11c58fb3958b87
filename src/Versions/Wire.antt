-- ===== src/Versions/Wire.antt =====
-- The serializers of a version: its text, which is parsed when it is read.
mod Tests
use v8app.Base.{
  ℕ, ◌+◌, ◌^◌, ◌<◌, ◌≡◌, refl, sym, subst, Bool, true, false, Option, some, List, [], ◌∷◌, ◌++◌,
  arith, length, All, if◌then◌else◌, ◌>>=◌, if_false,
}
use v8app.Serialization.Buffer.{ReadBuffer, WriteBuffer, size_mod}
use v8app.Serialization.Buffer.Reads.{HasInput, HasInput-advance, advance}
use v8app.Serialization.Buffer.Writes.{ReadsBack, ReadsBack-HasInput}
use v8app.Serialization.Values.{write_string, read_string}
use v8app.Serialization.Values.Strings.{IsChar}
use v8app.Serialization.Values.RoundTrip.{
  wire_string, write_string_layout, read_string-HasInput, IsChar-IsByte,
}
use v8app.Versions.{VersionString, value_from}
use v8app.Versions.Parse.{Matches, regex_match, set_version_string}
use v8app.Versions.Parse.RoundTrip.{set_version_string-get}

unfoldable pub write_version : Bool → WriteBuffer → VersionString → Bool × WriteBuffer
write_version native b v = (true, write_string native b (v.version))

-- `none` is undefined behaviour, as in the string's own serializer.
unfoldable pub read_version :
    Bool → ℕ → ReadBuffer → VersionString → Option (Bool × VersionString × ReadBuffer)
read_version native junk r v = do
  (text, r') ← read_string native junk r []
  if r'.error then some (false, v, r') else some (true, (set_version_string text v).1, r')

-- A version whose text is a semantic version with numbers below 2^31 and was written on one platform is
-- read on any other, into any object, with the same text, if the reader has no error.
pub read_version-write_version :
    (native native' : Bool) (junk : ℕ) (b : WriteBuffer) (r : ReadBuffer) (v old : VersionString)
    (m : Matches) (rest : List ℕ)
    → regex_match v.version ≡ some m
    → value_from 0 m.major < 2 ^ 31
    → value_from 0 m.minor < 2 ^ 31
    → value_from 0 m.patch < 2 ^ 31
    → All (IsChar 1) v.version
    → length v.version + 1 < size_mod
    → r.error ≡ false
    → ReadsBack r b (write_version native b v).1 rest
    → (w : VersionString) × (r' : ReadBuffer) × (read_version native' junk r old
        ≡ some (true, w, r'))
      × (w.version ≡ v.version)
      × HasInput r' rest
unfolding write_version read_version advance
read_version-write_version native native' junk b r v old m rest e major minor patch chars fits ok
      h =
    (
      (set_version_string v.version old).1,
      advance r (length (wire_string r.stream_state.big_endian 1 v.version)),
      rw (read_string-HasInput native' junk r [] v.version rest chars fits front, ok) refl,
      (set_version_string-get v.version old m e major minor patch).1,
      HasInput-advance (wire_string r.stream_state.big_endian 1 v.version) rest front,
    )
  where
    front : HasInput r (wire_string r.stream_state.big_endian 1 v.version ++ rest)
    front =
        subst (λ o. HasInput r (wire_string o 1 v.version ++ rest)) (sym h.same_order)
          (ReadsBack-HasInput r b (wire_string b.stream_state.big_endian 1 v.version) rest
            (rw (write_string_layout native b v.version (IsChar-IsByte v.version chars) fits) at h))
